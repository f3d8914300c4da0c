-- ===== src/Tests/Text.antt =====
-- The phrases, the wake phrase, the stop words and the transcript filter on small texts.
use mathlib.Core.List.{Memᴰ}
use xarlatan.Common.{◌≡◌, ◌≢◌, ◌⊎◌, refl, inl, true, some, List, [], ◌∷◌, ◌++◌, arith, All}
use xarlatan.Common.Text.{Text, codes, is_space, solid, trim_space, trim_left, trim_right, text_eq}
use xarlatan.Unicode.{is_word, fold_accent, latin, latin-IsRegular}
use xarlatan.Phrases.{
  SentenceBuffer, new_sentence_buffer, is_terminator, boundary, take_loop, push, flush,
}
use xarlatan.Phrases.Loop.{IsSettled, take_loop_done, new_sentence_buffer-IsSettled, push-IsSettled}
use xarlatan.Phrases.Content.{spoken, push_all, concat, spoken_stream}
use xarlatan.Phrases.Caps.{Fits, push-Fits}
use xarlatan.Wake.{PhraseDetector, tokenize, normalized_words, detect, new_phrase_detector}
use xarlatan.Wake
use xarlatan.Wake.Match.{IsAddress, Addressed, detect_sound, detect_complete}
use xarlatan.Wake.Compile.{phrase_alone_wakes}
use xarlatan.Barge.{explicit_stops, confirm}
use xarlatan.Barge
use xarlatan.Barge.Agree.{normalized_words_agree}
use xarlatan.Barge.Confirm.{IsStop, confirm_sound, confirm_complete}
use xarlatan.Stt.{
  filter_transcript, IsRemark, filter_transcript_idem, filter_transcript_iff,
  filter_transcript_marker,
}

abbrev deltas : List Text
deltas = codes "Ho" ∷ codes "la. ¿Qué" ∷ codes " tal?" ∷ codes " Bien" ∷ []

push_runs : (push (codes "Uno. Dos") new_sentence_buffer).0 ≡ codes "Uno." ∷ []
unfolding push new_sentence_buffer boundary is_terminator trim_space trim_left trim_right is_space
push_runs = refl

spoken_stream_example :
    let r = push_all deltas new_sentence_buffer in
    spoken (r.0 ++ (flush r.1).0) ≡ solid (codes "Hola. ¿Qué tal? Bien")
unfolding concat
spoken_stream_example = spoken_stream deltas

push-IsSettled_example : IsSettled (push (codes "Uno. Dos") new_sentence_buffer).1
push-IsSettled_example =
    push-IsSettled (codes "Uno. Dos") new_sentence_buffer new_sentence_buffer-IsSettled

abbrev unfinished : SentenceBuffer
unfinished = record { pending = codes "Uno. Dos"; max_runes = 180 }

take_loop_done_example : boundary (take_loop 8 [] unfinished).1 ≡ 0
take_loop_done_example = take_loop_done 8 [] unfinished (omega arith)

push-Fits_example :
    All (Fits new_sentence_buffer.max_runes) (push (codes "Dos y") new_sentence_buffer).0
unfolding is_terminator
push-Fits_example =
    push-Fits (codes "Dos y") new_sentence_buffer new_sentence_buffer-IsSettled
      (refl, (refl, (refl, (refl, (refl, tt)))))

abbrev xarlatan_detector : PhraseDetector
xarlatan_detector = record {
  phrases = (codes "xarlatan" ∷ []) ∷ (codes "oye" ∷ codes "charlatan" ∷ []) ∷ [];
}

abbrev heard : Text
heard = codes "Xarlatán, para ya"

new_phrase_detector_runs :
    new_phrase_detector latin (codes "Xarlatán") (codes "oye charlatan" ∷ codes "XARLATAN" ∷ [])
    ≡ some xarlatan_detector
unfolding new_phrase_detector tokenize is_word fold_accent normalized_words Wake.normalize_word
    Wake.join Wake.seen_key text_eq
new_phrase_detector_runs = refl

detect_runs : detect latin xarlatan_detector heard ≡ some (codes "para ya")
unfolding detect is_word fold_accent Wake.normalize_word Wake.accepts Wake.command_of text_eq
detect_runs = refl

detect_sound_example :
    Addressed xarlatan_detector.phrases heard (tokenize latin heard) (codes "para ya")
detect_sound_example = detect_sound latin xarlatan_detector heard (codes "para ya") detect_runs

heard-IsAddress : IsAddress (tokenize latin heard) (codes "xarlatan" ∷ []) 0
unfolding tokenize is_word fold_accent Wake.normalize_word
heard-IsAddress = record { inside = omega arith; stands = refl; placed = inl (omega arith) }

detect_complete_example : (c : Text) × (detect latin xarlatan_detector heard ≡ some c)
detect_complete_example =
    detect_complete latin xarlatan_detector heard 0 (Memᴰ.head refl) heard-IsAddress

phrase_alone_wakes_example :
    (c : Text) × (detect latin xarlatan_detector (codes "XARLATAN") ≡ some c)
phrase_alone_wakes_example =
    phrase_alone_wakes latin latin-IsRegular (unfold is_word in refl) (codes "Xarlatán")
      (codes "oye charlatan" ∷ codes "XARLATAN" ∷ []) xarlatan_detector (codes "XARLATAN")
      new_phrase_detector_runs (Memᴰ.tail (Memᴰ.tail (Memᴰ.head refl)))

normalized_words_agree_example :
    Barge.normalized_words latin (codes "¡Detén ya!")
    ≡ Wake.normalized_words latin (codes "¡Detén ya!")
normalized_words_agree_example = normalized_words_agree latin latin-IsRegular (codes "¡Detén ya!")

confirm_runs : confirm latin (some (detect latin xarlatan_detector)) heard ≡ true
unfolding confirm detect is_word fold_accent Wake.normalize_word Wake.accepts Wake.command_of
    text_eq
confirm_runs = refl

confirm_sound_example :
    (command : Text) × Addressed xarlatan_detector.phrases heard (tokenize latin heard) command
    × IsStop (Wake.normalized_words latin command)
confirm_sound_example = confirm_sound latin latin-IsRegular xarlatan_detector heard confirm_runs

confirm_complete_example : confirm latin (some (detect latin xarlatan_detector)) heard ≡ true
unfolding normalized_words is_word fold_accent Wake.normalize_word
confirm_complete_example =
    confirm_complete latin latin-IsRegular (detect latin xarlatan_detector) heard (codes "para ya")
      (codes "para") (codes "ya" ∷ []) detect_runs refl (Memᴰ.head refl)

filter_transcript_idem_runs :
    filter_transcript (filter_transcript (codes " hola ")) ≡ filter_transcript (codes " hola ")
filter_transcript_idem_runs = filter_transcript_idem (codes " hola ")

filter_transcript_iff_example :
    ((filter_transcript (codes " (music) ") ≡ [])
      × ((trim_space (codes " (music) ") ≡ []) ⊎ IsRemark (trim_space (codes " (music) "))))
    ⊎ ((filter_transcript (codes " (music) ") ≡ trim_space (codes " (music) "))
        × (trim_space (codes " (music) ") ≢ [])
        × ¬ IsRemark (trim_space (codes " (music) ")))
filter_transcript_iff_example = filter_transcript_iff (codes " (music) ")

filter_transcript_marker_runs : filter_transcript (codes "[musica]") ≡ []
filter_transcript_marker_runs =
    filter_transcript_marker b'[' b']' (codes "musica") (inl (refl, refl)) (omega arith)
