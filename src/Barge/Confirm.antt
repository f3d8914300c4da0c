-- ===== src/Barge/Confirm.antt =====
-- When `Confirm` of internal/barge/policy.go lets a transcript interrupt.
use mathlib.Core.List.{Memᴰ}
use xarlatan.Common.{
  ◌≡◌, refl, sym, true, Option, some, List, [], ◌∷◌, arith, Bool-cases, Option-cases, inl, inr,
}
use xarlatan.Common.Text.{Text, text_eq, text_eq_iff}
use xarlatan.Unicode.{Unicode, IsRegular}
use xarlatan.Wake.{PhraseDetector, detect, tokenize}
use xarlatan.Wake
use xarlatan.Wake.Match.{Addressed, detect_sound}
use xarlatan.Barge.Agree.{normalized_words_agree}
use xarlatan.Barge.{explicit_stops, listed, opens_with_stop, confirm}

listed_sound : (ws : List Text) (word : Text) → listed ws word ≡ true → Memᴰ word ws
unfolding listed
listed_sound [] word h = absurd (cc)
listed_sound (w ∷ ws) word h = elim (Bool-cases (text_eq w word)) [
  | inl same ↦ Memᴰ.head (sym ((text_eq_iff w word).0 same))
  | inr other ↦ Memᴰ.tail (listed_sound ws word (ground (arith, other)))
]

listed_complete : (word : Text) (ws : List Text) → Memᴰ word ws → listed ws word ≡ true
unfolding listed
listed_complete word ws (Memᴰ.head {x = w} e) = rw ((text_eq_iff w word).1 (sym e))
listed_complete word ws (Memᴰ.tail {xs = rest} m) = rw (listed_complete word rest m) (ground arith)

-- The words begin with one of the listed stop words.
abbrev pub IsStop : List Text → Type 0
IsStop words = (stop : Text) × (rest : List Text) × (words ≡ stop ∷ rest) × Memᴰ stop explicit_stops

opens_with_stop_sound : (words : List Text) → opens_with_stop words ≡ true → IsStop words
unfolding opens_with_stop
opens_with_stop_sound [] h = absurd (cc)
opens_with_stop_sound (w ∷ ws) h = (w, ws, refl, listed_sound explicit_stops w h)

-- Only a transcript in which a wake phrase addresses the assistant, and whose command begins with a
-- stop word, interrupts.
pub confirm_sound :
    (u : Unicode) (g : IsRegular u) (d : PhraseDetector) (transcript : Text)
    → confirm u (some (detect u d)) transcript ≡ true
    → (command : Text) × Addressed d.phrases transcript (tokenize u transcript) command
      × IsStop (Wake.normalized_words u command)
unfolding confirm
confirm_sound u g d transcript h = elim (Option-cases (detect u d transcript)) [
  | inl silent ↦ absurd (ground (arith, silent))
  | inr (command, heard) ↦ (
    command,
    detect_sound u d transcript command heard,
    opens_with_stop_sound (Wake.normalized_words u command)
        (rw (← normalized_words_agree u g command) (ground (arith, heard))),
  )
]

-- Where the matcher finds a command, and the first of its normalized words is a stop word, the
-- transcript interrupts.
pub confirm_complete :
    (u : Unicode) (g : IsRegular u) (detector : Text → Option Text) (transcript command stop : Text)
    (rest : List Text)
    → detector transcript ≡ some command
    → Wake.normalized_words u command ≡ stop ∷ rest
    → Memᴰ stop explicit_stops
    → confirm u (some detector) transcript ≡ true
unfolding confirm opens_with_stop
confirm_complete u g detector transcript command stop rest heard words m =
    rw (heard, confirm, normalized_words_agree u g command, words)
      (listed_complete stop explicit_stops m)
