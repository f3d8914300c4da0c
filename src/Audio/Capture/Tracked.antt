-- ===== src/Audio/Capture/Tracked.antt =====
-- What the loop of internal/audio/continuous_capture.go keeps true of its recording, its pre-roll and
-- its channels.
pub mod Published
use xarlatan.Common.{
  ◌*◌, ◌/◌, ◌≤◌, ◌<◌, ◌≡◌, refl, sym, ap, ◌∙◌, inl, inr, Bool, true, false, not, ◌||◌, Option, some,
  List, [], ◌∷◌, ◌++◌, arith, length, ltb, Bool-cases, All, All-imp,
}
use xarlatan.Common.Text.{is_empty}
use xarlatan.Audio.{Buffer, empty}
use xarlatan.Audio.Preroll.{PreRollBuffer, add, concat, start_recording, max_chunks-add}
use xarlatan.Audio.Preroll
use xarlatan.Audio.Capture.{
  BargeCandidate, Recorder, buffer_of, publish_utterance, publish_partial, publish_barge_candidate,
  maybe_publish_partial,
}
use xarlatan.Audio.Capture.Heard.{
  as_heard, EndsWith, IsPiece, EndsWith-nil, EndsWith-append, IsPiece-append, EndsWith-add,
}
use xarlatan.Audio.Capture.Read.{process_chunk}
use xarlatan.Audio.Capture.Read.Queues.{offer_latest-bound, offer_latest-All}
use xarlatan.Vad.{
  Event, voice_detected, silence_start, silence_progress, cut_by_silence, Detector, Verdict,
}
use xarlatan.Vad.Contract.{bracket, ends, as_count, IsDetector}
use xarlatan.Vad.Real.{Real}

abbrev pub IsPieceOf : {F : Type 0} → List (Option F) → Buffer F → Type 0
IsPieceOf heard b = IsPiece heard b.samples

-- The channels hold no more than they have room for, and of audio for a turn only pieces.
pub record IsQueued {D F : Type 0} (heard : List (Option F)) (r : Recorder D F) : Type 0 where
  pub room : 0 < r.queue_depth
  pub utterances : All (IsPieceOf heard) r.utterances
  pub partials : All (IsPieceOf heard) r.partials
  pub utterance_bound : length r.utterances ≤ r.queue_depth
  pub partial_bound : length r.partials ≤ 1
  pub candidate_bound : length r.barge_candidates ≤ 2

-- The recording, and where there is none the pre-roll, ends what was heard; while there is one the
-- detector is in speech, unless it has just said to finish.
pub record IsOpen {D F : Type 0} (d : Detector D F) (Inv : D → Type 0) (heard : List (Option F))
    (finish : Bool) (vad : D) (pre_roll : PreRollBuffer F) (recording : List F) : Type 0 where
  pub inv : Inv vad
  pub room : 0 < pre_roll.max_chunks
  pub recorded : EndsWith heard recording
  pub before : is_empty recording ≡ true → EndsWith heard (concat pre_roll.chunks)
  pub in_speech : finish ≡ false → is_empty recording ≡ false → d.is_speaking vad ≡ true

-- What a verdict says, beside the state before and after it.
pub record Agrees {D F : Type 0} (d : Detector D F) (Inv : D → Type 0) (vad vad' : D) (v : Verdict)
    : Type 0 where
  pub inv : Inv vad'
  pub goes_on : d.is_speaking vad ≡ true → v.is_speaking ≡ true
  pub speaks : v.is_speaking ≡ true → v.should_finish ≡ false → d.is_speaking vad' ≡ true

-- A step that leaves the detector and the pre-roll alone.
pub record Publishes {D F : Type 0} (heard : List (Option F)) (r r' : Recorder D F) : Type 0 where
  pub vad : r'.vad ≡ r.vad
  pub pre_roll : r'.pre_roll ≡ r.pre_roll
  pub queued : IsQueued heard r'

closed_once : (es : List Event) → bracket true es ≡ some false → 0 < ends es
closed_once [] h = absurd (cc)
closed_once (voice_detected ∷ es) h = absurd (cc)
closed_once (silence_start ∷ es) h = closed_once es h
closed_once (silence_progress ms ∷ es) h = closed_once es h
closed_once (cut_by_silence ms ∷ es) h = omega arith

module _ {D F : Type 0} (o : Real F) (d : Detector D F) {Inv : D → Type 0}
    (j : IsDetector d Inv) where
  pub Detector-Agrees :
      (vad : D) (x : F) (xs : List F)
      → Inv vad
      → Agrees d Inv vad (d.process_chunk vad (x ∷ xs)).0 (d.process_chunk vad (x ∷ xs)).1
  Detector-Agrees vad x xs h =
      let r = d.process_chunk vad (x ∷ xs) in
      let active = j.active vad (x ∷ xs) h (omega arith) in
      record {
        inv = j.keeps vad (x ∷ xs) h;
        goes_on = λ before. elim (Bool-cases r.1.is_speaking) [
          | inl speech ↦ speech
          | inr quiet ↦
              let over : d.is_speaking r.0 ≡ false = ground (arith, active, quiet) in
              let unfinished : r.1.should_finish ≡ false = ground (arith, active, quiet) in
              let once : 0 < ends r.1.events = closed_once r.1.events (
                ap (λ b. bracket b r.1.events) (sym before)
                ∙ j.bracketed vad (x ∷ xs) h
                ∙ ap some over) in
              let counted : ends r.1.events ≡ 0 =
                j.ended_once vad (x ∷ xs) h ∙ ap as_count unfinished in
              absurd (omega (arith, once, counted))
        ];
        speaks = λ speech unfinished. ground (arith, active, speech, unfinished);
      }

  pub process_chunk-IsOpen :
      (heard : List (Option F)) (vad vad' : D) (v : Verdict) (pre_roll : PreRollBuffer F)
      (recording : List F) (x : F) (xs : List F)
      → Agrees d Inv vad vad' v
      → IsOpen d Inv heard false vad pre_roll recording
      → IsOpen d Inv
          (heard ++ as_heard (x ∷ xs))
          (process_chunk pre_roll recording (x ∷ xs) v).2
          vad'
          (process_chunk pre_roll recording (x ∷ xs) v).0
          (process_chunk pre_roll recording (x ∷ xs) v).1
  unfolding process_chunk start_recording Preroll.reset concat
  process_chunk-IsOpen heard vad vad' v pre_roll [] x xs a h = elim (Bool-cases v.is_speaking) [
    | inl speech ↦
        rw (speech, process_chunk)
          (record {
            inv = a.inv;
            room = h.room;
            recorded = EndsWith-append heard (concat pre_roll.chunks) (x ∷ xs) (h.before refl);
            before = λ e. EndsWith-nil (heard ++ as_heard (x ∷ xs));
            in_speech = λ unfinished e. a.speaks speech unfinished;
          })
    | inr quiet ↦
        rw (quiet, process_chunk)
          (record {
            inv = a.inv;
            room = max_chunks-add pre_roll (x ∷ xs) h.room;
            recorded = EndsWith-nil (heard ++ as_heard (x ∷ xs));
            before = λ e. EndsWith-add heard pre_roll (x ∷ xs) h.room refl (h.before refl);
            in_speech = λ unfinished e. absurd (cc);
          })
  ]
  process_chunk-IsOpen heard vad vad' v pre_roll (y ∷ ys) x xs a h =
      let speech = a.goes_on (h.in_speech refl refl) in
      rw (speech, process_chunk)
        (record {
          inv = a.inv;
          room = h.room;
          recorded = EndsWith-append heard (y ∷ ys) (x ∷ xs) h.recorded;
          before = λ e. absurd (cc);
          in_speech = λ unfinished e. a.speaks speech unfinished;
        })
