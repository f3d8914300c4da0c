-- ===== src/Audio/Single/Pieces.antt =====
-- What `recordFromReader` of internal/audio/capture.go returns.
use xarlatan.Common.{
  ℕ, ◌*◌, ◌/◌, ◌<◌, ◌≡◌, refl, sym, subst, inl, inr, Bool, true, false, Option, none, some, List,
  [], ◌∷◌, ◌++◌, append-nil, append_assoc, ltb, length, if◌then◌else◌, Bool-cases,
}
use xarlatan.Common.Results.{Result, ok, err}
use xarlatan.Common.Text.{Text}
use xarlatan.Audio.Preroll.{PreRollBuffer, concat}
use xarlatan.Audio.Preroll
use xarlatan.Audio.Capture.{AudioConfig}
use xarlatan.Audio.Capture.Heard.{as_heard, IsPiece, EndsWith-nil, EndsWith-IsPiece, IsPiece-append}
use xarlatan.Audio.Capture.Source.{pcm_chunk_bytes}
use xarlatan.Audio.Capture.Tracked.{IsOpen, Detector-Agrees, process_chunk-IsOpen}
use xarlatan.Tools.Executor.{ContextError}
use xarlatan.Vad.{Detector}
use xarlatan.Vad.Contract.{IsDetector}
use xarlatan.Vad.Real.{Real}
use xarlatan.Audio.Single.{
  ReadFailure, end_of_audio, broken, CaptureError, Look, Take, kept, heard, after_read,
  unless_ended, record_loop, record_checked, record_from_reader,
}

-- What the microphone yielded in all turns.
abbrev pub heard_in : {F : Type 0} → List (Look F) → List (Option F)
heard_in [] = []
heard_in (look ∷ looks) = as_heard look.samples ++ heard_in looks

abbrev pub IsPieceIn :
    {F : Type 0} → List (Option F) → Option (Result CaptureError (List F)) → Type 0
IsPieceIn all none = Unit
IsPieceIn all (some (err e)) = Unit
IsPieceIn all (some (ok samples)) = IsPiece all samples

module _ {D F : Type 0} (o : Real F) (d : Detector D F) {Inv : D → Type 0} (j : IsDetector d Inv)
    (cfg : AudioConfig) where
  kept-IsPiece :
      (all : List (Option F)) (recording : List F)
      → IsPiece all recording
      → IsPiece all (kept cfg recording)
  unfolding kept
  kept-IsPiece all recording h =
      elim (Bool-cases (ltb (length recording) (cfg.sample_rate * cfg.channels / 4))) [
        | inl short ↦ rw (short, kept) (EndsWith-IsPiece all [] (EndsWith-nil all))
        | inr long ↦ rw (long, kept) h
      ]

  after_read-IsPieceIn :
      (all : List (Option F)) (failure : Option ReadFailure) (ended : Option ContextError)
      (recording : List F) (later : Option (Result CaptureError (List F)))
      → IsPiece all recording
      → IsPieceIn all later
      → IsPieceIn all (after_read d cfg failure ended recording later)
  unfolding after_read
  after_read-IsPieceIn all none ended recording later h l = l
  after_read-IsPieceIn all (some failure) (some e) recording later h l = tt
  after_read-IsPieceIn all (some end_of_audio) none recording later h l =
      kept-IsPiece all recording h
  after_read-IsPieceIn all (some (broken e)) none recording later h l = tt

  -- One turn of the loop, of which the parts are known.
  turn-IsPieceIn :
      (all : List (Option F)) (late finish : Bool) (ended : Option ContextError)
      (before recording : List F) (read : Option (Result CaptureError (List F)))
      → IsPiece all before
      → IsPiece all recording
      → (finish ≡ false → IsPieceIn all read)
      → IsPieceIn all (
          if late
          then some (ok (kept cfg before))
          else unless_ended d cfg ended (if finish then some (ok (kept cfg recording)) else read))
  turn-IsPieceIn all true finish ended before recording read b h l = kept-IsPiece all before b
  turn-IsPieceIn all false finish (some e) before recording read b h l = tt
  turn-IsPieceIn all false true none before recording read b h l = kept-IsPiece all recording h
  turn-IsPieceIn all false false none before recording read b h l = l refl

  heard-IsOpen :
      (all : List (Option F)) (t : Take D F) (xs : List F)
      → IsOpen d Inv all false t.vad t.pre_roll t.recording
      → (let t' = heard d cfg t xs in
          IsOpen d Inv (all ++ as_heard xs) t'.finish t'.vad t'.pre_roll t'.recording)
  unfolding heard as_heard
  heard-IsOpen all t [] h =
      subst (λ s. IsOpen d Inv s false t.vad t.pre_roll t.recording) (sym (append-nil all)) h
  heard-IsOpen all t (x ∷ xs) h =
      let r = d.process_chunk t.vad (x ∷ xs) in
      process_chunk-IsOpen o d j all t.vad r.0 r.1 t.pre_roll t.recording x xs
        (Detector-Agrees o d j t.vad x xs h.inv) h

  record_loop-IsPieceIn :
      (all : List (Option F)) (t : Take D F) (looks : List (Look F))
      → IsOpen d Inv all false t.vad t.pre_roll t.recording
      → IsPieceIn (all ++ heard_in looks) (record_loop d cfg t looks)
  unfolding record_loop
  record_loop-IsPieceIn all t [] h = tt
  record_loop-IsPieceIn all t (look ∷ looks) h =
      let t' = heard d cfg t look.samples in
      let h' = heard-IsOpen all t look.samples h in
      let whole = all ++ (as_heard look.samples ++ heard_in looks) in
      let piece : IsPiece whole t'.recording =
        subst (λ s. IsPiece s t'.recording)
          (append_assoc all (as_heard look.samples) (heard_in looks))
          (IsPiece-append (all ++ as_heard look.samples) (heard_in looks) t'.recording
            (EndsWith-IsPiece (all ++ as_heard look.samples) t'.recording h'.recorded)) in
      let before : IsPiece whole t.recording =
        IsPiece-append all (as_heard look.samples ++ heard_in looks) t.recording
          (EndsWith-IsPiece all t.recording h.recorded) in
      turn-IsPieceIn whole look.late t'.finish look.ended t.recording t'.recording
        (after_read d cfg look.failure look.ended_after t'.recording (record_loop d cfg t' looks))
        before piece
        (λ unfinished.
          after_read-IsPieceIn whole look.failure look.ended_after t'.recording
            (record_loop d cfg t' looks) piece
            (subst (λ s. IsPieceIn s (record_loop d cfg t' looks))
              (append_assoc all (as_heard look.samples) (heard_in looks))
              (record_loop-IsPieceIn (all ++ as_heard look.samples) t' looks (
                subst
                  (λ b.
                    IsOpen d Inv (all ++ as_heard look.samples) b t'.vad t'.pre_roll t'.recording)
                  unfinished h'))))

  record_checked-IsPieceIn :
      (checked : Result Text ℕ) (vad : D) (pre_roll : PreRollBuffer F) (looks : List (Look F))
      → Inv vad
      → 0 < pre_roll.max_chunks
      → IsPieceIn (heard_in looks) (record_checked d cfg checked vad pre_roll looks)
  unfolding record_checked Preroll.reset concat
  record_checked-IsPieceIn (err e) vad pre_roll looks inv p = tt
  record_checked-IsPieceIn (ok bytes) vad pre_roll looks inv p =
      let nothing : List (Option F) = [] in
      record_loop-IsPieceIn nothing
        (record {
          vad = d.reset vad;
          pre_roll = Preroll.reset pre_roll;
          recording = [];
          finish = false;
        })
        looks
        (record {
          inv = j.keeps_reset vad inv;
          room = p;
          recorded = EndsWith-nil nothing;
          before = λ e. EndsWith-nil nothing;
          in_speech = λ unfinished e. absurd (cc);
        })

  -- With a detector that keeps the contract and a pre-roll with room for a chunk, what the
  -- recording until silence returns is an unbroken stretch of what the microphone yielded, the pre-
  -- roll included, or nothing.
  pub record_from_reader-IsPiece :
      (vad : D) (pre_roll : PreRollBuffer F) (looks : List (Look F)) {samples : List F}
      → Inv vad
      → 0 < pre_roll.max_chunks
      → record_from_reader d cfg vad pre_roll looks ≡ some (ok samples)
      → IsPiece (heard_in looks) samples
  unfolding record_from_reader
  record_from_reader-IsPiece vad pre_roll looks inv p e = subst (IsPieceIn (heard_in looks)) e (
      record_checked-IsPieceIn (pcm_chunk_bytes cfg.sample_rate cfg.channels) vad pre_roll looks inv
        p)
