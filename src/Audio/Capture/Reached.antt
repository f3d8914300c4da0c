-- ===== src/Audio/Capture/Reached.antt =====
-- Every session of the recorder of internal/audio/continuous_capture.go, with what was heard in it.
use xarlatan.Common.{
  ◌≤◌, ◌≡◌, subst, Bool, true, Option, none, some, List, [], ◌∷◌, ◌++◌, length, All,
}
use xarlatan.Common.Results.{Result, ok, err}
use xarlatan.Common.Text.{Text}
use xarlatan.Audio.{Buffer}
use xarlatan.Audio.Capture.{AudioConfig, ContinuousOptions, reset_partials}
use xarlatan.Audio.Capture.Heard.{IsPiece}
use xarlatan.Audio.Capture.Kept.{heard_of}
use xarlatan.Audio.Capture.Read.{Loop}
use xarlatan.Audio.Capture.Source.{
  Session, Outcome, returned, failed, waits, Signal, cancelled, utterance_ready, source_failure,
  new_continuous_recorder, take_from, fail_from, woken, suppress, read_failed, close,
  ensure_running, with_source, or_source, next, read,
}
use xarlatan.Audio.Capture.Tracked.{IsPieceOf}
use xarlatan.Vad.{Detector}
use xarlatan.Vad.Contract.{IsDetector}
use xarlatan.Vad.Real.{Real}
use xarlatan.Audio.Capture.Sound.{ProcessWhen, IsSound}
use xarlatan.Audio.Capture.Sound.Calls.{next-IsSound, woken-IsSound}
use xarlatan.Audio.Capture.Sound.Reads.{
  made-IsSound, read-IsSound, read_failed-IsSound, suppress-IsSound, close-IsSound,
}

module _ {D F P : Type 0} (o : Real F) (d : Detector D F) (start : AudioConfig → Result Text P)
    (same : P → P → Bool) (stop : P → Option Text) (Inv : D → Type 0) where
  -- A read that fails leaves a gap in what was heard.
  pub data Reached : Session D F P → List (Option F) → Type 0 where
    made :
        (cfg : AudioConfig) (detector : D) (options : ContinuousOptions) (s : Session D F P)
        → new_continuous_recorder cfg detector options ≡ ok s
        → Inv detector
        → Reached s []
    asked :
        {s : Session D F P} {heard : List (Option F)} (ctx_err : Option Text)
        → Reached s heard
        → Reached (next o d start ctx_err s).0 heard
    woke :
        {s : Session D F P} {heard : List (Option F)} (signal : Signal)
        → Reached s heard
        → Reached (woken s signal).0 heard
    was_read :
        {s : Session D F P} {heard : List (Option F)} (l : Loop F) (chunk : List F)
        → s.loop ≡ some l
        → Reached s heard
        → Reached (read o d start s chunk) (heard ++ heard_of s.recorder.suppressed chunk)
    broke :
        {s : Session D F P} {heard : List (Option F)} (process : P) (error : Text)
        → Reached s heard
        → Reached (read_failed same s process error) (heard ++ none ∷ [])
    switched :
        {s : Session D F P} {heard : List (Option F)} (suppressed : Bool)
        → Reached s heard
        → Reached (suppress s suppressed) heard
    was_closed :
        {s : Session D F P} {heard : List (Option F)} (detector_close : Option Text)
        → Reached s heard
        → Reached (close stop detector_close s).0 heard

module _ {D F P : Type 0} (o : Real F) (d : Detector D F)
    (start : AudioConfig → Result Text P) where
  -- A call of `Next` returns the buffer, at once or after it has waited.
  pub data Returns (s : Session D F P) (b : Buffer F) : Type 0 where
    at_once : (ctx_err : Option Text) → (next o d start ctx_err s).1 ≡ returned b → Returns s b
    later : (signal : Signal) → (woken s signal).1 ≡ returned b → Returns s b

module _ {D F P : Type 0} (o : Real F) (d : Detector D F) {Inv : D → Type 0}
    (j : IsDetector d Inv) where
  Reached-IsSound :
      (start : AudioConfig → Result Text P) (same : P → P → Bool) (stop : P → Option Text)
      {heard : List (Option F)} {s : Session D F P}
      → Reached o d start same stop Inv s heard
      → IsSound d Inv heard s
  Reached-IsSound start same stop (made cfg detector options s e inv) =
      made-IsSound o d j cfg detector options s e inv
  Reached-IsSound start same stop (asked {s = s} {heard = heard} ctx_err r) =
      next-IsSound o d j start heard ctx_err s (Reached-IsSound start same stop r)
  Reached-IsSound start same stop (woke {s = s} {heard = heard} signal r) =
      woken-IsSound o d j heard s signal (Reached-IsSound start same stop r)
  Reached-IsSound start same stop (was_read {s = s} {heard = heard} l chunk e r) =
      read-IsSound o d j start heard s l chunk e (Reached-IsSound start same stop r)
  Reached-IsSound start same stop (broke {s = s} {heard = heard} process error r) =
      read_failed-IsSound o d j same heard s process error (Reached-IsSound start same stop r)
  Reached-IsSound start same stop (switched {s = s} {heard = heard} suppressed r) =
      suppress-IsSound o d j heard s suppressed (Reached-IsSound start same stop r)
  Reached-IsSound start same stop (was_closed {s = s} {heard = heard} detector_close r) =
      close-IsSound o d j stop heard s detector_close (Reached-IsSound start same stop r)

  take_from-IsPiece :
      (heard : List (Option F)) (s : Session D F P) (queue : List (Buffer F)) (b : Buffer F)
      → All (IsPieceOf heard) queue
      → (take_from s queue).1 ≡ returned b
      → IsPiece heard b.samples
  unfolding take_from
  take_from-IsPiece heard s [] b h e = absurd (cc)
  take_from-IsPiece heard s (b0 ∷ queue) b h e =
      let same_buffer : b0 ≡ b = cc in subst (IsPieceOf heard) same_buffer h.0

  fail_from-none :
      (s : Session D F P) (error : Option Text) (b : Buffer F)
      → ¬ ((fail_from s error).1 ≡ returned b)
  unfolding fail_from
  fail_from-none s none b e = absurd (cc)
  fail_from-none s (some x) b e = absurd (cc)

  with_source-none :
      (start : AudioConfig → Result Text P) (s : Session D F P) (r : Result Text (Session D F P))
      (b : Buffer F)
      → ¬ ((with_source o d start s r).1 ≡ returned b)
  unfolding with_source
  with_source-none start s (err x) b e = absurd (cc)
  with_source-none start s (ok s') b e = absurd (cc)

  or_source-returned :
      (start : AudioConfig → Result Text P) (r : Session D F P × Outcome F) (b : Buffer F)
      → (or_source o d start r).1 ≡ returned b
      → r.1 ≡ returned b
  unfolding or_source
  or_source-returned start (s, waits) b e =
      absurd (with_source-none start s (ensure_running o d start s) b e)
  or_source-returned start (s, returned c) b e = e
  or_source-returned start (s, failed x) b e = e

  woken-IsPiece :
      (heard : List (Option F)) (s : Session D F P) (signal : Signal) (b : Buffer F)
      → All (IsPieceOf heard) s.recorder.utterances
      → (woken s signal).1 ≡ returned b
      → IsPiece heard b.samples
  unfolding woken
  woken-IsPiece heard s (cancelled x) b h e = absurd (cc)
  woken-IsPiece heard s utterance_ready b h e =
      take_from-IsPiece heard s s.recorder.utterances b h e
  woken-IsPiece heard s source_failure b h e = absurd (fail_from-none s s.source_err b e)

  next-IsPiece :
      (start : AudioConfig → Result Text P) (heard : List (Option F)) (s : Session D F P)
      (ctx_err : Option Text) (b : Buffer F)
      → All (IsPieceOf heard) s.recorder.utterances
      → (next o d start ctx_err s).1 ≡ returned b
      → IsPiece heard b.samples
  unfolding next reset_partials
  next-IsPiece start heard s (some x) b h e = absurd (cc)
  next-IsPiece start heard s none b h e =
      let s' : Session D F P = record s {
        recorder = record s.recorder { partials = []; waiting = true };
      } in
      take_from-IsPiece heard s' s.recorder.utterances b h
        (or_source-returned start (take_from s' s.recorder.utterances) b e)

  -- In any session of a recorder whose detector keeps the contract, every buffer that `Next` returns
  -- is an unbroken stretch of what the microphone yielded, pre-roll included: no sample is lost,
  -- repeated or moved in it, none was heard while the assistant spoke, and no failed read lies in it.
  pub Returns-IsPiece :
      (start : AudioConfig → Result Text P) (same : P → P → Bool) (stop : P → Option Text)
      {heard : List (Option F)} {s : Session D F P} {b : Buffer F}
      → Reached o d start same stop Inv s heard
      → Returns o d start s b
      → IsPiece heard b.samples
  Returns-IsPiece start same stop {heard = heard} {s = s} {b = b} r (at_once ctx_err e) =
      next-IsPiece start heard s ctx_err b
        (Reached-IsSound start same stop r).idle.queued.utterances e
  Returns-IsPiece start same stop {heard = heard} {s = s} {b = b} r (later signal e) =
      woken-IsPiece heard s signal b (Reached-IsSound start same stop r).idle.queued.utterances e

  -- In any session of a recorder whose detector keeps the contract, the channels hold at most the
  -- configured number of utterances, one preview and two candidates; a process is kept exactly where one
  -- is marked as running, and none after `Close`.
  pub Reached-bounds :
      (start : AudioConfig → Result Text P) (same : P → P → Bool) (stop : P → Option Text)
      {heard : List (Option F)} {s : Session D F P}
      → Reached o d start same stop Inv s heard
      → (length s.recorder.utterances ≤ s.recorder.queue_depth)
        × (length s.recorder.partials ≤ 1)
        × (length s.recorder.barge_candidates ≤ 2)
        × ProcessWhen s.running s.closed s.process
  Reached-bounds start same stop r =
      let h = Reached-IsSound start same stop r in
      (
        h.idle.queued.utterance_bound, h.idle.queued.partial_bound, h.idle.queued.candidate_bound,
        h.process,
      )
