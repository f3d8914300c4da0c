-- ===== src/Audio/Capture/Sound.antt =====
-- What the operations of internal/audio/continuous_capture.go keep true of a session.
pub mod Calls
pub mod Reads
use xarlatan.Common.{
  ◌≤◌, ◌<◌, ◌≡◌, refl, sym, subst, inl, inr, Bool, true, false, Option, none, some, List, [], ◌∷◌,
  ◌++◌, arith, length, if◌then◌else◌, Bool-cases, All, ◌==◌,
}
use xarlatan.Common.Results.{Result, ok, err, ◌>>=◌, fail_if, ok_inj, >>=-eq-ok, fail_if-eq-ok}
use xarlatan.Common.Text.{Text}
use xarlatan.Audio.{Buffer}
use xarlatan.Audio.Preroll.{PreRollBuffer, new_pre_roll_buffer}
use xarlatan.Audio.Capture.{
  AudioConfig, ContinuousOptions, set_suppressed, reset_partials, flush_barge_candidates,
}
use xarlatan.Audio.Capture.Kept.{
  IsIdle, TrackedWhen, heard_of, IsQueued-other, start_over-IsIdle, start_over-IsOpen,
  read_chunk-IsTracked, IsIdle-append,
}
use xarlatan.Audio.Capture.Read.{Loop, first_loop, start_over}
use xarlatan.Audio.Capture.Source.{
  Session, Outcome, returned, failed, waits, Signal, cancelled, utterance_ready, source_failure,
  new_continuous_recorder, pcm_chunk_bytes, leave, take_from, fail_from, woken, suppress, forget,
  source_failed, read_failed, close, started, ensure_running, with_source, or_source, next,
  read_with, read, keep_first, first_error, stopped,
}
use xarlatan.Audio.Capture.Tracked.{IsQueued, IsPieceOf}
use xarlatan.Vad.{Detector}
use xarlatan.Vad.Contract.{IsDetector}
use xarlatan.Vad.Real.{Real}

-- The loop that runs, if any, is in step with what was heard.
abbrev pub InStep :
    {D F : Type 0}
    → Detector D F
    → (D → Type 0)
    → List (Option F)
    → D
    → PreRollBuffer F
    → Option (Loop F)
    → Type 0
InStep d Inv heard vad pre_roll none = Unit
InStep d Inv heard vad pre_roll (some l) =
    TrackedWhen d Inv heard l.was_suppressed vad pre_roll l.recording

-- A process is kept where one is running, and none after `Close`.
abbrev pub ProcessWhen : {P : Type 0} → Bool → Bool → Option P → Type 0
ProcessWhen running closed none = running ≡ false
ProcessWhen running closed (some p) = (running ≡ true) × (closed ≡ false)

pub record IsSound {D F P : Type 0} (d : Detector D F) (Inv : D → Type 0) (heard : List (Option F))
    (s : Session D F P) : Type 0 where
  pub idle : IsIdle Inv heard s.recorder
  pub loop : InStep d Inv heard s.recorder.vad s.recorder.pre_roll s.loop
  pub process : ProcessWhen s.running s.closed s.process
