-- ===== src/Vad/Energy/Lawful.antt =====
-- The energy detector of internal/vad/vad.go meets the contract of the interface.
use xarlatan.Common.{ℕ, ◌≡◌, refl, true, false, List, arith, length, some, ◌||◌}
use xarlatan.Vad.{Verdict}
use xarlatan.Vad.Contract.{IsDetector, bracket, ends, as_count, run, run_brackets}
use xarlatan.Vad.Real.{Real, rms}
use xarlatan.Vad.Energy.{
  State, silence, speaking, trailing_silence, Vad, reset, smooth, step, process_chunk, is_speaking,
  detector, new,
}

-- Outside an utterance no silence is counted.
abbrev pub Inv : {F : Type 0} → Vad F → Type 0
Inv v = v.state ≡ silence → v.silence_samples ≡ 0

-- The laws of one chunk, for the switch on the state.
record StepLaws {F : Type 0} (st : State) (v : Vad F) (r : Vad F × Verdict) : Type 0 where
  keeps : Inv r.0
  bracketed : bracket (is_speaking v) r.1.events ≡ some (is_speaking r.0)
  ended_once : ends r.1.events ≡ as_count r.1.should_finish
  finish_silent : r.1.should_finish ≡ true → is_speaking r.0 ≡ false
  active : r.1.is_speaking ≡ (is_speaking r.0 || r.1.should_finish)

module _ {F : Type 0} (o : Real F) where
  step_laws :
      (st : State) (v : Vad F) (raw : F) (n : ℕ)
      → v.state ≡ st
      → Inv v
      → StepLaws st v (step o st v raw n)
  unfolding step is_speaking
  step_laws silence v raw n e h = ground arith
  step_laws speaking v raw n e h = ground arith
  step_laws trailing_silence v raw n e h = ground arith

  chunk_laws :
      (v : Vad F) (xs : List F)
      → Inv v
      → StepLaws v.state (smooth o v (rms o xs)) (process_chunk o v xs)
  unfolding process_chunk
  chunk_laws v xs h =
      step_laws v.state (smooth o v (rms o xs)) (rms o xs) (length xs) (unfold smooth in refl)
        (unfold smooth in h)

  -- Every law of the contract holds of the energy detector, whatever the arithmetic.
  pub energy-IsDetector : IsDetector (detector o) Inv
  unfolding detector smooth reset
  energy-IsDetector = record {
    keeps = λ v xs h. (chunk_laws v xs h).keeps;
    keeps_reset = λ v h _. refl;
    reset_silent = λ v h. refl;
    bracketed = λ v xs h. (chunk_laws v xs h).bracketed;
    ended_once = λ v xs h. (chunk_laws v xs h).ended_once;
    finish_silent = λ v xs h. (chunk_laws v xs h).finish_silent;
    active = λ v xs h _. (chunk_laws v xs h).active;
  }

  -- A new energy detector over any stream of chunks, whatever the arithmetic and its settings: an
  -- utterance starts only outside one and ends only inside one, the state behind the stream tells
  -- whether one is open, and the capture is told to finish as often as an utterance ends.
  pub stream_brackets :
      (threshold release : F) (silence_duration sample_rate : ℕ) (xss : List (List F))
      → let r = run (detector o) (new o threshold release silence_duration sample_rate) xss in
        (bracket false r.1 ≡ some (is_speaking r.0)) × (ends r.1 ≡ r.2)
  unfolding detector new is_speaking
  stream_brackets threshold release silence_duration sample_rate xss =
      run_brackets (detector o) Inv energy-IsDetector
        (new o threshold release silence_duration sample_rate) xss (λ _. refl)
