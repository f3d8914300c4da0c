-- ===== src/Vad/Energy.antt =====
-- internal/vad/vad.go: the energy detector. Sample counts are natural numbers, and `sample_rate` is
-- taken to be positive where milliseconds are computed (the source would fault on 0).
pub mod Lawful
pub mod Trailing
use xarlatan.Common.{
  ℕ, ◌+◌, ◌*◌, ◌/◌, ◌≤◌, ◌<◌, ◌≡◌, refl, ◌⊎◌, inl, inr, Bool, true, false, not, List, [], ◌∷◌,
  arith, ltb, leb, if◌then◌else◌, length, Option, none, some,
}
use xarlatan.Vad.{
  Event, voice_detected, silence_start, silence_progress, cut_by_silence, Verdict, Detector,
}
use xarlatan.Vad.Real.{Real, rms}

pub data State : Type 0 where
  silence speaking trailing_silence : State

pub record Vad (F : Type 0) : Type 0 where
  pub threshold : F
  pub release_threshold : F
  pub silence_duration : ℕ
  pub sample_rate : ℕ
  pub ema_alpha : F
  pub smoothed_energy : F
  pub state : State
  pub silence_samples : ℕ
  pub max_silence : ℕ

unfoldable pub is_speaking : {F : Type 0} → Vad F → Bool
is_speaking v = elim v.state [ silence ↦ false | _ ↦ true ]

module _ {F : Type 0} (o : Real F) where
  -- The two clamps of the release threshold in `New`.
  unfoldable pub clamp_release : F → F → F
  clamp_release threshold release =
      let at_least_zero = if o.lt release o.zero then o.zero else release in
      if o.lt threshold at_least_zero then threshold else at_least_zero

  unfoldable pub new : F → F → ℕ → ℕ → Vad F
  unfolding clamp_release
  new threshold release silence_duration sample_rate = record {
    threshold = threshold;
    release_threshold = clamp_release threshold release;
    silence_duration = silence_duration;
    sample_rate = sample_rate;
    ema_alpha = o.decimal 25 2;
    smoothed_energy = o.zero;
    state = silence;
    silence_samples = 0;
    max_silence = o.truncate (o.mul (o.seconds silence_duration) (o.of_ℕ sample_rate));
  }

  unfoldable pub reset : Vad F → Vad F
  reset v = record v { state = silence; silence_samples = 0; smoothed_energy = o.zero }

  -- The exponential average that `ProcessChunk` updates first.
  unfoldable pub smooth : Vad F → F → Vad F
  smooth v raw = record v {
    smoothed_energy =
        o.add (o.mul v.ema_alpha raw) (o.mul (o.sub (o.of_ℕ 1) v.ema_alpha) v.smoothed_energy);
  }

  -- The switch on the state, after the average has been updated.
  unfoldable pub step : State → Vad F → F → ℕ → Vad F × Verdict
  unfolding reset
  step silence v raw n =
      if o.lt v.threshold raw
      then (
        record v { state = speaking; silence_samples = 0 },
        record { events = voice_detected ∷ []; is_speaking = true; should_finish = false },
      )
      else (v, record { events = []; is_speaking = false; should_finish = false })
  step speaking v raw n =
      if o.le v.smoothed_energy v.release_threshold
      then (
        record v { state = trailing_silence; silence_samples = n },
        record { events = silence_start ∷ []; is_speaking = true; should_finish = false },
      )
      else (v, record { events = []; is_speaking = true; should_finish = false })
  step trailing_silence v raw n =
      let total = v.silence_samples + n in
      let silence_ms = total * 1000 / v.sample_rate in
      let counted = record v { silence_samples = total } in
      if o.lt v.release_threshold v.smoothed_energy
      then (
        record v { state = speaking; silence_samples = 0 },
        record { events = []; is_speaking = true; should_finish = false },
      )
      else if leb v.max_silence total
      then (
        reset counted,
        record {
          events = cut_by_silence silence_ms ∷ [];
          is_speaking = true;
          should_finish = true;
        },
      )
      else (
        counted,
        record {
          events = silence_progress silence_ms ∷ [];
          is_speaking = true;
          should_finish = false;
        },
      )

  unfoldable pub process_chunk : Vad F → List F → Vad F × Verdict
  unfolding smooth step
  process_chunk v samples =
      let raw = rms o samples in step v.state (smooth v raw) raw (length samples)

  -- The energy detector as an implementation of the interface.
  unfoldable pub detector : Detector (Vad F) F
  unfolding process_chunk is_speaking
  detector = record { process_chunk = process_chunk; reset = reset; is_speaking = is_speaking }
