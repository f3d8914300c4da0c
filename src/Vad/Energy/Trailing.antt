-- ===== src/Vad/Energy/Trailing.antt =====
-- The trailing silence of internal/vad/vad.go: when an utterance is cut.
use xarlatan.Common.{
  ℕ, ◌+◌, ◌≤◌, ◌<◌, ◌≡◌, Bool, true, false, ◌||◌, List, [], ◌∷◌, arith, length, Bool-cases, inl,
  inr,
}
use xarlatan.Vad.Real.{Real, rms}
use xarlatan.Vad.Energy.{silence, trailing_silence, Vad, reset, smooth, step, process_chunk}

module _ {F : Type 0} (o : Real F) where
  -- An utterance is cut only in trailing silence, when the average has stayed low and the silence is
  -- `maxSilence` samples long; the detector is then reset.
  pub cut_after_silence :
      (v : Vad F) (xs : List F)
      → (process_chunk o v xs).1.should_finish ≡ true
      → (v.state ≡ trailing_silence)
        × (v.max_silence ≤ v.silence_samples + length xs)
        × ((process_chunk o v xs).0.state ≡ silence)
        × ((process_chunk o v xs).0.silence_samples ≡ 0)
        × ((process_chunk o v xs).0.smoothed_energy ≡ o.zero)
  unfolding process_chunk smooth step reset
  cut_after_silence v xs h = ground arith

  -- Every chunk of the stream leaves the average at the release threshold or below.
  abbrev pub IsQuiet : Vad F → List (List F) → Type 0
  IsQuiet v [] = Unit
  IsQuiet v (xs ∷ xss) =
      (o.lt v.release_threshold (smooth o v (rms o xs)).smoothed_energy ≡ false)
      × IsQuiet (process_chunk o v xs).0 xss

  -- Some chunk of the stream cuts the utterance.
  abbrev pub cuts : Vad F → List (List F) → Bool
  cuts v [] = false
  cuts v (xs ∷ xss) = (process_chunk o v xs).1.should_finish || cuts (process_chunk o v xs).0 xss

  abbrev pub total : List (List F) → ℕ
  total [] = 0
  total (xs ∷ xss) = length xs + total xss

  quiet_step :
      (v : Vad F) (xs : List F)
      → v.state ≡ trailing_silence
      → o.lt v.release_threshold (smooth o v (rms o xs)).smoothed_energy ≡ false
      → (process_chunk o v xs).1.should_finish ≡ false
      → let v' = (process_chunk o v xs).0 in
        (v'.state ≡ trailing_silence)
        × (v'.silence_samples ≡ v.silence_samples + length xs)
        × (v'.max_silence ≡ v.max_silence)
        × (v.silence_samples + length xs < v.max_silence)
  unfolding process_chunk smooth step
  quiet_step v xs e q f = ground arith

  -- In trailing silence, quiet chunks of `maxSilence` samples in all, those counted before included,
  -- end the utterance.
  pub silence_cuts :
      (v : Vad F) (xss : List (List F))
      → v.state ≡ trailing_silence
      → v.silence_samples < v.max_silence
      → IsQuiet v xss
      → v.max_silence ≤ v.silence_samples + total xss
      → cuts v xss ≡ true
  silence_cuts v [] e s q h = absurd (omega arith)
  silence_cuts v (xs ∷ xss) e s (q, qs) h =
      elim (Bool-cases (process_chunk o v xs).1.should_finish) [
        | inl cut ↦ rw cut
        | inr on ↦
            let v' = (process_chunk o v xs).0 in
            let k = quiet_step v xs e q on in
            rw on (silence_cuts v' xss k.0 (omega (arith, k)) qs (omega (arith, k)))
      ]
