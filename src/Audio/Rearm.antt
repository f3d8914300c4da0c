-- ===== src/Audio/Rearm.antt =====
-- `waitForStableSilence` of internal/audio/rearm.go: after playback the microphone is heard again once
-- it has been quiet for a while. The threshold is a number, and durations are nanoseconds.
pub mod Still
use xarlatan.Common.{
  ℕ, zero, suc, ◌+◌, ◌-◌, ◌*◌, ◌/◌, Bool, true, false, Option, none, some, List, [], ◌∷◌, leb, ltb,
  if◌then◌else◌,
}
use xarlatan.Common.Results.{Result, ok, err}
use xarlatan.Common.Text.{Text, codes}
use xarlatan.Audio.Single.{
  ReadFailure, end_of_audio, broken, CaptureError, bad_format, context, reading, Look,
}
use xarlatan.Audio.Capture.Source.{chunk_duration_ms, pcm_chunk_bytes}
use xarlatan.Tools.Executor.{ContextError}
use xarlatan.Vad.Real.{Real, rms}

-- `microphoneRearmGuard`, without the device and the cooldown.
pub record Guard (F : Type 0) : Type 0 where
  pub sample_rate : ℕ
  pub channels : ℕ
  pub threshold : F
  pub stable_silence : ℕ

abbrev pub chunk_duration : ℕ
chunk_duration = chunk_duration_ms * 1000000

unfoldable pub stable_chunks : {F : Type 0} → Guard F → ℕ
stable_chunks g =
    let n = (g.stable_silence + chunk_duration - 1) / chunk_duration in if ltb n 1 then 1 else n

abbrev pub Waited : Type 0
Waited = Option (Result CaptureError (Unit {0}))

-- The end of a turn of the loop; the last argument is what comes later.
unfoldable pub after_look : Option ReadFailure → Option ContextError → Waited → Waited
after_look none ended later = later
after_look (some failure) (some e) later = some (err (context e))
after_look (some end_of_audio) none later =
    some (err (reading (codes "audio ended before stable silence")))
after_look (some (broken e)) none later = some (err (reading e))

abbrev pub unless_over : Option ContextError → Waited → Waited
unless_over none read = read
unless_over (some e) read = some (err (context e))

module _ {F : Type 0} (o : Real F) where
  unfoldable pub quiet_threshold : F → F
  quiet_threshold threshold = if o.lt threshold o.zero then o.zero else threshold

  abbrev pub is_quiet : F → List F → Bool
  is_quiet threshold chunk = o.le (rms o chunk) threshold

  -- One chunk: `go_on` is the rest of the loop from a number of quiet chunks in a row on. A chunk
  -- without a complete frame counts for nothing.
  unfoldable pub count_quiet : ℕ → F → ℕ → List F → (ℕ → Waited) → Waited
  count_quiet stable threshold count [] go_on = go_on count
  count_quiet stable threshold count (x ∷ xs) go_on =
      let rest = go_on (count + 1) in
      let again = go_on 0 in
      if is_quiet threshold (x ∷ xs)
      then (if leb stable (count + 1) then some (ok tt) else rest)
      else again

  -- `none` where the loop still goes on.
  unfoldable pub wait_loop : ℕ → F → ℕ → List (Look F) → Waited
  unfolding count_quiet after_look
  wait_loop stable threshold count [] = none
  wait_loop stable threshold count (look ∷ looks) = unless_over look.ended (
      count_quiet stable threshold count look.samples
        (λ n. after_look look.failure look.ended_after (wait_loop stable threshold n looks)))

  unfoldable pub wait_checked : Result Text ℕ → Guard F → List (Look F) → Waited
  unfolding wait_loop stable_chunks quiet_threshold
  wait_checked (err e) g looks = some (err (bad_format e))
  wait_checked (ok bytes) g looks =
      wait_loop (stable_chunks g) (quiet_threshold g.threshold) 0 looks

  unfoldable pub wait_for_stable_silence : Guard F → List (Look F) → Waited
  unfolding wait_checked pcm_chunk_bytes
  wait_for_stable_silence g looks = wait_checked (pcm_chunk_bytes g.sample_rate g.channels) g looks
