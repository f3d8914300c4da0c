-- ===== src/Tests/Microphone.antt =====
-- One recording, and the wait for silence, on chunks of one sample.
use xarlatan.Common.{ℕ, ◌≡◌, refl, false, none, some, List, [], ◌∷◌, arith}
use xarlatan.Common.Results.{ok}
use xarlatan.Audio.Preroll.{PreRollBuffer}
use xarlatan.Audio.Single.{Look, record_from_reader}
use xarlatan.Audio.Single.Pieces.{heard_in, record_from_reader-IsPiece}
use xarlatan.Audio.Capture.Heard.{IsPiece}
use xarlatan.Audio.Rearm.{Guard, wait_for_stable_silence, stable_chunks, quiet_threshold}
use xarlatan.Audio.Rearm.Still.{IsStill, chunks_in, wait-IsStill}
use xarlatan.Tests.Capture.{quick, slow_audio}
use xarlatan.Vad.Energy
use xarlatan.Vad.Energy.Lawful.{energy-IsDetector}
use xarlatan.Vad.Real.{milli, rms}

abbrev look_at : ℕ → Look ℕ
look_at x = record {
  late = false;
  ended = none;
  samples = x ∷ [];
  failure = none;
  ended_after = none;
}

abbrev heard_looks : List (Look ℕ)
heard_looks = look_at 1 ∷ look_at 2 ∷ look_at 1000 ∷ look_at 3 ∷ look_at 4 ∷ []

abbrev one_before : PreRollBuffer ℕ
one_before = record { max_chunks = 1; chunks = [] }

recorded :
    record_from_reader (Energy.detector milli) slow_audio quick one_before heard_looks
    ≡ some (ok (2 ∷ 1000 ∷ 3 ∷ 4 ∷ []))
unfolding record_from_reader Energy.detector rms
recorded = refl

record_from_reader-IsPiece_example : IsPiece (heard_in heard_looks) (2 ∷ 1000 ∷ 3 ∷ 4 ∷ [])
record_from_reader-IsPiece_example =
    record_from_reader-IsPiece milli (Energy.detector milli) (energy-IsDetector milli) slow_audio
      quick one_before heard_looks (λ h. refl) (omega arith) recorded

-- Quiet for two chunks.
abbrev guard : Guard ℕ
guard = record { sample_rate = 1; channels = 1; threshold = 12; stable_silence = 160000000 }

abbrev quiet_looks : List (Look ℕ)
quiet_looks = look_at 1 ∷ look_at 1000 ∷ look_at 2 ∷ look_at 3 ∷ []

waited : wait_for_stable_silence milli guard quiet_looks ≡ some (ok tt)
unfolding wait_for_stable_silence rms
waited = refl

wait-IsStill_example :
    IsStill milli
      (quiet_threshold milli guard.threshold)
      (stable_chunks guard)
      (chunks_in quiet_looks)
wait-IsStill_example = wait-IsStill milli guard quiet_looks waited
