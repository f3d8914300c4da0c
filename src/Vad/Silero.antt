-- ===== src/Vad/Silero.antt =====
-- internal/vad/sherpa/silero.go: the adapter of the native detector. The native library is the
-- interface `backend` of the source, a record of operations on its states. A nil receiver is not
-- modelled, and the lock is not needed in a model where calls follow one another.
pub mod Lawful
use xarlatan.Common.{
  ℕ, ◌≡◌, refl, Bool, true, false, not, ◌&&◌, ◌||◌, Option, none, some, List, [], ◌∷◌, ◌++◌, arith,
  if◌then◌else◌,
}
use xarlatan.Common.Text.{is_empty}
use xarlatan.Vad.{Event, voice_detected, cut_by_silence, Verdict}
use xarlatan.Vad

pub record Backend (B S : Type 0) : Type 0 where
  pub accept_waveform : B → List S → B
  pub is_speech : B → Bool
  pub is_empty : B → Bool
  pub pop : B → B
  pub clear : B → B

pub record Detector (B : Type 0) : Type 0 where
  pub backend : Option B
  pub speaking : Bool
  pub closed : Bool

abbrev pub idle : Verdict
idle = record { events = []; is_speaking = false; should_finish = false }

unfoldable pub is_speaking : {B : Type 0} → Detector B → Bool
is_speaking d = not d.closed && d.speaking

-- `Close`; the result says whether the native detector is released by this call.
unfoldable pub close : {B : Type 0} → Detector B → Detector B × Bool
close d = if d.closed then (d, false) else (
  record { backend = none; speaking = false; closed = true },
  elim d.backend [ none ↦ false | some b ↦ true ],
)

module _ {B S : Type 0} (k : Backend B S) where
  unfoldable pub new_with_backend : B → Detector B
  new_with_backend b = record { backend = some b; speaking = false; closed = false }

  -- What follows `AcceptWaveform`, where `b` is the backend behind it.
  unfoldable pub judge : Detector B → B → Detector B × Verdict
  judge d b =
      let starts = k.is_speech b && not d.speaking in
      let speaking' = d.speaking || starts in
      let finished = not (k.is_empty b) in
      let first = if starts then voice_detected ∷ [] else [] in
      let second =
        if not speaking' then voice_detected ∷ cut_by_silence 0 ∷ [] else cut_by_silence 0 ∷ [] in
      if finished
      then (
        record d { backend = some (k.pop b); speaking = false },
        record { events = first ++ second; is_speaking = true; should_finish = true },
      )
      else (
        record d { backend = some b; speaking = speaking' },
        record { events = first; is_speaking = speaking'; should_finish = false },
      )

  unfoldable pub process_chunk : Detector B → List S → Detector B × Verdict
  unfolding judge
  process_chunk d samples =
      if is_empty samples || d.closed
      then (d, idle)
      else elim d.backend [ none ↦ (d, idle) | some b ↦ judge d (k.accept_waveform b samples) ]

  unfoldable pub reset : Detector B → Detector B
  reset d = if d.closed then d else elim d.backend [
    | none ↦ d
    | some b ↦ record d { backend = some (k.clear b); speaking = false }
  ]

  unfoldable pub detector : Vad.Detector (Detector B) S
  unfolding process_chunk reset is_speaking
  detector = record { process_chunk = process_chunk; reset = reset; is_speaking = is_speaking }
