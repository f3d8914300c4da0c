-- ===== src/Vad.antt =====
-- internal/vad: what a voice activity detector promises to the audio capture (detector.go and
-- energy_compat.go). Its implementations are Vad/Energy (vad.go) and Vad/Silero (sherpa/silero.go).
-- The callback of the source is the list of the events that a chunk gives rise to.
pub mod Real
pub mod Contract
pub mod Energy
pub mod Silero
use xarlatan.Common.{ℕ, Bool, true, false, Option, none, some, List, [], ◌∷◌, ◌++◌}

-- `EventType` and the payload of `Event`. `EventSpeechStarted` and `EventSpeechEnded` are the aliases
-- of the first and the last.
pub data Event : Type 0 where
  voice_detected silence_start : Event
  silence_progress cut_by_silence : ℕ → Event

-- What `ProcessChunk` returns beside the new state: the events, `isSpeaking` and `shouldFinish`.
pub record Verdict : Type 0 where
  pub events : List Event
  pub is_speaking : Bool
  pub should_finish : Bool

-- The interface `Detector`, over the states of an implementation and the type of a sample.
pub record Detector (D S : Type 0) : Type 0 where
  pub process_chunk : D → List S → D × Verdict
  pub reset : D → D
  pub is_speaking : D → Bool
