-- ===== src/Application/Recorder.antt =====
-- The turn recorder of internal/application/application.go, without its clock, together with the
-- `Result` of the turn that it ends up in.
use xarlatan.Common.{ℕ, Bool, false, Option, none, List, [], ◌∷◌, ◌++◌}
use xarlatan.Common.Text.{Text}
use xarlatan.Application.{State, idle, ErrorCode, Outcome, unset}

pub record Turn : Type 0 where
  pub turn_id : ℕ
  pub current : State
  pub states : List State
  pub reply : Text
  pub noop : Bool
  pub outcome : Outcome
  pub error_code : Option ErrorCode
  pub sample_count : ℕ
  pub transcript_chars : ℕ
  pub reply_chars : ℕ
  pub interrupt_latency : ℕ

-- `emit`: the state becomes the current one and joins the list that the trace publishes.
unfoldable pub emit : State → Turn → Turn
emit s t = record t { current = s; states = t.states ++ s ∷ [] }

-- `newTurnRecorder` and its first `emit(StateIdle)`, on a zero result.
unfoldable pub new_turn_recorder : ℕ → Turn
new_turn_recorder turn_id = record {
  turn_id = turn_id;
  current = idle;
  states = idle ∷ [];
  reply = [];
  noop = false;
  outcome = unset;
  error_code = none;
  sample_count = 0;
  transcript_chars = 0;
  reply_chars = 0;
  interrupt_latency = 0;
}
