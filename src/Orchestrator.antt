-- ===== src/Orchestrator.antt =====
-- internal/orchestrator/runtime.go and the traces of observability.go: the rounds of model and tools.
-- Durations are not modelled; copies of messages are the messages, since values are not shared here.
pub mod Rounds
pub mod Suppressed
pub mod Metrics
use xarlatan.Common.{
  ℕ, zero, suc, ◌+◌, Bool, true, false, not, ◌&&◌, ◌||◌, Option, none, some, List, [], ◌∷◌, ◌++◌,
  map, leb, if◌then◌else◌,
}
use xarlatan.Common.Text.{Text, codes, is_empty, text_eq, trim_space}
use xarlatan.Tools.{Registry, definitions}
use xarlatan.Tools.Executor.{
  ToolCall, ExecutionErrorCode, ExecutionRecord, success, ContextError, was_cancelled,
  deadline_exceeded, Machine, run_all_detailed,
}

-- `Message` of internal/llm/llama.go
pub record Message : Type 0 where
  pub role : Text
  pub content : Text
  pub tool_calls : List ToolCall
  pub tool_call_id : Text

pub data StopReason : Type 0 where
  stop_direct_reply stop_round_limit stop_model_error stop_cancelled stop_deadline_exceeded :
      StopReason

pub record ToolTrace : Type 0 where
  pub call_id : Text
  pub tool : Text
  pub success : Bool
  pub error_code : Option ExecutionErrorCode

pub record RoundTrace : Type 0 where
  pub number : ℕ
  pub tools : List ToolTrace
  pub stop_reason : Option StopReason
  pub error : Text

pub record Trace : Type 0 where
  pub rounds : List RoundTrace
  pub tool_rounds : ℕ
  pub stop_reason : Option StopReason

pub record Result : Type 0 where
  pub reply : Text
  pub history : List Message
  pub trace : Trace

pub data RuntimeErrorCode : Type 0 where
  invalid_runtime model_error round_limit cancelled deadline : RuntimeErrorCode

pub record RuntimeError : Type 0 where
  pub code : RuntimeErrorCode
  pub round : ℕ

-- What a model returns: a reply and the next history, or the text of an error.
pub data ModelAnswer : Type 0 where
  replied : Text → List Message → ModelAnswer
  model_failed : Text → ModelAnswer

-- `AgentRuntime`, with the context and the observer; `generate_stream` is there where the model is a
-- `StreamingGenerator`, and includes the calls of `onDelta`.
pub record AgentRuntime (W : Type 0) : Type 0 where
  pub max_tool_rounds : ℕ
  pub generate : List Message → Text → W → W × ModelAnswer
  pub generate_stream : Option (List Message → Text → W → W × ModelAnswer)
  pub registry : Option (Registry W)
  pub executor : Option (Registry W)
  pub machine : Machine W
  pub on_round : RoundTrace → W → W

pub record Request : Type 0 where
  pub input : Text
  pub history : List Message

unfoldable pub code_from_context : ContextError → RuntimeErrorCode
code_from_context deadline_exceeded = deadline
code_from_context was_cancelled = cancelled

unfoldable pub stop_reason_from_context : ContextError → StopReason
stop_reason_from_context deadline_exceeded = stop_deadline_exceeded
stop_reason_from_context was_cancelled = stop_cancelled

-- The tool calls of the last message, if it is the assistant's.
unfoldable pub pending_tool_calls : List Message → List ToolCall
pending_tool_calls [] = []
pending_tool_calls (m ∷ []) = if text_eq m.role (codes "assistant") then m.tool_calls else []
pending_tool_calls (m ∷ ms) = pending_tool_calls ms

unfoldable pub exposes_tools : {W : Type 0} → Option (Registry W) → Bool
exposes_tools none = false
exposes_tools (some r) = not (is_empty (definitions r))

unfoldable pub tool_trace : ExecutionRecord → ToolTrace
tool_trace x = record {
  call_id = x.call.id;
  tool = x.call.name;
  success = success x;
  error_code = x.error_code;
}

unfoldable pub to_message : ExecutionRecord → Message
to_message x = record {
  role = x.message.role;
  content = x.message.content;
  tool_calls = [];
  tool_call_id = x.message.tool_call_id;
}

-- The variables of the loop.
pub record Loop : Type 0 where
  pub result : Result
  pub tool_rounds : ℕ
  pub round_number : ℕ
  pub input : Text

-- The variables before the first round.
abbrev pub first_round : Request → Loop
first_round request = record {
  result = record {
    reply = [];
    history = request.history;
    trace = record { rounds = []; tool_rounds = 0; stop_reason = none };
  };
  tool_rounds = 0;
  round_number = 1;
  input = request.input;
}

-- How a round ends: the loop goes on, or returns.
pub data Outcome : Type 0 where
  next_round : Loop → Outcome
  returns : Result → Option RuntimeError → Outcome

-- Every round that is over is entered in the trace, with the count of tool rounds.
unfoldable pub enter : Result → RoundTrace → ℕ → Option StopReason → Result
enter result round tool_rounds stop = record result {
  trace = record {
    rounds = result.trace.rounds ++ round ∷ [];
    tool_rounds = tool_rounds;
    stop_reason = stop;
  };
}

-- The stop reason and the code of a model's error: those of the context, where it has ended.
unfoldable pub model_stop : Option ContextError → StopReason
unfolding stop_reason_from_context
model_stop none = stop_model_error
model_stop (some e) = stop_reason_from_context e

unfoldable pub model_code : Option ContextError → RuntimeErrorCode
unfolding code_from_context
model_code none = model_error
model_code (some e) = code_from_context e

unfoldable pub tools_stop : Option ContextError → Option StopReason
unfolding stop_reason_from_context
tools_stop none = none
tools_stop (some e) = some (stop_reason_from_context e)

-- The trace keeps its stop reason where the round has none.
unfoldable pub kept_stop : Option StopReason → Option StopReason → Option StopReason
kept_stop before none = before
kept_stop before (some s) = some s

-- The trace of a round that executed tools, and the result with it; `ended` is the context behind them.
unfoldable pub tools_trace : Loop → List ExecutionRecord → Option ContextError → RoundTrace
unfolding tools_stop tool_trace
tools_trace l records ended = record {
  number = l.round_number;
  tools = map tool_trace records;
  stop_reason = tools_stop ended;
  error = [];
}

unfoldable pub tools_result : Loop → List ExecutionRecord → Option ContextError → Result
unfolding tools_trace enter kept_stop to_message
tools_result l records ended =
    enter (record l.result { history = l.result.history ++ map to_message records })
      (tools_trace l records ended) (suc l.tool_rounds)
      (kept_stop l.result.trace.stop_reason (tools_stop ended))

-- The second look at the context, behind the observer.
unfoldable pub conclude_tools : Loop → Result → Option ContextError → Outcome
unfolding code_from_context
conclude_tools l result (some e) =
    returns result (some (record { code = code_from_context e; round = l.round_number }))
conclude_tools l result none = next_round (record {
  result = result;
  tool_rounds = suc l.tool_rounds;
  round_number = suc l.round_number;
  input = [];
})

module _ {W : Type 0} (r : AgentRuntime W) (wants_deltas : Bool) where
  -- The call of the model: deltas are published only where no tool is exposed.
  unfoldable pub call_model : List Message → Text → W → W × ModelAnswer
  unfolding exposes_tools
  call_model history input w =
      if wants_deltas && not (exposes_tools r.registry)
      then elim r.generate_stream [
        | none ↦ r.generate history input w
        | some stream ↦ stream history input w
      ]
      else r.generate history input w

  -- The model reports an error.
  unfoldable pub model_error_round : Loop → Text → W → W × Outcome
  unfolding enter model_stop model_code
  model_error_round l text w =
      let (w', ended) = r.machine.ctx_err w in
      let stop = model_stop ended in
      let round : RoundTrace = record {
        number = l.round_number;
        tools = [];
        stop_reason = some stop;
        error = text;
      } in
      let result = enter l.result round l.tool_rounds (some stop) in
      let (w'', later) = r.machine.ctx_err (r.on_round round w') in
      let code = model_code later in
      (w'', returns result (some (record { code = code; round = l.round_number })))

  -- There is no call to answer.
  unfoldable pub direct_reply_round : Loop → Text → W → W × Outcome
  unfolding enter
  direct_reply_round l reply w =
      let round : RoundTrace = record {
        number = l.round_number;
        tools = [];
        stop_reason = some stop_direct_reply;
        error = [];
      } in
      (
        r.on_round round w,
        returns
            (enter (record l.result { reply = trim_space reply }) round l.tool_rounds
              (some stop_direct_reply))
            none,
      )

  -- There are calls, and no round is left for them.
  unfoldable pub round_limit_round : Loop → W → W × Outcome
  unfolding enter
  round_limit_round l w =
      let round : RoundTrace = record {
        number = l.round_number;
        tools = [];
        stop_reason = some stop_round_limit;
        error = [];
      } in
      (
        r.on_round round w,
        returns (enter l.result round l.tool_rounds (some stop_round_limit))
            (some (record { code = round_limit; round = l.round_number })),
      )

  -- The calls are executed and their answers appended.
  unfoldable pub tool_round : Loop → List ToolCall → W → W × Outcome
  unfolding tools_trace tools_result conclude_tools
  tool_round l calls w =
      let (w1, records) = run_all_detailed r.machine r.executor calls w in
      let (w2, ended) = r.machine.ctx_err w1 in
      let (w3, later) = r.machine.ctx_err (r.on_round (tools_trace l records ended) w2) in
      (w3, conclude_tools l (tools_result l records ended) later)

  -- The model has replied.
  unfoldable pub replied_round : Loop → Text → List Message → W → W × Outcome
  unfolding direct_reply_round round_limit_round tool_round pending_tool_calls
  replied_round l reply history w =
      let l' = record l { result = record l.result { history = history } } in
      let calls = pending_tool_calls history in
      if is_empty calls
      then direct_reply_round l' reply w
      else if leb r.max_tool_rounds l.tool_rounds
      then round_limit_round l' w
      else tool_round l' calls w

  unfoldable pub answered_round : Loop → ModelAnswer → W → W × Outcome
  unfolding model_error_round replied_round
  answered_round l (model_failed text) w = model_error_round l text w
  answered_round l (replied reply history) w = replied_round l reply history w

  -- One pass of the loop.
  unfoldable pub round : Loop → W → W × Outcome
  unfolding call_model answered_round stop_reason_from_context code_from_context
  round l w =
      let (w', ended) = r.machine.ctx_err w in
      elim ended [
        | some e ↦
            let trace = record l.result.trace { stop_reason = some (stop_reason_from_context e) } in
            (
              w',
              returns (record l.result { trace = trace })
                  (some (record { code = code_from_context e; round = l.round_number })),
            )
        | none ↦
            let (w'', answer) = call_model l.result.history l.input w' in
            answered_round l answer w''
      ]

  -- The loop, for at most `fuel` rounds.
  unfoldable pub rounds : ℕ → Loop → W → Option (W × Result × Option RuntimeError)
  unfolding round
  rounds zero l w = none
  rounds (suc fuel) l w =
      let (w', outcome) = round l w in
      elim outcome [
        | next_round l' ↦ rounds fuel l' w'
        | returns result problem ↦ some (w', result, problem)
      ]

  -- `run` on a runtime that is there; it has more fuel than there can be rounds.
  unfoldable pub run : Request → W → Option (W × Result × Option RuntimeError)
  unfolding rounds
  run request w =
      if leb r.max_tool_rounds 0
      then some
          (w, (first_round request).result, some (record { code = invalid_runtime; round = 0 }))
      else rounds (suc r.max_tool_rounds) (first_round request) w
