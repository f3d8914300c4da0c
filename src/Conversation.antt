-- ===== src/Conversation.antt =====
-- internal/conversation/session.go: one turn as a transaction on the memory around a run of the agent.
-- A nil session and nil parts are not modelled. Messages are copied where the source clones them, so a
-- clone is the message.
pub mod Kept
use xarlatan.Common.{ℕ, Bool, true, false, Option, none, some, List, [], ◌∷◌, if◌then◌else◌}
use xarlatan.Common.Results.{Result, ok, err}
use xarlatan.Common.Text.{Text, is_empty, trim_space}
use xarlatan.Memory.{Snapshot}
use xarlatan.Memory
use xarlatan.Orchestrator.{Message, Request, RuntimeError}
use xarlatan.Orchestrator
use xarlatan.Tools.Executor.{ContextError, deadline_exceeded, was_cancelled}

pub data ErrorCode : Type 0 where
  invalid_session memory_prepare agent_error memory_update cancelled deadline : ErrorCode

-- What an error wraps; the memory has errors of its own.
pub data Cause (E : Type 0) : Type 0 where
  memory_cause : E → Cause E
  agent_cause : RuntimeError → Cause E
  context_cause : ContextError → Cause E

pub record SessionError (E : Type 0) : Type 0 where
  pub code : ErrorCode
  pub cause : Cause E

-- `Result`
pub record Answer : Type 0 where
  pub reply : Text
  pub history : List Message
  pub agent_trace : Orchestrator.Trace
  pub memory_trace : Memory.Trace

-- `Result{}`
abbrev pub no_answer : Answer
no_answer = record {
  reply = [];
  history = [];
  agent_trace = record { rounds = []; tool_rounds = 0; stop_reason = none };
  memory_trace = record {
    input_messages = 0;
    input_bytes = 0;
    output_messages = 0;
    output_bytes = 0;
    dropped_turns = 0;
    dropped_messages = 0;
    summary_generated = false;
    summary_bytes = 0;
  };
}

-- The interface `Memory`, over the states of an implementation and its errors.
pub record MemoryOps (M W E : Type 0) : Type 0 where
  pub prepare : M → Text → W → M × W × Result E Snapshot
  pub update : M → List Message → W → M × W × Result E Snapshot

-- `Agent`, with the method of `StreamingAgent` where it has one, and the look at the context. The
-- callback of a streamed run acts on the world.
pub record AgentOps (W : Type 0) : Type 0 where
  pub run : Request → W → W × Orchestrator.Result × Option RuntimeError
  pub run_stream : Option (Request → W → W × Orchestrator.Result × Option RuntimeError)
  pub ctx_err : W → W × Option ContextError

-- `contextError`
unfoldable pub context_error : {E : Type 0} → ContextError → SessionError E
context_error deadline_exceeded = record {
  code = deadline;
  cause = context_cause deadline_exceeded;
}
context_error was_cancelled = record { code = cancelled; cause = context_cause was_cancelled }

-- `streamed` says that a callback for deltas is given.
unfoldable pub call_agent :
    {W : Type 0}
    → AgentOps W
    → Option (Request → W → W × Orchestrator.Result × Option RuntimeError)
    → Bool
    → Request
    → W
    → W × Orchestrator.Result × Option RuntimeError
call_agent a none streamed request w = a.run request w
call_agent a (some run_stream) false request w = a.run request w
call_agent a (some run_stream) true request w = run_stream request w

module _ {M W E : Type 0} (mem : MemoryOps M W E) (a : AgentOps W) (streamed : Bool) where
  abbrev pub Left : Type 0
  Left = M × W × Result (SessionError E) Answer

  -- An error of a part, behind one more look at the context.
  unfoldable pub fail : M → ErrorCode → Cause E → W → Left
  unfolding context_error
  fail m code cause w =
      let (w', ended) = a.ctx_err w in
      elim ended [
        | none ↦ (m, w', err (record { code = code; cause = cause }))
        | some e ↦ (m, w', err (context_error e))
      ]

  -- The end of a turn, on what the memory made of it.
  unfoldable pub committed : Orchestrator.Result → M × W × Result E Snapshot → Left
  unfolding fail
  committed turn (m, w, err e) = fail m memory_update (memory_cause e) w
  committed turn (m, w, ok s) = (
    m,
    w,
    ok (record {
      reply = trim_space turn.reply;
      history = s.history;
      agent_trace = turn.trace;
      memory_trace = s.trace;
    }),
  )

  unfoldable pub answered : M → W × Orchestrator.Result × Option RuntimeError → Left
  unfolding fail committed
  answered m (w, turn, some e) = fail m agent_error (agent_cause e) w
  answered m (w, turn, none) = committed turn (mem.update m turn.history w)

  unfoldable pub prepared : Text → M × W × Result E Snapshot → Left
  unfolding fail answered call_agent
  prepared text (m, w, err e) = fail m memory_prepare (memory_cause e) w
  prepared text (m, w, ok s) =
      answered m
        (call_agent a a.run_stream streamed (record { input = text; history = s.history }) w)

  unfoldable pub respond_to : M → Text → W → Left
  unfolding prepared
  respond_to m text w =
      let turn = prepared text (mem.prepare m text w) in
      if is_empty text then (m, w, ok no_answer) else turn

  unfoldable pub respond : M → Text → W → Left
  unfolding respond_to context_error
  respond m text w =
      let (w', ended) = a.ctx_err w in
      elim ended [
        | none ↦ respond_to m (trim_space text) w'
        | some e ↦ (m, w', err (context_error e))
      ]
