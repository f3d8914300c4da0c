-- ===== src/Orchestrator/Rounds.antt =====
-- The loop of internal/orchestrator/runtime.go ends, within its bound, and reports why.
use xarlatan.Common.{
  ℕ, zero, suc, ◌+◌, ◌≤◌, ◌<◌, ◌≡◌, refl, ap, inl, inr, Bool, false, Option, none, some, List, [],
  ◌∷◌, arith, length, length-append, leb, some_inj, Bool-cases, Option-cases,
}
use xarlatan.Common.Text.{Text, is_empty}
use xarlatan.Tools.Executor.{ToolCall, ExecutionRecord, ContextError, run_all_detailed}
use xarlatan.Orchestrator.{
  Message, model_stop, model_code, tools_stop, kept_stop, tools_trace, tools_result, conclude_tools,
  StopReason, stop_direct_reply, stop_round_limit, stop_model_error, RoundTrace, Trace, Result,
  RuntimeErrorCode, model_error, round_limit, RuntimeError, ModelAnswer, replied, model_failed,
  AgentRuntime, Request, code_from_context, stop_reason_from_context, pending_tool_calls, Loop,
  first_round, Outcome, next_round, returns, enter, call_model, model_error_round,
  direct_reply_round, round_limit_round, tool_round, replied_round, answered_round, round, rounds,
  run,
}

-- What package context documents: an ended context stays ended, for the same reason.
pub record IsContext {W : Type 0} (r : AgentRuntime W) : Type 1 where
  pub ended : W → ContextError → Type 0
  pub seen :
      (w : W) (e : ContextError)
      → (r.machine.ctx_err w).1 ≡ some e
      → ended (r.machine.ctx_err w).0 e
  pub observed : (w : W) (e : ContextError) (x : RoundTrace) → ended w e → ended (r.on_round x w) e
  pub stays : (w : W) (e : ContextError) → ended w e → (r.machine.ctx_err w).1 ≡ some e

-- How the stop reason of a trace and the error of a turn belong together. In the last two the
-- context ends between the look for the trace and the look for the error.
pub data Stopped : Option StopReason → Option RuntimeErrorCode → Type 0 where
  by_reply : Stopped (some stop_direct_reply) none
  by_limit : Stopped (some stop_round_limit) (some round_limit)
  by_model : Stopped (some stop_model_error) (some model_error)
  by_context :
      (e : ContextError) → Stopped (some (stop_reason_from_context e)) (some (code_from_context e))
  late_in_model : (e : ContextError) → Stopped (some stop_model_error) (some (code_from_context e))
  late_in_tools : (e : ContextError) → Stopped none (some (code_from_context e))

abbrev pub code_of : Option RuntimeError → Option RuntimeErrorCode
code_of none = none
code_of (some e) = some e.code

-- A turn that is over: within the bound on rounds, and with its reason.
pub record IsStopped (max : ℕ) (result : Result) (problem : Option RuntimeError) : Type 0 where
  pub tool_rounds_bound : result.trace.tool_rounds ≤ max
  pub rounds_bound : length result.trace.rounds ≤ suc max
  pub stopped : Stopped result.trace.stop_reason (code_of problem)

-- The loop between two rounds: each round so far executed tools.
record IsRunning (max : ℕ) (l : Loop) : Type 0 where
  counted : l.result.trace.tool_rounds ≡ l.tool_rounds
  entered : length l.result.trace.rounds ≡ l.tool_rounds
  bounded : l.tool_rounds ≤ max
  open_ended : l.result.trace.stop_reason ≡ none

-- A round either ends the turn, or leaves one tool round less.
abbrev IsOutcome : ℕ → Loop → Outcome → Type 0
IsOutcome max l (next_round l') = IsRunning max l' × (l'.tool_rounds ≡ suc l.tool_rounds)
IsOutcome max l (returns result problem) = IsStopped max result problem

-- Both looks at the context agree, or only the second finds it ended.
model_Stopped :
    (first second : Option ContextError)
    → ((e : ContextError) → first ≡ some e → second ≡ some e)
    → Stopped (some (model_stop first)) (some (model_code second))
unfolding model_stop model_code
model_Stopped none none h = by_model
model_Stopped none (some e) h = late_in_model e
model_Stopped (some e) second h = rw (h e refl) (by_context e)

tools_Stopped :
    (first : Option ContextError) (e : ContextError) (before : Option StopReason)
    → before ≡ none
    → ((d : ContextError) → first ≡ some d → some e ≡ some d)
    → Stopped (kept_stop before (tools_stop first)) (some (code_from_context e))
unfolding tools_stop kept_stop
tools_Stopped none e before b h = rw b (late_in_tools e)
tools_Stopped (some d) e before b h = rw (some_inj (h d refl)) (by_context d)

conclude_tools-IsOutcome :
    (max : ℕ) (l : Loop) (records : List ExecutionRecord) (first later : Option ContextError)
    → IsRunning max l
    → l.tool_rounds < max
    → ((e : ContextError) → first ≡ some e → later ≡ some e)
    → IsOutcome max l (conclude_tools l (tools_result l records first) later)
unfolding conclude_tools tools_result enter tools_trace tools_stop kept_stop
conclude_tools-IsOutcome max l records none none h room agree = (
  record {
    counted = refl;
    entered =
        omega
          (arith, length-append l.result.trace.rounds (tools_trace l records none ∷ []), h.entered);
    bounded = omega (arith, room);
    open_ended = h.open_ended;
  },
  refl,
)
conclude_tools-IsOutcome max l records (some e) none h room agree = absurd (cc (agree e refl))
conclude_tools-IsOutcome max l records first (some e) h room agree = record {
  tool_rounds_bound = omega (arith, room);
  rounds_bound = omega (
    arith,
    length-append l.result.trace.rounds (tools_trace l records first ∷ []),
    h.entered,
    room,
  );
  stopped = tools_Stopped first e l.result.trace.stop_reason h.open_ended agree;
}

module _ {W : Type 0} (r : AgentRuntime W) (wants_deltas : Bool) (c : IsContext r) where
  enter_last :
      (l : Loop) (result : Result) (x : RoundTrace) (problem : Option RuntimeError)
      (s : Option StopReason)
      → IsRunning r.max_tool_rounds l
      → result.trace ≡ l.result.trace
      → Stopped s (code_of problem)
      → IsStopped r.max_tool_rounds (enter result x l.tool_rounds s) problem
  unfolding enter
  enter_last l result x problem s h same p = record {
    tool_rounds_bound = h.bounded;
    rounds_bound = omega (
      arith,
      length-append result.trace.rounds (x ∷ []),
      h.entered,
      h.bounded,
      ap (λ (t : Trace). length t.rounds) same,
    );
    stopped = p;
  }

  model_error_round-IsOutcome :
      (l : Loop) (text : Text) (w : W)
      → IsRunning r.max_tool_rounds l
      → IsOutcome r.max_tool_rounds l (model_error_round r wants_deltas l text w).1
  unfolding model_error_round
  model_error_round-IsOutcome l text w h = enter_last l l.result _ _ _ h refl (
      model_Stopped (r.machine.ctx_err w).1 _
        (λ e p. c.stays _ e (c.observed (r.machine.ctx_err w).0 e _ (c.seen w e p))))

  direct_reply_round-IsOutcome :
      (l : Loop) (reply : Text) (w : W)
      → IsRunning r.max_tool_rounds l
      → IsOutcome r.max_tool_rounds l (direct_reply_round r wants_deltas l reply w).1
  unfolding direct_reply_round
  direct_reply_round-IsOutcome l reply w h = enter_last l _ _ _ _ h refl by_reply

  round_limit_round-IsOutcome :
      (l : Loop) (w : W)
      → IsRunning r.max_tool_rounds l
      → IsOutcome r.max_tool_rounds l (round_limit_round r wants_deltas l w).1
  unfolding round_limit_round
  round_limit_round-IsOutcome l w h = enter_last l _ _ _ _ h refl by_limit

  tool_round-IsOutcome :
      (l : Loop) (calls : List ToolCall) (w : W)
      → IsRunning r.max_tool_rounds l
      → l.tool_rounds < r.max_tool_rounds
      → IsOutcome r.max_tool_rounds l (tool_round r wants_deltas l calls w).1
  unfolding tool_round
  tool_round-IsOutcome l calls w h room =
      let w1 = (run_all_detailed r.machine r.executor calls w).0 in
      conclude_tools-IsOutcome r.max_tool_rounds l _ _ _ h room
        (λ e p. c.stays _ e (c.observed (r.machine.ctx_err w1).0 e _ (c.seen w1 e p)))

  replied_round-IsOutcome :
      (l : Loop) (reply : Text) (history : List Message) (w : W)
      → IsRunning r.max_tool_rounds l
      → IsOutcome r.max_tool_rounds l (replied_round r wants_deltas l reply history w).1
  unfolding replied_round
  replied_round-IsOutcome l reply history w h =
      let l' : Loop = record l { result = record l.result { history = history } } in
      let h' : IsRunning r.max_tool_rounds l' = record {
        counted = h.counted;
        entered = h.entered;
        bounded = h.bounded;
        open_ended = h.open_ended;
      } in
      let calls = pending_tool_calls history in
      elim (Bool-cases (is_empty calls)) [
        | inl e ↦ rw (e, replied_round) (direct_reply_round-IsOutcome l' reply w h')
        | inr e ↦ elim (Bool-cases (leb r.max_tool_rounds l.tool_rounds)) [
          | inl full ↦ rw (e, full, replied_round) (round_limit_round-IsOutcome l' w h')
          | inr room ↦
              rw (e, room, replied_round)
                (tool_round-IsOutcome l' calls w h' (ground (arith, room)))
        ]
      ]

  answered_round-IsOutcome :
      (l : Loop) (answer : ModelAnswer) (w : W)
      → IsRunning r.max_tool_rounds l
      → IsOutcome r.max_tool_rounds l (answered_round r wants_deltas l answer w).1
  unfolding answered_round
  answered_round-IsOutcome l (model_failed text) w h = model_error_round-IsOutcome l text w h
  answered_round-IsOutcome l (replied reply history) w h =
      replied_round-IsOutcome l reply history w h

  round-IsOutcome :
      (l : Loop) (w : W)
      → IsRunning r.max_tool_rounds l
      → IsOutcome r.max_tool_rounds l (round r wants_deltas l w).1
  unfolding round
  round-IsOutcome l w h = elim (Option-cases (r.machine.ctx_err w).1) [
    | inr (e, p) ↦
        rw (p, round)
          (record {
            tool_rounds_bound = omega (arith, h.counted, h.bounded);
            rounds_bound = omega (arith, h.entered, h.bounded);
            stopped = by_context e;
          })
    | inl p ↦
        let w' = (r.machine.ctx_err w).0 in
        let (w'', answer) = call_model r wants_deltas l.result.history l.input w' in
        rw (p, round) (answered_round-IsOutcome l answer w'' h)
  ]

  abbrev Ends : ℕ → Loop → W → Type 0
  Ends fuel l w =
      (w' : W) × (result : Result) × (problem : Option RuntimeError) × (rounds r wants_deltas fuel l
          w
        ≡ some (w', result, problem))
      × IsStopped r.max_tool_rounds result problem

  -- `fuel` rounds are enough where the bound leaves less.
  rounds_end :
      (fuel : ℕ) (l : Loop) (w : W)
      → IsRunning r.max_tool_rounds l
      → r.max_tool_rounds < fuel + l.tool_rounds
      → Ends fuel l w
  unfolding rounds
  rounds_end zero l w h enough = absurd (omega (arith, h.bounded, enough))
  rounds_end (suc fuel) l w h enough =
      ended (round r wants_deltas l w).1 refl (round-IsOutcome l w h)
        (λ l' running room. rounds_end fuel l' (round r wants_deltas l w).0 running room)
    where
      ended :
          (x : Outcome)
          → (round r wants_deltas l w).1 ≡ x
          → IsOutcome r.max_tool_rounds l x
          → ((l' : Loop)
              → IsRunning r.max_tool_rounds l'
              → r.max_tool_rounds < fuel + l'.tool_rounds
              → Ends fuel l' (round r wants_deltas l w).0)
          → Ends (suc fuel) l w
      ended (returns result problem) e q later =
          rw (e, rounds) ((round r wants_deltas l w).0, result, problem, refl, q)
      ended (next_round l') e q later = rw (e, rounds) (later l' q.0 (omega (arith, q.1, enough)))

  -- With a positive bound and a context that stays ended, the turn returns. It used at most
  -- `MaxToolRounds` rounds of tools and one more round, and the stop reason of its trace and its error
  -- belong together as `Stopped` lists them.
  pub run_returns :
      (request : Request) (w : W)
      → 0 < r.max_tool_rounds
      → (w' : W) × (result : Result) × (problem : Option RuntimeError) × (run r wants_deltas request
            w
          ≡ some (w', result, problem))
        × IsStopped r.max_tool_rounds result problem
  unfolding run
  run_returns request w positive =
      let e : leb r.max_tool_rounds 0 ≡ false = ground (arith, positive) in
      rw (e, run)
        (rounds_end (suc r.max_tool_rounds) (first_round request) w
          (record { counted = refl; entered = refl; bounded = omega arith; open_ended = refl })
          (omega arith))
