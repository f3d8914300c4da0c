-- ===== src/Tests/Agent.antt =====
-- Tools, a runtime on them, and the pre-roll of the capture.
use xarlatan.Common.{
  ℕ, ◌+◌, ◌≡◌, ◌⊎◌, refl, true, false, not, ◌&&◌, ◌||◌, Option, none, some, List, [], ◌∷◌, ◌++◌,
  arith, length, ◌==◌, if◌then◌else◌,
}
use xarlatan.Common.Text.{Text, codes, is_empty, text_eq}
use xarlatan.Audio.Preroll
use xarlatan.Audio.Preroll.{add_all, new_pre_roll_buffer, start_recording, start_recording-add_all}
use xarlatan.Tools.{
  Tool, Registry, definitions, contains, allows, register, get, is_denied, new_registry,
  with_allowed, default_tool_policy,
}
use xarlatan.Tools.Registered.{
  IsRegistry, new_registry-IsRegistry, register-IsRegistry, register-get, allows-with_allowed,
}
use xarlatan.Tools.Executor.{
  ToolCall, denied_tool, unknown_tool, Machine, run_detailed, run_all_detailed,
}
use xarlatan.Tools.Runs.{
  IsRound, run_all_detailed-IsRound, run_all_detailed_complete, run_detailed-denied,
}
use xarlatan.Orchestrator.{
  Message, ModelAnswer, replied, RuntimeError, AgentRuntime, Request, exposes_tools, run,
}
use xarlatan.Orchestrator
use xarlatan.Orchestrator.Rounds.{IsContext, IsStopped, run_returns}
use xarlatan.Orchestrator.Suppressed.{run-deltas}
use xarlatan.Orchestrator.{ToolTrace, RoundTrace}
use xarlatan.Tools.Executor.{tool_error}
use xarlatan.Orchestrator.Metrics.{observe_all, new_metrics_observer, lookup, observe_all_counts}

-- The world counts the executions.
abbrev search_tool : Tool ℕ
search_tool = record {
  name = codes "web_search";
  description = codes "searches";
  schema = record { schema_type = codes "object"; properties = []; required = [] };
  execute = λ args w. (w + 1, record { content = codes "found"; is_error = false });
}

abbrev shell_tool : Tool ℕ
shell_tool = record search_tool { name = codes "shell" }

abbrev secure : Registry ℕ
secure = (register (new_registry none) search_tool).0

secure-IsRegistry : IsRegistry secure
secure-IsRegistry =
    register-IsRegistry (new_registry none) search_tool (new_registry-IsRegistry none)

register-IsRegistry_example : IsRegistry (register secure shell_tool).0
register-IsRegistry_example = register-IsRegistry secure shell_tool secure-IsRegistry

register-get_example :
    ((register secure shell_tool).1 ≡ none
      → get (register secure shell_tool).0 (codes "shell") ≡ some shell_tool)
    × (allows secure.policy (codes "shell") ≡ false
        → is_denied (register secure shell_tool).0 (codes "shell") ≡ true)
    × ((s : Tool ℕ)
        → get secure (codes "web_search") ≡ some s
        → get (register secure shell_tool).0 (codes "web_search") ≡ some s)
register-get_example = register-get secure shell_tool (codes "web_search")

allows-with_allowed_runs :
    allows (with_allowed default_tool_policy (codes "shell" ∷ [])) (codes "shell") ≡ (
      allows default_tool_policy (codes "shell")
      || (not (is_empty (codes "shell")) && contains (codes "shell" ∷ []) (codes "shell")))
allows-with_allowed_runs =
    allows-with_allowed default_tool_policy (codes "shell" ∷ []) (codes "shell")

abbrev machine : Machine ℕ
machine = record { ctx_err = λ w. (w, none); quote = λ s. s }

abbrev call : Text → Text → ToolCall
call id name = record { id = id; call_type = codes "function"; name = name; arguments = codes "{}" }

abbrev calls : List ToolCall
calls = call (codes "a") (codes "web_search") ∷ call (codes "b") (codes "shell") ∷ []

run_all_runs : (run_all_detailed machine (some secure) calls 0).0 ≡ 1
unfolding run_all_detailed register new_registry is_denied text_eq
run_all_runs = refl

run_all_detailed-IsRound_example :
    IsRound machine
      (some secure)
      calls
      0
      (run_all_detailed machine (some secure) calls 0).0
      (run_all_detailed machine (some secure) calls 0).1
run_all_detailed-IsRound_example = run_all_detailed-IsRound machine (some secure) calls 0

run_all_detailed_complete_runs : length (run_all_detailed machine (some secure) calls 0).1 ≡ 2
run_all_detailed_complete_runs = run_all_detailed_complete machine (λ w. refl) (some secure) calls 0

run_detailed-denied_example :
    ((run_detailed machine (some secure) (call (codes "b") (codes "shell")) 0).0 ≡ 0)
    × (((run_detailed machine (some secure) (call (codes "b") (codes "shell")) 0).1.error_code
          ≡ some denied_tool)
        ⊎ ((run_detailed machine (some secure) (call (codes "b") (codes "shell")) 0).1.error_code
            ≡ some unknown_tool))
unfolding allows register new_registry default_tool_policy text_eq
run_detailed-denied_example =
    run_detailed-denied machine secure (call (codes "b") (codes "shell")) 0 secure-IsRegistry refl

abbrev wish : ℕ → Message
wish w = record {
  role = codes "assistant";
  content = [];
  tool_calls = if w == 2 then [] else calls;
  tool_call_id = [];
}

-- A model that asks for its tools until the world has counted two executions.
abbrev eager : AgentRuntime ℕ
eager = record {
  max_tool_rounds = 3;
  generate = λ history input w. (w, replied (codes "done ") (history ++ wish w ∷ []));
  generate_stream = none;
  registry = some secure;
  executor = some secure;
  machine = machine;
  on_round = λ x w. w;
}

abbrev question : Request
question = record { input = codes "why"; history = [] }

eager-IsContext : IsContext eager
eager-IsContext = record {
  ended = λ w e. ⊥;
  seen = λ w e h. absurd (cc);
  observed = λ w e x h. h;
  stays = λ w e h. absurd h;
}

run_returns_example :
    (w' : ℕ) × (result : Orchestrator.Result) × (problem : Option RuntimeError) × (run eager false
        question 0
      ≡ some (w', result, problem))
    × IsStopped 3 result problem
run_returns_example = run_returns eager false eager-IsContext question 0 (omega arith)

run-deltas_example : run eager true question 0 ≡ run eager false question 0
unfolding exposes_tools register new_registry text_eq definitions
run-deltas_example = run-deltas eager question 0 refl

abbrev early : List (List ℕ)
early = (1 ∷ []) ∷ [] ∷ (2 ∷ []) ∷ []

abbrev after : List ℕ
after = 3 ∷ []

start_recording-add_all_runs :
    start_recording (add_all (new_pre_roll_buffer 1) early) after ≡ 2 ∷ 3 ∷ []
unfolding Preroll.concat
start_recording-add_all_runs = start_recording-add_all 1 early after

abbrev searched : ToolTrace
searched = record {
  call_id = codes "a";
  tool = codes "web_search";
  success = true;
  error_code = none;
}

abbrev failed : ToolTrace
failed = record searched { success = false; error_code = some tool_error }

abbrev seen_rounds : List RoundTrace
seen_rounds =
    record { number = 1; tools = searched ∷ failed ∷ []; stop_reason = none; error = [] }
    ∷ record {
      number = 2;
      tools = [];
      stop_reason = some Orchestrator.stop_direct_reply;
      error = [];
    }
    ∷ []

observe_all_counts_runs :
    let m = observe_all seen_rounds new_metrics_observer in
    (m.rounds ≡ 2)
    × (m.tool_rounds ≡ 1)
    × (lookup text_eq (codes "web_search") m.tool_calls ≡ 2)
    × (lookup text_eq (codes "web_search") m.tool_failures ≡ 1)
unfolding text_eq
observe_all_counts_runs = observe_all_counts seen_rounds (codes "web_search")
