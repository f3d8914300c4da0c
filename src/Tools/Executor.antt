-- ===== src/Tools/Executor.antt =====
-- internal/tools/executor.go: the execution of the calls of one round. Durations and the log of the
-- process are not modelled; the lines that a record carries are.
use xarlatan.Common.{Bool, true, false, Option, none, some, List, [], ◌∷◌, ◌++◌, map, if◌then◌else◌}
use xarlatan.Common.Text.{Text, codes}
use xarlatan.Tools.{Result, Tool, Registry, get, is_denied}

pub record ToolCall : Type 0 where
  pub id : Text
  pub call_type : Text
  pub name : Text
  pub arguments : Text

pub record ToolMessage : Type 0 where
  pub role : Text
  pub tool_call_id : Text
  pub content : Text

pub data ExecutionErrorCode : Type 0 where
  unknown_tool denied_tool tool_error cancelled : ExecutionErrorCode

pub record ExecutionRecord : Type 0 where
  pub call : ToolCall
  pub message : ToolMessage
  pub log : Text
  pub error_code : Option ExecutionErrorCode

unfoldable pub success : ExecutionRecord → Bool
success r = elim r.error_code [ none ↦ true | some e ↦ false ]

-- Why a context ended.
pub data ContextError : Type 0 where
  was_cancelled deadline_exceeded : ContextError

-- What the executor takes from the machine: a look at the context, and `%q` of package fmt.
pub record Machine (W : Type 0) : Type 0 where
  pub ctx_err : W → W × Option ContextError
  pub quote : Text → Text

unfoldable pub tool_message : ToolCall → Text → ToolMessage
tool_message call content = record {
  role = codes "tool";
  tool_call_id = call.id;
  content = content;
}

-- The record of a call that was executed.
unfoldable pub executed : ToolCall → Result → Option ContextError → ExecutionRecord
unfolding tool_message
executed call result (some e) = record {
  call = call;
  message = tool_message call result.content;
  log = codes "✗ " ++ call.name ++ codes " — cancelled";
  error_code = some cancelled;
}
executed call result none = record {
  call = call;
  message = tool_message call result.content;
  log = if result.is_error then codes "✗ " ++ call.name else codes "✓ " ++ call.name;
  error_code = if result.is_error then some tool_error else none;
}

unfoldable pub join_lines : List Text → Text
join_lines [] = []
join_lines (l ∷ []) = l
join_lines (l ∷ ls) = l ++ 10 ∷ join_lines ls

module _ {W : Type 0} (m : Machine W) where
  -- The record of a call that was not executed for want of a tool.
  unfoldable pub not_found : ToolCall → ExecutionRecord
  unfolding tool_message
  not_found call = record {
    call = call;
    message = tool_message call (codes "ERROR: unknown tool " ++ m.quote call.name);
    log = codes "✗ " ++ call.name ++ codes " — not found";
    error_code = some unknown_tool;
  }

  unfoldable pub denied_by_policy : ToolCall → ExecutionRecord
  unfolding tool_message
  denied_by_policy call = record {
    call = call;
    message =
        tool_message call (codes "ERROR: tool " ++ m.quote call.name ++ codes " denied by policy");
    log = codes "✗ " ++ call.name ++ codes " — denied";
    error_code = some denied_tool;
  }

  -- The execution itself, and the look at the context behind it.
  unfoldable pub execute_tool : Tool W → ToolCall → W → W × ExecutionRecord
  unfolding executed
  execute_tool t call w =
      let (w', result) = t.execute call.arguments w in
      let (w'', ended) = m.ctx_err w' in (w'', executed call result ended)

  -- With a registry.
  unfoldable pub dispatch : Registry W → ToolCall → W → W × ExecutionRecord
  unfolding execute_tool not_found denied_by_policy
  dispatch r call w =
      if is_denied r call.name
      then (w, denied_by_policy call)
      else elim (get r call.name) [ none ↦ (w, not_found call) | some t ↦ execute_tool t call w ]

  -- `none` is the missing registry.
  unfoldable pub run_detailed : Option (Registry W) → ToolCall → W → W × ExecutionRecord
  unfolding not_found dispatch
  run_detailed none call w = (w, not_found call)
  run_detailed (some r) call w = dispatch r call w

  unfoldable pub run_all_detailed :
      Option (Registry W) → List ToolCall → W → W × List ExecutionRecord
  unfolding run_detailed
  run_all_detailed r [] w = (w, [])
  run_all_detailed r (call ∷ calls) w =
      let (w', before) = m.ctx_err w in
      elim before [
        | some e ↦ (w', [])
        | none ↦
            let (w'', one) = run_detailed r call w' in
            let (w''', behind) = m.ctx_err w'' in
            elim behind [
              | some e ↦ (w''', one ∷ [])
              | none ↦ let (last, more) = run_all_detailed r calls w''' in (last, one ∷ more)
            ]
      ]

  unfoldable pub run_all : Option (Registry W) → List ToolCall → W → W × List ToolMessage × Text
  unfolding run_all_detailed join_lines
  run_all r calls w =
      let (w', records) = run_all_detailed r calls w in
      (
        w',
        map (λ (x : ExecutionRecord). x.message) records,
        join_lines (map (λ (x : ExecutionRecord). x.log) records),
      )
