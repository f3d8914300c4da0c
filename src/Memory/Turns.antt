-- ===== src/Memory/Turns.antt =====
-- `conversationMessages` and `splitTurns` of internal/memory/memory.go.
pub mod Shape
use xarlatan.Common.{
  ℕ, Bool, true, false, not, ◌&&◌, ◌||◌, Option, none, some, List, [], ◌∷◌, ◌++◌, if◌then◌else◌,
}
use xarlatan.Common.Text.{Text, codes, is_empty, text_eq, trim_space}
use xarlatan.Common.Results.{Result, ok, err, ◌>>=◌, ◌>>◌, fail_if}
use xarlatan.Tools.Executor.{ToolCall}
use xarlatan.Orchestrator.{Message}
use xarlatan.Memory.{ErrorCode, invalid_history, summary_message}

-- The roles that the sources compare with.
pub data Role : Type 0 where
  user assistant tool system unsupported : Role

unfoldable pub role_of : Message → Role
role_of m =
    if text_eq m.role (codes "user")
    then user
    else if text_eq m.role (codes "assistant")
    then assistant
    else if text_eq m.role (codes "tool")
    then tool
    else if text_eq m.role (codes "system")
    then system
    else unsupported

-- Neither `ToolCallID` nor `ToolCalls` is set.
unfoldable pub has_tool_fields : Message → Bool
has_tool_fields m = not (is_empty m.tool_call_id) || not (is_empty m.tool_calls)

-- The conversation behind the summary that the manager has put there itself.
unfoldable pub skip_summary : Text → List Message → List Message
unfolding has_tool_fields summary_message
skip_summary summary [] = []
skip_summary summary (candidate ∷ rest) =
    let expected = summary_message summary in
    if not (is_empty summary)
      && text_eq candidate.role expected.role
      && text_eq candidate.content expected.content
      && not (has_tool_fields candidate)
    then rest
    else candidate ∷ rest

unfoldable pub has_system : List Message → Bool
unfolding role_of
has_system [] = false
has_system (m ∷ ms) = text_eq m.role (codes "system") || has_system ms

unfoldable pub conversation_messages : Text → Text → List Message → Result ErrorCode (List Message)
unfolding skip_summary has_system has_tool_fields
conversation_messages system_prompt summary [] = err invalid_history
conversation_messages system_prompt summary (first ∷ rest) = do
  fail_if
      (not (text_eq first.role (codes "system"))
        || not (text_eq first.content system_prompt)
        || has_tool_fields first)
      invalid_history
  let conversation = skip_summary summary rest
  fail_if (has_system conversation) invalid_history
  ok conversation

-- `pending`, the set of the ids of the calls that wait for their results.
unfoldable pub waits : List Text → Text → Bool
waits [] id = false
waits (p ∷ pending) id = text_eq p id || waits pending id

unfoldable pub delete : List Text → Text → List Text
delete [] id = []
delete (p ∷ pending) id = let rest = delete pending id in if text_eq p id then rest else p ∷ rest

-- The loop over the calls of an assistant message.
unfoldable pub enter_calls : List Text → List ToolCall → Result ErrorCode (List Text)
unfolding waits
enter_calls pending [] = ok pending
enter_calls pending (call ∷ calls) = do
  let id = trim_space call.id
  fail_if (is_empty id) invalid_history
  fail_if (waits pending id) invalid_history
  enter_calls (pending ++ id ∷ []) calls

-- The variables of `splitTurns`.
pub record Split : Type 0 where
  pub turns : List (List Message)
  pub current : List Message
  pub pending : List Text

-- The closure `finish`.
unfoldable pub finish : Split → Result ErrorCode Split
finish s = do
  fail_if (not (is_empty s.pending)) invalid_history
  ok (
      if is_empty s.current
      then s
      else record s { turns = s.turns ++ s.current ∷ []; current = [] })

-- The cases of the switch.
unfoldable pub add_user : Split → Message → Result ErrorCode Split
unfolding has_tool_fields finish
add_user s m = do
  fail_if (has_tool_fields m) invalid_history
  s' ← if is_empty s.current then ok s else finish s
  ok (record s' { current = s'.current ++ m ∷ [] })

unfoldable pub add_assistant : Split → Message → Result ErrorCode Split
unfolding enter_calls
add_assistant s m = do
  fail_if (is_empty s.current) invalid_history
  fail_if (not (is_empty s.pending)) invalid_history
  fail_if (not (is_empty m.tool_call_id)) invalid_history
  pending ← enter_calls s.pending m.tool_calls
  ok (record s { current = s.current ++ m ∷ []; pending = pending })

unfoldable pub add_tool : Split → Message → Result ErrorCode Split
unfolding waits delete
add_tool s m = do
  fail_if (is_empty s.current) invalid_history
  fail_if (not (is_empty m.tool_calls)) invalid_history
  let id = trim_space m.tool_call_id
  fail_if (is_empty id) invalid_history
  fail_if (not (waits s.pending id)) invalid_history
  ok (record s { current = s.current ++ m ∷ []; pending = delete s.pending id })

unfoldable pub add_message : Role → Split → Message → Result ErrorCode Split
unfolding add_user add_assistant add_tool
add_message user s m = add_user s m
add_message assistant s m = add_assistant s m
add_message tool s m = add_tool s m
add_message system s m = err invalid_history
add_message unsupported s m = err invalid_history

unfoldable pub split_from : Split → List Message → Result ErrorCode Split
unfolding add_message role_of finish
split_from s [] = finish s
split_from s (m ∷ ms) = do s' ← add_message (role_of m) s m; split_from s' ms

unfoldable pub split_turns : List Message → Result ErrorCode (List (List Message))
unfolding split_from
split_turns ms = do
  s ← split_from (record { turns = []; current = []; pending = [] }) ms
  ok s.turns
