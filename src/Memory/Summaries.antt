-- ===== src/Memory/Summaries.antt =====
-- `ExtractiveSummarizer` of internal/memory/memory.go, and the bound on summaries.
use xarlatan.Common.{
  ℕ, ◌+◌, ◌-◌, ◌≤◌, true, false, Option, none, some, List, [], ◌∷◌, ◌++◌, arith, if◌then◌else◌,
}
use xarlatan.Common.Text.{
  Text, codes, byte_length, rune_len, is_empty, trim_left, trim_right, cons_trimmed, trim_space,
}
use xarlatan.Tools.Executor.{ToolCall}
use xarlatan.Orchestrator.{Message}
use xarlatan.Memory.{Machine, fit, truncate_utf8}

-- `strings.Join`
unfoldable pub join_with : Text → List Text → Text
join_with separator [] = []
join_with separator (t ∷ []) = t
join_with separator (t ∷ ts) = t ++ separator ++ join_with separator ts

-- The names of the calls, the blank ones left out.
unfoldable pub call_names : List ToolCall → List Text
call_names [] = []
call_names (call ∷ calls) =
    let name = trim_space call.name in
    let rest = call_names calls in if is_empty name then rest else name ∷ rest

-- What a message says in the summary: its calls, where it has named ones, or its content.
unfoldable pub content_of : Message → Text
unfolding join_with call_names
content_of message =
    let names = call_names message.tool_calls in
    if is_empty names
    then trim_space message.content
    else codes "tool calls: " ++ join_with (codes ", ") names

module _ {W : Type 0} (m : Machine W) where
  -- The loop over the dropped messages, which looks at the context before each; `none` where it ended.
  unfoldable pub summary_parts : List Text → List Message → W → W × Option (List Text)
  unfolding content_of
  summary_parts parts [] w = (w, some parts)
  summary_parts parts (message ∷ messages) w =
      let (w', ended) = m.ctx_err w in
      let content = content_of message in
      let part = message.role ++ codes ": " ++ content in
      elim ended [
        | true ↦ (w', none)
        | false ↦ summary_parts (if is_empty content then parts else parts ++ part ∷ []) messages w'
      ]

  unfoldable pub finish_summary : W × Option (List Text) → ℕ → W × Option Text
  unfolding join_with truncate_utf8
  finish_summary (w, none) max_bytes = (w, none)
  finish_summary (w, some parts) max_bytes =
      (w, some (truncate_utf8 (join_with (codes " | ") parts) max_bytes))

  unfoldable pub summarize : Text → List Message → ℕ → W → W × Option Text
  unfolding summary_parts finish_summary
  summarize previous dropped max_bytes w =
      let (w', ended) = m.ctx_err w in
      let old = trim_space previous in
      let first = if is_empty old then [] else (codes "previous: " ++ old) ∷ [] in
      elim ended [
        | true ↦ (w', none)
        | false ↦ finish_summary (summary_parts first dropped w') max_bytes
      ]

fit-bound : (max : ℕ) (s : Text) → byte_length (fit max s) ≤ max
unfolding fit byte_length
fit-bound max [] = omega arith
fit-bound max (c ∷ cs) = ground (arith, fit-bound (max - rune_len c) cs)

trim_left-bound : (s : Text) → byte_length (trim_left s) ≤ byte_length s
unfolding trim_left byte_length
trim_left-bound [] = omega arith
trim_left-bound (c ∷ cs) = ground (arith, trim_left-bound cs)

cons_trimmed-bound :
    (c : ℕ) (s : Text) → byte_length (cons_trimmed c s) ≤ rune_len c + byte_length s
unfolding byte_length
cons_trimmed-bound c [] = ground arith
cons_trimmed-bound c (d ∷ ds) = omega arith

trim_right-bound : (s : Text) → byte_length (trim_right s) ≤ byte_length s
unfolding trim_right byte_length
trim_right-bound [] = omega arith
trim_right-bound (c ∷ cs) = omega (arith, cons_trimmed-bound c (trim_right cs), trim_right-bound cs)

trim_space-bound : (s : Text) → byte_length (trim_space s) ≤ byte_length s
unfolding trim_space
trim_space-bound s = omega (arith, trim_left-bound s, trim_right-bound (trim_left s))

-- A truncated text has at most the bytes that it is given.
pub truncate_utf8-bound : (s : Text) (max : ℕ) → byte_length (truncate_utf8 s max) ≤ max
unfolding truncate_utf8 byte_length
truncate_utf8-bound s max = ground (arith, trim_space-bound (fit max s), fit-bound max s)
