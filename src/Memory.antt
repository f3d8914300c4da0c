-- ===== src/Memory.antt =====
-- internal/memory: the bounded, role-safe conversation history of memory.go and prepare.go. Messages
-- are copied where the source clones them, so a clone is the message. A nil manager and the lock are
-- not modelled.
pub mod Turns
pub mod Summaries
pub mod Update
pub mod Cut
pub mod Bounded
pub mod Kept
pub mod Reached
use xarlatan.Common.{
  ℕ, zero, suc, ◌+◌, ◌-◌, Bool, true, false, not, ◌||◌, Option, none, some, List, [], ◌∷◌, ◌++◌,
  ltb, leb, if◌then◌else◌, length,
}
use xarlatan.Common.Text.{Text, codes, byte_length, rune_len, is_empty, trim_space}
use xarlatan.Orchestrator.{Message}

pub data ErrorCode : Type 0 where
  invalid_config invalid_history budget_exceeded summarizer_error cancelled : ErrorCode

pub record Config : Type 0 where
  pub max_history_bytes : ℕ
  pub max_summary_bytes : ℕ

pub record Trace : Type 0 where
  pub input_messages : ℕ
  pub input_bytes : ℕ
  pub output_messages : ℕ
  pub output_bytes : ℕ
  pub dropped_turns : ℕ
  pub dropped_messages : ℕ
  pub summary_generated : Bool
  pub summary_bytes : ℕ

pub record Snapshot : Type 0 where
  pub history : List Message
  pub summary : Text
  pub trace : Trace

-- A summarizer is given the previous summary, the dropped messages and the bound; `none` is an error.
abbrev pub Summarizer : Type 0 → Type 0
Summarizer W = Text → List Message → ℕ → W → W × Option Text

pub record Manager (W : Type 0) : Type 0 where
  pub config : Config
  pub system_prompt : Text
  pub summarizer : Option (Summarizer W)
  pub summary : Text
  pub turns : List (List Message)

-- What the manager takes from the machine: a look at the context, which says whether it has ended,
-- and `Measure`, the length of the JSON that encoding/json makes of messages.
pub record Machine (W : Type 0) : Type 0 where
  pub ctx_err : W → W × Bool
  pub measure : List Message → Option ℕ

abbrev pub plain : Text → Text → Message
plain role content = record { role = role; content = content; tool_calls = []; tool_call_id = [] }

unfoldable pub summary_message : Text → Message
summary_message summary = plain (codes "user") (codes "[memory-summary]\n" ++ summary)

unfoldable pub flatten_turns : List (List Message) → List Message
flatten_turns [] = []
flatten_turns (turn ∷ turns) = turn ++ flatten_turns turns

unfoldable pub count_turn_messages : List (List Message) → ℕ
count_turn_messages [] = 0
count_turn_messages (turn ∷ turns) = length turn + count_turn_messages turns

-- The summary as a list of messages: none where it is blank.
unfoldable pub summary_messages : Text → List Message
unfolding summary_message
summary_messages summary =
    if is_empty (trim_space summary) then [] else summary_message summary ∷ []

unfoldable pub build_history : Text → Text → List (List Message) → List Message
unfolding summary_messages flatten_turns
build_history system_prompt summary turns =
    plain (codes "system") system_prompt ∷ summary_messages summary ++ flatten_turns turns

-- `History`
unfoldable pub history : {W : Type 0} → Manager W → List Message
unfolding build_history
history m = build_history m.system_prompt m.summary m.turns

-- `Reset`
unfoldable pub reset : {W : Type 0} → Manager W → Manager W
reset m = record m { summary = []; turns = [] }

-- `strings.Repeat("x", n)`
unfoldable pub repeat_x : ℕ → Text
repeat_x zero = []
repeat_x (suc n) = b'x' ∷ repeat_x n

-- The longest prefix of whole code points that fits into `max` bytes: what is left of
-- `value[:maxBytes]` when bytes are taken off until it is valid.
unfoldable pub fit : ℕ → Text → Text
unfolding rune_len
fit max [] = []
fit max (c ∷ cs) =
    let rest = fit (max - rune_len c) cs in if leb (rune_len c) max then c ∷ rest else []

unfoldable pub truncate_utf8 : Text → ℕ → Text
unfolding fit byte_length
truncate_utf8 value max_bytes =
    if leb max_bytes 0 || is_empty value
    then []
    else if leb (byte_length value) max_bytes
    then value
    else trim_space (fit max_bytes value)
