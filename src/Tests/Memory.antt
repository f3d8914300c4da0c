-- ===== src/Tests/Memory.antt =====
-- A small memory whose messages count the bytes of their contents.
use xarlatan.Common.{
  ℕ, ◌+◌, ◌≡◌, refl, false, none, some, List, [], ◌∷◌, ◌++◌, arith, All, some_inj,
}
use xarlatan.Common.Text.{
  codes, byte_length, rune_len, text_eq, trim_space, trim_right, trim_left, is_space,
}
use xarlatan.Common.Results.{ok}
use xarlatan.Orchestrator.{Message}
use xarlatan.Memory.{
  Config, Manager, Machine, plain, build_history, history, flatten_turns, summary_message,
  summary_messages, repeat_x,
}
use xarlatan.Memory.Turns.{
  split_turns, split_from, add_message, add_user, add_assistant, finish, role_of,
}
use xarlatan.Memory.Turns.Shape.{IsTurn, split_turns_lem}
use xarlatan.Memory.Bounded.{IsManager, IsMeasure}
use xarlatan.Memory.Kept.{Updates, Prepares, update-Updates, prepare-Prepares}
use xarlatan.Memory.Cut.{prepare_drops_all}
use xarlatan.Memory.Reached.{made, updated, Reached-IsManager}
use xarlatan.Memory.Update.{
  new, update, prepare, cut_prepare, evict, use_summary, prepare_reserve, measured,
}

abbrev content_bytes : List Message → ℕ
content_bytes [] = 0
content_bytes (m ∷ ms) = byte_length m.content + content_bytes ms

abbrev pub letters : Machine ℕ
letters = record { ctx_err = λ n. (n, false); measure = λ ms. some (content_bytes ms) }

content_bytes-append :
    (xs ys : List Message) → content_bytes (xs ++ ys) ≡ content_bytes xs + content_bytes ys
content_bytes-append [] ys = omega arith
content_bytes-append (x ∷ xs) ys = omega (arith, content_bytes-append xs ys)

pub letters-IsMeasure : IsMeasure letters
letters-IsMeasure = record {
  shorter =
      λ xs ys n e. (content_bytes xs, refl, omega (arith, content_bytes-append xs ys, some_inj e));
}

abbrev asked_hi : List Message
asked_hi = plain (codes "user") (codes "hi") ∷ plain (codes "assistant") (codes "ho") ∷ []

abbrev pub asked_hey : List Message
asked_hey = plain (codes "user") (codes "hey") ∷ plain (codes "assistant") (codes "you") ∷ []

abbrev small : Config
small = record { max_history_bytes = 60; max_summary_bytes = 40 }

-- A summarizer that answers with one letter, and a memory with an old summary and one turn.
abbrev pub remembering : Manager ℕ
remembering = record {
  config = small;
  system_prompt = codes "s";
  summarizer = some (λ old dropped bound n. (n, some (codes "d")));
  summary = codes "old";
  turns = asked_hi ∷ [];
}

split_turns_runs : split_turns (asked_hi ++ asked_hey) ≡ ok (asked_hi ∷ asked_hey ∷ [])
unfolding split_turns split_from add_message add_user add_assistant finish role_of text_eq
split_turns_runs = refl

split_turns_lem_example :
    All IsTurn (asked_hi ∷ asked_hey ∷ [])
    × (flatten_turns (asked_hi ∷ asked_hey ∷ []) ≡ asked_hi ++ asked_hey)
split_turns_lem_example =
    split_turns_lem (asked_hi ++ asked_hey) (asked_hi ∷ asked_hey ∷ []) split_turns_runs

pub remembering-IsManager : IsManager letters remembering
unfolding history build_history summary_messages summary_message flatten_turns byte_length rune_len
    trim_space trim_right trim_left is_space
remembering-IsManager = record {
  base = (1, refl, omega arith);
  bounded = (25, refl, omega arith);
  summary_bound = omega arith;
  whole = (
    (split_turns_lem (asked_hi ++ asked_hey) (asked_hi ∷ asked_hey ∷ []) split_turns_runs).0.0,
    tt,
  );
}

abbrev told : List Message
told = plain (codes "system") (codes "s") ∷ summary_message (codes "old") ∷ asked_hi ++ asked_hey

update-Updates_example : Updates letters remembering told (update letters remembering told 0)
update-Updates_example = update-Updates letters remembering told 0 remembering-IsManager

prepare-Prepares_example :
    Prepares letters remembering
      (plain (codes "user") (codes "hello") ∷ [])
      (prepare letters remembering (codes "hello") 0)
prepare-Prepares_example =
    prepare-Prepares letters letters-IsMeasure remembering (codes "hello") 0 remembering-IsManager

abbrev hello : List Message
hello = plain (codes "user") (codes "hello") ∷ []

-- The turn would fit: without a summary the prompt has ten bytes.
prepare_drops_all_example :
    ◌≡◌ {A = List (List Message) × List (List Message)} (asked_hi ∷ [], []) (remembering.turns, [])
unfolding use_summary cut_prepare evict build_history summary_messages summary_message flatten_turns
    byte_length rune_len prepare_reserve repeat_x measured trim_space trim_right trim_left is_space
prepare_drops_all_example =
    prepare_drops_all letters remembering hello (asked_hi ∷ [], []) refl refl

abbrev fresh : Manager ℕ
fresh = record {
  config = small;
  system_prompt = codes "s";
  summarizer = none;
  summary = [];
  turns = [];
}

abbrev first_told : List Message
first_told = plain (codes "system") (codes "s") ∷ asked_hi ++ asked_hey

new_runs : new letters small (codes "s") none ≡ ok fresh
unfolding new measured build_history summary_messages flatten_turns byte_length rune_len trim_space
    trim_right trim_left is_space
new_runs = refl

Reached-IsManager_example : IsManager letters (update letters fresh first_told 0).0
Reached-IsManager_example =
    Reached-IsManager letters letters-IsMeasure (update letters fresh first_told 0).0
      (updated first_told 0 (made small (codes "s") none fresh new_runs))
