-- ===== src/Barge.antt =====
-- internal/barge/policy.go: which transcripts may interrupt the assistant. A nil policy or a policy
-- with no matcher is `none` in `confirm`.
pub mod Agree
pub mod Confirm
use xarlatan.Common.{
  ℕ, Bool, true, false, ◌&&◌, ◌||◌, Option, none, some, List, [], ◌∷◌, ◌++◌, map, if◌then◌else◌,
}
use xarlatan.Common.Text.{Text, codes, is_empty, text_eq}
use xarlatan.Unicode.{Unicode, is_word, fold_accent}

-- The `flush` closure of `normalizedWords`: the words with the current one behind them.
unfoldable pub flush_word : List Text → Text → List Text
flush_word words current = if is_empty current then words else words ++ current ∷ []

-- The range loop of `normalizedWords`, over the lowered text.
unfoldable pub words_from : Unicode → List Text → Text → Text → List Text
unfolding flush_word
words_from u words current [] = flush_word words current
words_from u words current (r ∷ rs) =
    words_from u (if is_word u r then words else flush_word words current)
      (if is_word u r then current ++ fold_accent r ∷ [] else []) rs

-- `strings.ToLower` lowers each code point.
unfoldable pub normalized_words : Unicode → Text → List Text
unfolding words_from
normalized_words u text = words_from u [] [] (map u.to_lower text)

-- The keys of `explicitStops`.
abbrev pub explicit_stops : List Text
explicit_stops =
    codes "para"
    ∷ codes "parate"
    ∷ codes "detente"
    ∷ codes "deten"
    ∷ codes "cancela"
    ∷ codes "cancelar"
    ∷ codes "basta"
    ∷ codes "silencio"
    ∷ codes "callate"
    ∷ []

-- `_, ok := explicitStops[word]`
unfoldable pub listed : List Text → Text → Bool
listed [] word = false
listed (w ∷ ws) word = text_eq w word || listed ws word

-- What `Confirm` says of the words of a command.
unfoldable pub opens_with_stop : List Text → Bool
unfolding listed
opens_with_stop [] = false
opens_with_stop (word ∷ words) = listed explicit_stops word

-- `Confirm`, over the matcher's `Detect`.
unfoldable pub confirm : Unicode → Option (Text → Option Text) → Text → Bool
unfolding opens_with_stop normalized_words
confirm u none transcript = false
confirm u (some detect) transcript = elim (detect transcript) [
  | none ↦ false
  | some command ↦ opens_with_stop (normalized_words u command)
]
