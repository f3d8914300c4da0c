-- ===== src/Wake.antt =====
-- internal/wake/detector.go: the wake phrase detector. A nil receiver is not modelled.
pub mod Words
pub mod Match
pub mod Compile
use xarlatan.Common.{
  ℕ, zero, suc, ◌+◌, ◌-◌, Bool, true, false, not, ◌&&◌, ◌||◌, Option, none, some, List, [], ◌∷◌,
  ◌++◌, map, ltb, leb, if◌then◌else◌, length, take, drop,
}
use xarlatan.Common.Text.{Text, trim_space, is_empty, text_eq}
use xarlatan.Unicode.{Unicode, is_word, fold_accent}

pub record Token : Type 0 where
  pub raw : Text
  pub normalized : Text

-- `strings.Join(parts, " ")`
unfoldable pub join : List Text → Text
join [] = []
join (p ∷ []) = p
join (p ∷ q ∷ ps) = p ++ b' ' ∷ join (q ∷ ps)

module _ (u : Unicode) where
  -- One code point of `normalizeWord`: what it writes.
  unfoldable pub normalize_rune : ℕ → Text
  normalize_rune r = let r' = fold_accent (u.to_lower r) in if is_word u r' then r' ∷ [] else []

  unfoldable pub normalize_word : Text → Text
  unfolding normalize_rune
  normalize_word [] = []
  normalize_word (r ∷ rs) = normalize_rune r ++ normalize_word rs

  -- Closing the word that starts at `start`; it is empty where `start` is negative.
  unfoldable pub close_token : List Token → Text → List Token
  close_token tokens raw =
      if is_empty raw
      then tokens
      else tokens ++ record { raw = raw; normalized = normalize_word raw } ∷ []

  -- The range loop of `tokenize`; `raw` is the text from `start` up to here.
  unfoldable pub tokenize_from : List Token → Text → Text → List Token
  unfolding close_token
  tokenize_from tokens raw [] = close_token tokens raw
  tokenize_from tokens raw (r ∷ rs) =
      tokenize_from (if is_word u r then tokens else close_token tokens raw)
        (if is_word u r then raw ++ r ∷ [] else []) rs

  unfoldable pub tokenize : Text → List Token
  unfolding tokenize_from
  tokenize text = tokenize_from [] [] text

  -- The loop of `normalizedWords` over the tokens.
  unfoldable pub keep_words : List Token → List Text
  keep_words [] = []
  keep_words (t ∷ ts) =
      if is_empty t.normalized then keep_words ts else t.normalized ∷ keep_words ts

  unfoldable pub normalized_words : Text → List Text
  unfolding keep_words tokenize
  normalized_words text = keep_words (tokenize text)

-- `tokenSequenceMatches` on the tokens from `start` on. Where they end before the phrase the source
-- would index out of range; its callers see to it that they do not.
unfoldable pub sequence_matches : List Token → List Text → Bool
sequence_matches tokens [] = true
sequence_matches [] (word ∷ words) = false
sequence_matches (t ∷ ts) (word ∷ words) = text_eq t.normalized word && sequence_matches ts words

unfoldable pub token_sequence_matches : List Token → ℕ → List Text → Bool
unfolding sequence_matches
token_sequence_matches tokens start phrase = sequence_matches (drop start tokens) phrase

unfoldable pub raws : List Token → List Text
raws [] = []
raws (t ∷ ts) = t.raw ∷ raws ts

-- The command: the words outside the phrase, or the trimmed transcript where there are none.
unfoldable pub command_of : Text → List Token → ℕ → ℕ → Text
unfolding raws join
command_of transcript tokens start end =
    let command = join (raws (take start tokens ++ drop end tokens)) in
    if is_empty command then trim_space transcript else command

-- The guard in the loop over `start`: the phrase stands there, near the beginning or at the end.
unfoldable pub accepts : List Token → List Text → ℕ → Bool
unfolding token_sequence_matches
accepts tokens phrase start =
    token_sequence_matches tokens start phrase
    && not (ltb 2 start && ltb 1 (length tokens - (start + length phrase)))

-- The loop over `start`, with the count of the starts that are left.
unfoldable pub scan_starts : Text → List Token → List Text → ℕ → ℕ → Option Text
scan_starts transcript tokens phrase zero start = none
scan_starts transcript tokens phrase (suc left) start =
    let later = scan_starts transcript tokens phrase left (start + 1) in
    if accepts tokens phrase start
    then some (command_of transcript tokens start (start + length phrase))
    else later

-- One round of the loop over the phrases: a phrase longer than the transcript is skipped.
unfoldable pub scan_phrase : Text → List Token → List Text → Option Text
unfolding scan_starts
scan_phrase transcript tokens phrase =
    if ltb (length tokens) (length phrase)
    then none
    else scan_starts transcript tokens phrase (length tokens + 1 - length phrase) 0

unfoldable pub scan_phrases : Text → List Token → List (List Text) → Option Text
unfolding scan_phrase
scan_phrases transcript tokens [] = none
scan_phrases transcript tokens (phrase ∷ phrases) = elim (scan_phrase transcript tokens phrase) [
  | none ↦ scan_phrases transcript tokens phrases
  | some command ↦ some command
]

pub record PhraseDetector : Type 0 where
  pub phrases : List (List Text)

-- `Detect`; `none` is "no match".
unfoldable pub detect : Unicode → PhraseDetector → Text → Option Text
unfolding scan_phrases tokenize
detect u d transcript = scan_phrases transcript (tokenize u transcript) d.phrases

-- `_, ok := seen[key]`
unfoldable pub seen_key : List Text → Text → Bool
seen_key [] key = false
seen_key (k ∷ ks) key = text_eq k key || seen_key ks key

-- The loop of `NewPhraseDetector`; `none` is the error that an input has no words.
unfoldable pub compile_phrases :
    Unicode → List Text → List (List Text) → List Text → Option (List (List Text))
compile_phrases u seen phrases [] = some phrases
compile_phrases u seen phrases (input ∷ inputs) =
    let words = normalized_words u input in
    let key = join words in
    let old = seen_key seen key in
    let rest =
      compile_phrases u (if old then seen else key ∷ seen)
        (if old then phrases else phrases ++ words ∷ []) inputs in
    if is_empty words then none else rest

unfoldable pub new_phrase_detector : Unicode → Text → List Text → Option PhraseDetector
unfolding compile_phrases
new_phrase_detector u primary aliases = elim (compile_phrases u [] [] (primary ∷ aliases)) [
  | none ↦ none
  | some phrases ↦ some (record { phrases = phrases })
]
