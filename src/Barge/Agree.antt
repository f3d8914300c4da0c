-- ===== src/Barge/Agree.antt =====
-- The word splitter of internal/barge/policy.go against that of internal/wake/detector.go.
use xarlatan.Common.{
  ℕ, ◌≡◌, refl, true, List, [], ◌∷◌, ◌++◌, map, arith, if◌then◌else◌, Bool-cases, inl, inr,
  append-nil,
}
use xarlatan.Common.Text.{Text}
use xarlatan.Unicode.{Unicode, is_word, fold_accent, IsRegular}
use xarlatan.Wake.{
  Token, normalize_word, close_token, tokenize_from, tokenize, keep_words, normalize_rune,
}
use xarlatan.Wake
use xarlatan.Wake.Words.{normalize_word-append, keep_words-append, normalize_rune_word}
use xarlatan.Barge.{flush_word, words_from, normalized_words}

words_from-cons :
    (u : Unicode) (words : List Text) (current : Text) (r : ℕ) (rs : Text)
    → words_from u words current (r ∷ rs)
      ≡ words_from u
          (if is_word u r then words else flush_word words current)
          (if is_word u r then current ++ fold_accent r ∷ [] else [])
          rs
unfolding words_from
words_from-cons u words current r rs = refl

tokenize_from-cons :
    (u : Unicode) (ts : List Token) (raw : Text) (r : ℕ) (rs : Text)
    → tokenize_from u ts raw (r ∷ rs)
      ≡ tokenize_from u
          (if is_word u r then ts else close_token u ts raw)
          (if is_word u r then raw ++ r ∷ [] else [])
          rs
unfolding tokenize_from
tokenize_from-cons u ts raw r rs = refl

normalize_word_one : (u : Unicode) (r : ℕ) → normalize_word u (r ∷ []) ≡ normalize_rune u r
unfolding normalize_word
normalize_word_one u r = append-nil (normalize_rune u r)

normalize_word-nil : (u : Unicode) → normalize_word u [] ≡ []
unfolding normalize_word
normalize_word-nil u = refl

-- Where a token is closed, the other splitter puts its word away.
close-flush :
    (u : Unicode) (ts : List Token) (raw : Text)
    → flush_word (keep_words u ts) (normalize_word u raw) ≡ keep_words u (close_token u ts raw)
unfolding flush_word close_token
close-flush u ts [] = rw normalize_word-nil
close-flush u ts (r ∷ raw) =
    rw (keep_words-append u ts _)
      (unfold keep_words in ground (arith, append-nil (keep_words u ts)))

module _ (u : Unicode) (g : IsRegular u) where
  grow :
      (raw : Text) (r : ℕ)
      → is_word u r ≡ true
      → normalize_word u raw ++ fold_accent (u.to_lower r) ∷ [] ≡ normalize_word u (raw ++ r ∷ [])
  grow raw r h =
      rw (normalize_word-append u raw (r ∷ []), normalize_word_one u r, normalize_rune_word u g r h)

  words_from-tokenize_from :
      (ts : List Token) (raw text : Text)
      → words_from u (keep_words u ts) (normalize_word u raw) (map u.to_lower text)
        ≡ keep_words u (tokenize_from u ts raw text)
  unfolding normalize_word
  words_from-tokenize_from ts raw [] = unfold words_from tokenize_from in close-flush u ts raw
  words_from-tokenize_from ts raw (r ∷ rs) = elim (Bool-cases (is_word u r)) [
    | inl word ↦
        rw (words_from-cons, tokenize_from-cons, g.is_word-to_lower r, word, grow raw r word)
          (words_from-tokenize_from ts (raw ++ r ∷ []) rs)
    | inr other ↦
        rw
          (
            words_from-cons,
            tokenize_from-cons,
            g.is_word-to_lower r,
            other,
            close-flush u ts raw,
            ← normalize_word-nil u,
          )
          (words_from-tokenize_from (close_token u ts raw) [] rs)
  ]

  -- The two packages split and normalize a text into the same words, given what they rely on of
  -- Go's tables: lowering keeps letters and digits apart from the rest, and vowels are letters.
  pub normalized_words_agree :
      (text : Text) → normalized_words u text ≡ Wake.normalized_words u text
  unfolding normalized_words Wake.normalized_words normalize_word
  normalized_words_agree text = rw (← normalize_word-nil u) (words_from-tokenize_from [] [] text)
