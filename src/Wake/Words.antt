-- ===== src/Wake/Words.antt =====
-- The tokens that internal/wake/detector.go finds.
use xarlatan.Common.{
  ℕ, ◌≡◌, refl, sym, ap, ◌∙◌, true, false, List, [], ◌∷◌, ◌++◌, map, arith, Bool-cases, inl, inr,
  append_assoc, All, All-append,
}
use xarlatan.Common.Text.{Text, is_empty}
use xarlatan.Unicode.{Unicode, is_word, fold_accent, IsRegular, is_word-fold_accent}
use xarlatan.Wake.{
  Token, normalize_rune, normalize_word, close_token, tokenize_from, tokenize, keep_words,
  normalized_words,
}

module _ (u : Unicode) where
  abbrev pub AllWord : Text → Type 0
  AllWord = All (λ r. is_word u r ≡ true)

  pub normalize_word-append :
      (s t : Text) → normalize_word u (s ++ t) ≡ normalize_word u s ++ normalize_word u t
  unfolding normalize_word
  normalize_word-append [] t = refl
  normalize_word-append (r ∷ s) t =
      rw (normalize_word-append s t)
        (sym (append_assoc (normalize_rune u r) (normalize_word u s) (normalize_word u t)))

  pub keep_words-append :
      (ts vs : List Token) → keep_words u (ts ++ vs) ≡ keep_words u ts ++ keep_words u vs
  unfolding keep_words
  keep_words-append [] vs = refl
  keep_words-append (t ∷ ts) vs = ground (arith, keep_words-append ts vs)

module _ (u : Unicode) (g : IsRegular u) where
  -- A letter or digit is normalized to one code point, of a word again.
  pub normalize_rune_word :
      (r : ℕ) → is_word u r ≡ true → normalize_rune u r ≡ fold_accent (u.to_lower r) ∷ []
  unfolding normalize_rune
  normalize_rune_word r h = rw (is_word-fold_accent u (u.to_lower r) g (g.is_word-to_lower r ∙ h))

  pub AllWord-normalize_word : (raw : Text) → AllWord u raw → AllWord u (normalize_word u raw)
  unfolding normalize_word
  AllWord-normalize_word [] h = tt
  AllWord-normalize_word (r ∷ rs) h = rw (normalize_rune_word r h.0) (
    is_word-fold_accent u (u.to_lower r) g (g.is_word-to_lower r ∙ h.0),
    AllWord-normalize_word rs h.1,
  )

  pub is_empty-normalize_word :
      (raw : Text) → AllWord u raw → is_empty (normalize_word u raw) ≡ is_empty raw
  unfolding normalize_word
  is_empty-normalize_word [] h = refl
  is_empty-normalize_word (r ∷ rs) h = rw (normalize_rune_word r h.0)

  -- A token has a word, and nothing else in it.
  abbrev pub IsToken : Token → Type 0
  IsToken t = (is_empty t.raw ≡ false) × AllWord u t.raw × (t.normalized ≡ normalize_word u t.raw)

  close_token-IsToken :
      (ts : List Token) (raw : Text)
      → AllWord u raw
      → All IsToken ts
      → All IsToken (close_token u ts raw)
  unfolding close_token
  close_token-IsToken ts [] h all = all
  close_token-IsToken ts (r ∷ raw) h all = All-append IsToken ts _ all ((refl, h, refl), tt)

  tokenize_from-IsToken :
      (ts : List Token) (raw text : Text)
      → AllWord u raw
      → All IsToken ts
      → All IsToken (tokenize_from u ts raw text)
  unfolding tokenize_from
  tokenize_from-IsToken ts raw [] h all = close_token-IsToken ts raw h all
  tokenize_from-IsToken ts raw (r ∷ rs) h all = elim (Bool-cases (is_word u r)) [
    | inl word ↦ rw word (
        tokenize_from-IsToken ts (raw ++ r ∷ []) rs
          (All-append (λ c. is_word u c ≡ true) raw (r ∷ []) h (word, tt)) all)
    | inr other ↦
        rw other
          (tokenize_from-IsToken (close_token u ts raw) [] rs tt (close_token-IsToken ts raw h all))
  ]

  -- Every token of a transcript is a run of letters and digits that is not empty, with its normal form.
  pub tokenize-IsToken : (text : Text) → All IsToken (tokenize u text)
  unfolding tokenize
  tokenize-IsToken text = tokenize_from-IsToken [] [] text tt tt

  keep_words-map : (ts : List Token) → All IsToken ts → keep_words u ts ≡ map (λ t. t.normalized) ts
  unfolding keep_words
  keep_words-map [] h = refl
  keep_words-map (t ∷ ts) ((full, word, same), h) =
      rw (ap is_empty same ∙ is_empty-normalize_word t.raw word ∙ full)
        (ap (◌∷◌ t.normalized) (keep_words-map ts h))

  -- The words of a text are the normal forms of its tokens, one for one.
  pub normalized_words-map :
      (text : Text) → normalized_words u text ≡ map (λ t. t.normalized) (tokenize u text)
  unfolding normalized_words
  normalized_words-map text = keep_words-map (tokenize u text) (tokenize-IsToken text)
