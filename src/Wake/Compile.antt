-- ===== src/Wake/Compile.antt =====
-- What `NewPhraseDetector` of internal/wake/detector.go compiles.
use mathlib.Core.List.{Memᴰ}
use xarlatan.Common.{
  suc, ◌≡◌, ◌≢◌, refl, sym, ap, ◌∙◌, inl, inr, true, false, some, List, [], ◌∷◌, ◌++◌, map, arith,
  ◌==◌, length, take, Bool-cases, Option-cases, subst, All,
}
use xarlatan.Common.Text.{Text, is_empty, text_eq, text_eq_iff}
use xarlatan.Unicode.{Unicode, is_word, IsRegular}
use xarlatan.Wake.Words.{
  AllWord, IsToken, tokenize-IsToken, normalized_words-map, AllWord-normalize_word,
  is_empty-normalize_word,
}
use xarlatan.Wake.Match.{IsAddress, detect_complete}
use xarlatan.Wake.{
  Token, tokenize, normalize_word, normalized_words, join, PhraseDetector, detect, seen_key,
  compile_phrases, new_phrase_detector,
}

-- No space in a text.
abbrev NoSpace : Text → Type 0
NoSpace = All (λ c. (c == b' ') ≡ false)

abbrev IsCleanWord : Text → Type 0
IsCleanWord w = (is_empty w ≡ false) × NoSpace w

abbrev IsClean : List Text → Type 0
IsClean = All IsCleanWord

cut_at_space :
    (v w s t : Text) → NoSpace v → NoSpace w → v ++ b' ' ∷ s ≡ w ++ b' ' ∷ t → (v ≡ w) × (s ≡ t)
cut_at_space [] [] s t hv hw e = ground arith
cut_at_space [] (d ∷ w) s t hv hw e = ground arith
cut_at_space (c ∷ v) [] s t hv hw e = ground arith
cut_at_space (c ∷ v) (d ∷ w) s t hv hw e = ground (arith, cut_at_space v w s t hv.1 hw.1)

no_cut : (v w t : Text) → NoSpace v → v ≢ w ++ b' ' ∷ t
no_cut [] [] t h e = cc
no_cut [] (d ∷ w) t h e = cc
no_cut (c ∷ v) [] t h e = ground arith
no_cut (c ∷ v) (d ∷ w) t h e = no_cut v w t h.1 (ground arith)

-- Keys are as good as the word lists that they stand for.
join_injective : (vs ws : List Text) → IsClean vs → IsClean ws → join vs ≡ join ws → vs ≡ ws
unfolding join
join_injective [] [] hv hw e = refl
join_injective [] ([] ∷ ws) hv hw e = ground arith
join_injective [] ((c ∷ w) ∷ []) hv hw e = cc
join_injective [] ((c ∷ w) ∷ x ∷ ws) hv hw e = cc
join_injective ([] ∷ vs) ws hv hw e = ground arith
join_injective ((c ∷ v) ∷ []) [] hv hw e = cc
join_injective ((c ∷ v) ∷ x ∷ vs) [] hv hw e = cc
join_injective ((c ∷ v) ∷ []) (w ∷ []) hv hw e = cc
join_injective ((c ∷ v) ∷ []) (w ∷ x ∷ ws) hv hw e = absurd (no_cut (c ∷ v) w _ hv.0.1 e)
join_injective ((c ∷ v) ∷ x ∷ vs) (w ∷ []) hv hw e = absurd (no_cut w (c ∷ v) _ hw.0.1 (sym e))
join_injective ((c ∷ v) ∷ x ∷ vs) (w ∷ y ∷ ws) hv hw e =
    let (a, b) = cut_at_space (c ∷ v) w _ _ hv.0.1 hw.0.1 e in
    let rest = join_injective (x ∷ vs) (y ∷ ws) hv.1 hw.1 b in cc (a, rest)

-- A key that was seen belongs to a phrase that was kept.
abbrev IsKept : List (List Text) → Text → Type 0
IsKept phrases key = (ws : List Text) × Memᴰ ws phrases × (join ws ≡ key) × IsClean ws

abbrev Kept : List Text → List (List Text) → Type 0
Kept seen phrases = (key : Text) → seen_key seen key ≡ true → IsKept phrases key

Memᴰ-append_left {ℓ} :
    {A : Type ℓ} {a : A} {xs : List A} (ys : List A) → Memᴰ a xs → Memᴰ a (xs ++ ys)
Memᴰ-append_left ys (Memᴰ.head e) = Memᴰ.head e
Memᴰ-append_left ys (Memᴰ.tail m) = Memᴰ.tail (Memᴰ-append_left ys m)

Memᴰ-append_last {ℓ} : {A : Type ℓ} (a : A) (xs : List A) → Memᴰ a (xs ++ a ∷ [])
Memᴰ-append_last a [] = Memᴰ.head refl
Memᴰ-append_last a (x ∷ xs) = Memᴰ.tail (Memᴰ-append_last a xs)

Kept-cons :
    (seen : List Text) (phrases : List (List Text)) (words : List Text)
    → IsClean words
    → Kept seen phrases
    → Kept (join words ∷ seen) (phrases ++ words ∷ [])
unfolding seen_key
Kept-cons seen phrases words clean kept key h = elim (Bool-cases (text_eq (join words) key)) [
  | inl same ↦ (words, Memᴰ-append_last words phrases, (text_eq_iff _ _).0 same, clean)
  | inr other ↦
      let (ws, m, e, c) = kept key (ground (arith, other)) in
      (ws, Memᴰ-append_left (words ∷ []) m, e, c)
]

module _ (u : Unicode) (g : IsRegular u) (space : is_word u b' ' ≡ false) where
  AllWord-NoSpace : (w : Text) → AllWord u w → NoSpace w
  AllWord-NoSpace [] h = tt
  AllWord-NoSpace (c ∷ w) h = (ground (arith, h.0, space), AllWord-NoSpace w h.1)

  IsToken-IsCleanWord : (t : Token) → IsToken u g t → IsCleanWord t.normalized
  IsToken-IsCleanWord t (full, word, same) = subst IsCleanWord (sym same) (
    is_empty-normalize_word u g t.raw word ∙ full,
    AllWord-NoSpace (normalize_word u t.raw) (AllWord-normalize_word u g t.raw word),
  )

  tokens-IsClean : (ts : List Token) → All (IsToken u g) ts → IsClean (map (λ t. t.normalized) ts)
  tokens-IsClean [] h = tt
  tokens-IsClean (t ∷ ts) h = (IsToken-IsCleanWord t h.0, tokens-IsClean ts h.1)

  normalized_words-IsClean : (s : Text) → IsClean (normalized_words u s)
  normalized_words-IsClean s =
      rw (normalized_words-map u g s) (tokens-IsClean (tokenize u s) (tokenize-IsToken u g s))

  -- Every phrase that is there stays, and the words of each input are among the phrases.
  abbrev Compiles : List (List Text) → List Text → List (List Text) → Type 0
  Compiles phrases inputs out =
      ((p : List Text) → Memᴰ p phrases → Memᴰ p out)
      × All (λ i. Memᴰ (normalized_words u i) out) inputs

  compile_phrases_lem :
      (seen : List Text) (phrases : List (List Text)) (inputs : List Text) (out : List (List Text))
      → Kept seen phrases
      → compile_phrases u seen phrases inputs ≡ some out
      → Compiles phrases inputs out
  unfolding compile_phrases
  compile_phrases_lem seen phrases [] out kept e = (λ p m. subst (Memᴰ p) (ground arith) m, tt)
  compile_phrases_lem seen phrases (i ∷ is) out kept e =
      elim (Bool-cases (is_empty (normalized_words u i))) [
        | inl none' ↦ absurd (ground (arith, none'))
        | inr some' ↦ elim (Bool-cases (seen_key seen (join (normalized_words u i)))) [
          | inl old ↦
              let words = normalized_words u i in
              let (ws, m, same, clean) = kept (join words) old in
              let (keep, all) =
                compile_phrases_lem seen phrases is out kept (ground (arith, some', old)) in
              let eq = join_injective ws words clean (normalized_words-IsClean i) same in
              (keep, (subst (λ w. Memᴰ w out) eq (keep ws m), all))
          | inr new ↦
              let words = normalized_words u i in
              let (keep, all) =
                compile_phrases_lem (join words ∷ seen) (phrases ++ words ∷ []) is out
                  (Kept-cons seen phrases words (normalized_words-IsClean i) kept)
                  (ground (arith, some', new)) in
              (
                λ p m. keep p (Memᴰ-append_left (words ∷ []) m),
                (keep words (Memᴰ-append_last words phrases), all),
              )
        ]
      ]

  take_all :
      (ts : List Token) (ws : List Text)
      → map (λ t. t.normalized) ts ≡ ws
      → take (length ws) ws ≡ ws
  take_all ts [] e = refl
  take_all [] (w ∷ ws) e = absurd (cc)
  take_all (t ∷ ts) (w ∷ ws) e = ap (◌∷◌ w) (take_all ts ws (ground arith))

  length-words : (ts : List Token) → length (map (λ t. t.normalized) ts) ≡ length ts
  length-words [] = refl
  length-words (t ∷ ts) = ap suc (length-words ts)

  alone-IsAddress : (s : Text) → IsAddress (tokenize u s) (normalized_words u s) 0
  alone-IsAddress s =
      let e = normalized_words-map u g s in
      rw e (record {
        inside = omega (arith, length-words (tokenize u s));
        stands = take_all (tokenize u s) (map (λ t. t.normalized) (tokenize u s)) refl;
        placed = inl (omega arith);
      })

  kept_input :
      (s : Text) (out : List (List Text)) (inputs : List Text)
      → All (λ i. Memᴰ (normalized_words u i) out) inputs
      → Memᴰ s inputs
      → Memᴰ (normalized_words u s) out
  kept_input s out inputs all (Memᴰ.head {x = i} {xs = is} e) = rw e all.0
  kept_input s out inputs all (Memᴰ.tail {x = i} {xs = is} m) = kept_input s out is all.1 m

  -- Each configured wake phrase, the primary one and the aliases, wakes the detector when it is said
  -- alone, also where its key was seen before.
  pub phrase_alone_wakes :
      (primary : Text) (aliases : List Text) (d : PhraseDetector) (s : Text)
      → new_phrase_detector u primary aliases ≡ some d
      → Memᴰ s (primary ∷ aliases)
      → (c : Text) × (detect u d s ≡ some c)
  unfolding new_phrase_detector
  phrase_alone_wakes primary aliases d s e m =
      elim (Option-cases (compile_phrases u [] [] (primary ∷ aliases))) [
        | inl fails ↦ absurd (ground (arith, fails))
        | inr (out, made) ↦
            let all =
              (compile_phrases_lem [] [] (primary ∷ aliases) out
                (λ key h. absurd (unfold seen_key in cc)) made).1 in
            let same : out ≡ d.phrases = ground (arith, made) in
            detect_complete u d s 0
              (subst (Memᴰ (normalized_words u s)) same
                (kept_input s out (primary ∷ aliases) all m))
              (alone-IsAddress s)
      ]
