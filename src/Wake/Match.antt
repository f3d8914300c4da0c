-- ===== src/Wake/Match.antt =====
-- What `Detect` of internal/wake/detector.go accepts.
use mathlib.Core.List.{Memᴰ}
use xarlatan.Common.{
  ℕ, zero, suc, ◌+◌, ◌-◌, ◌≤◌, ◌<◌, ◌≡◌, refl, ◌⊎◌, inl, inr, ◌↔◌, true, some, List, [], ◌∷◌, map,
  arith, ltb, length, take, drop, Bool-cases, Option-cases, subst,
}
use xarlatan.Common.Text.{Text, text_eq_iff}
use xarlatan.Unicode.{Unicode}
use xarlatan.Wake.{
  Token, tokenize, sequence_matches, token_sequence_matches, command_of, accepts, scan_starts,
  scan_phrase, scan_phrases, PhraseDetector, detect,
}

-- The normal forms of the tokens from `start` on begin with the phrase.
abbrev pub StandsAt : List Token → List Text → ℕ → Type 0
StandsAt tokens phrase start =
    take (length phrase) (map (λ t. t.normalized) (drop start tokens)) ≡ phrase

-- The transcript addresses the assistant: the phrase stands at `start`, which is one of the first
-- three words, or ends at one of the last two.
pub record IsAddress (tokens : List Token) (phrase : List Text) (start : ℕ) : Type 0 where
  pub inside : start + length phrase ≤ length tokens
  pub stands : StandsAt tokens phrase start
  pub placed : (start ≤ 2) ⊎ (length tokens ≤ start + length phrase + 1)

sequence_matches_iff :
    (ts : List Token) (phrase : List Text)
    → (sequence_matches ts phrase ≡ true)
      ↔ (take (length phrase) (map (λ t. t.normalized) ts) ≡ phrase)
unfolding sequence_matches
sequence_matches_iff ts [] = ground arith
sequence_matches_iff [] (w ∷ ws) = ground arith
sequence_matches_iff (t ∷ ts) (w ∷ ws) =
    ground (arith, text_eq_iff t.normalized w, sequence_matches_iff ts ws)

-- The guard of the loop over `start` says just that, where the phrase fits.
accepts_iff :
    (tokens : List Token) (phrase : List Text) (start : ℕ)
    → start + length phrase ≤ length tokens
    → (accepts tokens phrase start ≡ true) ↔ IsAddress tokens phrase start
unfolding accepts token_sequence_matches
accepts_iff tokens phrase start h = (
  λ a. record {
    inside = h;
    stands = ground (arith, sequence_matches_iff (drop start tokens) phrase);
    placed = ground (arith, a);
  },
  λ a. ground (arith, sequence_matches_iff (drop start tokens) phrase, a.stands, a.placed),
)

module _ (transcript : Text) (tokens : List Token) (phrase : List Text) where
  abbrev Command : ℕ → Text
  Command start = command_of transcript tokens start (start + length phrase)

  scan_starts_sound :
      (left start : ℕ) (c : Text)
      → start + left + length phrase ≤ length tokens + 1
      → scan_starts transcript tokens phrase left start ≡ some c
      → (at : ℕ) × IsAddress tokens phrase at × (c ≡ Command at)
  unfolding scan_starts
  scan_starts_sound zero start c h e = absurd (cc)
  scan_starts_sound (suc left) start c h e = elim (Bool-cases (accepts tokens phrase start)) [
    | inl hit ↦ (start, (accepts_iff tokens phrase start (omega arith)).0 hit, ground (arith, hit))
    | inr miss ↦ scan_starts_sound left (start + 1) c (omega arith) (ground (arith, miss))
  ]

  scan_starts_complete :
      (left start at : ℕ)
      → start ≤ at
      → at < start + left
      → IsAddress tokens phrase at
      → (c : Text) × (scan_starts transcript tokens phrase left start ≡ some c)
  unfolding scan_starts
  scan_starts_complete zero start at h k a = absurd (omega arith)
  scan_starts_complete (suc left) start at h k a = elim (Bool-cases (accepts tokens phrase start)) [
    | inl hit ↦ (Command start, ground (arith, hit))
    | inr miss ↦
        let (c, e) =
          scan_starts_complete left (start + 1) at
            (ground (arith, miss, (accepts_iff tokens phrase at a.inside).1 a)) (omega arith) a in
        (c, ground (arith, miss, e))
  ]

-- One of the phrases, a place where it addresses the assistant, and the command that is left.
abbrev pub Addressed : List (List Text) → Text → List Token → Text → Type 0
Addressed phrases transcript tokens c =
    (phrase : List Text) × (at : ℕ) × Memᴰ phrase phrases
    × IsAddress tokens phrase at
    × (c ≡ command_of transcript tokens at (at + length phrase))

scan_phrase_sound :
    (transcript : Text) (tokens : List Token) (phrase : List Text) (c : Text)
    → scan_phrase transcript tokens phrase ≡ some c
    → (at : ℕ) × IsAddress tokens phrase at × (c ≡ Command transcript tokens phrase at)
unfolding scan_phrase
scan_phrase_sound transcript tokens phrase c e =
    elim (Bool-cases (ltb (length tokens) (length phrase))) [
      | inl long ↦ absurd (ground (arith, long))
      | inr fits ↦
          scan_starts_sound transcript tokens phrase (length tokens + 1 - length phrase) 0 c
            (ground (arith, fits)) (ground (arith, fits))
    ]

scan_phrase_complete :
    (transcript : Text) (tokens : List Token) (phrase : List Text) (at : ℕ)
    → IsAddress tokens phrase at
    → (c : Text) × (scan_phrase transcript tokens phrase ≡ some c)
unfolding scan_phrase
scan_phrase_complete transcript tokens phrase at a =
    let fits = a.inside in
    let (c, e) =
      scan_starts_complete transcript tokens phrase (length tokens + 1 - length phrase) 0 at
        (omega arith) (omega arith) a in
    (c, ground (arith, e, fits))

scan_phrases_sound :
    (transcript : Text) (tokens : List Token) (phrases : List (List Text)) (c : Text)
    → scan_phrases transcript tokens phrases ≡ some c
    → Addressed phrases transcript tokens c
unfolding scan_phrases
scan_phrases_sound transcript tokens [] c e = absurd (cc)
scan_phrases_sound transcript tokens (p ∷ ps) c e =
    elim (Option-cases (scan_phrase transcript tokens p)) [
      | inl miss ↦
          let (q, at, m, a, k) = scan_phrases_sound transcript tokens ps c (ground (arith, miss)) in
          (q, at, Memᴰ.tail m, a, k)
      | inr (found, hit) ↦
          let (at, a, k) = scan_phrase_sound transcript tokens p found hit in
          (p, at, Memᴰ.head refl, a, ground (arith, hit, k))
    ]

scan_phrases_complete :
    (transcript : Text) (tokens : List Token) {phrase : List Text} (at : ℕ)
    {phrases : List (List Text)}
    → Memᴰ phrase phrases
    → IsAddress tokens phrase at
    → (c : Text) × (scan_phrases transcript tokens phrases ≡ some c)
unfolding scan_phrases
scan_phrases_complete transcript tokens at (Memᴰ.head {x = p} e) a =
    let (c, k) =
      scan_phrase_complete transcript tokens p at (subst (λ q. IsAddress tokens q at) e a) in
    (c, ground (arith, k))
scan_phrases_complete transcript tokens at (Memᴰ.tail {x = p} m) a =
    elim (Option-cases (scan_phrase transcript tokens p)) [
      | inl miss ↦
          let (c, k) = scan_phrases_complete transcript tokens at m a in
          (c, ground (arith, miss, k))
      | inr (found, hit) ↦ (found, ground (arith, hit))
    ]

-- A transcript wakes the assistant only if one of the phrases stands in its first three words, or
-- ends in its last two; the command is what is left of it.
pub detect_sound :
    (u : Unicode) (d : PhraseDetector) (transcript c : Text)
    → detect u d transcript ≡ some c
    → Addressed d.phrases transcript (tokenize u transcript) c
unfolding detect
detect_sound u d transcript c e =
    scan_phrases_sound transcript (tokenize u transcript) d.phrases c e

-- A transcript in which one of the phrases addresses the assistant always wakes it.
pub detect_complete :
    (u : Unicode) (d : PhraseDetector) (transcript : Text) {phrase : List Text} (at : ℕ)
    → Memᴰ phrase d.phrases
    → IsAddress (tokenize u transcript) phrase at
    → (c : Text) × (detect u d transcript ≡ some c)
unfolding detect
detect_complete u d transcript at m a =
    scan_phrases_complete transcript (tokenize u transcript) at m a
