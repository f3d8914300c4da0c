-- ===== src/Stt.antt =====
-- internal/stt/filter.go: final transcripts that hold no speech are dropped.
use xarlatan.Common.{
  ℕ, ◌≡◌, refl, sym, ap, subst, ◌≢◌, inl, inr, Bool, true, false, ◌||◌, [], ◌∷◌, arith, ltb, ◌==◌,
  if◌then◌else◌, Bool-cases, length, length-append, ◌++◌, ◌+◌, ◌≤◌, ◌⊎◌,
}
use xarlatan.Common.Text.{
  Text, is_space, trim_left, trim_right, trim_space, trim_space_idem, trim_space_solid, is_empty,
}

-- `maxNonVerbalMarkerRunes`
abbrev pub max_non_verbal_marker_runes : ℕ
max_non_verbal_marker_runes = 64

-- `runes[len(runes)-1]`, of a text that is not empty.
unfoldable pub last_rune : ℕ → Text → ℕ
last_rune c [] = c
last_rune c (d ∷ ds) = last_rune d ds

-- The switch on the opening rune, and the comparison with the closing one.
unfoldable pub closes : Text → Bool
unfolding last_rune
closes [] = false
closes (c ∷ cs) =
    if c == b'['
    then last_rune c cs == b']'
    else if c == b'('
    then last_rune c cs == b')'
    else false

unfoldable pub is_non_verbal_marker : Text → Bool
unfolding closes
is_non_verbal_marker text =
    let rune_count = length text in
    if ltb rune_count 2 || ltb max_non_verbal_marker_runes rune_count then false else closes text

unfoldable pub filter_transcript : Text → Text
unfolding is_non_verbal_marker
filter_transcript text =
    let trimmed = trim_space text in
    if is_empty trimmed || is_non_verbal_marker trimmed then [] else trimmed

last_rune-append : (c d : ℕ) (s : Text) → last_rune c (s ++ d ∷ []) ≡ d
unfolding last_rune
last_rune-append c d [] = refl
last_rune-append c d (e ∷ s) = last_rune-append e d s

-- A text that is not empty ends in its last rune.
split_last : (c d : ℕ) (s : Text) → (body : Text) × (d ∷ s ≡ body ++ last_rune c (d ∷ s) ∷ [])
unfolding last_rune
split_last c d [] = ([], refl)
split_last c d (e ∷ s) = let (body, h) = split_last d e s in (d ∷ body, ap (λ t. d ∷ t) h)

-- The brackets that belong together.
abbrev pub IsPair : ℕ → ℕ → Type 0
IsPair open' close' = ((open' ≡ b'[') × (close' ≡ b']')) ⊎ ((open' ≡ b'(') × (close' ≡ b')'))

-- A bracketed or parenthesised remark of at most 64 code points.
pub record IsRemark (text : Text) : Type 0 where
  pub open' : ℕ
  pub body : Text
  pub close' : ℕ
  pub whole : text ≡ open' ∷ (body ++ close' ∷ [])
  pub pair : IsPair open' close'
  pub short : length body + 2 ≤ 64

closes-IsPair : (c : ℕ) (s : Text) → closes (c ∷ s) ≡ true → IsPair c (last_rune c s)
unfolding closes
closes-IsPair c s h = elim (Bool-cases (c == b'[')) [
  | inl square ↦ inl (ground (arith, square), ground (arith, square, h))
  | inr other ↦ elim (Bool-cases (c == b'(')) [
    | inl round ↦ inr (ground (arith, round), ground (arith, other, round, h))
    | inr neither ↦ absurd (ground (arith, other, neither, h))
  ]
]

is_non_verbal_marker_sound : (s : Text) → is_non_verbal_marker s ≡ true → IsRemark s
unfolding is_non_verbal_marker
is_non_verbal_marker_sound [] h = absurd (ground (arith, h))
is_non_verbal_marker_sound (c ∷ []) h = absurd (ground (arith, h))
is_non_verbal_marker_sound (c ∷ d ∷ s) h =
    let (body, e) = split_last c d s in
    let bound : length (d ∷ s) ≤ 63 = ground (arith, h) in
    let same : length (d ∷ s) ≡ length (body ++ last_rune c (d ∷ s) ∷ []) = ap length e in
    record {
      open' = c;
      body = body;
      close' = last_rune c (d ∷ s);
      whole = ap (λ t. c ∷ t) e;
      pair = closes-IsPair c (d ∷ s) (ground (arith, h));
      short = omega (arith, bound, same, length-append body (last_rune c (d ∷ s) ∷ []));
    }

is_non_verbal_marker_complete : (s : Text) → IsRemark s → is_non_verbal_marker s ≡ true
unfolding is_non_verbal_marker closes
is_non_verbal_marker_complete s r = rw (r.whole) (
    ground (
      arith,
      r.pair,
      r.short,
      last_rune-append r.open' r.close' r.body,
      length-append r.body (r.close' ∷ []),
    ))

-- The filter drops a transcript exactly where it is blank or, trimmed, a remark in brackets or
-- parentheses of at most 64 code points; any other it trims.
pub filter_transcript_iff :
    (s : Text)
    → ((filter_transcript s ≡ []) × ((trim_space s ≡ []) ⊎ IsRemark (trim_space s)))
      ⊎ ((filter_transcript s ≡ trim_space s) × (trim_space s ≢ []) × ¬ IsRemark (trim_space s))
unfolding filter_transcript
filter_transcript_iff s = decided (trim_space s) refl
  where
    decided :
        (t : Text)
        → trim_space s ≡ t
        → ((filter_transcript s ≡ []) × ((trim_space s ≡ []) ⊎ IsRemark (trim_space s)))
          ⊎ ((filter_transcript s ≡ trim_space s) × (trim_space s ≢ []) × ¬ IsRemark (trim_space s))
    decided [] e = inl (rw (e, filter_transcript) refl, inl e)
    decided (c ∷ cs) e = elim (Bool-cases (is_non_verbal_marker (c ∷ cs))) [
      | inl marker ↦ inl (
        rw (e, marker, filter_transcript) refl,
        inr (subst IsRemark (sym e) (is_non_verbal_marker_sound (c ∷ cs) marker)),
      )
      | inr speech ↦ inr (
        rw (e, speech, filter_transcript) refl,
        λ blank. absurd (cc),
        λ remark.
            absurd (cc (speech, is_non_verbal_marker_complete (c ∷ cs) (subst IsRemark e remark))),
      )
    ]

-- What the filter returns is a fixed point of it: an empty text, or a trimmed one that is no marker.
pub filter_transcript_idem :
    (s : Text) → filter_transcript (filter_transcript s) ≡ filter_transcript s
unfolding filter_transcript
filter_transcript_idem s = elim (Bool-cases (is_empty (trim_space s))) [
  | inl blank ↦ rw (blank, filter_transcript) (unfold trim_space trim_left trim_right in refl)
  | inr full ↦ elim (Bool-cases (is_non_verbal_marker (trim_space s))) [
    | inl marker ↦
        rw (full, marker, filter_transcript) (unfold trim_space trim_left trim_right in refl)
    | inr speech ↦ rw (full, speech, filter_transcript, trim_space_idem s, full, speech)
  ]
]

-- A bracketed or parenthesised remark of at most 64 code points is dropped, whatever stands in it.
pub filter_transcript_marker :
    (open' close' : ℕ) (body : Text)
    → ((open' ≡ b'[') × (close' ≡ b']')) ⊎ ((open' ≡ b'(') × (close' ≡ b')'))
    → length body + 2 ≤ max_non_verbal_marker_runes
    → filter_transcript (open' ∷ (body ++ close' ∷ [])) ≡ []
unfolding filter_transcript is_non_verbal_marker closes
filter_transcript_marker o c body kind h =
    let solid_o : is_space o ≡ false = unfold is_space in ground arith in
    let solid_c : is_space c ≡ false = unfold is_space in ground arith in
    rw (trim_space_solid o body c solid_o solid_c)
      (ground (arith, last_rune-append o c body, length-append body (c ∷ [])))
