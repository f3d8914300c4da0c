-- ===== src/Audio/Preroll.antt =====
-- internal/audio/preroll.go: the chunks that are kept for the start of an utterance. A nil receiver
-- is not modelled.
use xarlatan.Common.{
  ℕ, zero, suc, ◌-◌, ◌≤◌, ◌<◌, ◌≡◌, refl, sym, ap, ◌∙◌, inl, inr, true, false, ◌||◌, List, [], ◌∷◌,
  ◌++◌, append-nil, append_assoc, arith, length, take, drop, length-append, length-drop, ltb, ◌==◌,
  if◌then◌else◌, Bool-cases,
}
use xarlatan.Common.Text.{is_empty}

pub record PreRollBuffer (S : Type 0) : Type 0 where
  pub max_chunks : ℕ
  pub chunks : List (List S)

-- The source's `maxChunks` is an `int`; a negative one counts as 0.
unfoldable pub new_pre_roll_buffer : {S : Type 0} → ℕ → PreRollBuffer S
new_pre_roll_buffer max_chunks = record { max_chunks = max_chunks; chunks = [] }

-- `copy(cs, cs[n:])`
unfoldable pub copy_down : {A : Type 0} → ℕ → List A → List A
copy_down n cs = drop n cs ++ drop (length (drop n cs)) cs

unfoldable pub add : {S : Type 0} → PreRollBuffer S → List S → PreRollBuffer S
unfolding copy_down
add b chunk =
    if is_empty chunk || b.max_chunks == 0
    then b
    else (let chunks = b.chunks ++ chunk ∷ [] in
        let trim = length chunks - b.max_chunks in
        record b {
          chunks =
              if ltb b.max_chunks (length chunks)
              then take b.max_chunks (copy_down trim chunks)
              else chunks;
        })

unfoldable pub concat : {S : Type 0} → List (List S) → List S
concat [] = []
concat (c ∷ cs) = c ++ concat cs

unfoldable pub start_recording : {S : Type 0} → PreRollBuffer S → List S → List S
unfolding concat
start_recording b chunk = concat b.chunks ++ chunk

unfoldable pub reset : {S : Type 0} → PreRollBuffer S → PreRollBuffer S
reset b = record b { chunks = [] }

-- The last `n` elements.
abbrev pub last : {A : Type 0} → ℕ → List A → List A
last n xs = drop (length xs - n) xs

module _ {A : Type 0} where
  drop-append : (n : ℕ) (xs ys : List A) → n ≤ length xs → drop n (xs ++ ys) ≡ drop n xs ++ ys
  drop-append zero xs ys h = refl
  drop-append (suc n) [] ys h = absurd (omega (arith, h))
  drop-append (suc n) (x ∷ xs) ys h = drop-append n xs ys (omega (arith, h))

  drop_one-drop : (n : ℕ) (xs : List A) → drop 1 (drop n xs) ≡ drop (suc n) xs
  drop_one-drop zero xs = refl
  drop_one-drop (suc n) [] = refl
  drop_one-drop (suc n) (x ∷ xs) = drop_one-drop n xs

  drop-length : (xs : List A) → drop (length xs) xs ≡ []
  drop-length [] = refl
  drop-length (x ∷ xs) = drop-length xs

  drop_all : (xs : List A) → last 0 xs ≡ []
  drop_all xs = let whole : length xs - 0 ≡ length xs = omega arith in rw whole (drop-length xs)

  pub take-append : (n : ℕ) (xs ys : List A) → n ≡ length xs → take n (xs ++ ys) ≡ xs
  take-append zero [] ys h = refl
  take-append zero (x ∷ xs) ys h = absurd (omega (arith, h))
  take-append (suc n) [] ys h = absurd (omega (arith, h))
  take-append (suc n) (x ∷ xs) ys h = ap (λ t. x ∷ t) (take-append n xs ys (omega (arith, h)))

module _ {S : Type 0} where
  pub max_chunks-add :
      (b : PreRollBuffer S) (c : List S) → 0 < b.max_chunks → 0 < (add b c).max_chunks
  unfolding add
  max_chunks-add b c p = elim (Bool-cases (is_empty c || b.max_chunks == 0)) [
    | inl skipped ↦ rw (skipped, add) p
    | inr kept ↦ rw (kept, add) p
  ]

  -- A full buffer drops its oldest chunk.
  shifted :
      (max : ℕ) (seen : List (List S)) (c : List S)
      → 0 < max
      → max < length (last max seen ++ c ∷ [])
      → take max (copy_down (length (last max seen ++ c ∷ []) - max) (last max seen ++ c ∷ []))
        ≡ last max (seen ++ c ∷ [])
  unfolding copy_down
  shifted max seen c p full =
      let kept = last max seen ++ c ∷ [] in
      let trim : length kept - max ≡ 1 = omega (
        arith,
        length-append (last max seen) (c ∷ []),
        length-drop (length seen - max) seen,
        full,
      ) in
      let long : max ≤ length seen = omega (
        arith,
        length-append (last max seen) (c ∷ []),
        length-drop (length seen - max) seen,
        full,
      ) in
      let more : length (seen ++ c ∷ []) - max ≡ suc (length seen - max) =
        omega (arith, length-append seen (c ∷ []), long) in
      rw (trim, more)
        (take-append max (drop 1 kept) (drop (length (drop 1 kept)) kept)
            (omega (arith, length-drop 1 kept, trim, p))
          ∙ ap (drop 1) (sym (drop-append (length seen - max) seen (c ∷ []) (omega arith)))
          ∙ drop_one-drop (length seen - max) (seen ++ c ∷ []))

  -- One that is not full keeps every chunk.
  grown :
      (max : ℕ) (seen : List (List S)) (c : List S)
      → length (last max seen ++ c ∷ []) ≤ max
      → last max seen ++ c ∷ [] ≡ last max (seen ++ c ∷ [])
  grown max seen c room =
      let short : length seen - max ≡ 0 = omega (
        arith,
        length-append (last max seen) (c ∷ []),
        length-drop (length seen - max) seen,
        room,
      ) in
      let still : length (seen ++ c ∷ []) - max ≡ 0 = omega (
        arith,
        length-append (last max seen) (c ∷ []),
        length-append seen (c ∷ []),
        length-drop (length seen - max) seen,
        room,
        short,
      ) in
      rw (short, still) refl

  -- One chunk more, where the buffer holds the last `max` of `seen`.
  add-last :
      (max : ℕ) (seen : List (List S)) (c : List S)
      → is_empty c ≡ false
      → 0 < max
      → add (record { max_chunks = max; chunks = last max seen }) c
        ≡ record { max_chunks = max; chunks = last max (seen ++ c ∷ []) }
  unfolding add
  add-last max seen c e p =
      let z : (max == 0) ≡ false = ground (arith, p) in
      let kept = last max seen ++ c ∷ [] in
      elim (Bool-cases (ltb max (length kept))) [
        | inl full ↦
            rw (e, z, full, add)
              (ap (λ cs. record { max_chunks = max; chunks = cs })
                (shifted max seen c p (ground (arith, full))))
        | inr room ↦
            rw (e, z, room, add)
              (ap (λ cs. record { max_chunks = max; chunks = cs })
                (grown max seen c (ground (arith, room))))
      ]

  abbrev nil : List (List S)
  nil = []

  -- A buffer of `max` chunks after a stream of chunks.
  unfoldable pub add_all : PreRollBuffer S → List (List S) → PreRollBuffer S
  add_all b [] = b
  add_all b (c ∷ cs) = add_all (add b c) cs

  abbrev pub spoken : List (List S) → List (List S)
  spoken [] = []
  spoken (c ∷ cs) = if is_empty c then spoken cs else c ∷ spoken cs

  add_empty : (b : PreRollBuffer S) (c : List S) → is_empty c ≡ true → add b c ≡ b
  unfolding add
  add_empty b c e = rw e refl

  add_all_none : (cs : List (List S)) (b : PreRollBuffer S) → b.max_chunks ≡ 0 → add_all b cs ≡ b
  unfolding add_all add
  add_all_none [] b z = refl
  add_all_none (c ∷ cs) b z = elim (Bool-cases (is_empty c)) [
    | inl e ↦ rw e (add_all_none cs b z)
    | inr e ↦ simp (e, z) (add_all_none cs b z)
  ]

  add_all-last :
      (max : ℕ) (seen cs : List (List S))
      → 0 < max
      → (add_all (record { max_chunks = max; chunks = last max seen }) cs).chunks
        ≡ last max (seen ++ spoken cs)
  unfolding add_all
  add_all-last max seen [] p = ap (last max) (sym (append-nil seen))
  add_all-last max seen (c ∷ cs) p = elim (Bool-cases (is_empty c)) [
    | inl e ↦
        rw (add_empty (record { max_chunks = max; chunks = last max seen }) c e, add_all, e)
          (add_all-last max seen cs p)
    | inr e ↦
        rw (add-last max seen c e p, add_all, e)
          (add_all-last max (seen ++ c ∷ []) cs p
            ∙ ap (last max) (append_assoc seen (c ∷ []) (spoken cs)))
  ]

  -- An utterance starts with the last `maxChunks` chunks that were heard before it, the empty ones not
  -- counted, in order and whole; with `maxChunks` 0, with none.
  pub start_recording-add_all :
      (max : ℕ) (cs : List (List S)) (chunk : List S)
      → start_recording (add_all (new_pre_roll_buffer max) cs) chunk
        ≡ concat (last max (spoken cs)) ++ chunk
  unfolding start_recording new_pre_roll_buffer
  start_recording-add_all zero cs chunk =
      rw (add_all_none cs (record { max_chunks = 0; chunks = [] }) refl, drop_all (spoken cs)) refl
  start_recording-add_all (suc max) cs chunk =
      let nothing : last (suc max) nil ≡ nil =
        (let z : 0 - suc max ≡ 0 = omega arith in rw z refl) in
      ap (λ kept. concat kept ++ chunk) (rw nothing at (add_all-last (suc max) [] cs (omega arith)))
