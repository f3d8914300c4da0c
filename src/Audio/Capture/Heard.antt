-- ===== src/Audio/Capture/Heard.antt =====
-- What the microphone has yielded, and the stretches of it that are recorded.
use xarlatan.Common.{
  ◌-◌, ◌<◌, ◌≡◌, refl, sym, ap, ◌∙◌, subst, inl, inr, false, Option, some, List, [], ◌∷◌, ◌++◌,
  append-nil, append_assoc, arith, length, take, drop, length-drop, take-append-drop, ltb, ◌==◌,
  Bool-cases,
}
use xarlatan.Common.Text.{is_empty}
use xarlatan.Audio.Preroll.{PreRollBuffer, add, concat, copy_down, take-append}

module _ {F : Type 0} where
  -- A sample that is heard for a turn. What is not heard for one is `none`.
  unfoldable pub as_heard : List F → List (Option F)
  as_heard [] = []
  as_heard (x ∷ xs) = some x ∷ as_heard xs

  -- The samples are the last that were heard.
  unfoldable pub EndsWith : List (Option F) → List F → Type 0
  EndsWith heard xs = (before : List (Option F)) × (heard ≡ before ++ as_heard xs)

  -- The samples stand in what was heard, one after the other.
  unfoldable pub IsPiece : List (Option F) → List F → Type 0
  IsPiece heard xs =
      (before : List (Option F)) × (after : List (Option F)) × (heard
        ≡ before ++ as_heard xs ++ after)

  as_heard-append : (xs ys : List F) → as_heard (xs ++ ys) ≡ as_heard xs ++ as_heard ys
  unfolding as_heard
  as_heard-append [] ys = refl
  as_heard-append (x ∷ xs) ys = ap (λ t. some x ∷ t) (as_heard-append xs ys)

  pub EndsWith-nil : (heard : List (Option F)) → EndsWith heard []
  unfolding EndsWith as_heard
  EndsWith-nil heard = (heard, sym (append-nil heard))

  pub EndsWith-append :
      (heard : List (Option F)) (xs ys : List F)
      → EndsWith heard xs
      → EndsWith (heard ++ as_heard ys) (xs ++ ys)
  unfolding EndsWith
  EndsWith-append heard xs ys (before, e) = (
    before,
    ap (λ t. t ++ as_heard ys) e
        ∙ append_assoc before (as_heard xs) (as_heard ys)
        ∙ ap (λ t. before ++ t) (sym (as_heard-append xs ys)),
  )

  EndsWith-later :
      (heard : List (Option F)) (xs ys : List F) → EndsWith heard (xs ++ ys) → EndsWith heard ys
  unfolding EndsWith
  EndsWith-later heard xs ys (before, e) = (
    before ++ as_heard xs,
    e
        ∙ ap (λ t. before ++ t) (as_heard-append xs ys)
        ∙ sym (append_assoc before (as_heard xs) (as_heard ys)),
  )

  pub EndsWith-IsPiece :
      (heard : List (Option F)) (xs : List F) → EndsWith heard xs → IsPiece heard xs
  unfolding EndsWith IsPiece
  EndsWith-IsPiece heard xs (before, e) = (before, [], e ∙ sym (append-nil (before ++ as_heard xs)))

  pub IsPiece-append :
      (heard more : List (Option F)) (xs : List F) → IsPiece heard xs → IsPiece (heard ++ more) xs
  unfolding IsPiece
  IsPiece-append heard more xs (before, after, e) = (
    before,
    after ++ more,
    ap (λ t. t ++ more) e ∙ append_assoc (before ++ as_heard xs) after more,
  )

  concat-append : (cs ds : List (List F)) → concat (cs ++ ds) ≡ concat cs ++ concat ds
  unfolding concat
  concat-append [] ds = refl
  concat-append (c ∷ cs) ds =
      ap (λ t. c ++ t) (concat-append cs ds) ∙ sym (append_assoc c (concat cs) (concat ds))

  -- A pre-roll that ends what was heard does so with one chunk more.
  pub EndsWith-add :
      (heard : List (Option F)) (b : PreRollBuffer F) (c : List F)
      → 0 < b.max_chunks
      → is_empty c ≡ false
      → EndsWith heard (concat b.chunks)
      → EndsWith (heard ++ as_heard c) (concat (add b c).chunks)
  unfolding add concat copy_down
  EndsWith-add heard b c p e h =
      let z : (b.max_chunks == 0) ≡ false = ground (arith, p) in
      let cs = b.chunks ++ c ∷ [] in
      let trim = length cs - b.max_chunks in
      let whole : EndsWith (heard ++ as_heard c) (concat cs) =
        subst (EndsWith (heard ++ as_heard c))
          (ap (λ t. concat b.chunks ++ t) (sym (append-nil c))
            ∙ sym (concat-append b.chunks (c ∷ [])))
          (EndsWith-append heard (concat b.chunks) c h) in
      elim (Bool-cases (ltb b.max_chunks (length cs))) [
        | inr room ↦ rw (e, z, room, add) whole
        | inl full ↦
            let n : b.max_chunks ≡ length (drop trim cs) =
              ground (arith, length-drop trim cs, full) in
            let kept : take b.max_chunks (copy_down trim cs) ≡ drop trim cs =
              take-append b.max_chunks (drop trim cs) (drop (length (drop trim cs)) cs) n in
            rw (e, z, full, add)
              (subst (λ t. EndsWith (heard ++ as_heard c) (concat t)) (sym kept)
                (EndsWith-later (heard ++ as_heard c) (concat (take trim cs))
                  (concat (drop trim cs))
                  (subst (EndsWith (heard ++ as_heard c))
                    (ap concat (sym (take-append-drop trim cs))
                      ∙ concat-append (take trim cs) (drop trim cs))
                    whole)))
      ]
