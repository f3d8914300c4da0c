-- ===== src/Memory/Cut.antt =====
-- What the eviction of internal/memory drops: whole turns, the oldest first.
use xarlatan.Common.{
  ℕ, ◌≤◌, ◌≡◌, refl, sym, ap, ◌∙◌, subst, ◌⊎◌, inl, inr, Bool, true, false, ◌&&◌, Option, none,
  some, List, [], ◌∷◌, ◌++◌, append_assoc, append-nil, arith, leb, if◌then◌else◌, some_inj,
  Bool-cases,
}
use xarlatan.Common.Text.{Text}
use xarlatan.Common.Results.{ok, ok_inj, >>=-eq-ok}
use xarlatan.Orchestrator.{Message}
use xarlatan.Memory.{ErrorCode, invalid_history, Manager, Machine, build_history}
use xarlatan.Memory.Update.{measured, evict, prepare_reserve, use_summary, cut_prepare}

module _ {W : Type 0} (mc : Machine W) where
  -- A prompt that is within the budget of a manager.
  abbrev pub Fits : Manager W → List Message → Type 0
  Fits m ms = (n : ℕ) × (mc.measure ms ≡ some n) × (n ≤ m.config.max_history_bytes)

  pub measured-eq-ok :
      (ms : List Message) (code : ErrorCode) (n : ℕ)
      → measured (mc.measure ms) code ≡ ok n
      → mc.measure ms ≡ some n
  unfolding measured
  measured-eq-ok ms code n h = answered (mc.measure ms) h
    where
      answered : (o : Option ℕ) → measured o code ≡ ok n → o ≡ some n
      answered none e = absurd (cc)
      answered (some k) e = ap some (ok_inj e)

  -- What an eviction yields: all turns, cut in two, of which the later ones fit or nothing is left.
  pub record IsCut (m : Manager W) (reserve : Text) (extra : List Message)
      (turns : List (List Message)) (cut : List (List Message) × List (List Message)) : Type 0 where
    pub parts : cut.0 ++ cut.1 ≡ turns
    pub fitting : (cut.1 ≡ []) ⊎ Fits m (build_history m.system_prompt reserve cut.1 ++ extra)

  pub evict-IsCut :
      (m : Manager W) (reserve : Text) (extra : List Message) (dropped turns : List (List Message))
      (cut : List (List Message) × List (List Message))
      → evict mc m reserve extra dropped turns ≡ ok cut
      → IsCut m reserve extra (dropped ++ turns) cut
  unfolding evict
  evict-IsCut m reserve extra dropped [] cut h =
      subst (IsCut m reserve extra (dropped ++ [])) (ok_inj h)
        (record { parts = refl; fitting = inl refl })
  evict-IsCut m reserve extra dropped (turn ∷ turns) cut h =
      let prompt = build_history m.system_prompt reserve (turn ∷ turns) ++ extra in
      let (bytes, known, h1) =
        >>=-eq-ok (measured (mc.measure prompt) invalid_history)
          (λ n.
            if leb n m.config.max_history_bytes
            then ok (dropped, turn ∷ turns)
            else evict mc m reserve extra (dropped ++ turn ∷ []) turns)
          h in
      elim (Bool-cases (leb bytes m.config.max_history_bytes)) [
        | inl e ↦
            subst (IsCut m reserve extra (dropped ++ turn ∷ turns))
              (ok_inj (chosen bytes true e h1))
              (record {
                parts = refl;
                fitting =
                    inr
                      (bytes, measured-eq-ok prompt invalid_history bytes known, ground (arith, e));
              })
        | inr e ↦
            let rest =
              evict-IsCut m reserve extra (dropped ++ turn ∷ []) turns cut
                (chosen bytes false e h1) in
            record {
              parts = rest.parts ∙ append_assoc dropped (turn ∷ []) turns;
              fitting = rest.fitting;
            }
      ]
    where
      chosen :
          (n : ℕ) (b : Bool)
          → leb n m.config.max_history_bytes ≡ b
          → (if leb n m.config.max_history_bytes
              then ok (dropped, turn ∷ turns)
              else evict mc m reserve extra (dropped ++ turn ∷ []) turns)
            ≡ ok cut
          → (if b
              then ok (dropped, turn ∷ turns)
              else evict mc m reserve extra (dropped ++ turn ∷ []) turns)
            ≡ ok cut
      chosen n b e f =
          sym (
            ap
              (λ t.
                if t
                then ok (dropped, turn ∷ turns)
                else evict mc m reserve extra (dropped ++ turn ∷ []) turns)
              e)
          ∙ f

  -- The parts of the cut of `Prepare`: the first loop, the measure of what it keeps beside the reserve,
  -- and the second loop.
  pub record IsPrepared (m : Manager W) (extra : List Message) (used : Bool)
      (cut : List (List Message) × List (List Message)) : Type 0 where
    pub first : List (List Message) × List (List Message)
    pub base : ℕ
    pub first_cut : IsCut m (prepare_reserve m) extra m.turns first
    pub known :
        mc.measure (build_history m.system_prompt (prepare_reserve m) first.1 ++ extra) ≡ some base
    pub used_where : used ≡ (use_summary m && leb base m.config.max_history_bytes)
    pub second :
        evict mc m
          (if leb base m.config.max_history_bytes then prepare_reserve m else [])
          extra
          first.0
          first.1
        ≡ ok cut

  pub cut_prepare-IsPrepared :
      (m : Manager W) (extra : List Message) (used : Bool)
      (cut : List (List Message) × List (List Message))
      → cut_prepare mc m extra ≡ ok (used, cut)
      → IsPrepared m extra used cut
  unfolding cut_prepare
  cut_prepare-IsPrepared m extra used cut h =
      let (first, h0, h1) = >>=-eq-ok (evict mc m (prepare_reserve m) extra [] m.turns) _ h in
      let prompt = build_history m.system_prompt (prepare_reserve m) first.1 ++ extra in
      let (base, h2, h3) = >>=-eq-ok (measured (mc.measure prompt) invalid_history) _ h1 in
      let fits = leb base m.config.max_history_bytes in
      let (cut', h4, h5) =
        >>=-eq-ok (evict mc m (if fits then prepare_reserve m else []) extra first.0 first.1)
          (λ x. ok (use_summary m && fits, x)) h3 in
      let same = ok_inj h5 in
      record {
        first = first;
        base = base;
        first_cut = evict-IsCut m (prepare_reserve m) extra [] m.turns first h0;
        known = measured-eq-ok prompt invalid_history base h2;
        used_where =
            sym (ap (λ (x : Bool × (List (List Message) × List (List Message))). x.0) same);
        second = h4 ∙ ap (λ (x : Bool × (List (List Message) × List (List Message))). ok x.1) same;
      }

  -- Where a summary is wanted and given up, every turn is dropped, also turns that would fit without it.
  pub prepare_drops_all :
      (m : Manager W) (extra : List Message) (cut : List (List Message) × List (List Message))
      → use_summary m ≡ true
      → cut_prepare mc m extra ≡ ok (false, cut)
      → cut ≡ (m.turns, [])
  unfolding evict
  prepare_drops_all m extra cut wanted h =
      let p = cut_prepare-IsPrepared m extra false cut h in
      let over : leb p.base m.config.max_history_bytes ≡ false =
        ground (arith, p.used_where, wanted) in
      elim p.first_cut.fitting [
        | inl nothing ↦
            let alone : evict mc m [] extra p.first.0 [] ≡ ok cut =
              sym (
                ap (λ b. evict mc m (if b then prepare_reserve m else []) extra p.first.0 p.first.1)
                  over
                ∙ ap (evict mc m [] extra p.first.0) nothing)
              ∙ p.second in
            let whole : p.first.0 ≡ m.turns =
              sym (append-nil p.first.0)
              ∙ sym (ap (λ k. p.first.0 ++ k) nothing)
              ∙ p.first_cut.parts in
            sym (ok_inj alone) ∙ ap (λ d. (d, [])) whole
        | inr (n, e, small) ↦ absurd (ground (arith, over, some_inj (sym p.known ∙ e), small))
      ]
