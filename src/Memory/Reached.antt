-- ===== src/Memory/Reached.antt =====
-- Every manager of internal/memory that `New` and any calls of its operations lead to.
use xarlatan.Common.{◌≤◌, ◌≡◌, sym, subst, Option, List, [], ◌∷◌, arith, ltb, leb, if◌then◌else◌}
use xarlatan.Common.Text.{Text, byte_length, codes}
use xarlatan.Common.Results.{Result, ok, err, fail_if, ok_inj, >>=-eq-ok, fail_if-eq-ok}
use xarlatan.Orchestrator.{Message}
use xarlatan.Memory.{
  ErrorCode, invalid_config, Config, Snapshot, Summarizer, Manager, Machine, build_history, history,
  reset, repeat_x, plain,
}
use xarlatan.Memory.Cut.{measured-eq-ok}
use xarlatan.Memory.Bounded.{IsManager, IsMeasure}
use xarlatan.Memory.Update.{has, measured, new, update, prepare}
use xarlatan.Memory.Kept.{Updates, Prepares, update-Updates, prepare-Prepares}

module _ {W : Type 0} (mc : Machine W) where
  pub data Reached : Manager W → Type 0 where
    made :
        (config : Config) (system_prompt : Text) (summarizer : Option (Summarizer W))
        (m : Manager W)
        → new mc config system_prompt summarizer ≡ ok m
        → Reached m
    updated :
        {m : Manager W} (input : List Message) (w : W) → Reached m → Reached (update mc m input w).0
    prepared :
        {m : Manager W} (user_text : Text) (w : W)
        → Reached m
        → Reached (prepare mc m user_text w).0
    cleared : {m : Manager W} → Reached m → Reached (reset m)

  new-IsManager :
      (config : Config) (system_prompt : Text) (summarizer : Option (Summarizer W)) (m : Manager W)
      → new mc config system_prompt summarizer ≡ ok m
      → IsManager mc m
  unfolding new history byte_length
  new-IsManager config system_prompt summarizer m h =
      let (u1, a1, h1) = >>=-eq-ok (fail_if (leb config.max_history_bytes 0) _) _ h in
      let (u2, a2, h2) = >>=-eq-ok (fail_if (leb config.max_summary_bytes 0) _) _ h1 in
      let (u3, a3, h3) =
        >>=-eq-ok (fail_if (leb config.max_history_bytes config.max_summary_bytes) _) _ h2 in
      let (base, known, h4) =
        >>=-eq-ok (measured (mc.measure (build_history system_prompt [] [])) invalid_config) _ h3 in
      let (u5, small, h5) = >>=-eq-ok (fail_if (ltb config.max_history_bytes base) _) _ h4 in
      let (r, a6, h6) =
        >>=-eq-ok
          (if has summarizer
            then measured
                (mc.measure (build_history system_prompt (repeat_x config.max_summary_bytes) []))
                invalid_config
            else ok 0)
          _ h5 in
      let (u7, a7, h7) = >>=-eq-ok (fail_if (ltb config.max_history_bytes r) _) _ h6 in
      let within : base ≤ config.max_history_bytes = ground (arith, fail_if-eq-ok _ _ small) in
      let measure_base =
        measured-eq-ok mc (build_history system_prompt [] []) invalid_config base known in
      subst (IsManager mc) (ok_inj h7) (record {
        base = (base, measure_base, within);
        bounded = (base, measure_base, within);
        summary_bound = omega arith;
        whole = tt;
      })

  reset-IsManager : (m : Manager W) → IsManager mc m → IsManager mc (reset m)
  unfolding reset history byte_length
  reset-IsManager m h = record {
    base = h.base;
    bounded = h.base;
    summary_bound = omega arith;
    whole = tt;
  }

  after_update :
      (m : Manager W) (input : List Message) (r : Manager W × W × Result ErrorCode Snapshot)
      → IsManager mc m
      → Updates mc m input r
      → IsManager mc r.0
  after_update m input (m', w, err e) h same = subst (IsManager mc) (sym same) h
  after_update m input (m', w, ok s) h (d, c, accepted, parts, same, shown, h') = h'

  after_prepare :
      (m : Manager W) (extra : List Message) (r : Manager W × W × Result ErrorCode Snapshot)
      → IsManager mc m
      → Prepares mc m extra r
      → IsManager mc r.0
  after_prepare m extra (m', w, err e) h same = subst (IsManager mc) (sym same) h
  after_prepare m extra (m', w, ok s) h (d, parts, same, shown, fits, h') = h'

  -- Whatever conversations it is given and however its calls end, a manager that `New` made has a
  -- history within the budget, a summary within its own, and whole turns only. `Measure` is taken to
  -- count no more bytes for some messages than for them with others behind.
  pub Reached-IsManager : IsMeasure mc → (m : Manager W) → Reached m → IsManager mc m
  Reached-IsManager j m (made config system_prompt summarizer m0 e) =
      new-IsManager config system_prompt summarizer m0 e
  Reached-IsManager j m (updated {m = m0} input w r) =
      let h = Reached-IsManager j m0 r in
      after_update m0 input (update mc m0 input w) h (update-Updates mc m0 input w h)
  Reached-IsManager j m (prepared {m = m0} user_text w r) =
      let h = Reached-IsManager j m0 r in
      after_prepare m0 (plain (codes "user") user_text ∷ []) (prepare mc m0 user_text w) h
        (prepare-Prepares mc j m0 user_text w h)
  Reached-IsManager j m (cleared {m = m0} r) = reset-IsManager m0 (Reached-IsManager j m0 r)
