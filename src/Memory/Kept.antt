-- ===== src/Memory/Kept.antt =====
-- What `Update`, `Prepare`, `Reset` and `New` of internal/memory keep: a history within the budget,
-- made of whole turns, of which the oldest are dropped first.
use xarlatan.Common.{
  ℕ, ◌≤◌, ◌≡◌, refl, sym, ap, ◌∙◌, subst, inl, inr, Bool, List, [], ◌∷◌, ◌++◌, append-nil, arith,
  ltb, leb, if◌then◌else◌, Bool-cases, All,
}
use xarlatan.Common.Text.{Text, codes, byte_length}
use xarlatan.Common.Results.{Result, ok, err, ok_inj, >>=-eq-ok}
use xarlatan.Orchestrator.{Message}
use xarlatan.Memory.{
  ErrorCode, invalid_history, Snapshot, Manager, Machine, plain, flatten_turns, build_history,
  history,
}
use xarlatan.Memory.Turns.{conversation_messages, split_turns}
use xarlatan.Memory.Turns.Shape.{IsTurn, split_turns_lem, flatten_turns-append}
use xarlatan.Memory.Cut.{Fits, evict-IsCut, measured-eq-ok, cut_prepare-IsPrepared}
use xarlatan.Memory.Update.{
  measured, evict, update_reserve, plan_update, update_summary, update_planned, update, cut_prepare,
  prepare_summary, prepare_cut, prepare_measured, prepare,
}
use xarlatan.Memory.Bounded.{
  IsManager, IsMeasure, Publishes, finish_with-Publishes, update_summary-IsBrief,
  prepare_summary-IsBrief,
}

module _ {W : Type 0} (mc : Machine W) where
  -- What `Update` does: an error leaves the manager as it was; a snapshot is the new history, within
  -- the budget, and the conversation of the input is what was dropped and the turns of the manager.
  abbrev pub Updates : Manager W → List Message → Manager W × W × Result ErrorCode Snapshot → Type 0
  Updates m input (m', w, err e) = m' ≡ m
  Updates m input (m', w, ok s) =
      (dropped : List (List Message)) × (conversation : List Message) × (conversation_messages
          m.system_prompt m.summary input
        ≡ ok conversation)
      × (flatten_turns dropped ++ flatten_turns m'.turns ≡ conversation)
      × (m' ≡ record m { summary = s.summary; turns = m'.turns })
      × (s.history ≡ history m')
      × IsManager mc m'

  abbrev pub Prepares :
      Manager W → List Message → Manager W × W × Result ErrorCode Snapshot → Type 0
  Prepares m extra (m', w, err e) = m' ≡ m
  Prepares m extra (m', w, ok s) =
      (dropped : List (List Message)) × (dropped ++ m'.turns ≡ m.turns)
      × (m' ≡ record m { summary = s.summary; turns = m'.turns })
      × (s.history ≡ history m')
      × Fits mc m (s.history ++ extra)
      × IsManager mc m'

  -- The plan of an update: its cut holds the conversation, in whole turns.
  record IsPlan (m : Manager W) (input : List Message)
      (cut : List (List Message) × List (List Message)) : Type 0 where
    conversation : List Message
    accepted : conversation_messages m.system_prompt m.summary input ≡ ok conversation
    all_there : flatten_turns cut.0 ++ flatten_turns cut.1 ≡ conversation
    kept_whole : All IsTurn cut.1

  All-last : (P : List Message → Type 0) (xs ys : List (List Message)) → All P (xs ++ ys) → All P ys
  All-last P [] ys h = h
  All-last P (x ∷ xs) ys h = All-last P xs ys h.1

  plan_update-IsPlan :
      (m : Manager W) (input : List Message) (bytes : ℕ)
      (cut : List (List Message) × List (List Message))
      → plan_update mc m input ≡ ok (bytes, cut)
      → IsPlan m input cut
  unfolding plan_update
  plan_update-IsPlan m input bytes cut h =
      let (n, h0, h1) = >>=-eq-ok (measured (mc.measure input) invalid_history) _ h in
      let (conversation, h2, h3) =
        >>=-eq-ok (conversation_messages m.system_prompt m.summary input) _ h1 in
      let (turns, h4, h5) = >>=-eq-ok (split_turns conversation) _ h3 in
      let (k, h6, h7) =
        >>=-eq-ok
          (measured (mc.measure (build_history m.system_prompt m.summary turns)) invalid_history) _
          h5 in
      let (cut', h8, h9) =
        >>=-eq-ok
          (if ltb m.config.max_history_bytes k
            then evict mc m (update_reserve m) [] [] turns
            else ok ([], turns))
          (λ x. ok (n, x)) h7 in
      let same : cut' ≡ cut =
        ap (λ (x : ℕ × (List (List Message) × List (List Message))). x.1) (ok_inj h9) in
      let (whole, flat) = split_turns_lem conversation turns h4 in
      let parts : cut.0 ++ cut.1 ≡ turns =
        ap (λ (c : List (List Message) × List (List Message)). c.0 ++ c.1) (sym same)
        ∙ cut_parts m turns k cut' h8 in
      record {
        conversation = conversation;
        accepted = h2;
        all_there = sym (flatten_turns-append cut.0 cut.1) ∙ ap flatten_turns parts ∙ flat;
        kept_whole = All-last IsTurn cut.0 cut.1 (subst (All IsTurn) (sym parts) whole);
      }
    where
      cut_parts :
          (m : Manager W) (turns : List (List Message)) (k : ℕ)
          (c : List (List Message) × List (List Message))
          → (if ltb m.config.max_history_bytes k
              then evict mc m (update_reserve m) [] [] turns
              else ok ([], turns))
            ≡ ok c
          → c.0 ++ c.1 ≡ turns
      cut_parts m turns k c e = elim (Bool-cases (ltb m.config.max_history_bytes k)) [
        | inl over ↦
            (evict-IsCut mc m (update_reserve m) [] [] turns c (
              sym (
                ap (λ t. if t then evict mc m (update_reserve m) [] [] turns else ok ([], turns))
                  over)
              ∙ e)).parts
        | inr fits ↦
            let same : ◌≡◌ {A = List (List Message) × List (List Message)} ([], turns) c = ok_inj (
              sym (
                ap (λ t. if t then evict mc m (update_reserve m) [] [] turns else ok ([], turns))
                  fits)
              ∙ e) in
            ap (λ (x : List (List Message) × List (List Message)). x.0 ++ x.1) (sym same)
      ]

  published-IsManager :
      (m m' : Manager W) (s : Snapshot) (kept : List (List Message))
      → IsManager mc m
      → All IsTurn kept
      → m' ≡ record m { summary = s.summary; turns = kept }
      → s.history ≡ history m'
      → Fits mc m s.history
      → byte_length s.summary ≤ m.config.max_summary_bytes
      → IsManager mc m'
  unfolding history
  published-IsManager m m' s kept h whole same e f b =
      let next : Manager W = record m { summary = s.summary; turns = kept } in
      subst (IsManager mc) (sym same) (record {
        base = h.base;
        bounded = subst (Fits mc m) (e ∙ ap history same) f;
        summary_bound = b;
        whole = whole;
      })

  update_published :
      (m : Manager W) (input : List Message) (cut : List (List Message) × List (List Message))
      (r : Manager W × W × Result ErrorCode Snapshot)
      → IsManager mc m
      → IsPlan m input cut
      → Publishes mc m [] cut.1 r
      → Updates m input r
  update_published m input cut (m', w, err e) h p q = q
  update_published m input cut (m', w, ok s) h p (same, e, f, b) =
      let kept : m'.turns ≡ cut.1 = ap (λ (x : Manager W). x.turns) same in
      (
        cut.0,
        p.conversation,
        p.accepted,
        ap (λ k. flatten_turns cut.0 ++ flatten_turns k) kept ∙ p.all_there,
        same ∙ ap (λ k. record m { summary = s.summary; turns = k }) (sym kept),
        e,
        published-IsManager m m' s cut.1 h p.kept_whole same e
            (subst (Fits mc m) (append-nil s.history) f) b,
      )

  update_planned-Updates :
      (m : Manager W) (input : List Message)
      (plan : Result ErrorCode (ℕ × (List (List Message) × List (List Message)))) (w : W)
      → plan_update mc m input ≡ plan
      → IsManager mc m
      → Updates m input (update_planned mc m input plan w)
  unfolding update_planned
  update_planned-Updates m input (err e) w p h = refl
  update_planned-Updates m input (ok (bytes, cut)) w p h =
      update_published m input cut (update_planned mc m input (ok (bytes, cut)) w) h
        (plan_update-IsPlan m input bytes cut p)
        (finish_with-Publishes mc m input bytes [] cut (update_summary mc m cut.0 w)
          (update_summary-IsBrief mc m cut.0 w h.summary_bound))

  -- `Update` leaves a manager that is within its budget as it was where it reports an error.
  -- Otherwise it publishes a manager whose history is within the budget: what was dropped and the
  -- whole turns that are kept are the conversation of the input, in order.
  pub update-Updates :
      (m : Manager W) (input : List Message) (w : W)
      → IsManager mc m
      → Updates m input (update mc m input w)
  unfolding update
  update-Updates m input w h = elim (Bool-cases (mc.ctx_err w).1) [
    | inl ended ↦ rw (ended, update) refl
    | inr lasting ↦
        rw (lasting, update)
          (update_planned-Updates m input (plan_update mc m input) (mc.ctx_err w).0 refl h)
  ]

  prepared-parts :
      (m : Manager W) (extra : List Message) (used : Bool)
      (cut : List (List Message) × List (List Message))
      → cut_prepare mc m extra ≡ ok (used, cut)
      → cut.0 ++ cut.1 ≡ m.turns
  prepared-parts m extra used cut h =
      let p = cut_prepare-IsPrepared mc m extra used cut h in
      (evict-IsCut mc m _ extra p.first.0 p.first.1 cut p.second).parts ∙ p.first_cut.parts

  prepare_published :
      (m : Manager W) (extra : List Message) (cut : List (List Message) × List (List Message))
      (r : Manager W × W × Result ErrorCode Snapshot)
      → IsMeasure mc
      → IsManager mc m
      → cut.0 ++ cut.1 ≡ m.turns
      → Publishes mc m extra cut.1 r
      → Prepares m extra r
  prepare_published m extra cut (m', w, err e) j h p q = q
  prepare_published m extra cut (m', w, ok s) j h p (same, e, f, b) =
      let kept : m'.turns ≡ cut.1 = ap (λ (x : Manager W). x.turns) same in
      let (n, known, small) = f in
      let (k, shorter, less) = j.shorter s.history extra n known in
      let within : k ≤ m.config.max_history_bytes = omega (arith, less, small) in
      (
        cut.0,
        ap (λ x. cut.0 ++ x) kept ∙ p,
        same ∙ ap (λ x. record m { summary = s.summary; turns = x }) (sym kept),
        e,
        f,
        published-IsManager m m' s cut.1 h
            (All-last IsTurn cut.0 cut.1 (subst (All IsTurn) (sym p) h.whole)) same e
            (k, shorter, within) b,
      )

  prepare_cut-Prepares :
      (m : Manager W) (prompt : List Message) (bytes : ℕ) (extra : List Message)
      (plan : Result ErrorCode (Bool × (List (List Message) × List (List Message)))) (w : W)
      → cut_prepare mc m extra ≡ plan
      → IsMeasure mc
      → IsManager mc m
      → Prepares m extra (prepare_cut mc m prompt bytes extra plan w)
  unfolding prepare_cut
  prepare_cut-Prepares m prompt bytes extra (err e) w p j h = refl
  prepare_cut-Prepares m prompt bytes extra (ok (used, cut)) w p j h =
      prepare_published m extra cut (prepare_cut mc m prompt bytes extra (ok (used, cut)) w) j h
        (prepared-parts m extra used cut p)
        (finish_with-Publishes mc m prompt bytes extra cut (prepare_summary mc m used cut.0 w)
          (prepare_summary-IsBrief mc m used cut.0 w h.summary_bound))

  prepare_measured-Prepares :
      (m : Manager W) (extra : List Message) (r : Result ErrorCode ℕ) (w : W)
      → measured (mc.measure (history m ++ extra)) invalid_history ≡ r
      → IsMeasure mc
      → IsManager mc m
      → Prepares m extra (prepare_measured mc m (history m ++ extra) extra r w)
  unfolding prepare_measured
  prepare_measured-Prepares m extra (err e) w p j h = refl
  prepare_measured-Prepares m extra (ok bytes) w p j h =
      elim (Bool-cases (leb bytes m.config.max_history_bytes)) [
        | inl fits ↦
            rw (fits, prepare_measured)
              (
                [],
                refl,
                refl,
                refl,
                (
                  bytes,
                  measured-eq-ok mc (history m ++ extra) invalid_history bytes p,
                  ground (arith, fits),
                ),
                h,
              )
        | inr over ↦
            rw (over, prepare_measured)
              (prepare_cut-Prepares m (history m ++ extra) bytes extra (cut_prepare mc m extra) w
                refl j h)
      ]

  -- `Prepare` leaves a manager that is within its budget as it was where it reports an error.
  -- Otherwise the history with the user's message behind it is within the budget, the turns that
  -- are dropped and those that are kept are the turns of before, in order, and the manager keeps a
  -- history within the budget. `Measure` is taken to count no more bytes for some messages than for
  -- them with others behind.
  pub prepare-Prepares :
      (j : IsMeasure mc) (m : Manager W) (user_text : Text) (w : W)
      → IsManager mc m
      → Prepares m (plain (codes "user") user_text ∷ []) (prepare mc m user_text w)
  unfolding prepare
  prepare-Prepares j m user_text w h = elim (Bool-cases (mc.ctx_err w).1) [
    | inl ended ↦ rw (ended, prepare) refl
    | inr lasting ↦
        rw (lasting, prepare)
          (prepare_measured-Prepares m (plain (codes "user") user_text ∷ []) _ (mc.ctx_err w).0 refl
            j h)
  ]
