-- ===== src/Memory/Bounded.antt =====
-- The operations of the manager of internal/memory keep its history within its budget and made of
-- whole turns, and an error leaves the manager as it was.
use xarlatan.Common.{
  ℕ, ◌≤◌, ◌≡◌, refl, inl, inr, Bool, true, false, Option, none, some, List, [], ◌∷◌, ◌++◌, arith,
  ltb, Bool-cases, Option-cases, All,
}
use xarlatan.Common.Text.{Text, byte_length, trim_space}
use xarlatan.Common.Results.{Result, ok, err, fail_if, >>=-eq-ok, fail_if-eq-ok}
use xarlatan.Orchestrator.{Message}
use xarlatan.Memory.{
  ErrorCode, invalid_history, Snapshot, Summarizer, Manager, Machine, flatten_turns, build_history,
  history,
}
use xarlatan.Memory.Summaries.{truncate_utf8-bound}
use xarlatan.Memory.Turns.Shape.{IsTurn}
use xarlatan.Memory.Cut.{Fits, measured-eq-ok}
use xarlatan.Memory.Update.{
  has, measured, summarize_with, summarizer_failed, call_summarizer, summarize_dropped,
  update_summary, checked_bytes, commit, publish, finish_with, trace_of, prepare_summary,
}

module _ {W : Type 0} (mc : Machine W) where
  -- A manager: its history and the system prompt alone are within the budget, the summary is within
  -- its own, and the turns are whole.
  pub record IsManager (m : Manager W) : Type 0 where
    pub base : Fits mc m (build_history m.system_prompt [] [])
    pub bounded : Fits mc m (history m)
    pub summary_bound : byte_length m.summary ≤ m.config.max_summary_bytes
    pub whole : All IsTurn m.turns

  -- What package json promises of `Measure`: some messages alone are no longer than with others behind.
  pub record IsMeasure : Type 0 where
    pub shorter :
        (xs ys : List Message) (n : ℕ)
        → mc.measure (xs ++ ys) ≡ some n
        → (k : ℕ) × (mc.measure xs ≡ some k) × (k ≤ n)

  -- What is left of an operation that measured its output together with `extra`.
  abbrev pub Publishes :
      Manager W
      → List Message
      → List (List Message)
      → Manager W × W × Result ErrorCode Snapshot
      → Type 0
  Publishes m extra kept (m', w, err e) = m' ≡ m
  Publishes m extra kept (m', w, ok s) =
      (m' ≡ record m { summary = s.summary; turns = kept })
      × (s.history ≡ history m')
      × Fits mc m (s.history ++ extra)
      × (byte_length s.summary ≤ m.config.max_summary_bytes)

  commit-Publishes :
      (m : Manager W) (extra : List Message) (kept : List (List Message)) (s : Snapshot) (w : W)
      → s.history ≡ build_history m.system_prompt s.summary kept
      → Fits mc m (s.history ++ extra)
      → byte_length s.summary ≤ m.config.max_summary_bytes
      → Publishes m extra kept (commit mc m (record m { summary = s.summary; turns = kept }) s w)
  unfolding commit history
  commit-Publishes m extra kept s w e f b = elim (Bool-cases (mc.ctx_err w).1) [
    | inl ended ↦ rw (ended, commit) refl
    | inr lasting ↦ rw (lasting, commit) (refl, e, f, b)
  ]

  checked_bytes-Fits :
      (m : Manager W) (output : List Message) (n : ℕ)
      → checked_bytes mc m output ≡ ok n
      → Fits mc m output
  unfolding checked_bytes
  checked_bytes-Fits m output n h =
      let (k, known, h1) = >>=-eq-ok (measured (mc.measure output) invalid_history) _ h in
      let (u, small, h2) =
        >>=-eq-ok (fail_if (ltb m.config.max_history_bytes k) _) (λ _. ok k) h1 in
      let within : k ≤ m.config.max_history_bytes = ground (arith, fail_if-eq-ok _ _ small) in
      (k, measured-eq-ok mc output invalid_history k known, within)

  publish-Publishes :
      (m : Manager W) (input : List Message) (bytes : ℕ) (extra : List Message)
      (cut : List (List Message) × List (List Message)) (summary : Text) (w : W)
      → byte_length summary ≤ m.config.max_summary_bytes
      → Publishes m extra cut.1 (publish mc m input bytes extra cut summary w)
  unfolding publish
  publish-Publishes m input bytes extra (dropped, kept) summary w b =
      checked (checked_bytes mc m (build_history m.system_prompt summary kept ++ extra)) refl
    where
      checked :
          (r : Result ErrorCode ℕ)
          → checked_bytes mc m (build_history m.system_prompt summary kept ++ extra) ≡ r
          → Publishes m extra kept (publish mc m input bytes extra (dropped, kept) summary w)
      checked (err x) e = rw (e, publish) refl
      checked (ok n) e =
          rw (e, publish)
            (commit-Publishes m extra kept
              (record {
                history = build_history m.system_prompt summary kept;
                summary = summary;
                trace =
                    trace_of input bytes (build_history m.system_prompt summary kept ++ extra) n
                      dropped summary;
              })
              w refl (checked_bytes-Fits m _ n e) b)

  -- A summary is within its bound, or there is an error.
  abbrev pub IsBrief : Manager W → Result ErrorCode Text → Type 0
  IsBrief m (err e) = Unit
  IsBrief m (ok s) = byte_length s ≤ m.config.max_summary_bytes

  pub finish_with-Publishes :
      (m : Manager W) (input : List Message) (bytes : ℕ) (extra : List Message)
      (cut : List (List Message) × List (List Message)) (r : W × Result ErrorCode Text)
      → IsBrief m r.1
      → Publishes m extra cut.1 (finish_with mc m input bytes extra cut r)
  unfolding finish_with
  finish_with-Publishes m input bytes extra cut (w, err e) b = refl
  finish_with-Publishes m input bytes extra cut (w, ok s) b =
      publish-Publishes m input bytes extra cut s w b

  call_summarizer-IsBrief :
      (f : Summarizer W) (m : Manager W) (dropped : List (List Message)) (w : W)
      → IsBrief m (call_summarizer mc f m dropped w).1
  unfolding call_summarizer summarizer_failed
  call_summarizer-IsBrief f m dropped w =
      elim (Option-cases (f m.summary (flatten_turns dropped) m.config.max_summary_bytes w).1) [
        | inl e ↦ rw (e, call_summarizer) tt
        | inr (t, e) ↦
            rw (e, call_summarizer) (truncate_utf8-bound (trim_space t) m.config.max_summary_bytes)
      ]

  summarize_with-IsBrief :
      (o : Option (Summarizer W)) (m : Manager W) (dropped : List (List Message)) (w : W)
      → IsBrief m (summarize_with mc o m dropped w).1
  unfolding summarize_with byte_length
  summarize_with-IsBrief none m dropped w = omega arith
  summarize_with-IsBrief (some f) m dropped w = call_summarizer-IsBrief f m dropped w

  summarize_dropped-IsBrief :
      (m : Manager W) (dropped : List (List Message)) (w : W)
      → IsBrief m (summarize_dropped mc m dropped w).1
  unfolding summarize_dropped
  summarize_dropped-IsBrief m dropped w = summarize_with-IsBrief m.summarizer m dropped w

  pub update_summary-IsBrief :
      (m : Manager W) (dropped : List (List Message)) (w : W)
      → byte_length m.summary ≤ m.config.max_summary_bytes
      → IsBrief m (update_summary mc m dropped w).1
  unfolding update_summary
  update_summary-IsBrief m [] w b = b
  update_summary-IsBrief m (t ∷ dropped) w b = elim (Bool-cases (has m.summarizer)) [
    | inr e ↦ rw (e, update_summary) (summarize_dropped-IsBrief m (t ∷ dropped) w)
    | inl e ↦ elim (Bool-cases (mc.ctx_err w).1) [
      | inl ended ↦ rw (e, ended, update_summary) tt
      | inr lasting ↦
          rw (e, lasting, update_summary)
            (summarize_dropped-IsBrief m (t ∷ dropped) (mc.ctx_err w).0)
    ]
  ]

  pub prepare_summary-IsBrief :
      (m : Manager W) (used : Bool) (dropped : List (List Message)) (w : W)
      → byte_length m.summary ≤ m.config.max_summary_bytes
      → IsBrief m (prepare_summary mc m used dropped w).1
  unfolding prepare_summary byte_length
  prepare_summary-IsBrief m true [] w b = b
  prepare_summary-IsBrief m false [] w b = omega arith
  prepare_summary-IsBrief m true (t ∷ dropped) w b = summarize_dropped-IsBrief m (t ∷ dropped) w
  prepare_summary-IsBrief m false (t ∷ dropped) w b = omega arith
