-- ===== src/Orchestrator/Suppressed.antt =====
-- When deltas are published by internal/orchestrator/runtime.go.
use xarlatan.Common.{
  ℕ, zero, suc, ◌≡◌, refl, sym, ap, ◌∙◌, inl, inr, Bool, true, false, Option, some, List, leb,
  Option-cases, Bool-cases,
}
use xarlatan.Common.Text.{Text}
use xarlatan.Orchestrator.{
  Message, Result, RuntimeError, ModelAnswer, replied, model_failed, AgentRuntime, Request,
  exposes_tools, Loop, first_round, Outcome, next_round, returns, call_model, model_error_round,
  direct_reply_round, round_limit_round, tool_round, replied_round, answered_round, round, rounds,
  run,
}

module _ {W : Type 0} (r : AgentRuntime W) where
  answered_round-deltas :
      (l : Loop) (answer : ModelAnswer) (w : W)
      → answered_round r true l answer w ≡ answered_round r false l answer w
  unfolding answered_round replied_round model_error_round direct_reply_round round_limit_round
      tool_round
  answered_round-deltas l (model_failed text) w = refl
  answered_round-deltas l (replied reply history) w = refl

  call_model-deltas :
      (history : List Message) (input : Text) (w : W)
      → exposes_tools r.registry ≡ true
      → call_model r true history input w ≡ call_model r false history input w
  unfolding call_model
  call_model-deltas history input w h = rw h refl

  round-deltas :
      (l : Loop) (w : W) → exposes_tools r.registry ≡ true → round r true l w ≡ round r false l w
  unfolding round
  round-deltas l w h = elim (Option-cases (r.machine.ctx_err w).1) [
    | inr (e, p) ↦ rw (p, round) refl
    | inl p ↦
        let w' = (r.machine.ctx_err w).0 in
        let called = call_model-deltas l.result.history l.input w' h in
        let (w'', answer) = call_model r false l.result.history l.input w' in
        rw (p, called, round) (answered_round-deltas l answer w'')
  ]

  -- What the loop does with the outcome of a round.
  abbrev proceed : Bool → ℕ → W × Outcome → Option (W × Result × Option RuntimeError)
  proceed b fuel (w, next_round l) = rounds r b fuel l w
  proceed b fuel (w, returns result problem) = some (w, result, problem)

  proceed-deltas :
      (fuel : ℕ) (x : W × Outcome)
      → ((l : Loop) (w : W) → rounds r true fuel l w ≡ rounds r false fuel l w)
      → proceed true fuel x ≡ proceed false fuel x
  proceed-deltas fuel (w, next_round l) later = later l w
  proceed-deltas fuel (w, returns result problem) later = refl

  rounds-proceed :
      (b : Bool) (fuel : ℕ) (l : Loop) (w : W)
      → rounds r b (suc fuel) l w ≡ proceed b fuel (round r b l w)
  unfolding rounds
  rounds-proceed b fuel l w = opened (round r b l w)
    where
      opened :
          (x : W × Outcome)
          → elim x.1 as (λ _. Option (W × Result × Option RuntimeError)) [
            | next_round l' ↦ rounds r b fuel l' x.0
            | returns result problem ↦ some (x.0, result, problem)
          ]
            ≡ proceed b fuel x
      opened (w', next_round l') = refl
      opened (w', returns result problem) = refl

  rounds-deltas :
      (fuel : ℕ) (l : Loop) (w : W)
      → exposes_tools r.registry ≡ true
      → rounds r true fuel l w ≡ rounds r false fuel l w
  unfolding rounds
  rounds-deltas zero l w h = refl
  rounds-deltas (suc fuel) l w h =
      rounds-proceed true fuel l w
      ∙ ap (proceed true fuel) (round-deltas l w h)
      ∙ proceed-deltas fuel (round r false l w) (λ l' w'. rounds-deltas fuel l' w' h)
      ∙ sym (rounds-proceed false fuel l w)

  -- Where tools are exposed no delta is published: `RunStream` is `Run`.
  pub run-deltas :
      (request : Request) (w : W)
      → exposes_tools r.registry ≡ true
      → run r true request w ≡ run r false request w
  unfolding run
  run-deltas request w h = elim (Bool-cases (leb r.max_tool_rounds 0)) [
    | inl e ↦ rw (e, run) refl
    | inr e ↦ rw (e, run) (rounds-deltas (suc r.max_tool_rounds) (first_round request) w h)
  ]
