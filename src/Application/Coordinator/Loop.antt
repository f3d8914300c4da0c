-- ===== src/Application/Coordinator/Loop.antt =====
-- The loop of `Run` of internal/application/coordinator.go over the turns.
use xarlatan.Common.{
  ℕ, zero, suc, ◌+◌, ◌≡◌, refl, ◌⊎◌, inl, inr, true, Option, none, some, arith, Option-cases,
}
use xarlatan.Application.{
  State, Outcome, ErrorCode, AppError, Fault, is_canceled, is_deadline, other,
  context_application_error, ctx_error,
}
use xarlatan.Application.Coordinator.{Voice}
use xarlatan.Application.Coordinator.Turns.{
  next_turn, stop_quietly, decide, returned, run_turn, run,
}
use xarlatan.Application.Coordinator.Walks.{
  Closing, no_audio, no_words, unheard, soundless, done, broken, halted, stillborn, cut,
}
use xarlatan.Application.Coordinator.Walks.Whole.{run_turn-IsEnding}

-- The loop goes on, or returns with no error.
abbrev Continues : Option AppError → Type 0
Continues e = (decide e ≡ next_turn) ⊎ (decide e ≡ stop_quietly)

context-Continues : (f : Fault) → Continues (some (context_application_error f))
unfolding decide context_application_error
context-Continues is_canceled = inr refl
context-Continues is_deadline = inr refl
context-Continues other = inr refl

recoverable-Continues : (c : ErrorCode) → Continues (some (record { code = c; recoverable = true }))
unfolding decide
recoverable-Continues c = ground arith

Closing-Continues :
    {W S : Type 0} {o : Voice W S} {w : W} {s : State} {x : Outcome} {c : Option ErrorCode} {l : ℕ}
    {e : Option AppError}
    → Closing o w s x c l e
    → Continues e
Closing-Continues (no_audio w b h p) = unfold decide in inl refl
Closing-Continues (no_words w b t h p) = unfold decide in inl refl
Closing-Continues (unheard w b t d h p q) = unfold decide in inl refl
Closing-Continues (soundless w t b h p) = unfold decide in inl refl
Closing-Continues (done w h) = unfold decide in inl refl
Closing-Continues (broken {c = c} w n h) = recoverable-Continues c
Closing-Continues (halted w f n h) = context-Continues f
Closing-Continues (stillborn w e h) = context-Continues (ctx_error e)
Closing-Continues (cut w h) = unfold decide in inl refl

module _ {W S : Type 0} (o : Voice W S) where
  -- Where `Run` returns it returns no error, however its turns went and whenever its context ended.
  pub run_no_error :
      (fuel : ℕ) (w w' : W) (sequence : ℕ) (e : Option AppError)
      → run o fuel w sequence ≡ returned w' e
      → e ≡ none
  unfolding run
  run_no_error zero w w' sequence e p = absurd (cc)
  run_no_error (suc fuel) w w' sequence e p = elim (Option-cases (o.poll w).1) [
    | inr (x, q) ↦ ground (arith, q)
    | inl q ↦ elim (Option-cases (run_turn o (o.poll w).0 (sequence + 1))) [
      | inl r ↦ absurd (ground (arith, q, r))
      | inr (ending, r) ↦
          elim (Closing-Continues (run_turn-IsEnding o (o.poll w).0 (sequence + 1) r).closing) [
            | inl go ↦ run_no_error fuel ending.0 w' (sequence + 1) e (rw (q, r, go, run) at p)
            | inr halt ↦ ground (arith, q, r, halt)
          ]
    ]
  ]
