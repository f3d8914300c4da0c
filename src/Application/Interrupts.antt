-- ===== src/Application/Interrupts.antt =====
-- `watchInterrupts` of internal/application/interrupt.go: the goroutine that cancels a turn.
use xarlatan.Common.{
  ℕ, ◌≡◌, inl, inr, false, not, Option, none, some, List, [], ◌∷◌, arith, ◌==◌, if◌then◌else◌,
  Bool-cases,
}
use xarlatan.Application.{InterruptEvent}

-- What one receive of its select loop yields.
pub data Watch : Type 0 where
  turn_ended closed : Watch
  event : InterruptEvent → Watch

-- The latency of the cause with which the turn is cancelled; `none` where it is not.
unfoldable pub watch_interrupts : ℕ → List Watch → Option ℕ
watch_interrupts turn_id [] = none
watch_interrupts turn_id (turn_ended ∷ xs) = none
watch_interrupts turn_id (closed ∷ xs) = none
watch_interrupts turn_id (event e ∷ xs) =
    let later = watch_interrupts turn_id xs in
    if not (e.turn_id == turn_id) then later else some e.latency

-- Events of other turns, while the turn runs and the source is open.
abbrev pub IsForeign : ℕ → Watch → Type 0
IsForeign turn_id (event e) = (e.turn_id == turn_id) ≡ false
IsForeign turn_id _ = ⊥

-- The first event of the turn stands behind foreign ones.
pub data FirstAt (turn_id latency : ℕ) : List Watch → Type 0 where
  here :
      (e : InterruptEvent) (xs : List Watch)
      → e.turn_id ≡ turn_id
      → e.latency ≡ latency
      → FirstAt turn_id latency (event e ∷ xs)
  there :
      (x : Watch) (xs : List Watch)
      → IsForeign turn_id x
      → FirstAt turn_id latency xs
      → FirstAt turn_id latency (x ∷ xs)

-- A turn is cancelled only by an event for itself that comes while it runs, with that event's latency.
pub watch_interrupts_sound :
    (turn_id latency : ℕ) (xs : List Watch)
    → watch_interrupts turn_id xs ≡ some latency
    → FirstAt turn_id latency xs
unfolding watch_interrupts
watch_interrupts_sound turn_id latency [] h = absurd (cc)
watch_interrupts_sound turn_id latency (turn_ended ∷ xs) h = absurd (cc)
watch_interrupts_sound turn_id latency (closed ∷ xs) h = absurd (cc)
watch_interrupts_sound turn_id latency (event e ∷ xs) h = elim (Bool-cases (e.turn_id == turn_id)) [
  | inl mine ↦ here e xs (ground (arith, mine)) (ground (arith, mine, h))
  | inr other ↦
      there (event e) xs other
        (watch_interrupts_sound turn_id latency xs (rw (other, watch_interrupts) at h))
]

-- An event for the turn that comes while it runs, behind events of other turns only, cancels it with
-- its latency.
pub watch_interrupts_complete :
    {turn_id latency : ℕ} {xs : List Watch}
    → FirstAt turn_id latency xs
    → watch_interrupts turn_id xs ≡ some latency
unfolding watch_interrupts
watch_interrupts_complete (here e xs same at) = ground (arith, same, at)
watch_interrupts_complete (there turn_ended xs f rest) = absurd f
watch_interrupts_complete (there closed xs f rest) = absurd f
watch_interrupts_complete (there (event e) xs f rest) =
    ground (arith, f, watch_interrupts_complete rest)
