-- ===== src/Audio/Capture/Read/Queues.antt =====
-- What a publication of internal/audio/continuous_capture.go does to a channel.
use xarlatan.Common.{
  ℕ, ◌≤◌, ◌<◌, inl, inr, List, [], ◌∷◌, arith, length, length-append, leb, Bool-cases, All,
  All-append,
}
use xarlatan.Audio.Capture.{try_send, try_receive, resend, offer_latest}

module _ {A : Type 0} where
  -- A publication never leaves more in a channel than it has room for.
  pub offer_latest-bound :
      (depth : ℕ) (queue : List A) (x : A)
      → 0 < depth
      → length queue ≤ depth
      → length (offer_latest depth queue x).0 ≤ depth
  unfolding offer_latest try_send try_receive resend
  offer_latest-bound depth [] x p h = ground arith
  offer_latest-bound depth (y ∷ queue) x p h = ground (arith, length-append queue (x ∷ []))

  resend-All :
      (P : A → Type 0) (depth : ℕ) (queue : List A) (x : A)
      → All P queue
      → P x
      → All P (resend depth queue x).0
  unfolding resend try_send
  resend-All P depth queue x h p = elim (Bool-cases (leb depth (length queue))) [
    | inl full ↦ rw (full, resend, try_send) h
    | inr room ↦ rw (room, resend, try_send) (All-append P queue (x ∷ []) h (p, tt))
  ]

  -- What it leaves there is what was there, or the new value.
  pub offer_latest-All :
      (P : A → Type 0) (depth : ℕ) (queue : List A) (x : A)
      → All P queue
      → P x
      → All P (offer_latest depth queue x).0
  unfolding offer_latest try_send try_receive
  offer_latest-All P depth [] x h p = elim (Bool-cases (leb depth 0)) [
    | inl full ↦ rw (full, offer_latest) (resend-All P depth [] x h p)
    | inr room ↦ rw (room, offer_latest, try_send) (p, tt)
  ]
  offer_latest-All P depth (y ∷ queue) x h p = elim (Bool-cases (leb depth (length (y ∷ queue)))) [
    | inl full ↦ rw (full, offer_latest) (resend-All P depth queue x h.1 p)
    | inr room ↦ rw (room, offer_latest, try_send) (All-append P (y ∷ queue) (x ∷ []) h (p, tt))
  ]
