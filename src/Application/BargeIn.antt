-- ===== src/Application/BargeIn.antt =====
-- `Subscribe` of internal/application/barge_in.go: the goroutine that listens to candidates for an
-- interruption of one turn. What a receive of its select yields is an element of a list.
use xarlatan.Common.{
  ℕ, ◌≡◌, refl, subst, inl, inr, Bool, true, false, not, ◌||◌, Option, none, some, List, [], ◌∷◌,
  arith, ◌==◌, if◌then◌else◌, Bool-cases,
}
use xarlatan.Common.Text.{Text}
use xarlatan.Application.{InterruptEvent}
use xarlatan.Audio.{Buffer, empty}
use xarlatan.Audio.Capture.{BargeCandidate}

-- A receive: the context has ended, the channel is closed, or a candidate with the time that has passed
-- since it started. The flag says that the context has ended where the event is to be sent.
pub data Heard (F : Type 0) : Type 0 where
  done closed : Heard F
  candidate : BargeCandidate F → ℕ → Bool → Heard F

-- `Transcriber`, `BargePolicy` and the look at the context; no transcript is an error.
pub record Listener (W F : Type 0) : Type 0 where
  pub transcribe : Buffer F → W → W × Option Text
  pub confirm : Text → Bool
  pub ctx_ended : W → W × Bool

-- How the goroutine ends: it has closed its channel, with or without an event in it, or it still waits.
pub data Subscription : Type 0 where
  ended waiting : Subscription
  sent : InterruptEvent → Subscription

unfoldable pub event_of : ℕ → ℕ → InterruptEvent
event_of turn_id latency = record {
  turn_id = turn_id;
  latency = if latency == 0 then 1 else latency;
}

module _ {W F : Type 0} (l : Listener W F) (turn_id : ℕ) where
  -- What follows a transcript; `later` is the rest of the loop.
  unfoldable pub judged : ℕ → Bool → Option Text → W → (W → W × Subscription) → W × Subscription
  unfolding event_of
  judged latency over none w later =
      let (w', stopped) = l.ctx_ended w in
      let rest = later w' in if stopped then (w', ended) else rest
  judged latency over (some text) w later =
      let rest = later w in
      if not (l.confirm text)
      then rest
      else if over
      then (w, ended)
      else (w, sent (event_of turn_id latency))

  unfoldable pub subscribe : List (Heard F) → W → W × Subscription
  unfolding judged empty
  subscribe [] w = (w, waiting)
  subscribe (done ∷ heard) w = (w, ended)
  subscribe (closed ∷ heard) w = (w, ended)
  subscribe (candidate c latency over ∷ heard) w =
      let (w', transcript) = l.transcribe c.buffer w in
      let judgement = judged latency over transcript w' (subscribe heard) in
      let skipped = subscribe heard w in
      if empty c.buffer || not c.started then skipped else judgement

  -- A candidate of the list has audio, and its transcript was confirmed.
  pub data Confirmed : List (Heard F) → InterruptEvent → Type 0 where
    here :
        (c : BargeCandidate F) (latency : ℕ) (over : Bool) (heard : List (Heard F)) (w w' : W)
        (text : Text)
        → empty c.buffer ≡ false
        → l.transcribe c.buffer w ≡ (w', some text)
        → l.confirm text ≡ true
        → Confirmed (candidate c latency over ∷ heard) (event_of turn_id latency)
    there :
        (x : Heard F) (heard : List (Heard F)) (e : InterruptEvent)
        → Confirmed heard e
        → Confirmed (x ∷ heard) e

  abbrev IsConfirmed : List (Heard F) → Subscription → Type 0
  IsConfirmed heard ended = Unit
  IsConfirmed heard waiting = Unit
  IsConfirmed heard (sent e) = Confirmed heard e

  later-IsConfirmed :
      (x : Heard F) (heard : List (Heard F)) (s : Subscription)
      → IsConfirmed heard s
      → IsConfirmed (x ∷ heard) s
  later-IsConfirmed x heard ended h = tt
  later-IsConfirmed x heard waiting h = tt
  later-IsConfirmed x heard (sent e) h = there x heard e h

  judged-IsConfirmed :
      (c : BargeCandidate F) (latency : ℕ) (over : Bool) (heard : List (Heard F)) (w0 w : W)
      (transcript : Option Text) (later : W → W × Subscription)
      → empty c.buffer ≡ false
      → l.transcribe c.buffer w0 ≡ (w, transcript)
      → ((v : W) → IsConfirmed (candidate c latency over ∷ heard) (later v).1)
      → IsConfirmed (candidate c latency over ∷ heard) (judged latency over transcript w later).1
  unfolding judged
  judged-IsConfirmed c latency over heard w0 w none later a t h =
      elim (Bool-cases (l.ctx_ended w).1) [
        | inl stopped ↦ rw (stopped, judged) tt
        | inr lasting ↦ rw (lasting, judged) (h (l.ctx_ended w).0)
      ]
  judged-IsConfirmed c latency over heard w0 w (some text) later a t h =
      elim (Bool-cases (l.confirm text)) [
        | inr refused ↦ rw (refused, judged) (h w)
        | inl confirmed ↦ elim (Bool-cases over) [
          | inl stopped ↦ rw (confirmed, stopped, judged) tt
          | inr lasting ↦
              rw (confirmed, lasting, judged) (here c latency _ heard w0 w text a t confirmed)
        ]
      ]

  subscribe-IsConfirmed : (heard : List (Heard F)) (w : W) → IsConfirmed heard (subscribe heard w).1
  unfolding subscribe
  subscribe-IsConfirmed [] w = tt
  subscribe-IsConfirmed (done ∷ heard) w = tt
  subscribe-IsConfirmed (closed ∷ heard) w = tt
  subscribe-IsConfirmed (candidate c latency over ∷ heard) w =
      let x : Heard F = candidate c latency over in
      let later : (v : W) → IsConfirmed (x ∷ heard) (subscribe heard v).1 =
        λ v. later-IsConfirmed x heard (subscribe heard v).1 (subscribe-IsConfirmed heard v) in
      elim (Bool-cases (empty c.buffer || not c.started)) [
        | inl skipped ↦ rw (skipped, subscribe) (later w)
        | inr taken ↦
            rw (taken, subscribe)
              (judged-IsConfirmed c latency over heard w (l.transcribe c.buffer w).0
                (l.transcribe c.buffer w).1 (subscribe heard) (ground (arith, taken)) refl later)
      ]

  -- An interruption is sent only for a candidate with audio whose transcript the policy confirms, and it
  -- is an event for the turn of the subscription.
  pub subscribe_sound :
      (heard : List (Heard F)) (w : W) (e : InterruptEvent)
      → (subscribe heard w).1 ≡ sent e
      → Confirmed heard e
  subscribe_sound heard w e h = subst (IsConfirmed heard) h (subscribe-IsConfirmed heard w)
