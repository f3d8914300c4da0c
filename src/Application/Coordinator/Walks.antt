-- ===== src/Application/Coordinator/Walks.antt =====
-- Which states a turn of internal/application/coordinator.go goes through, and how it may end.
pub mod Streamed
pub mod Whole
use xarlatan.Common.{
  ℕ, ◌≡◌, ◌≢◌, refl, sym, ap, some_inj, ◌⊎◌, inl, inr, Bool, true, false, Option, none, some, List,
  [], ◌∷◌, ◌++◌, arith, if◌then◌else◌, Option-cases, Bool-cases,
}
use xarlatan.Common.Text.{Text, is_empty, trim_space}
use xarlatan.Audio.{Buffer, empty, validate}
use xarlatan.Application.{
  State, idle, listening, transcribing, thinking, synthesizing, speaking, stopping, interrupted,
  wake_detected, ErrorCode, capture_failed, transcription_failed, agent_failed, synthesis_failed,
  playback_failed, turn_interrupted, cancelled, deadline_exceeded, Outcome, unset, noop,
  wake_ignored, success, failed, was_cancelled, was_interrupted, CtxEnd, canceled, deadline,
  interrupt, Fault, is_canceled, is_deadline, other, Reply, ok, err, AppError, context_code,
  context_application_error, ctx_error,
}
use xarlatan.Application.Recorder.{Turn, emit}
use xarlatan.Application.Coordinator.{
  Voice, Ending, context_fault, end_interrupted, end_cancelled, end_failed, end_success, end_noop,
  fail_later, fail, conclude, play_reply, synthesize_buffered_reply, take_reply,
  complete_buffered_response,
}

-- The edges of the state machine. While a stage runs the turn may fall back to idle, stop, or be
-- interrupted; nothing follows the last two.
abbrev pub follows : State → State → Bool
follows stopping t = false
follows interrupted t = false
follows idle listening = true
follows idle stopping = true
follows idle t = false
follows wake_detected thinking = true
follows wake_detected t = false
follows s idle = true
follows s stopping = true
follows s interrupted = true
follows listening transcribing = true
follows transcribing wake_detected = true
follows transcribing thinking = true
follows thinking synthesizing = true
follows synthesizing speaking = true
follows _ _ = false

-- A list of states that starts idle and follows the edges, with its last state.
pub data Walk : List State → State → Type 0 where
  start : Walk (idle ∷ []) idle
  step :
      {xs : List State} {s : State} (t : State)
      → Walk xs s
      → follows s t ≡ true
      → Walk (xs ++ t ∷ []) t

abbrev pub IsWalk : Turn → Type 0
IsWalk t = Walk t.states t.current

pub emit-IsWalk : (s : State) (t : Turn) → IsWalk t → follows t.current s ≡ true → IsWalk (emit s t)
unfolding emit
emit-IsWalk s t w f = step s w f

abbrev pub is_interrupt : Option CtxEnd → Bool
is_interrupt (some (interrupt latency)) = true
is_interrupt (some canceled) = false
is_interrupt (some deadline) = false
is_interrupt none = false

-- What ends a turn as cancelled: the context has ended, or the stage reports that its own has.
abbrev pub Ends : Option CtxEnd → Fault → Type 0
Ends (some e) f = f ≡ ctx_error e
Ends none f = (f ≡ is_canceled) ⊎ (f ≡ is_deadline)

-- How the end of a turn comes about, and what its last state, outcome, error code, latency and error
-- are then. The first index is the world that the last call leaves.
pub data Closing {W S : Type 0} (o : Voice W S)
    : W → State → Outcome → Option ErrorCode → ℕ → Option AppError → Type 0 where
  -- Nothing was captured, or the transcript is blank.
  no_audio :
      {l : ℕ} (w : W) (b : Buffer S)
      → (o.capture w).1 ≡ ok b
      → empty b ≡ true
      → Closing o (o.capture w).0 idle noop none l none
  no_words :
      {l : ℕ} (w : W) (b : Buffer S) (text : Text)
      → (o.transcribe b w).1 ≡ ok text
      → is_empty (trim_space text) ≡ true
      → Closing o (o.transcribe b w).0 idle noop none l none
  -- There is a wake detector, and it does not accept the transcript.
  unheard :
      {l : ℕ} (w : W) (b : Buffer S) (text : Text) (detect : Text → Option Text)
      → (o.transcribe b w).1 ≡ ok text
      → o.wake ≡ some detect
      → detect (trim_space text) ≡ none
      → Closing o (o.transcribe b w).0 idle wake_ignored none l none
  -- A reply without sound, or one behind which the context has not ended.
  soundless :
      {l : ℕ} (w : W) (reply : Text) (b : Buffer S)
      → (o.synthesize reply w).1 ≡ ok b
      → empty b ≡ true
      → Closing o (o.synthesize reply w).0 idle success none l none
  done : {l : ℕ} (w : W) → (o.poll w).1 ≡ none → Closing o (o.poll w).0 idle success none l none
  -- A failure, at which the context is not interrupted and has not ended a moment later.
  broken :
      {c : ErrorCode} {l : ℕ} (w : W)
      → is_interrupt (o.poll w).1 ≡ false
      → (o.poll (o.poll w).0).1 ≡ none
      → Closing o
          (o.poll (o.poll w).0).0
          idle
          failed
          (some c)
          l
          (some (record { code = c; recoverable = true }))
  -- A failure, at which the context is not interrupted, but has ended a moment later, or that is one of
  -- a context itself.
  halted :
      {l : ℕ} (w : W) (f : Fault)
      → is_interrupt (o.poll w).1 ≡ false
      → Ends (o.poll (o.poll w).0).1 f
      → Closing o
          (o.poll (o.poll w).0).0
          stopping
          was_cancelled
          (some (context_code f))
          l
          (some (context_application_error f))
  -- The context had ended before the turn began.
  stillborn :
      {l : ℕ} (w : W) (e : CtxEnd)
      → (o.poll w).1 ≡ some e
      → Closing o
          (o.poll w).0
          stopping
          unset
          none
          l
          (some (context_application_error (ctx_error e)))
  -- An interruption.
  cut :
      {l : ℕ} (w : W)
      → (o.poll w).1 ≡ some (interrupt l)
      → Closing o
          (o.poll w).0
          interrupted
          was_interrupted
          (some turn_interrupted)
          l
          (some (record { code = turn_interrupted; recoverable = true }))

-- A turn that ended well: it walked the state machine, and closed for a reason.
pub record IsEnding {W S : Type 0} (o : Voice W S) (e : Ending W) : Type 0 where
  pub walk : IsWalk e.1
  pub closing : Closing o e.0 e.1.current e.1.outcome e.1.error_code e.1.interrupt_latency e.2

-- A turn that is under way and may go idle, stop or be interrupted.
pub record IsOpen (t : Turn) : Type 0 where
  pub walk : IsWalk t
  pub to_idle : follows t.current idle ≡ true
  pub to_stopping : follows t.current stopping ≡ true
  pub to_interrupted : follows t.current interrupted ≡ true
  pub no_error : t.error_code ≡ none

module _ {W S : Type 0} (o : Voice W S) where
  ends : (x : Option CtxEnd) (f g : Fault) → context_fault x f ≡ some g → Ends x g
  unfolding context_fault
  ends (some e) f g h = sym (some_inj h)
  ends none is_canceled g h = inl (sym (some_inj h))
  ends none is_deadline g h = inr (sym (some_inj h))
  ends none other g h = absurd (cc)

  lasts : (x : Option CtxEnd) (f : Fault) → context_fault x f ≡ none → x ≡ none
  unfolding context_fault
  lasts (some e) f h = absurd (cc)
  lasts none f h = refl

  fail_later-IsEnding :
      (w : W) (t : Turn) (c : ErrorCode) (f : Fault)
      → is_interrupt (o.poll w).1 ≡ false
      → IsOpen t
      → IsEnding o (fail_later o (o.poll w).0 t c f)
  unfolding fail_later end_cancelled end_failed emit
  fail_later-IsEnding w t c f n h =
      let later = (o.poll (o.poll w).0).1 in
      elim (Option-cases (context_fault later f)) [
        | inl e ↦
            rw (e, fail_later)
              (record { walk = step idle h.walk h.to_idle; closing = broken w n (lasts later f e) })
        | inr (g, e) ↦
            rw (e, fail_later)
              (record {
                walk = step stopping h.walk h.to_stopping;
                closing = halted w g n (ends later f g e);
              })
      ]

  fail_at :
      (w : W) (t : Turn) (c : ErrorCode) (f : Fault) (ended : Option CtxEnd)
      → (o.poll w).1 ≡ ended
      → IsOpen t
      → IsEnding o (fail o w t c f)
  unfolding fail end_interrupted emit
  fail_at w t c f none e h = rw (e, fail) (fail_later-IsEnding w t c f (ap is_interrupt e) h)
  fail_at w t c f (some canceled) e h =
      rw (e, fail) (fail_later-IsEnding w t c f (ap is_interrupt e) h)
  fail_at w t c f (some deadline) e h =
      rw (e, fail) (fail_later-IsEnding w t c f (ap is_interrupt e) h)
  fail_at w t c f (some (interrupt l)) e h =
      rw (e, fail) (record { walk = step interrupted h.walk h.to_interrupted; closing = cut w e })

  pub fail-IsEnding :
      (w : W) (t : Turn) (c : ErrorCode) (f : Fault) → IsOpen t → IsEnding o (fail o w t c f)
  fail-IsEnding w t c f h = fail_at w t c f (o.poll w).1 refl h

  pub end_success-IsEnding :
      (w : W) (t : Turn)
      → IsOpen t
      → ((l : ℕ) → Closing o w idle success none l none)
      → IsEnding o (end_success w t)
  unfolding end_success emit
  end_success-IsEnding w t h c = record {
    walk = step idle h.walk h.to_idle;
    closing = rw h.no_error (c t.interrupt_latency);
  }

  pub end_noop-IsEnding :
      (w : W) (t : Turn)
      → IsOpen t
      → ((l : ℕ) → Closing o w idle noop none l none)
      → IsEnding o (end_noop w t)
  unfolding end_noop emit
  end_noop-IsEnding w t h c = record {
    walk = step idle h.walk h.to_idle;
    closing = rw h.no_error (c t.interrupt_latency);
  }

  pub conclude-IsEnding : (w : W) (t : Turn) → IsOpen t → IsEnding o (conclude o w t)
  unfolding conclude
  conclude-IsEnding w t h = elim (Option-cases (o.poll w).1) [
    | inl e ↦ rw (e, conclude) (end_success-IsEnding (o.poll w).0 t h (λ l. done w e))
    | inr (x, e) ↦ rw (e, conclude) (fail-IsEnding (o.poll w).0 t agent_failed (ctx_error x) h)
  ]

-- A stage that may fail is entered.
pub enter-IsOpen :
    (s : State) (t : Turn)
    → IsOpen t
    → follows t.current s ≡ true
    → follows s idle ≡ true
    → follows s stopping ≡ true
    → follows s interrupted ≡ true
    → IsOpen (emit s t)
unfolding emit
enter-IsOpen s t h f a b c = record {
  walk = step s h.walk f;
  to_idle = a;
  to_stopping = b;
  to_interrupted = c;
  no_error = h.no_error;
}

module _ {W S : Type 0} (o : Voice W S) where
  play_reply-IsEnding :
      (w : W) (t : Turn) (b : Buffer S)
      → IsOpen t
      → t.current ≡ synthesizing
      → IsEnding o (play_reply o w t b)
  unfolding play_reply
  play_reply-IsEnding w t b h e =
      let h' = enter-IsOpen speaking t h (rw e) refl refl refl in
      elim (Option-cases (o.play b w).1) [
        | inl p ↦ rw (p, play_reply) (conclude-IsEnding o (o.play b w).0 (emit speaking t) h')
        | inr (f, p) ↦
            rw (p, play_reply)
              (fail-IsEnding o (o.play b w).0 (emit speaking t) playback_failed f h')
      ]

  synthesized :
      (w : W) (t : Turn) (b : Buffer S)
      → IsOpen t
      → t.current ≡ synthesizing
      → (empty b ≡ true → (l : ℕ) → Closing o w idle success none l none)
      → IsEnding o (
          if empty b then end_success w t else elim (validate b) [
            | some bad ↦ fail o w t synthesis_failed other
            | none ↦ play_reply o w t b
          ])
  synthesized w t b h e c = elim (Bool-cases (empty b)) [
    | inl p ↦ rw p (end_success-IsEnding o w t h (c p))
    | inr p ↦ elim (Option-cases (validate b)) [
      | inl q ↦ rw (p, q) (play_reply-IsEnding w t b h e)
      | inr (bad, q) ↦ rw (p, q) (fail-IsEnding o w t synthesis_failed other h)
    ]
  ]

  pub synthesize_buffered_reply-IsEnding :
      (w : W) (t : Turn)
      → IsOpen t
      → t.current ≡ thinking
      → IsEnding o (synthesize_buffered_reply o w t)
  unfolding synthesize_buffered_reply
  synthesize_buffered_reply-IsEnding w t h e =
      let h' = enter-IsOpen synthesizing t h (rw e) refl refl refl in
      answered (o.synthesize t.reply w).1 refl h'
    where
      answered :
          (a : Reply (Buffer S))
          → (o.synthesize t.reply w).1 ≡ a
          → IsOpen (emit synthesizing t)
          → IsEnding o (synthesize_buffered_reply o w t)
      answered (err f) p h' =
          rw (p, synthesize_buffered_reply)
            (fail-IsEnding o (o.synthesize t.reply w).0 (emit synthesizing t) synthesis_failed f h')
      answered (ok b) p h' =
          rw (p, synthesize_buffered_reply)
            (synthesized (o.synthesize t.reply w).0 (emit synthesizing t) b h' (unfold emit in refl)
              (λ q l. soundless w t.reply b p q))

  pub complete_buffered_response-IsEnding :
      (w : W) (t : Turn) (s : Text)
      → IsOpen t
      → t.current ≡ thinking
      → IsEnding o (complete_buffered_response o w t s)
  unfolding complete_buffered_response take_reply
  complete_buffered_response-IsEnding w t s h e = answered (o.respond s w).1 refl
    where
      answered :
          (a : Reply Text) → (o.respond s w).1 ≡ a → IsEnding o (complete_buffered_response o w t s)
      answered (err f) p =
          rw (p, complete_buffered_response) (fail-IsEnding o (o.respond s w).0 t agent_failed f h)
      answered (ok text) p =
          let t' = take_reply o text t in
          rw (p, complete_buffered_response)
            (synthesize_buffered_reply-IsEnding (o.show_assistant t'.reply (o.respond s w).0) t'
              (record {
                walk = h.walk;
                to_idle = h.to_idle;
                to_stopping = h.to_stopping;
                to_interrupted = h.to_interrupted;
                no_error = h.no_error;
              })
              e)
