-- ===== src/Application.antt =====
-- internal/application: the voice application. This module holds the vocabulary of application.go,
-- interrupt.go and wake.go: states, codes, contexts and what a turn records of itself.
pub mod Recorder
pub mod Coordinator
pub mod Workers
pub mod Interrupts
pub mod BargeIn
use xarlatan.Common.{ℕ, Bool, true, false, Option, none, some, List, [], ◌∷◌, ◌++◌}
use xarlatan.Common.Text.{Text}

-- `State`, with `StateInterrupted` and `StateWakeDetected`.
pub data State : Type 0 where
  idle listening transcribing thinking synthesizing speaking stopping : State
  interrupted wake_detected : State

-- `ErrorCode`, with `ErrorInterrupted`.
pub data ErrorCode : Type 0 where
  capture_failed transcription_failed agent_failed synthesis_failed playback_failed : ErrorCode
  cancelled deadline_exceeded invalid_application turn_interrupted : ErrorCode

-- `Trace.Outcome`; `unset` is the empty string.
pub data Outcome : Type 0 where
  unset noop wake_ignored success failed was_cancelled was_interrupted : Outcome

-- How a context has ended: its error and, for an interruption, the latency in its cause.
pub data CtxEnd : Type 0 where
  canceled deadline : CtxEnd
  interrupt : ℕ → CtxEnd

-- What `errors.Is` can tell of the error of a stage.
pub data Fault : Type 0 where
  is_canceled is_deadline other : Fault

-- A result or an error.
pub data Reply (A : Type 0) : Type 0 where
  ok : A → Reply A
  err : Fault → Reply A

-- `Error`
pub record AppError : Type 0 where
  pub code : ErrorCode
  pub recoverable : Bool

-- `Event` of an interrupt source (`InterruptEvent`): the turn that it is meant for, and its latency.
pub record InterruptEvent : Type 0 where
  pub turn_id : ℕ
  pub latency : ℕ

-- `errors.Is(err, context.DeadlineExceeded)` decides both the error and its code.
unfoldable pub context_code : Fault → ErrorCode
context_code is_deadline = deadline_exceeded
context_code _ = cancelled

unfoldable pub context_application_error : Fault → AppError
unfolding context_code
context_application_error f = record { code = context_code f; recoverable = false }

-- `ctx.Err()` of a context that has ended: an interruption cancels it.
unfoldable pub ctx_error : CtxEnd → Fault
ctx_error canceled = is_canceled
ctx_error deadline = is_deadline
ctx_error (interrupt latency) = is_canceled
