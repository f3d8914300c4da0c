-- ===== src/Application/Coordinator.antt =====
-- internal/application/coordinator.go and wake.go: one voice turn, stage by stage.
-- The stages are worker calls whose answers the environment chooses, over a world of type `W`; a
-- context may end at any moment, so each look at it is a call of `poll`.
pub mod Streaming
pub mod Turns
pub mod Walks
pub mod Hush
pub mod Loop
pub mod Stale
use xarlatan.Common.{
  ℕ, Bool, true, false, not, Option, none, some, List, [], ◌∷◌, ◌++◌, if◌then◌else◌, length,
}
use xarlatan.Common.Text.{Text, trim_space, is_empty, byte_length}
use xarlatan.Audio.{Buffer, empty, validate}
use xarlatan.Application.{
  State, idle, listening, transcribing, thinking, synthesizing, speaking, stopping, interrupted,
  wake_detected, ErrorCode, capture_failed, transcription_failed, agent_failed, synthesis_failed,
  playback_failed, turn_interrupted, Outcome, noop, wake_ignored, success, failed, was_cancelled,
  was_interrupted, CtxEnd, canceled, deadline, interrupt, Fault, is_canceled, is_deadline, other,
  Reply, ok, err, AppError, context_code, context_application_error, ctx_error,
}
use xarlatan.Application.Recorder.{Turn, emit}

-- What one receive of the select loop of a streamed response yields.
pub data Signal : Type 0 where
  ctx_done : CtxEnd → Signal
  workers_done : Fault → Signal
  delta : ℕ → Text → Signal
  -- The number of its turn, whether it is of the stage that responds, the result, and the deltas that
  -- are still buffered when it has been received.
  response : ℕ → Bool → Reply Text → List (ℕ × Text) → Signal

-- What a turn asks of the outside: the worker calls (`workers.execute` and `submit`), the view, the
-- wake detector, and the contexts.
pub record Voice (W S : Type 0) : Type 0 where
  pub poll : W → W × Option CtxEnd
  pub capture : W → W × Reply (Buffer S)
  pub transcribe : Buffer S → W → W × Reply Text
  pub wake : Option (Text → Option Text)
  pub show_user : Text → W → W
  pub show_assistant : Text → W → W
  pub supports_streaming : Bool
  pub respond : Text → W → W × Reply Text
  pub synthesize : Text → W → W × Reply (Buffer S)
  pub play : Buffer S → W → W × Option Fault
  -- Of a streamed response: its submission, and the receives of the select loop in their order.
  pub submit : Text → W → W × Option Fault
  pub signals : W → List Signal
  pub write : Buffer S → W → W × Option Fault
  pub finish : W → W × Option Fault
  -- Whether the workers have ended, `Stop` called directly, and `Stop` through the playback worker, which
  -- may be refused or fail.
  pub workers_ended : W → W × Bool
  pub stop_now : W → W
  pub stop : W → W × Option Fault

-- How a turn ends: the world, what it recorded, and its error.
abbrev pub Ending : Type 0 → Type 0
Ending W = W × Turn × Option AppError

-- `contextErr` of `fail`: the context's error, or the stage's if that is one of a context.
unfoldable pub context_fault : Option CtxEnd → Fault → Option Fault
unfolding ctx_error
context_fault (some e) f = some (ctx_error e)
context_fault none is_canceled = some is_canceled
context_fault none is_deadline = some is_deadline
context_fault none other = none

-- A turn that a user broke off.
unfoldable pub end_interrupted : {W : Type 0} → W → Turn → ℕ → Ending W
end_interrupted w t latency = (
  w,
  record (emit interrupted t) {
    outcome = was_interrupted;
    error_code = some turn_interrupted;
    interrupt_latency = latency;
  },
  some (record { code = turn_interrupted; recoverable = true }),
)

unfoldable pub end_cancelled : {W : Type 0} → W → Turn → Fault → Ending W
end_cancelled w t f = (
  w,
  record (emit stopping t) { outcome = was_cancelled; error_code = some (context_code f) },
  some (context_application_error f),
)

unfoldable pub end_failed : {W : Type 0} → W → Turn → ErrorCode → Ending W
end_failed w t code = (
  w,
  record (emit idle t) { outcome = failed; error_code = some code },
  some (record { code = code; recoverable = true }),
)

unfoldable pub end_success : {W : Type 0} → W → Turn → Ending W
end_success w t = (w, emit idle (record t { outcome = success }), none)

unfoldable pub end_noop : {W : Type 0} → W → Turn → Ending W
end_noop w t = (w, emit idle (record t { noop = true; outcome = noop }), none)

module _ {W S : Type 0} (o : Voice W S) where
  -- The part of `fail` behind its first test.
  unfoldable pub fail_later : W → Turn → ErrorCode → Fault → Ending W
  unfolding context_fault end_cancelled end_failed
  fail_later w t code f =
      let (w', ended) = o.poll w in
      elim (context_fault ended f) [ some g ↦ end_cancelled w' t g | none ↦ end_failed w' t code ]

  unfoldable pub fail : W → Turn → ErrorCode → Fault → Ending W
  unfolding fail_later end_interrupted
  fail w t code f =
      let (w', ended) = o.poll w in
      elim ended [
        | none ↦ fail_later w' t code f
        | some e ↦ elim e [
          | interrupt latency ↦ end_interrupted w' t latency
          | canceled ↦ fail_later w' t code f
          | deadline ↦ fail_later w' t code f
        ]
      ]

  -- The last look at the context before a turn succeeds.
  unfoldable pub conclude : W → Turn → Ending W
  unfolding fail end_success
  conclude w t =
      let (w', ended) = o.poll w in
      elim ended [ none ↦ end_success w' t | some e ↦ fail w' t agent_failed (ctx_error e) ]

  -- `synthesizeBufferedReply`, from the playback on.
  unfoldable pub play_reply : W → Turn → Buffer S → Ending W
  unfolding conclude
  play_reply w t buffer =
      let (w', problem) = o.play buffer w in
      let t' = emit speaking t in
      elim problem [ some f ↦ fail w' t' playback_failed f | none ↦ conclude w' t' ]

  unfoldable pub synthesize_buffered_reply : W → Turn → Ending W
  unfolding play_reply
  synthesize_buffered_reply w t =
      let t' = emit synthesizing t in
      let (w', answer) = o.synthesize t.reply w in
      elim answer [
        | err f ↦ fail w' t' synthesis_failed f
        | ok buffer ↦ if empty buffer then end_success w' t' else elim (validate buffer) [
          | some bad ↦ fail w' t' synthesis_failed other
          | none ↦ play_reply w' t' buffer
        ]
      ]

  -- `result.Reply`, its length, and `ShowAssistant`.
  unfoldable pub take_reply : Text → Turn → Turn
  take_reply text t =
      let reply = trim_space text in record t { reply = reply; reply_chars = byte_length reply }

  unfoldable pub complete_buffered_response : W → Turn → Text → Ending W
  unfolding take_reply synthesize_buffered_reply
  complete_buffered_response w t transcript =
      let (w', answer) = o.respond transcript w in
      elim answer [
        | err f ↦ fail w' t agent_failed f
        | ok text ↦
            let t' = take_reply text t in
            synthesize_buffered_reply (o.show_assistant t'.reply w') t'
      ]
