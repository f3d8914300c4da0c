-- ===== src/Application/Coordinator/Turns.antt =====
-- `runTurn` and `Run` of internal/application/coordinator.go, and the wake gate of wake.go.
use xarlatan.Common.{
  ℕ, zero, suc, ◌+◌, Bool, true, false, Option, none, some, if◌then◌else◌, length,
}
use xarlatan.Common.Text.{Text, trim_space, is_empty, byte_length}
use xarlatan.Audio.{Buffer, empty, validate}
use xarlatan.Application.{
  idle, listening, transcribing, thinking, stopping, wake_detected, ErrorCode, capture_failed,
  transcription_failed, turn_interrupted, cancelled, deadline_exceeded, wake_ignored, other, ok,
  err, AppError, context_application_error, ctx_error,
}
use xarlatan.Application.Recorder.{Turn, emit, new_turn_recorder}
use xarlatan.Application.Coordinator.{Voice, Ending, fail, end_noop, complete_buffered_response}
use xarlatan.Application.Coordinator.Streaming.{complete_streaming_response}

-- `applyWakeGate`: the command and the turn, or the turn where the transcript is ignored.
pub data Gate : Type 0 where
  accepted : Text → Turn → Gate
  ignored : Turn → Gate

unfoldable pub apply_wake_gate : Option (Text → Option Text) → Text → Turn → Gate
apply_wake_gate none transcript t = accepted transcript t
apply_wake_gate (some detect) transcript t = elim (detect transcript) [
  | none ↦ ignored (emit idle (record t { noop = true; outcome = wake_ignored }))
  | some command ↦ accepted (trim_space command) (emit wake_detected t)
]

module _ {W S : Type 0} (o : Voice W S) where
  -- From `recorder.emit(StateThinking)` on.
  unfoldable pub answer : W → Turn → Text → Option (Ending W)
  unfolding complete_streaming_response complete_buffered_response
  answer w t transcript =
      let t' = emit thinking t in
      if o.supports_streaming
      then complete_streaming_response o w t' transcript
      else some (complete_buffered_response o w t' transcript)

  -- From the wake gate on.
  unfoldable pub gate_and_answer : W → Turn → Text → Option (Ending W)
  unfolding apply_wake_gate answer
  gate_and_answer w t transcript = elim (apply_wake_gate o.wake transcript t) [
    | ignored t' ↦ some (w, t', none)
    | accepted command t' ↦ answer (o.show_user command w) t' command
  ]

  -- From the text of the transcription on.
  unfoldable pub heard_text : W → Turn → Text → Option (Ending W)
  unfolding gate_and_answer end_noop
  heard_text w t text =
      let transcript = trim_space text in
      if is_empty transcript
      then some (end_noop w t)
      else gate_and_answer w (record t { transcript_chars = byte_length transcript }) transcript

  -- From the transcription on.
  unfoldable pub transcribe_and_answer : W → Turn → Buffer S → Option (Ending W)
  unfolding heard_text fail
  transcribe_and_answer w t buffer =
      let t' = emit transcribing (record t { sample_count = length buffer.samples }) in
      let (w', transcription) = o.transcribe buffer w in
      elim transcription [
        | err f ↦ some (fail o w' t' transcription_failed f)
        | ok text ↦ heard_text w' t' text
      ]

  -- From the captured buffer on.
  unfoldable pub captured : W → Turn → Buffer S → Option (Ending W)
  unfolding transcribe_and_answer
  captured w t buffer = if empty buffer then some (end_noop w t) else elim (validate buffer) [
    | some bad ↦ some (fail o w t capture_failed other)
    | none ↦ transcribe_and_answer w t buffer
  ]

  -- From the capture on.
  unfoldable pub listen : W → Turn → Option (Ending W)
  unfolding captured
  listen w t =
      let t' = emit listening t in
      let (w', answer) = o.capture w in
      elim answer [
        | err f ↦ some (fail o w' t' capture_failed f)
        | ok buffer ↦ captured w' t' buffer
      ]

  -- `none`: the turn waits for a streamed response.
  unfoldable pub run_turn : W → ℕ → Option (Ending W)
  unfolding listen new_turn_recorder
  run_turn w turn_id =
      let t = new_turn_recorder turn_id in
      let (w', ended) = o.poll w in
      elim ended [
        | some e ↦ some (w', emit stopping t, some (context_application_error (ctx_error e)))
        | none ↦ listen w' t
      ]

-- What the loop of `Run` does behind a turn.
pub data Decision : Type 0 where
  next_turn stop_quietly : Decision
  stop_with : AppError → Decision

unfoldable pub is_shutdown : ErrorCode → Bool
is_shutdown cancelled = true
is_shutdown deadline_exceeded = true
is_shutdown _ = false

unfoldable pub is_interrupted : ErrorCode → Bool
is_interrupted turn_interrupted = true
is_interrupted _ = false

unfoldable pub decide : Option AppError → Decision
unfolding is_shutdown is_interrupted
decide none = next_turn
decide (some e) =
    if is_interrupted e.code
    then next_turn
    else if is_shutdown e.code
    then stop_quietly
    else if e.recoverable
    then next_turn
    else stop_with e

-- How `Run` stands after some turns: it is in the middle of one, returned, or used up its fuel.
pub data RunResult (W : Type 0) : Type 0 where
  in_turn : ℕ → RunResult W
  returned : W → Option AppError → RunResult W
  out_of_fuel : W → ℕ → RunResult W

-- `Run`, for at most `fuel` turns; `sequence` is the number of the last turn.
unfoldable pub run : {W S : Type 0} → Voice W S → ℕ → W → ℕ → RunResult W
unfolding run_turn decide
run o zero w sequence = out_of_fuel w sequence
run o (suc fuel) w sequence =
    let (w', ended) = o.poll w in
    elim ended [
      | some e ↦ returned w' none
      | none ↦ elim (run_turn o w' (sequence + 1)) [
        | none ↦ in_turn (sequence + 1)
        | some (w'', t, problem) ↦ elim (decide problem) [
          | next_turn ↦ run o fuel w'' (sequence + 1)
          | stop_quietly ↦ returned w'' none
          | stop_with e ↦ returned w'' (some e)
        ]
      ]
    ]
