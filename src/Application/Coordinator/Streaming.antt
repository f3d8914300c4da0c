-- ===== src/Application/Coordinator/Streaming.antt =====
-- The streamed response of internal/application/coordinator.go: `completeStreamingResponse` and
-- what it calls. Where the receives of the select loop run out the turn still waits: `none`.
use xarlatan.Common.{
  ℕ, Bool, true, false, not, ◌||◌, ◌&&◌, Option, none, some, List, [], ◌∷◌, ◌==◌, if◌then◌else◌,
}
use xarlatan.Common.Text.{Text, trim_space, is_empty}
use xarlatan.Audio.{Buffer, empty, validate}
use xarlatan.Phrases.{SentenceBuffer, new_sentence_buffer, push, flush}
use xarlatan.Application.{
  synthesizing, speaking, ErrorCode, agent_failed, synthesis_failed, playback_failed, Fault, other,
  Reply, ok, err, ctx_error,
}
use xarlatan.Application.Recorder.{Turn, emit}
use xarlatan.Application.Coordinator.{
  Signal, ctx_done, workers_done, delta, response, Voice, Ending, fail, conclude, take_reply,
  synthesize_buffered_reply,
}

-- `streamingTurnState`
pub record StreamState : Type 0 where
  pub delta_seen : Bool
  pub synth_state : Bool
  pub speaking_state : Bool
  pub wrote_audio : Bool
  pub first_delta : Bool
  pub first_audio : Bool
  pub sentence_builder : SentenceBuffer

abbrev pub fresh : StreamState
fresh = record {
  delta_seen = false;
  synth_state = false;
  speaking_state = false;
  wrote_audio = false;
  first_delta = false;
  first_audio = false;
  sentence_builder = new_sentence_buffer;
}

-- A stream under way: the world, what the turn has recorded, and the state of the stream.
pub record Stream (W : Type 0) : Type 0 where
  pub world : W
  pub turn : Turn
  pub state : StreamState

-- `streamingStageError`
pub record StageError : Type 0 where
  pub code : ErrorCode
  pub fault : Fault

abbrev pub Step : Type 0 → Type 0
Step W = Stream W × Option StageError

-- The first phrase that is synthesized, and the first buffer that is written, show in the states.
unfoldable pub begin_synthesis : {W : Type 0} → Stream W → Stream W
begin_synthesis s =
    if s.state.synth_state
    then s
    else record s { turn = emit synthesizing s.turn; state = record s.state { synth_state = true } }

unfoldable pub begin_speaking : {W : Type 0} → Stream W → Stream W
begin_speaking s =
    if s.state.speaking_state
    then s
    else record s { turn = emit speaking s.turn; state = record s.state { speaking_state = true } }

module _ {W S : Type 0} (o : Voice W S) where
  -- One phrase, from the worker call for the playback on.
  unfoldable pub write_audio : Stream W → Buffer S → Step W
  unfolding begin_speaking
  write_audio s buffer =
      let s' = begin_speaking s in
      let (w, problem) = o.write buffer s'.world in
      elim problem [
        | some f ↦ (record s' { world = w }, some (record { code = playback_failed; fault = f }))
        | none ↦ (
          record s' {
            world = w;
            state = record s'.state { wrote_audio = true; first_audio = true };
          },
          none,
        )
      ]

  -- One phrase, from the synthesized buffer on.
  unfoldable pub speak_buffer : Stream W → Buffer S → Step W
  unfolding write_audio
  speak_buffer s buffer = if empty buffer then (s, none) else elim (validate buffer) [
    | some bad ↦ (s, some (record { code = synthesis_failed; fault = other }))
    | none ↦ write_audio s buffer
  ]

  -- One phrase that is not blank.
  unfoldable pub speak_phrase : Stream W → Text → Step W
  unfolding begin_synthesis speak_buffer
  speak_phrase s phrase =
      let s' = begin_synthesis s in
      let (w, answer) = o.synthesize phrase s'.world in
      let s'' = record s' { world = w } in
      elim answer [
        | err f ↦ (s'', some (record { code = synthesis_failed; fault = f }))
        | ok buffer ↦ speak_buffer s'' buffer
      ]

  -- One round of `playStreamingPhrases`.
  unfoldable pub play_phrase : Stream W → Text → Step W
  unfolding speak_phrase
  play_phrase s phrase =
      let trimmed = trim_space phrase in
      if is_empty trimmed then (s, none) else speak_phrase s trimmed

  unfoldable pub play_streaming_phrases : Stream W → List Text → Step W
  unfolding play_phrase
  play_streaming_phrases s [] = (s, none)
  play_streaming_phrases s (phrase ∷ phrases) =
      let (s', problem) = play_phrase s phrase in
      elim problem [ some e ↦ (s', some e) | none ↦ play_streaming_phrases s' phrases ]

  -- `abortStreamingPlayback`: `Stop` is called directly where the workers have ended, and through the
  -- playback worker otherwise; what that reports is passed over.
  unfoldable pub abort_streaming_playback : Stream W → Stream W
  abort_streaming_playback s =
      if s.state.speaking_state
      then (let (w, ended) = o.workers_ended s.world in
          record s {
            world = if ended then o.stop_now w else (o.stop w).0;
            state = record s.state { wrote_audio = false; speaking_state = false };
          })
      else s

  -- The abort and the failure that follow an error of a stage.
  unfoldable pub abort_and_fail : Stream W → ErrorCode → Fault → Ending W
  unfolding abort_streaming_playback
  abort_and_fail s code f = let s' = abort_streaming_playback s in fail o s'.world s'.turn code f

  -- The handling of one delta, the same in both loops: one of another turn, or an empty one, is passed over.
  unfoldable pub on_delta : Stream W → ℕ → Text → Step W
  unfolding play_streaming_phrases
  on_delta s turn_id text =
      if not (turn_id == s.turn.turn_id) || is_empty text
      then (s, none)
      else (let (phrases, builder) = push text s.state.sentence_builder in
          play_streaming_phrases
            (record s {
              state = record s.state {
                delta_seen = true;
                first_delta = true;
                sentence_builder = builder;
              };
            })
            phrases)

  -- The loop behind `responseComplete`, over what is buffered.
  unfoldable pub drain_deltas : Stream W → List (ℕ × Text) → Step W
  unfolding on_delta
  drain_deltas s [] = (s, none)
  drain_deltas s ((turn_id, text) ∷ rest) =
      let (s', problem) = on_delta s turn_id text in
      elim problem [ some e ↦ (s', some e) | none ↦ drain_deltas s' rest ]

  -- The end of a spoken reply: the playback is drained where audio was written.
  unfoldable pub finish_playback : Stream W → Ending W
  finish_playback s =
      if s.state.wrote_audio
      then (let (w, problem) = o.finish s.world in
          elim problem [ some f ↦ fail o w s.turn playback_failed f | none ↦ conclude o w s.turn ])
      else conclude o s.world s.turn

  -- The end of a reply that came in deltas: what the sentence buffer still holds is spoken.
  unfoldable pub speak_rest : Stream W → Ending W
  unfolding finish_playback abort_and_fail play_streaming_phrases
  speak_rest s =
      let (phrases, builder) = flush s.state.sentence_builder in
      let (s', problem) =
        play_streaming_phrases (record s { state = record s.state { sentence_builder = builder } })
          phrases in
      elim problem [ some e ↦ abort_and_fail s' e.code e.fault | none ↦ finish_playback s' ]

  -- Behind `deltasDrained`.
  unfoldable pub finish_stream : Stream W → Text → Ending W
  unfolding speak_rest
  finish_stream s text =
      let t = take_reply o text s.turn in
      let w = o.show_assistant t.reply s.world in
      if not s.state.delta_seen
      then synthesize_buffered_reply o w t
      else speak_rest (record s { world = w; turn = t })

  -- Behind `responseComplete`.
  unfoldable pub response_complete : Stream W → Reply Text → List (ℕ × Text) → Ending W
  unfolding finish_stream drain_deltas
  response_complete s (err f) buffered = abort_and_fail s agent_failed f
  response_complete s (ok text) buffered =
      let (s', problem) = drain_deltas s buffered in
      elim problem [ some e ↦ abort_and_fail s' e.code e.fault | none ↦ finish_stream s' text ]

  -- The select loop.
  unfoldable pub stream_loop : Stream W → List Signal → Option (Ending W)
  unfolding response_complete on_delta
  stream_loop s [] = none
  stream_loop s (ctx_done e ∷ rest) = some (abort_and_fail s agent_failed (ctx_error e))
  stream_loop s (workers_done f ∷ rest) = some (abort_and_fail s agent_failed f)
  stream_loop s (delta turn_id text ∷ rest) =
      let (s', problem) = on_delta s turn_id text in
      elim problem [ some e ↦ some (abort_and_fail s' e.code e.fault) | none ↦ stream_loop s' rest ]
  stream_loop s (response turn_id responds answer buffered ∷ rest) =
      let later = stream_loop s rest in
      if turn_id == s.turn.turn_id && responds
      then some (response_complete s answer buffered)
      else later

  unfoldable pub complete_streaming_response : W → Turn → Text → Option (Ending W)
  unfolding stream_loop
  complete_streaming_response w t transcript =
      let (w', problem) = o.submit transcript w in
      elim problem [
        | some f ↦ some (fail o w' t agent_failed f)
        | none ↦ stream_loop (record { world = w'; turn = t; state = fresh }) (o.signals w')
      ]
