-- ===== src/Application/Coordinator/Hush.antt =====
-- The player at the end of a turn of internal/application/coordinator.go: what it promises, and the
-- parts of a turn that do not write to it.
pub mod Noted
pub mod Streamed
use xarlatan.Common.{
  ℕ, ◌≡◌, refl, inl, inr, true, false, not, ◌||◌, ◌&&◌, Option, none, some, List, [], ◌∷◌, ◌==◌,
  arith, Bool-cases, Option-cases, subst, some_inj,
}
use xarlatan.Common.Text.{Text, is_empty, trim_space}
use xarlatan.Audio.{Buffer, empty, validate}
use xarlatan.Phrases.{push, flush}
use xarlatan.Application.{
  ErrorCode, agent_failed, playback_failed, synthesis_failed, CtxEnd, canceled, deadline, interrupt,
  Fault, other, Reply, ok, err, ctx_error,
}
use xarlatan.Application.Recorder.{Turn, emit}
use xarlatan.Application.Coordinator.{
  Signal, ctx_done, workers_done, delta, response, Voice, Ending, context_fault, fail_later, fail,
  conclude, take_reply, play_reply, synthesize_buffered_reply,
}
use xarlatan.Application.Coordinator.Streaming.{
  Stream, Step, fresh, begin_synthesis, begin_speaking, write_audio, speak_buffer, speak_phrase,
  play_phrase, play_streaming_phrases, abort_streaming_playback, abort_and_fail, on_delta,
  drain_deltas, finish_playback, speak_rest, finish_stream, response_complete, stream_loop,
  complete_streaming_response,
}

-- What the player and the rest promise, for a predicate `Silent` on worlds: `Stop`, `Finish` and `Play`
-- leave the player silent where they report no error, and nothing but `Write` and `Play` makes a sound.
pub record IsPlayer {W S : Type 0} (o : Voice W S) (Silent : W → Type 0) : Type 0 where
  pub stop_now_silent : (w : W) → Silent (o.stop_now w)
  pub stop_silent : (w : W) → (o.stop w).1 ≡ none → Silent (o.stop w).0
  pub finish_silent : (w : W) → (o.finish w).1 ≡ none → Silent (o.finish w).0
  pub play_silent : (b : Buffer S) (w : W) → (o.play b w).1 ≡ none → Silent (o.play b w).0
  pub poll_silent : (w : W) → Silent w → Silent (o.poll w).0
  pub synthesize_silent : (t : Text) (w : W) → Silent w → Silent (o.synthesize t w).0
  pub show_silent : (t : Text) (w : W) → Silent w → Silent (o.show_assistant t w)
  pub submit_silent : (t : Text) (w : W) → Silent w → Silent (o.submit t w).0

-- How a turn may leave the player: silent, or as a call has left it that reports an error and is
-- followed by nothing but the looks at the context of `fail`.
pub data Left {W S : Type 0} (o : Voice W S) (Silent : W → Type 0) : W → Type 0 where
  silent : {w : W} → Silent w → Left o Silent w
  not_stopped :
      (w : W) (t : Turn) (c : ErrorCode) (f g : Fault)
      → (o.stop w).1 ≡ some g
      → Left o Silent (fail o (o.stop w).0 t c f).0
  not_finished :
      (w : W) (t : Turn) (f : Fault)
      → (o.finish w).1 ≡ some f
      → Left o Silent (fail o (o.finish w).0 t playback_failed f).0
  not_played :
      (b : Buffer S) (w : W) (t : Turn) (f : Fault)
      → (o.play b w).1 ≡ some f
      → Left o Silent (fail o (o.play b w).0 t playback_failed f).0

module _ {W S : Type 0} (o : Voice W S) (Silent : W → Type 0) (p : IsPlayer o Silent) where
  -- Failing a turn looks at the context, and does nothing else to the world.
  pub fail-Silent :
      (w : W) (t : Turn) (c : ErrorCode) (f : Fault) → Silent w → Silent (fail o w t c f).0
  unfolding fail fail_later
  fail-Silent w t c f h = polled (o.poll w).1 refl
    where
      once : Silent (o.poll w).0
      once = p.poll_silent w h

      later : Silent (fail_later o (o.poll w).0 t c f).0
      later = elim (Option-cases (context_fault (o.poll (o.poll w).0).1 f)) [
        | inl e ↦ rw (e, fail_later) (p.poll_silent (o.poll w).0 once)
        | inr (g, e) ↦ rw (e, fail_later) (p.poll_silent (o.poll w).0 once)
      ]

      polled : (x : Option CtxEnd) → (o.poll w).1 ≡ x → Silent (fail o w t c f).0
      polled none e = rw (e, fail) later
      polled (some canceled) e = rw (e, fail) later
      polled (some deadline) e = rw (e, fail) later
      polled (some (interrupt l)) e = rw (e, fail) once

  pub conclude-Silent : (w : W) (t : Turn) → Silent w → Silent (conclude o w t).0
  unfolding conclude
  conclude-Silent w t h = elim (Option-cases (o.poll w).1) [
    | inl e ↦ rw (e, conclude) (p.poll_silent w h)
    | inr (x, e) ↦
        rw (e, conclude) (fail-Silent (o.poll w).0 t agent_failed (ctx_error x) (p.poll_silent w h))
  ]

  play_reply-Left : (w : W) (t : Turn) (b : Buffer S) → Left o Silent (play_reply o w t b).0
  unfolding play_reply
  play_reply-Left w t b = elim (Option-cases (o.play b w).1) [
    | inl e ↦ rw (e, play_reply) (silent (conclude-Silent (o.play b w).0 _ (p.play_silent b w e)))
    | inr (f, e) ↦ rw (e, play_reply) (not_played b w _ f e)
  ]

  pub synthesize_buffered_reply-Left :
      (w : W) (t : Turn) → Silent w → Left o Silent (synthesize_buffered_reply o w t).0
  unfolding synthesize_buffered_reply
  synthesize_buffered_reply-Left w t h = answered (o.synthesize t.reply w).1 refl
    where
      now : Silent (o.synthesize t.reply w).0
      now = p.synthesize_silent t.reply w h

      answered :
          (a : Reply (Buffer S))
          → (o.synthesize t.reply w).1 ≡ a
          → Left o Silent (synthesize_buffered_reply o w t).0
      answered (err f) e =
          rw (e, synthesize_buffered_reply)
            (silent (fail-Silent (o.synthesize t.reply w).0 _ synthesis_failed f now))
      answered (ok b) e = elim (Bool-cases (empty b)) [
        | inl q ↦ rw (e, q, synthesize_buffered_reply) (silent now)
        | inr q ↦ elim (Option-cases (validate b)) [
          | inl v ↦
              rw (e, q, v, synthesize_buffered_reply)
                (play_reply-Left (o.synthesize t.reply w).0 _ b)
          | inr (bad, v) ↦
              rw (e, q, v, synthesize_buffered_reply)
                (silent (fail-Silent (o.synthesize t.reply w).0 _ synthesis_failed other now))
        ]
      ]
