-- ===== src/Application/Coordinator/Walks/Streamed.antt =====
-- The states of a turn whose response is streamed.
use xarlatan.Common.{
  ℕ, ◌≡◌, refl, ◌∙◌, inl, inr, true, false, not, some, List, [], ◌∷◌, arith, ◌==◌, ◌||◌, ◌&&◌,
  if◌then◌else◌, Option-cases, Bool-cases, subst, some_inj,
}
use xarlatan.Common.Text.{Text, is_empty, trim_space}
use xarlatan.Audio.{Buffer, empty, validate}
use xarlatan.Phrases.{push, flush}
use xarlatan.Application.{
  State, thinking, synthesizing, speaking, ErrorCode, agent_failed, playback_failed, Fault, Reply,
  ok, err, ctx_error,
}
use xarlatan.Application.Recorder.{Turn, emit}
use xarlatan.Application.Coordinator.{
  Signal, ctx_done, workers_done, delta, response, Voice, Ending, take_reply,
}
use xarlatan.Application.Coordinator.Streaming.{
  StreamState, fresh, Stream, begin_synthesis, begin_speaking, write_audio, speak_buffer,
  speak_phrase, play_phrase, play_streaming_phrases, abort_streaming_playback, abort_and_fail,
  on_delta, drain_deltas, finish_playback, speak_rest, finish_stream, response_complete,
  stream_loop, complete_streaming_response,
}
use xarlatan.Application.Coordinator.Walks.{
  IsOpen, IsEnding, enter-IsOpen, fail-IsEnding, conclude-IsEnding,
  synthesize_buffered_reply-IsEnding,
}

-- The state that the flags of a stream show.
abbrev shown : StreamState → State
shown st = if st.speaking_state then speaking else if st.synth_state then synthesizing else thinking

record IsStream {W : Type 0} (s : Stream W) : Type 0 where
  open_turn : IsOpen s.turn
  current : s.turn.current ≡ shown s.state
  synth_first : s.state.synth_state ≡ false → s.state.speaking_state ≡ false
  seen_first : s.state.delta_seen ≡ false → s.state.synth_state ≡ false

-- The same, of a stream in which a phrase is on its way to the player.
record IsSpeakable {W : Type 0} (s : Stream W) : Type 0 where
  stream : IsStream s
  seen : s.state.delta_seen ≡ true

begin_synthesis-IsSpeakable :
    {W : Type 0} (s : Stream W)
    → IsSpeakable s
    → IsSpeakable (begin_synthesis s) × ((begin_synthesis s).state.synth_state ≡ true)
unfolding begin_synthesis
begin_synthesis-IsSpeakable s h = elim (Bool-cases s.state.synth_state) [
  | inl old ↦ simp old (h, refl)
  | inr new ↦
      let quiet = h.stream.synth_first new in
      rw (new, begin_synthesis)
        (
          record {
            stream = record {
              open_turn =
                  enter-IsOpen synthesizing s.turn h.stream.open_turn
                    (rw (h.stream.current, quiet, new)) refl refl refl;
              current = unfold emit in rw quiet;
              synth_first = λ e. cc;
              seen_first = λ e. absurd (ground (arith, h.seen));
            };
            seen = h.seen;
          },
          refl,
        )
]

begin_speaking-IsSpeakable :
    {W : Type 0} (s : Stream W)
    → IsSpeakable s
    → s.state.synth_state ≡ true
    → IsSpeakable (begin_speaking s)
unfolding begin_speaking
begin_speaking-IsSpeakable s h e = elim (Bool-cases s.state.speaking_state) [
  | inl old ↦ simp old h
  | inr new ↦
      rw (new, begin_speaking)
        (record {
          stream = record {
            open_turn =
                enter-IsOpen speaking s.turn h.stream.open_turn (rw (h.stream.current, new, e)) refl
                  refl refl;
            current = unfold emit in refl;
            synth_first = λ q. absurd (ground (arith, e));
            seen_first = λ q. absurd (ground (arith, h.seen));
          };
          seen = h.seen;
        })
]

-- A world call, and the flags that do not show, keep a stream speakable.
on_world :
    {W : Type 0} (s : Stream W) (w : W) → IsSpeakable s → IsSpeakable (record s { world = w })
on_world s w h = record {
  stream = record {
    open_turn = h.stream.open_turn;
    current = h.stream.current;
    synth_first = h.stream.synth_first;
    seen_first = h.stream.seen_first;
  };
  seen = h.seen;
}

on_written :
    {W : Type 0} (s : Stream W) (w : W)
    → IsSpeakable s
    → IsSpeakable
        (record s { world = w; state = record s.state { wrote_audio = true; first_audio = true } })
on_written s w h = record {
  stream = record {
    open_turn = h.stream.open_turn;
    current = h.stream.current;
    synth_first = h.stream.synth_first;
    seen_first = h.stream.seen_first;
  };
  seen = h.seen;
}

module _ {W S : Type 0} (o : Voice W S) where
  write_audio-IsSpeakable :
      (s : Stream W) (b : Buffer S)
      → IsSpeakable s
      → s.state.synth_state ≡ true
      → IsSpeakable (write_audio o s b).0
  unfolding write_audio
  write_audio-IsSpeakable s b h e =
      let s' = begin_speaking s in
      let h' = begin_speaking-IsSpeakable s h e in
      elim (Option-cases (o.write b s'.world).1) [
        | inl p ↦ rw (p, write_audio) (on_written s' (o.write b s'.world).0 h')
        | inr (f, p) ↦ rw (p, write_audio) (on_world s' (o.write b s'.world).0 h')
      ]

  speak_buffer-IsSpeakable :
      (s : Stream W) (b : Buffer S)
      → IsSpeakable s
      → s.state.synth_state ≡ true
      → IsSpeakable (speak_buffer o s b).0
  unfolding speak_buffer
  speak_buffer-IsSpeakable s b h e = elim (Bool-cases (empty b)) [
    | inl p ↦ rw p h
    | inr p ↦ elim (Option-cases (validate b)) [
      | inl q ↦ rw (p, q) (write_audio-IsSpeakable s b h e)
      | inr (bad, q) ↦ rw (p, q) h
    ]
  ]

  speak_phrase-IsSpeakable :
      (s : Stream W) (phrase : Text) → IsSpeakable s → IsSpeakable (speak_phrase o s phrase).0
  unfolding speak_phrase
  speak_phrase-IsSpeakable s phrase h =
      answered (o.synthesize phrase (begin_synthesis s).world).1 refl
    where
      s' : Stream W
      s' = begin_synthesis s

      begun : IsSpeakable (begin_synthesis s) × ((begin_synthesis s).state.synth_state ≡ true)
      begun = begin_synthesis-IsSpeakable s h

      s'' : Stream W
      s'' = record s' { world = (o.synthesize phrase s'.world).0 }

      ready : IsSpeakable s''
      ready = on_world s' (o.synthesize phrase s'.world).0 begun.0

      answered :
          (a : Reply (Buffer S))
          → (o.synthesize phrase s'.world).1 ≡ a
          → IsSpeakable (speak_phrase o s phrase).0
      answered (err f) p = rw (p, speak_phrase) ready
      answered (ok b) p = rw (p, speak_phrase) (speak_buffer-IsSpeakable s'' b ready begun.1)

  play_phrase-IsSpeakable :
      (s : Stream W) (phrase : Text) → IsSpeakable s → IsSpeakable (play_phrase o s phrase).0
  unfolding play_phrase
  play_phrase-IsSpeakable s phrase h = elim (Bool-cases (is_empty (trim_space phrase))) [
    | inl p ↦ rw p h
    | inr p ↦ rw p (speak_phrase-IsSpeakable s (trim_space phrase) h)
  ]

  play_streaming_phrases-IsSpeakable :
      (s : Stream W) (phrases : List Text)
      → IsSpeakable s
      → IsSpeakable (play_streaming_phrases o s phrases).0
  unfolding play_streaming_phrases
  play_streaming_phrases-IsSpeakable s [] h = h
  play_streaming_phrases-IsSpeakable s (phrase ∷ phrases) h =
      let h' = play_phrase-IsSpeakable s phrase h in
      elim (Option-cases (play_phrase o s phrase).1) [
        | inl p ↦
            rw (p, play_streaming_phrases)
              (play_streaming_phrases-IsSpeakable (play_phrase o s phrase).0 phrases h')
        | inr (e, p) ↦ rw (p, play_streaming_phrases) h'
      ]

  -- Handling a delta turns a stream into one in which nothing else is broken.
  on_delta-IsStream :
      (s : Stream W) (id : ℕ) (text : Text) → IsStream s → IsStream (on_delta o s id text).0
  unfolding on_delta
  on_delta-IsStream s id text h = elim (Bool-cases (not (id == s.turn.turn_id) || is_empty text)) [
    | inl p ↦ rw p h
    | inr p ↦
        let r = push text s.state.sentence_builder in
        let s' : Stream W = record s {
          state = record s.state { delta_seen = true; first_delta = true; sentence_builder = r.1 };
        } in
        rw p
          (play_streaming_phrases-IsSpeakable s' r.0 (record {
            stream = record {
              open_turn = h.open_turn;
              current = h.current;
              synth_first = h.synth_first;
              seen_first = λ e. absurd (ground arith);
            };
            seen = refl;
          })).stream
  ]

  drain_deltas-IsStream :
      (s : Stream W) (ds : List (ℕ × Text)) → IsStream s → IsStream (drain_deltas o s ds).0
  unfolding drain_deltas
  drain_deltas-IsStream s [] h = h
  drain_deltas-IsStream s ((id, text) ∷ ds) h =
      let h' = on_delta-IsStream s id text h in
      elim (Option-cases (on_delta o s id text).1) [
        | inl p ↦ rw (p, drain_deltas) (drain_deltas-IsStream (on_delta o s id text).0 ds h')
        | inr (e, p) ↦ rw (p, drain_deltas) h'
      ]

  abort-IsOpen : (s : Stream W) → IsOpen s.turn → IsOpen (abort_streaming_playback o s).turn
  unfolding abort_streaming_playback
  abort-IsOpen s h = elim (Bool-cases s.state.speaking_state) [ inl p ↦ rw p h | inr p ↦ rw p h ]

  abort_and_fail-IsEnding :
      (s : Stream W) (c : ErrorCode) (f : Fault)
      → IsOpen s.turn
      → IsEnding o (abort_and_fail o s c f)
  unfolding abort_and_fail
  abort_and_fail-IsEnding s c f h =
      let s' = abort_streaming_playback o s in
      fail-IsEnding o s'.world s'.turn c f (abort-IsOpen s h)

  finish_playback-IsEnding : (s : Stream W) → IsOpen s.turn → IsEnding o (finish_playback o s)
  unfolding finish_playback
  finish_playback-IsEnding s h = elim (Bool-cases s.state.wrote_audio) [
    | inl p ↦ elim (Option-cases (o.finish s.world).1) [
      | inl q ↦ rw (p, q) (conclude-IsEnding o (o.finish s.world).0 s.turn h)
      | inr (f, q) ↦ rw (p, q) (fail-IsEnding o (o.finish s.world).0 s.turn playback_failed f h)
    ]
    | inr p ↦ rw p (conclude-IsEnding o s.world s.turn h)
  ]

  take_reply-IsOpen : (text : Text) (t : Turn) → IsOpen t → IsOpen (take_reply o text t)
  unfolding take_reply
  take_reply-IsOpen text t h = record {
    walk = h.walk;
    to_idle = h.to_idle;
    to_stopping = h.to_stopping;
    to_interrupted = h.to_interrupted;
    no_error = h.no_error;
  }

  take_reply-current : (text : Text) (t : Turn) → (take_reply o text t).current ≡ t.current
  unfolding take_reply
  take_reply-current text t = refl

  speak_rest-IsEnding : (s : Stream W) → IsSpeakable s → IsEnding o (speak_rest o s)
  unfolding speak_rest
  speak_rest-IsEnding s h =
      let (phrases, builder) = flush s.state.sentence_builder in
      let s' : Stream W = record s { state = record s.state { sentence_builder = builder } } in
      let h' = play_streaming_phrases-IsSpeakable s' phrases (record {
        stream = record {
          open_turn = h.stream.open_turn;
          current = h.stream.current;
          synth_first = h.stream.synth_first;
          seen_first = h.stream.seen_first;
        };
        seen = h.seen;
      }) in
      elim (Option-cases (play_streaming_phrases o s' phrases).1) [
        | inl p ↦
            rw (p, speak_rest)
              (finish_playback-IsEnding (play_streaming_phrases o s' phrases).0 h'.stream.open_turn)
        | inr (e, p) ↦
            rw (p, speak_rest)
              (abort_and_fail-IsEnding (play_streaming_phrases o s' phrases).0 e.code e.fault
                h'.stream.open_turn)
      ]

  finish_stream-IsEnding :
      (s : Stream W) (text : Text) → IsStream s → IsEnding o (finish_stream o s text)
  unfolding finish_stream
  finish_stream-IsEnding s text h =
      let t = take_reply o text s.turn in
      let w = o.show_assistant t.reply s.world in
      elim (Bool-cases s.state.delta_seen) [
        | inl seen ↦ simp seen (
            speak_rest-IsEnding (record s { world = w; turn = t })
              (record {
                stream = record {
                  open_turn = take_reply-IsOpen text s.turn h.open_turn;
                  current = take_reply-current text s.turn ∙ h.current;
                  synth_first = h.synth_first;
                  seen_first = h.seen_first;
                };
                seen = seen;
              }))
        | inr unseen ↦
            let quiet = h.seen_first unseen in
            let silent = h.synth_first quiet in
            simp unseen (
              synthesize_buffered_reply-IsEnding o w t (take_reply-IsOpen text s.turn h.open_turn)
                (take_reply-current text s.turn ∙ h.current ∙ rw (silent, quiet)))
      ]

  response_complete-IsEnding :
      (s : Stream W) (answer : Reply Text) (ds : List (ℕ × Text))
      → IsStream s
      → IsEnding o (response_complete o s answer ds)
  unfolding response_complete
  response_complete-IsEnding s (err f) ds h = abort_and_fail-IsEnding s agent_failed f h.open_turn
  response_complete-IsEnding s (ok text) ds h =
      let r = drain_deltas o s ds in
      let h' = drain_deltas-IsStream s ds h in
      elim (Option-cases r.1) [
        | inl p ↦ rw (p, response_complete) (finish_stream-IsEnding r.0 text h')
        | inr (e, p) ↦
            rw (p, response_complete) (abort_and_fail-IsEnding r.0 e.code e.fault h'.open_turn)
      ]

  stream_loop-IsEnding :
      (s : Stream W) (xs : List Signal) {e : Ending W}
      → IsStream s
      → stream_loop o s xs ≡ some e
      → IsEnding o e
  unfolding stream_loop
  stream_loop-IsEnding s [] h p = absurd (cc)
  stream_loop-IsEnding s (ctx_done x ∷ xs) h p =
      subst (IsEnding o) (some_inj p)
        (abort_and_fail-IsEnding s agent_failed (ctx_error x) h.open_turn)
  stream_loop-IsEnding s (workers_done f ∷ xs) h p =
      subst (IsEnding o) (some_inj p) (abort_and_fail-IsEnding s agent_failed f h.open_turn)
  stream_loop-IsEnding s (delta id text ∷ xs) h p =
      let r = on_delta o s id text in
      let h' = on_delta-IsStream s id text h in
      elim (Option-cases r.1) [
        | inl q ↦ stream_loop-IsEnding r.0 xs h' (rw (q, stream_loop) at p)
        | inr (e, q) ↦
            subst (IsEnding o) (some_inj (rw (q, stream_loop) at p))
              (abort_and_fail-IsEnding r.0 e.code e.fault h'.open_turn)
      ]
  stream_loop-IsEnding s (response id responds answer ds ∷ xs) h p =
      elim (Bool-cases (id == s.turn.turn_id && responds)) [
        | inl q ↦
            subst (IsEnding o) (some_inj (rw (q, stream_loop) at p))
              (response_complete-IsEnding s answer ds h)
        | inr q ↦ stream_loop-IsEnding s xs h (rw (q, stream_loop) at p)
      ]

  pub complete_streaming_response-IsEnding :
      (w : W) (t : Turn) (transcript : Text) {e : Ending W}
      → IsOpen t
      → t.current ≡ thinking
      → complete_streaming_response o w t transcript ≡ some e
      → IsEnding o e
  unfolding complete_streaming_response
  complete_streaming_response-IsEnding w t transcript h c p =
      let r = o.submit transcript w in
      elim (Option-cases r.1) [
        | inl q ↦
            stream_loop-IsEnding (record { world = r.0; turn = t; state = fresh }) (o.signals r.0)
              (record {
                open_turn = h;
                current = c;
                synth_first = λ _. refl;
                seen_first = λ _. refl;
              })
              (rw (q, complete_streaming_response) at p)
        | inr (f, q) ↦
            subst (IsEnding o) (some_inj (rw (q, complete_streaming_response) at p))
              (fail-IsEnding o r.0 t agent_failed f h)
      ]
