-- ===== src/Application/Coordinator/Stale.antt =====
-- Late events of other turns in the streamed response of internal/application/coordinator.go.
use xarlatan.Common.{
  ℕ, ◌≡◌, refl, ◌∙◌, inl, inr, Bool, true, false, none, some, ◌&&◌, List, [], ◌∷◌, arith, ◌==◌,
  if◌then◌else◌, Bool-cases, Option-cases, ap,
}
use xarlatan.Common.Text.{Text, trim_space}
use xarlatan.Audio.{Buffer}
use xarlatan.Phrases.{push}
use xarlatan.Application.{Reply, ok, err}
use xarlatan.Application.Recorder.{emit}
use xarlatan.Application.Coordinator.{
  Signal, ctx_done, workers_done, delta, response, Voice, Ending,
}
use xarlatan.Application.Coordinator.Streaming.{
  Stream, Step, begin_synthesis, begin_speaking, write_audio, speak_buffer, speak_phrase,
  play_phrase, play_streaming_phrases, on_delta, drain_deltas, response_complete, abort_and_fail,
  finish_stream, stream_loop,
}

-- The deltas of the turn.
pub keep_deltas : ℕ → List (ℕ × Text) → List (ℕ × Text)
keep_deltas me [] = []
keep_deltas me ((id, text) ∷ ds) =
    if id == me then (id, text) ∷ keep_deltas me ds else keep_deltas me ds

-- The events that belong to the turn; of a result, also the deltas that are buffered behind it.
pub keep_mine : ℕ → List Signal → List Signal
keep_mine me [] = []
keep_mine me (ctx_done e ∷ xs) = ctx_done e ∷ keep_mine me xs
keep_mine me (workers_done f ∷ xs) = workers_done f ∷ keep_mine me xs
keep_mine me (delta id text ∷ xs) =
    if id == me then delta id text ∷ keep_mine me xs else keep_mine me xs
keep_mine me (response id responds r ds ∷ xs) =
    if id == me && responds
    then response id responds r (keep_deltas me ds) ∷ keep_mine me xs
    else keep_mine me xs

abbrev id_of : {W : Type 0} → Stream W → ℕ
id_of s = s.turn.turn_id

module _ {W S : Type 0} (o : Voice W S) where
  id-write_audio : (s : Stream W) (b : Buffer S) → id_of (write_audio o s b).0 ≡ id_of s
  unfolding write_audio begin_speaking emit
  id-write_audio s b = ground arith

  id-speak_buffer : (s : Stream W) (b : Buffer S) → id_of (speak_buffer o s b).0 ≡ id_of s
  unfolding speak_buffer
  id-speak_buffer s b = ground (arith, id-write_audio s b)

  id-begin_synthesis : (s : Stream W) → id_of (begin_synthesis s) ≡ id_of s
  unfolding begin_synthesis emit
  id-begin_synthesis s = ground arith

  id-speak_phrase : (s : Stream W) (p : Text) → id_of (speak_phrase o s p).0 ≡ id_of s
  unfolding speak_phrase
  id-speak_phrase s p = answered (o.synthesize p s'.world).1 refl
    where
      s' : Stream W
      s' = begin_synthesis s

      answered :
          (a : Reply (Buffer S))
          → (o.synthesize p s'.world).1 ≡ a
          → id_of (speak_phrase o s p).0 ≡ id_of s
      answered (err f) e = rw (e, speak_phrase) (id-begin_synthesis s)
      answered (ok b) e =
          rw (e, speak_phrase)
            (id-speak_buffer (record s' { world = (o.synthesize p s'.world).0 }) b
              ∙ id-begin_synthesis s)

  id-play_phrase : (s : Stream W) (p : Text) → id_of (play_phrase o s p).0 ≡ id_of s
  unfolding play_phrase
  id-play_phrase s p = ground (arith, id-speak_phrase s (trim_space p))

  id-play_streaming_phrases :
      (s : Stream W) (ps : List Text) → id_of (play_streaming_phrases o s ps).0 ≡ id_of s
  unfolding play_streaming_phrases
  id-play_streaming_phrases s [] = refl
  id-play_streaming_phrases s (p ∷ ps) =
      ground (arith, id-play_phrase s p, id-play_streaming_phrases (play_phrase o s p).0 ps)

  id-on_delta : (s : Stream W) (id : ℕ) (text : Text) → id_of (on_delta o s id text).0 ≡ id_of s
  unfolding on_delta
  id-on_delta s id text =
      let r = push text s.state.sentence_builder in
      let s' : Stream W = record s {
        state = record s.state { delta_seen = true; first_delta = true; sentence_builder = r.1 };
      } in
      ground (arith, id-play_streaming_phrases s' r.0)

  stale_delta :
      (s : Stream W) (id : ℕ) (text : Text)
      → (id == s.turn.turn_id) ≡ false
      → on_delta o s id text ≡ (s, none)
  unfolding on_delta
  stale_delta s id text h = rw h

  stream_loop-delta :
      (s : Stream W) (id : ℕ) (text : Text) (xs ys : List Signal)
      → stream_loop o (on_delta o s id text).0 xs ≡ stream_loop o (on_delta o s id text).0 ys
      → stream_loop o s (delta id text ∷ xs) ≡ stream_loop o s (delta id text ∷ ys)
  unfolding stream_loop
  stream_loop-delta s id text xs ys h = elim (Option-cases (on_delta o s id text).1) [
    | inl p ↦ rw (p, stream_loop) h
    | inr (e, p) ↦ rw (p, stream_loop)
  ]

  skip_delta :
      (s : Stream W) (id : ℕ) (text : Text) (xs : List Signal)
      → (on_delta o s id text).1 ≡ none
      → stream_loop o s (delta id text ∷ xs) ≡ stream_loop o (on_delta o s id text).0 xs
  unfolding stream_loop
  skip_delta s id text xs h = rw (h, stream_loop)

  skip_response :
      (s : Stream W) (id : ℕ) (responds : Bool) (r : Reply Text) (ds : List (ℕ × Text))
      (xs : List Signal)
      → (id == s.turn.turn_id && responds) ≡ false
      → stream_loop o s (response id responds r ds ∷ xs) ≡ stream_loop o s xs
  unfolding stream_loop
  skip_response s id responds r ds xs h = rw h

  drain-delta :
      (s : Stream W) (id : ℕ) (text : Text) (ds es : List (ℕ × Text))
      → drain_deltas o (on_delta o s id text).0 ds ≡ drain_deltas o (on_delta o s id text).0 es
      → drain_deltas o s ((id, text) ∷ ds) ≡ drain_deltas o s ((id, text) ∷ es)
  unfolding drain_deltas
  drain-delta s id text ds es h = elim (Option-cases (on_delta o s id text).1) [
    | inl p ↦ rw (p, drain_deltas) h
    | inr (e, p) ↦ rw (p, drain_deltas)
  ]

  skip_drained :
      (s : Stream W) (id : ℕ) (text : Text) (ds : List (ℕ × Text))
      → (on_delta o s id text).1 ≡ none
      → drain_deltas o s ((id, text) ∷ ds) ≡ drain_deltas o (on_delta o s id text).0 ds
  unfolding drain_deltas
  skip_drained s id text ds h = rw (h, drain_deltas)

  drain_deltas-keep_deltas :
      (s : Stream W) (ds : List (ℕ × Text))
      → drain_deltas o s ds ≡ drain_deltas o s (keep_deltas s.turn.turn_id ds)
  unfolding keep_deltas
  drain_deltas-keep_deltas s [] = refl
  drain_deltas-keep_deltas s ((id, text) ∷ ds) = elim (Bool-cases (id == s.turn.turn_id)) [
    | inl mine ↦
        let s' = (on_delta o s id text).0 in
        rw mine (
          drain-delta s id text ds (keep_deltas s.turn.turn_id ds) (
            drain_deltas-keep_deltas s' ds
            ∙ ap (λ me. drain_deltas o s' (keep_deltas me ds)) (id-on_delta s id text)))
    | inr stale ↦ rw (stale, keep_deltas) (skip stale ∙ drain_deltas-keep_deltas s ds)
  ]
    where
      skip :
          (id == s.turn.turn_id) ≡ false → drain_deltas o s ((id, text) ∷ ds) ≡ drain_deltas o s ds
      skip h =
          let e : on_delta o s id text ≡ (s, none) = stale_delta s id text h in
          skip_drained s id text ds (ap (λ (r : Step W). r.1) e)
          ∙ ap (λ (r : Step W). drain_deltas o r.0 ds) e

  response_complete-keep_deltas :
      (s : Stream W) (r : Reply Text) (ds : List (ℕ × Text))
      → response_complete o s r ds ≡ response_complete o s r (keep_deltas s.turn.turn_id ds)
  unfolding response_complete
  response_complete-keep_deltas s (err f) ds = refl
  response_complete-keep_deltas s (ok text) ds =
      let close : Step W → Ending W = λ r. elim r.1 [
        | some e ↦ abort_and_fail o r.0 e.code e.fault
        | none ↦ finish_stream o r.0 text
      ] in
      ap close (drain_deltas-keep_deltas s ds)

  keep_response :
      (s : Stream W) (id : ℕ) (responds : Bool) (r : Reply Text) (ds : List (ℕ × Text))
      (xs ys : List Signal)
      → (id == s.turn.turn_id && responds) ≡ true
      → stream_loop o s (response id responds r ds ∷ xs)
        ≡ stream_loop o s (response id responds r (keep_deltas s.turn.turn_id ds) ∷ ys)
  unfolding stream_loop
  keep_response s id responds r ds xs ys h = rw h (ap some (response_complete-keep_deltas s r ds))

  -- Deltas and results of other turns change nothing, neither those that arrive while the response is
  -- awaited nor the deltas that are buffered behind it: the turn goes on and ends as if they had not come.
  pub stream_loop-keep_mine :
      (s : Stream W) (xs : List Signal)
      → stream_loop o s xs ≡ stream_loop o s (keep_mine s.turn.turn_id xs)
  unfolding keep_mine
  stream_loop-keep_mine s [] = refl
  stream_loop-keep_mine s (ctx_done e ∷ xs) = unfold stream_loop in refl
  stream_loop-keep_mine s (workers_done f ∷ xs) = unfold stream_loop in refl
  stream_loop-keep_mine s (delta id text ∷ xs) = elim (Bool-cases (id == s.turn.turn_id)) [
    | inl mine ↦
        let s' = (on_delta o s id text).0 in
        rw mine (
          stream_loop-delta s id text xs (keep_mine s.turn.turn_id xs) (
            stream_loop-keep_mine s' xs
            ∙ ap (λ me. stream_loop o s' (keep_mine me xs)) (id-on_delta s id text)))
    | inr stale ↦ rw (stale, keep_mine) (skip stale ∙ stream_loop-keep_mine s xs)
  ]
    where
      skip :
          (id == s.turn.turn_id) ≡ false → stream_loop o s (delta id text ∷ xs) ≡ stream_loop o s xs
      skip h =
          let e : on_delta o s id text ≡ (s, none) = stale_delta s id text h in
          skip_delta s id text xs (ap (λ (r : Step W). r.1) e)
          ∙ ap (λ (r : Step W). stream_loop o r.0 xs) e
  stream_loop-keep_mine s (response id responds r ds ∷ xs) =
      elim (Bool-cases (id == s.turn.turn_id && responds)) [
        | inl mine ↦
            rw mine (keep_response s id responds r ds xs (keep_mine s.turn.turn_id xs) mine)
        | inr stale ↦
            rw (stale, keep_mine)
              (skip_response s id responds r ds xs stale ∙ stream_loop-keep_mine s xs)
      ]
