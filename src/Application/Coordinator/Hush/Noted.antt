-- ===== src/Application/Coordinator/Hush/Noted.antt =====
-- What the flags of a streamed response of internal/application/coordinator.go tell of the player.
use xarlatan.Common.{
  ℕ, ◌≡◌, ◌∙◌, refl, inl, inr, true, false, not, ◌||◌, Option, none, List, [], ◌∷◌, ◌==◌, arith,
  Bool-cases, Option-cases,
}
use xarlatan.Common.Text.{Text, is_empty, trim_space}
use xarlatan.Audio.{Buffer, empty, validate}
use xarlatan.Phrases.{push}
use xarlatan.Application.{Reply, ok, err}
use xarlatan.Application.Coordinator.{Voice}
use xarlatan.Application.Coordinator.Streaming.{
  Stream, Step, StageError, begin_synthesis, begin_speaking, write_audio, speak_buffer,
  speak_phrase, play_phrase, play_streaming_phrases, on_delta, drain_deltas,
}
use xarlatan.Application.Coordinator.Hush.{IsPlayer}

-- A step behind which the flags tell where sound may be: before speech nothing plays, and what was spoken
-- without an error was also noted as written.
pub record IsNoted {W : Type 0} (Silent : W → Type 0) (r : Step W) : Type 0 where
  pub quiet : r.0.state.speaking_state ≡ false → Silent r.0.world
  pub noted : r.1 ≡ none → r.0.state.speaking_state ≡ true → r.0.state.wrote_audio ≡ true
  pub seen_first : r.0.state.delta_seen ≡ false → r.0.state.speaking_state ≡ false

module _ {W S : Type 0} (o : Voice W S) (Silent : W → Type 0) (p : IsPlayer o Silent) where
  -- A phrase that is on its way to the player, in a stream that has seen a delta.
  write_audio-IsNoted :
      (s : Stream W) (b : Buffer S) → s.state.delta_seen ≡ true → IsNoted Silent (write_audio o s b)
  unfolding write_audio begin_speaking
  write_audio-IsNoted s b seen = elim (Bool-cases s.state.speaking_state) [
    | inl old ↦ elim (Option-cases (o.write b s.world).1) [
      | inl q ↦
          rw (old, q, write_audio, begin_speaking)
            (record {
              quiet = λ e. absurd (ground (arith, old));
              noted = λ _ _. refl;
              seen_first = λ e. absurd (ground (arith, seen));
            })
      | inr (f, q) ↦
          rw (old, q, write_audio, begin_speaking)
            (record {
              quiet = λ e. absurd (ground (arith, old));
              noted = λ n. absurd (cc);
              seen_first = λ e. absurd (ground (arith, seen));
            })
    ]
    | inr new ↦ elim (Option-cases (o.write b s.world).1) [
      | inl q ↦
          rw (new, q, write_audio, begin_speaking)
            (record {
              quiet = λ e. absurd (cc);
              noted = λ _ _. refl;
              seen_first = λ e. absurd (ground (arith, seen));
            })
      | inr (f, q) ↦
          rw (new, q, write_audio, begin_speaking)
            (record {
              quiet = λ e. absurd (cc);
              noted = λ n. absurd (cc);
              seen_first = λ e. absurd (ground (arith, seen));
            })
    ]
  ]

  -- A call that may end in an error, and does not write.
  stays : (s : Stream W) (x : Option StageError) → IsNoted Silent (s, none) → IsNoted Silent (s, x)
  stays s x h = record { quiet = h.quiet; noted = λ _. h.noted refl; seen_first = h.seen_first }

  speak_buffer-IsNoted :
      (s : Stream W) (b : Buffer S)
      → s.state.delta_seen ≡ true
      → IsNoted Silent (s, none)
      → IsNoted Silent (speak_buffer o s b)
  unfolding speak_buffer
  speak_buffer-IsNoted s b seen h = elim (Bool-cases (empty b)) [
    | inl q ↦ rw q h
    | inr q ↦ elim (Option-cases (validate b)) [
      | inl v ↦ rw (q, v) (write_audio-IsNoted s b seen)
      | inr (bad, v) ↦ rw (q, v) (stays s _ h)
    ]
  ]

  begin_synthesis-IsNoted :
      (s : Stream W)
      → IsNoted Silent (s, none)
      → s.state.delta_seen ≡ true
      → IsNoted Silent (begin_synthesis s, none) × ((begin_synthesis s).state.delta_seen ≡ true)
  unfolding begin_synthesis
  begin_synthesis-IsNoted s h seen = elim (Bool-cases s.state.synth_state) [
    | inl old ↦ simp old (h, seen)
    | inr new ↦
        rw (new, begin_synthesis)
          (record { quiet = h.quiet; noted = h.noted; seen_first = h.seen_first }, seen)
  ]

  speak_phrase-IsNoted :
      (s : Stream W) (phrase : Text)
      → s.state.delta_seen ≡ true
      → IsNoted Silent (s, none)
      → IsNoted Silent (speak_phrase o s phrase)
  unfolding speak_phrase
  speak_phrase-IsNoted s phrase seen h =
      answered (o.synthesize phrase (begin_synthesis s).world).1 refl
    where
      s' : Stream W
      s' = begin_synthesis s

      begun :
          IsNoted Silent (begin_synthesis s, none) × ((begin_synthesis s).state.delta_seen ≡ true)
      begun = begin_synthesis-IsNoted s h seen

      s'' : Stream W
      s'' = record s' { world = (o.synthesize phrase s'.world).0 }

      ready : IsNoted Silent (s'', none)
      ready = record {
        quiet = λ e. p.synthesize_silent phrase s'.world (begun.0.quiet e);
        noted = begun.0.noted;
        seen_first = begun.0.seen_first;
      }

      answered :
          (a : Reply (Buffer S))
          → (o.synthesize phrase s'.world).1 ≡ a
          → IsNoted Silent (speak_phrase o s phrase)
      answered (err f) q = rw (q, speak_phrase) (stays s'' _ ready)
      answered (ok b) q = rw (q, speak_phrase) (speak_buffer-IsNoted s'' b begun.1 ready)

  -- Speaking does not touch the note of the first delta.
  write_audio-seen :
      (s : Stream W) (b : Buffer S) → (write_audio o s b).0.state.delta_seen ≡ s.state.delta_seen
  unfolding write_audio begin_speaking
  write_audio-seen s b = ground arith

  speak_buffer-seen :
      (s : Stream W) (b : Buffer S) → (speak_buffer o s b).0.state.delta_seen ≡ s.state.delta_seen
  unfolding speak_buffer
  speak_buffer-seen s b = ground (arith, write_audio-seen s b)

  begin_synthesis-seen : (s : Stream W) → (begin_synthesis s).state.delta_seen ≡ s.state.delta_seen
  unfolding begin_synthesis
  begin_synthesis-seen s = ground arith

  speak_phrase-seen :
      (s : Stream W) (phrase : Text)
      → (speak_phrase o s phrase).0.state.delta_seen ≡ s.state.delta_seen
  unfolding speak_phrase
  speak_phrase-seen s phrase = answered (o.synthesize phrase (begin_synthesis s).world).1 refl
    where
      answered :
          (a : Reply (Buffer S))
          → (o.synthesize phrase (begin_synthesis s).world).1 ≡ a
          → (speak_phrase o s phrase).0.state.delta_seen ≡ s.state.delta_seen
      answered (err f) q = rw (q, speak_phrase) (begin_synthesis-seen s)
      answered (ok b) q = rw (q, speak_phrase) (speak_buffer-seen _ b ∙ begin_synthesis-seen s)

  play_phrase-seen :
      (s : Stream W) (phrase : Text)
      → (play_phrase o s phrase).0.state.delta_seen ≡ s.state.delta_seen
  unfolding play_phrase
  play_phrase-seen s phrase = elim (Bool-cases (is_empty (trim_space phrase))) [
    | inl q ↦ rw q refl
    | inr q ↦ rw q (speak_phrase-seen s (trim_space phrase))
  ]

  play_phrase-IsNoted :
      (s : Stream W) (phrase : Text)
      → s.state.delta_seen ≡ true
      → IsNoted Silent (s, none)
      → IsNoted Silent (play_phrase o s phrase)
  unfolding play_phrase
  play_phrase-IsNoted s phrase seen h = elim (Bool-cases (is_empty (trim_space phrase))) [
    | inl q ↦ rw q h
    | inr q ↦ rw q (speak_phrase-IsNoted s (trim_space phrase) seen h)
  ]

  pub play_streaming_phrases-IsNoted :
      (s : Stream W) (phrases : List Text)
      → s.state.delta_seen ≡ true
      → IsNoted Silent (s, none)
      → IsNoted Silent (play_streaming_phrases o s phrases)
  unfolding play_streaming_phrases
  play_streaming_phrases-IsNoted s [] seen h = h
  play_streaming_phrases-IsNoted s (phrase ∷ phrases) seen h =
      let r = play_phrase o s phrase in
      let h' = play_phrase-IsNoted s phrase seen h in
      elim (Option-cases r.1) [
        | inl q ↦
            rw (q, play_streaming_phrases)
              (play_streaming_phrases-IsNoted r.0 phrases (play_phrase-seen s phrase ∙ seen)
                (record { quiet = h'.quiet; noted = λ _. h'.noted q; seen_first = h'.seen_first }))
        | inr (e, q) ↦
            rw (q, play_streaming_phrases)
              (record { quiet = h'.quiet; noted = λ n. absurd (cc); seen_first = h'.seen_first })
      ]

  pub on_delta-IsNoted :
      (s : Stream W) (id : ℕ) (text : Text)
      → IsNoted Silent (s, none)
      → IsNoted Silent (on_delta o s id text)
  unfolding on_delta
  on_delta-IsNoted s id text h = elim (Bool-cases (not (id == s.turn.turn_id) || is_empty text)) [
    | inl q ↦ rw q h
    | inr q ↦
        let r = push text s.state.sentence_builder in
        let s' : Stream W = record s {
          state = record s.state { delta_seen = true; first_delta = true; sentence_builder = r.1 };
        } in
        rw q (
          play_streaming_phrases-IsNoted s' r.0 refl
            (record { quiet = h.quiet; noted = h.noted; seen_first = λ e. absurd (cc) }))
  ]

  pub drain_deltas-IsNoted :
      (s : Stream W) (ds : List (ℕ × Text))
      → IsNoted Silent (s, none)
      → IsNoted Silent (drain_deltas o s ds)
  unfolding drain_deltas
  drain_deltas-IsNoted s [] h = h
  drain_deltas-IsNoted s ((id, text) ∷ ds) h =
      let r = on_delta o s id text in
      let h' = on_delta-IsNoted s id text h in
      elim (Option-cases r.1) [
        | inl q ↦
            rw (q, drain_deltas)
              (drain_deltas-IsNoted r.0 ds
                (record { quiet = h'.quiet; noted = λ _. h'.noted q; seen_first = h'.seen_first }))
        | inr (e, q) ↦
            rw (q, drain_deltas)
              (record { quiet = h'.quiet; noted = λ n. absurd (cc); seen_first = h'.seen_first })
      ]
