-- ===== src/Application/Coordinator/Walks/Whole.antt =====
-- The states of a whole turn, and what the loop of `Run` makes of its error.
use xarlatan.Common.{
  ℕ, ◌≡◌, refl, inl, inr, true, Option, none, some, Option-cases, Bool-cases, subst, some_inj,
  length,
}
use xarlatan.Common.Text.{Text, is_empty, trim_space, byte_length}
use xarlatan.Audio.{Buffer, empty, validate}
use xarlatan.Application.{
  idle, listening, transcribing, thinking, stopping, wake_detected, capture_failed,
  transcription_failed, other, Reply, ok, err,
}
use xarlatan.Application.Recorder.{Turn, emit, new_turn_recorder}
use xarlatan.Application.Coordinator.{Voice, Ending}
use xarlatan.Application.Coordinator.Turns.{
  apply_wake_gate, answer, gate_and_answer, heard_text, transcribe_and_answer, captured, listen,
  run_turn,
}
use xarlatan.Application.Coordinator.Walks.{
  follows, start, step, IsWalk, no_audio, no_words, unheard, stillborn, IsOpen, IsEnding,
  fail-IsEnding, end_noop-IsEnding, complete_buffered_response-IsEnding,
}
use xarlatan.Application.Coordinator.Walks.Streamed.{complete_streaming_response-IsEnding}

-- A turn that may think: it has transcribed, or heard its wake phrase.
record IsHeard (t : Turn) : Type 0 where
  walk : IsWalk t
  to_thinking : follows t.current thinking ≡ true
  no_error : t.error_code ≡ none

module _ {W S : Type 0} (o : Voice W S) where
  answer-IsEnding :
      (w : W) (t : Turn) (transcript : Text) {e : Ending W}
      → IsHeard t
      → answer o w t transcript ≡ some e
      → IsEnding o e
  unfolding answer
  answer-IsEnding w t transcript h p =
      let open_turn : IsOpen (emit thinking t) =
        unfold emit in
        record {
          walk = step thinking h.walk h.to_thinking;
          to_idle = refl;
          to_stopping = refl;
          to_interrupted = refl;
          no_error = h.no_error;
        } in
      let now : (emit thinking t).current ≡ thinking = unfold emit in refl in
      elim (Bool-cases o.supports_streaming) [
        | inl q ↦
            complete_streaming_response-IsEnding o w (emit thinking t) transcript open_turn now
              (rw (q, answer) at p)
        | inr q ↦
            subst (IsEnding o) (some_inj (rw (q, answer) at p))
              (complete_buffered_response-IsEnding o w (emit thinking t) transcript open_turn now)
      ]

  -- Behind a transcription.
  gate_and_answer-IsEnding :
      (v : W) (b : Buffer S) (text : Text) (t : Turn) {e : Ending W}
      → (o.transcribe b v).1 ≡ ok text
      → IsOpen t
      → t.current ≡ transcribing
      → gate_and_answer o (o.transcribe b v).0 t (trim_space text) ≡ some e
      → IsEnding o e
  unfolding gate_and_answer
  gate_and_answer-IsEnding v b text t {e} told h c = gated o.wake refl
    where
      w : W
      w = (o.transcribe b v).0

      transcript : Text
      transcript = trim_space text

      gated :
          (g : Option (Text → Option Text))
          → o.wake ≡ g
          → gate_and_answer o w t transcript ≡ some e
          → IsEnding o e
      gated none q p =
          answer-IsEnding (o.show_user transcript w) t transcript
            (record { walk = h.walk; to_thinking = rw c; no_error = h.no_error })
            (rw (q, gate_and_answer, apply_wake_gate) at p)
      gated (some detect) q p = elim (Option-cases (detect transcript)) [
        | inl r ↦ subst (IsEnding o) (some_inj (rw (q, gate_and_answer, apply_wake_gate, r) at p)) (
            unfold emit in
            record {
              walk = step idle h.walk h.to_idle;
              closing = rw h.no_error (unheard v b text detect told q r);
            })
        | inr (command, r) ↦
            answer-IsEnding (o.show_user (trim_space command) w) (emit wake_detected t)
              (trim_space command)
              (unfold emit in
                record {
                  walk = step wake_detected h.walk (rw c);
                  to_thinking = refl;
                  no_error = h.no_error;
                })
              (rw (q, gate_and_answer, apply_wake_gate, r) at p)
      ]

  heard_text-IsEnding :
      (v : W) (b : Buffer S) (t : Turn) (text : Text) {e : Ending W}
      → (o.transcribe b v).1 ≡ ok text
      → IsOpen t
      → t.current ≡ transcribing
      → heard_text o (o.transcribe b v).0 t text ≡ some e
      → IsEnding o e
  unfolding heard_text
  heard_text-IsEnding v b t text told h c p =
      let w = (o.transcribe b v).0 in
      elim (Bool-cases (is_empty (trim_space text))) [
        | inl q ↦
            subst (IsEnding o) (some_inj (rw (q, heard_text) at p))
              (end_noop-IsEnding o w t h (λ l. no_words v b text told q))
        | inr q ↦
            gate_and_answer-IsEnding v b text
              (record t { transcript_chars = byte_length (trim_space text) }) told
              (record {
                walk = h.walk;
                to_idle = h.to_idle;
                to_stopping = h.to_stopping;
                to_interrupted = h.to_interrupted;
                no_error = h.no_error;
              })
              c (rw (q, heard_text) at p)
      ]

  transcribe_and_answer-IsEnding :
      (w : W) (t : Turn) (b : Buffer S) {e : Ending W}
      → IsOpen t
      → t.current ≡ listening
      → transcribe_and_answer o w t b ≡ some e
      → IsEnding o e
  unfolding transcribe_and_answer
  transcribe_and_answer-IsEnding w t b {e} h c = transcribed (o.transcribe b w).1 refl
    where
      t' : Turn
      t' = emit transcribing (record t { sample_count = length b.samples })

      open_turn : IsOpen t'
      open_turn =
          unfold emit in
          record {
            walk = step transcribing h.walk (rw c);
            to_idle = refl;
            to_stopping = refl;
            to_interrupted = refl;
            no_error = h.no_error;
          }

      transcribed :
          (r : Reply Text)
          → (o.transcribe b w).1 ≡ r
          → transcribe_and_answer o w t b ≡ some e
          → IsEnding o e
      transcribed (err f) q p =
          subst (IsEnding o) (some_inj (rw (q, transcribe_and_answer) at p))
            (fail-IsEnding o (o.transcribe b w).0 t' transcription_failed f open_turn)
      transcribed (ok text) q p =
          heard_text-IsEnding w b t' text q open_turn (unfold emit in refl)
            (rw (q, transcribe_and_answer) at p)

  captured-IsEnding :
      (v : W) (t : Turn) (b : Buffer S) {e : Ending W}
      → (o.capture v).1 ≡ ok b
      → IsOpen t
      → t.current ≡ listening
      → captured o (o.capture v).0 t b ≡ some e
      → IsEnding o e
  unfolding captured
  captured-IsEnding v t b heard h c p =
      let w = (o.capture v).0 in
      elim (Bool-cases (empty b)) [
        | inl q ↦
            subst (IsEnding o) (some_inj (rw (q, captured) at p))
              (end_noop-IsEnding o w t h (λ l. no_audio v b heard q))
        | inr q ↦ elim (Option-cases (validate b)) [
          | inl r ↦ transcribe_and_answer-IsEnding w t b h c (rw (q, r, captured) at p)
          | inr (bad, r) ↦
              subst (IsEnding o) (some_inj (rw (q, r, captured) at p))
                (fail-IsEnding o w t capture_failed other h)
        ]
      ]

  listen-IsEnding :
      (w : W) (t : Turn) {e : Ending W}
      → IsWalk t
      → t.current ≡ idle
      → t.error_code ≡ none
      → listen o w t ≡ some e
      → IsEnding o e
  unfolding listen
  listen-IsEnding w t {e} h c n = heard (o.capture w).1 refl
    where
      t' : Turn
      t' = emit listening t

      open_turn : IsOpen t'
      open_turn =
          unfold emit in
          record {
            walk = step listening h (rw c);
            to_idle = refl;
            to_stopping = refl;
            to_interrupted = refl;
            no_error = n;
          }

      heard : (r : Reply (Buffer S)) → (o.capture w).1 ≡ r → listen o w t ≡ some e → IsEnding o e
      heard (err f) q p =
          subst (IsEnding o) (some_inj (rw (q, listen) at p))
            (fail-IsEnding o (o.capture w).0 t' capture_failed f open_turn)
      heard (ok b) q p =
          captured-IsEnding w t' b q open_turn (unfold emit in refl) (rw (q, listen) at p)

  pub run_turn-IsEnding :
      (w : W) (turn_id : ℕ) {e : Ending W} → run_turn o w turn_id ≡ some e → IsEnding o e
  unfolding run_turn new_turn_recorder
  run_turn-IsEnding w turn_id p = elim (Option-cases (o.poll w).1) [
    | inl q ↦
        listen-IsEnding (o.poll w).0 (new_turn_recorder turn_id) start refl refl
          (rw (q, run_turn) at p)
    | inr (x, q) ↦
        subst (IsEnding o) (some_inj (rw (q, run_turn) at p))
          (unfold emit in record { walk = step stopping start refl; closing = stillborn w x q })
  ]
