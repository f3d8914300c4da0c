-- ===== src/Audio/Capture/Tracked/Published.antt =====
-- What the publications of internal/audio/continuous_capture.go leave in the channels.
use xarlatan.Common.{
  ◌*◌, ◌/◌, refl, inl, inr, Bool, not, ◌||◌, Option, List, ◌++◌, arith, length, ltb, Bool-cases,
  All-imp,
}
use xarlatan.Common.Text.{is_empty}
use xarlatan.Audio.{Buffer, empty}
use xarlatan.Audio.Capture.{
  BargeCandidate, Recorder, buffer_of, publish_utterance, publish_partial, publish_barge_candidate,
  maybe_publish_partial,
}
use xarlatan.Audio.Capture.Heard.{IsPiece, IsPiece-append}
use xarlatan.Audio.Capture.Read.Queues.{offer_latest-bound, offer_latest-All}
use xarlatan.Vad.{Detector}
use xarlatan.Vad.Contract.{IsDetector}
use xarlatan.Vad.Real.{Real}
use xarlatan.Audio.Capture.Tracked.{IsPieceOf, IsQueued, Publishes}

module _ {D F : Type 0} (o : Real F) (d : Detector D F) {Inv : D → Type 0}
    (j : IsDetector d Inv) where
  pub publish_utterance-Publishes :
      (heard : List (Option F)) (r : Recorder D F) (samples : List F)
      → IsPiece heard samples
      → IsQueued heard r
      → Publishes heard r (publish_utterance r samples)
  unfolding publish_utterance
  publish_utterance-Publishes heard r samples p q =
      elim (Bool-cases (ltb (length samples) (r.cfg.sample_rate * r.cfg.channels / 4))) [
        | inl short ↦
            rw (short, publish_utterance) (record { vad = refl; pre_roll = refl; queued = q })
        | inr long ↦
            rw (long, publish_utterance)
              (record {
                vad = refl;
                pre_roll = refl;
                queued = record {
                  room = q.room;
                  utterances =
                      offer_latest-All (IsPieceOf heard) r.queue_depth r.utterances
                        (buffer_of r.cfg samples) q.utterances p;
                  partials = q.partials;
                  utterance_bound =
                      offer_latest-bound r.queue_depth r.utterances (buffer_of r.cfg samples) q.room
                        q.utterance_bound;
                  partial_bound = q.partial_bound;
                  candidate_bound = q.candidate_bound;
                };
              })
      ]

  publish_partial-Publishes :
      (heard : List (Option F)) (r : Recorder D F) (b : Buffer F)
      → IsPiece heard b.samples
      → IsQueued heard r
      → Publishes heard r (publish_partial r b)
  unfolding publish_partial
  publish_partial-Publishes heard r b p q = elim (Bool-cases (empty b)) [
    | inl nothing ↦
        rw (nothing, publish_partial) (record { vad = refl; pre_roll = refl; queued = q })
    | inr some_audio ↦
        rw (some_audio, publish_partial)
          (record {
            vad = refl;
            pre_roll = refl;
            queued = record {
              room = q.room;
              utterances = q.utterances;
              partials = offer_latest-All (IsPieceOf heard) 1 r.partials b q.partials p;
              utterance_bound = q.utterance_bound;
              partial_bound = offer_latest-bound 1 r.partials b (omega arith) q.partial_bound;
              candidate_bound = q.candidate_bound;
            };
          })
  ]

  pub publish_barge_candidate-Publishes :
      (heard : List (Option F)) (r : Recorder D F) (c : BargeCandidate F)
      → IsQueued heard r
      → Publishes heard r (publish_barge_candidate r c)
  unfolding publish_barge_candidate
  publish_barge_candidate-Publishes heard r c q =
      elim (Bool-cases (empty c.buffer || not c.started)) [
        | inl nothing ↦
            rw (nothing, publish_barge_candidate)
              (record { vad = refl; pre_roll = refl; queued = q })
        | inr speech ↦
            rw (speech, publish_barge_candidate)
              (record {
                vad = refl;
                pre_roll = refl;
                queued = record {
                  room = q.room;
                  utterances = q.utterances;
                  partials = q.partials;
                  utterance_bound = q.utterance_bound;
                  partial_bound = q.partial_bound;
                  candidate_bound =
                      offer_latest-bound 2 r.barge_candidates c (omega arith) q.candidate_bound;
                };
              })
      ]

  pub maybe_publish_partial-Publishes :
      (heard : List (Option F)) (r : Recorder D F) (recording : List F) (sent : Bool)
      → IsPiece heard recording
      → IsQueued heard r
      → Publishes heard r (maybe_publish_partial o r recording sent).0
  unfolding maybe_publish_partial
  maybe_publish_partial-Publishes heard r recording sent p q =
      let threshold =
        o.truncate (o.mul (o.of_ℕ (r.cfg.sample_rate * r.cfg.channels)) (o.seconds 1000000000)) in
      let same : Publishes heard r r = record { vad = refl; pre_roll = refl; queued = q } in
      elim (Bool-cases (sent || not r.waiting || is_empty recording)) [
        | inl skipped ↦ rw (skipped, maybe_publish_partial) same
        | inr wanted ↦ elim (Bool-cases (ltb (length recording) threshold)) [
          | inl short ↦ rw (wanted, short, maybe_publish_partial) same
          | inr long ↦
              rw (wanted, long, maybe_publish_partial)
                (publish_partial-Publishes heard r (buffer_of r.cfg recording) p q)
        ]
      ]

  pub IsQueued-append :
      (heard more : List (Option F)) (r : Recorder D F)
      → IsQueued heard r
      → IsQueued (heard ++ more) r
  IsQueued-append heard more r q =
      let still : (b : Buffer F) → IsPieceOf heard b → IsPieceOf (heard ++ more) b =
        λ b p. IsPiece-append heard more b.samples p in
      record {
        room = q.room;
        utterances =
            All-imp (IsPieceOf heard) (IsPieceOf (heard ++ more)) still r.utterances q.utterances;
        partials =
            All-imp (IsPieceOf heard) (IsPieceOf (heard ++ more)) still r.partials q.partials;
        utterance_bound = q.utterance_bound;
        partial_bound = q.partial_bound;
        candidate_bound = q.candidate_bound;
      }
