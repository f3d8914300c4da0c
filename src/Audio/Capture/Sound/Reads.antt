-- ===== src/Audio/Capture/Sound/Reads.antt =====
-- The reads of the loop of internal/audio/continuous_capture.go, their failure, `SetSuppressed`, `Close`
-- and the constructor.
use xarlatan.Common.{
  ◌<◌, ◌≡◌, refl, sym, subst, Bool, true, false, Option, none, some, List, [], ◌∷◌, ◌++◌, arith,
  if◌then◌else◌, ◌==◌,
}
use xarlatan.Common.Results.{Result, ok, fail_if, ok_inj, >>=-eq-ok, fail_if-eq-ok}
use xarlatan.Common.Text.{Text}
use xarlatan.Audio.Preroll.{new_pre_roll_buffer}
use xarlatan.Audio.Capture.{AudioConfig, ContinuousOptions, set_suppressed, flush_barge_candidates}
use xarlatan.Audio.Capture.Kept.{heard_of, IsQueued-other, read_chunk-IsTracked, IsIdle-append}
use xarlatan.Audio.Capture.Read.{Loop}
use xarlatan.Audio.Capture.Source.{
  Session, new_continuous_recorder, pcm_chunk_bytes, suppress, forget, source_failed, read_failed,
  close, read_with, read, keep_first, first_error, stopped,
}
use xarlatan.Audio.Capture.Tracked.{IsQueued}
use xarlatan.Vad.{Detector}
use xarlatan.Vad.Contract.{IsDetector}
use xarlatan.Vad.Real.{Real}
use xarlatan.Audio.Capture.Sound.{InStep, IsSound}

module _ {D F P : Type 0} (o : Real F) (d : Detector D F) {Inv : D → Type 0}
    (j : IsDetector d Inv) where
  pub read-IsSound :
      (start : AudioConfig → Result Text P) (heard : List (Option F)) (s : Session D F P)
      (l : Loop F) (chunk : List F)
      → s.loop ≡ some l
      → IsSound d Inv heard s
      → IsSound d Inv (heard ++ heard_of s.recorder.suppressed chunk) (read o d start s chunk)
  unfolding read read_with
  read-IsSound start heard s l chunk e h =
      let heard' = heard ++ heard_of s.recorder.suppressed chunk in
      let after = read_chunk-IsTracked o d j heard chunk s.recorder l (record {
        idle = h.idle;
        tracked = subst (InStep d Inv heard s.recorder.vad s.recorder.pre_roll) e h.loop;
      }) in
      subst (λ t. IsSound d Inv heard' (read_with o d start s chunk t)) (sym e)
        (record { idle = after.idle; loop = after.tracked; process = h.process })

  end_loop-IsSound :
      (heard : List (Option F)) (s : Session D F P)
      → IsSound d Inv heard s
      → IsSound d Inv (heard ++ none ∷ []) (record s { loop = none })
  end_loop-IsSound heard s h = record {
    idle = IsIdle-append o d j heard (none ∷ []) s.recorder h.idle;
    loop = tt;
    process = h.process;
  }

  forget-IsSound :
      (same : P → P → Bool) (heard : List (Option F)) (s : Session D F P) (process : P)
      (p : Option P)
      → IsSound d Inv heard s
      → IsSound d Inv heard (forget same s process p)
  unfolding forget
  forget-IsSound same heard s process none h = h
  forget-IsSound same heard s process (some p) h = chosen (same p process)
    where
      chosen :
          (b : Bool)
          → IsSound d Inv heard (if b then record s { process = none; running = false } else s)
      chosen true = record { idle = h.idle; loop = h.loop; process = refl }
      chosen false = h

  pub read_failed-IsSound :
      (same : P → P → Bool) (heard : List (Option F)) (s : Session D F P) (process : P)
      (error : Text)
      → IsSound d Inv heard s
      → IsSound d Inv (heard ++ none ∷ []) (read_failed same s process error)
  unfolding read_failed source_failed
  read_failed-IsSound same heard s process error h = chosen s.closed
    where
      over :
          IsSound d Inv
            (heard ++ none ∷ [])
            (record (forget same s process s.process) { loop = none })
      over =
          end_loop-IsSound heard (forget same s process s.process)
            (forget-IsSound same heard s process s.process h)

      noted :
          (b : Bool)
          → IsSound d Inv (heard ++ none ∷ []) (
              if b
              then record (forget same s process s.process) { loop = none }
              else record (forget same s process s.process) {
                loop = none;
                source_err = keep_first s.source_err error;
              })
      noted true = over
      noted false = record { idle = over.idle; loop = over.loop; process = over.process }

      chosen :
          (b : Bool)
          → IsSound d Inv
              (heard ++ none ∷ [])
              (if b then record s { loop = none } else source_failed same s process error)
      chosen true = end_loop-IsSound heard s h
      chosen false = noted s.closed

  pub suppress-IsSound :
      (heard : List (Option F)) (s : Session D F P) (suppressed : Bool)
      → IsSound d Inv heard s
      → IsSound d Inv heard (suppress s suppressed)
  unfolding suppress set_suppressed flush_barge_candidates
  suppress-IsSound heard s suppressed h = set suppressed
    where
      switched : (b : Bool) → IsQueued heard (record s.recorder { suppressed = b })
      switched b =
          IsQueued-other o d j heard s.recorder s.recorder.vad s.recorder.pre_roll b
            s.recorder.waiting h.idle.queued

      set : (b : Bool) → IsSound d Inv heard (suppress s b)
      set true = record {
        idle = record { inv = h.idle.inv; room = h.idle.room; queued = switched true };
        loop = h.loop;
        process = h.process;
      }
      set false = record {
        idle = record {
          inv = h.idle.inv;
          room = h.idle.room;
          queued = record {
            room = h.idle.queued.room;
            utterances = h.idle.queued.utterances;
            partials = h.idle.queued.partials;
            utterance_bound = h.idle.queued.utterance_bound;
            partial_bound = h.idle.queued.partial_bound;
            candidate_bound = omega arith;
          };
        };
        loop = h.loop;
        process = h.process;
      }

  pub close-IsSound :
      (stop : P → Option Text) (heard : List (Option F)) (s : Session D F P)
      (detector_close : Option Text)
      → IsSound d Inv heard s
      → IsSound d Inv heard (close stop detector_close s).0
  unfolding close
  close-IsSound stop heard s detector_close h = chosen s.closed
    where
      error : Option Text
      error = first_error (stopped stop s.process) detector_close

      chosen :
          (b : Bool)
          → (let r : Session D F P × Option Text = if b then (s, s.close_err) else (
            record s { closed = true; process = none; running = false; close_err = error },
            error,
          ) in
              IsSound d Inv heard r.0)
      chosen true = h
      chosen false = record { idle = h.idle; loop = h.loop; process = refl }

  pub made-IsSound :
      (cfg : AudioConfig) (detector : D) (options : ContinuousOptions) (s : Session D F P)
      → new_continuous_recorder cfg detector options ≡ ok s
      → Inv detector
      → IsSound d Inv [] s
  unfolding new_continuous_recorder new_pre_roll_buffer
  made-IsSound cfg detector options s h inv =
      let (bytes, a, h1) = >>=-eq-ok (pcm_chunk_bytes cfg.sample_rate cfg.channels) _ h in
      let (u, chunks, h2) = >>=-eq-ok (fail_if (options.pre_roll_chunks == 0) _) _ h1 in
      let (u', depth, h3) = >>=-eq-ok (fail_if (options.queue_depth == 0) _) _ h2 in
      let some_chunks : 0 < options.pre_roll_chunks = ground (arith, fail_if-eq-ok _ _ chunks) in
      let some_depth : 0 < options.queue_depth = ground (arith, fail_if-eq-ok _ _ depth) in
      subst (IsSound d Inv []) (ok_inj {E = Text} h3) (record {
        idle = record {
          inv = inv;
          room = some_chunks;
          queued = record {
            room = some_depth;
            utterances = tt;
            partials = tt;
            utterance_bound = omega arith;
            partial_bound = omega arith;
            candidate_bound = omega arith;
          };
        };
        loop = tt;
        process = refl;
      })
