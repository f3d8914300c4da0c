-- ===== src/Audio/Capture/Sound/Calls.antt =====
-- `Next` of internal/audio/continuous_capture.go, and the start of the process.
use xarlatan.Common.{
  ◌≤◌, ◌≡◌, refl, subst, inl, inr, Bool, true, false, Option, none, some, List, [], ◌∷◌, arith,
  length, Bool-cases, All,
}
use xarlatan.Common.Results.{Result, ok, err, ◌>>=◌, ok_inj, >>=-eq-ok}
use xarlatan.Common.Text.{Text}
use xarlatan.Audio.{Buffer}
use xarlatan.Audio.Capture.{AudioConfig, reset_partials}
use xarlatan.Audio.Capture.Kept.{TrackedWhen, IsQueued-other, start_over-IsIdle, start_over-IsOpen}
use xarlatan.Audio.Capture.Read.{first_loop, start_over}
use xarlatan.Audio.Capture.Source.{
  Session, Outcome, returned, failed, waits, Signal, cancelled, utterance_ready, source_failure,
  leave, take_from, fail_from, woken, started, ensure_running, with_source, or_source, next,
}
use xarlatan.Audio.Capture.Tracked.{IsPieceOf}
use xarlatan.Vad.{Detector}
use xarlatan.Vad.Contract.{IsDetector}
use xarlatan.Vad.Real.{Real}
use xarlatan.Audio.Capture.Sound.{IsSound}

module _ {D F P : Type 0} (o : Real F) (d : Detector D F) {Inv : D → Type 0}
    (j : IsDetector d Inv) where
  leave-IsSound :
      (heard : List (Option F)) (s : Session D F P)
      → IsSound d Inv heard s
      → IsSound d Inv heard (leave s)
  unfolding leave
  leave-IsSound heard s h = record {
    idle = record {
      inv = h.idle.inv;
      room = h.idle.room;
      queued =
          IsQueued-other o d j heard s.recorder s.recorder.vad s.recorder.pre_roll
            s.recorder.suppressed false h.idle.queued;
    };
    loop = h.loop;
    process = h.process;
  }

  take_from-IsSound :
      (heard : List (Option F)) (s : Session D F P) (queue : List (Buffer F))
      → s.recorder.utterances ≡ queue
      → IsSound d Inv heard s
      → IsSound d Inv heard (take_from s queue).0
  unfolding take_from
  take_from-IsSound heard s [] e h = h
  take_from-IsSound heard s (b ∷ queue) e h =
      let bound : length (b ∷ queue) ≤ s.recorder.queue_depth =
        subst (λ bs. length bs ≤ s.recorder.queue_depth) e h.idle.queued.utterance_bound in
      leave-IsSound heard (record s { recorder = record s.recorder { utterances = queue } })
        (record {
          idle = record {
            inv = h.idle.inv;
            room = h.idle.room;
            queued = record {
              room = h.idle.queued.room;
              utterances = (subst (All (IsPieceOf heard)) e h.idle.queued.utterances).1;
              partials = h.idle.queued.partials;
              utterance_bound = omega (arith, bound);
              partial_bound = h.idle.queued.partial_bound;
              candidate_bound = h.idle.queued.candidate_bound;
            };
          };
          loop = h.loop;
          process = h.process;
        })

  fail_from-IsSound :
      (heard : List (Option F)) (s : Session D F P) (error : Option Text)
      → IsSound d Inv heard s
      → IsSound d Inv heard (fail_from s error).0
  unfolding fail_from
  fail_from-IsSound heard s none h = h
  fail_from-IsSound heard s (some e) h =
      leave-IsSound heard (record s { source_err = none })
        (record { idle = h.idle; loop = h.loop; process = h.process })

  pub woken-IsSound :
      (heard : List (Option F)) (s : Session D F P) (signal : Signal)
      → IsSound d Inv heard s
      → IsSound d Inv heard (woken s signal).0
  unfolding woken
  woken-IsSound heard s (cancelled e) h = leave-IsSound heard s h
  woken-IsSound heard s utterance_ready h = take_from-IsSound heard s s.recorder.utterances refl h
  woken-IsSound heard s source_failure h = fail_from-IsSound heard s s.source_err h

  started-IsSound :
      (start : AudioConfig → Result Text P) (heard : List (Option F)) (s : Session D F P)
      (process : P)
      → s.closed ≡ false
      → IsSound d Inv heard s
      → IsSound d Inv heard (started o d start s process)
  unfolding started first_loop
  started-IsSound start heard s process running h = record {
    idle = start_over-IsIdle o d j heard s.recorder h.idle;
    loop = fresh s.recorder.suppressed;
    process = (refl, running);
  }
    where
      fresh :
          (b : Bool)
          → TrackedWhen d Inv heard b
              (start_over o d s.recorder).vad
              (start_over o d s.recorder).pre_roll
              []
      fresh true = refl
      fresh false = start_over-IsOpen o d j heard s.recorder h.idle

  with_source-IsSound :
      (start : AudioConfig → Result Text P) (heard : List (Option F)) (s : Session D F P)
      (r : Result Text (Session D F P))
      → ensure_running o d start s ≡ r
      → IsSound d Inv heard s
      → IsSound d Inv heard (with_source o d start s r).0
  unfolding with_source ensure_running
  with_source-IsSound start heard s (err e) h0 h = leave-IsSound heard s h
  with_source-IsSound start heard s (ok s') h0 h = elim (Bool-cases s.closed) [
    | inl closed ↦ absurd (ground (arith, h0, closed))
    | inr open_still ↦ elim (Bool-cases s.running) [
      | inl running ↦
          let same_session : s ≡ s' = ok_inj {E = Text} (ground (arith, h0, open_still, running)) in
          subst (IsSound d Inv heard) same_session h
      | inr idle ↦
          let h1 : (start s.recorder.cfg >>= λ process. ok (started o d start s process)) ≡ ok s' =
            ground (arith, h0, open_still, idle) in
          let (process, e, h2) = >>=-eq-ok (start s.recorder.cfg) _ h1 in
          subst (IsSound d Inv heard) (ok_inj {E = Text} h2)
            (started-IsSound start heard s process open_still h)
    ]
  ]

  or_source-IsSound :
      (start : AudioConfig → Result Text P) (heard : List (Option F))
      (r : Session D F P × Outcome F)
      → IsSound d Inv heard r.0
      → IsSound d Inv heard (or_source o d start r).0
  unfolding or_source
  or_source-IsSound start heard (s, waits) h =
      with_source-IsSound start heard s (ensure_running o d start s) refl h
  or_source-IsSound start heard (s, returned b) h = h
  or_source-IsSound start heard (s, failed e) h = h

  pub next-IsSound :
      (start : AudioConfig → Result Text P) (heard : List (Option F)) (ctx_err : Option Text)
      (s : Session D F P)
      → IsSound d Inv heard s
      → IsSound d Inv heard (next o d start ctx_err s).0
  unfolding next reset_partials
  next-IsSound start heard (some e) s h = h
  next-IsSound start heard none s h =
      let s' : Session D F P = record s {
        recorder = record s.recorder { partials = []; waiting = true };
      } in
      or_source-IsSound start heard (take_from s' s.recorder.utterances) (
        take_from-IsSound heard s' s.recorder.utterances refl (record {
          idle = record {
            inv = h.idle.inv;
            room = h.idle.room;
            queued = record {
              room = h.idle.queued.room;
              utterances = h.idle.queued.utterances;
              partials = tt;
              utterance_bound = h.idle.queued.utterance_bound;
              partial_bound = omega arith;
              candidate_bound = h.idle.queued.candidate_bound;
            };
          };
          loop = h.loop;
          process = h.process;
        }))
