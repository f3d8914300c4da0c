-- ===== src/Audio/Capture/Kept.antt =====
-- One read of the loop of internal/audio/continuous_capture.go, whatever the chunk.
use xarlatan.Common.{
  ◌<◌, ◌≡◌, refl, sym, ap, ◌∙◌, subst, inl, inr, Bool, true, false, Option, none, some, List, [],
  ◌∷◌, ◌++◌, append-nil, arith, if◌then◌else◌, Bool-cases,
}
use xarlatan.Audio.Preroll.{PreRollBuffer, concat}
use xarlatan.Audio.Preroll
use xarlatan.Audio.Capture.{
  BargeCandidate, Recorder, publish_utterance, publish_barge_candidate, reset_partials,
  maybe_publish_partial,
}
use xarlatan.Audio.Capture.Barge.{process_barge_chunk}
use xarlatan.Audio.Capture.Heard.{as_heard, EndsWith-nil, EndsWith-IsPiece}
use xarlatan.Audio.Capture.Read.{
  Loop, process_chunk, start_over, switch, hand_over, overhear, suppressed_chunk, finish_if, hear,
  heard_chunk, read_chunk,
}
use xarlatan.Audio.Capture.Tracked.{
  IsQueued, IsOpen, Publishes, Detector-Agrees, process_chunk-IsOpen,
}
use xarlatan.Audio.Capture.Tracked.Published.{
  publish_utterance-Publishes, publish_barge_candidate-Publishes, maybe_publish_partial-Publishes,
  IsQueued-append,
}
use xarlatan.Vad.{Detector}
use xarlatan.Vad.Contract.{IsDetector}
use xarlatan.Vad.Real.{Real}

-- What a chunk adds to what was heard.
abbrev pub heard_of : {F : Type 0} → Bool → List F → List (Option F)
heard_of true [] = []
heard_of true (x ∷ xs) = none ∷ []
heard_of false xs = as_heard xs

-- Between loops.
pub record IsIdle {D F : Type 0} (Inv : D → Type 0) (heard : List (Option F)) (r : Recorder D F)
    : Type 0 where
  pub inv : Inv r.vad
  pub room : 0 < r.pre_roll.max_chunks
  pub queued : IsQueued heard r

module _ {D F : Type 0} (d : Detector D F) (Inv : D → Type 0) where
  abbrev pub TrackedWhen : List (Option F) → Bool → D → PreRollBuffer F → List F → Type 0
  TrackedWhen heard true vad pre_roll recording = recording ≡ []
  TrackedWhen heard false vad pre_roll recording = IsOpen d Inv heard false vad pre_roll recording

  -- Between the reads of a loop.
  pub record IsTracked (heard : List (Option F)) (r : Recorder D F) (l : Loop F) : Type 0 where
    pub idle : IsIdle Inv heard r
    pub tracked : TrackedWhen heard l.was_suppressed r.vad r.pre_roll l.recording

module _ {D F : Type 0} (o : Real F) (d : Detector D F) {Inv : D → Type 0}
    (j : IsDetector d Inv) where
  pub IsQueued-other :
      (heard : List (Option F)) (r : Recorder D F) (vad : D) (pre_roll : PreRollBuffer F)
      (suppressed waiting : Bool)
      → IsQueued heard r
      → IsQueued heard
          (record r { vad = vad; pre_roll = pre_roll; suppressed = suppressed; waiting = waiting })
  IsQueued-other heard r vad pre_roll suppressed waiting q = record {
    room = q.room;
    utterances = q.utterances;
    partials = q.partials;
    utterance_bound = q.utterance_bound;
    partial_bound = q.partial_bound;
    candidate_bound = q.candidate_bound;
  }

  pub start_over-IsIdle :
      (heard : List (Option F)) (r : Recorder D F)
      → IsIdle Inv heard r
      → IsIdle Inv heard (start_over o d r)
  unfolding start_over Preroll.reset
  start_over-IsIdle heard r h = record {
    inv = j.keeps_reset r.vad h.inv;
    room = h.room;
    queued =
        IsQueued-other heard r (d.reset r.vad) (Preroll.reset r.pre_roll) r.suppressed r.waiting
          h.queued;
  }

  -- After a start over nothing is recorded, and any stretch that was heard ends in nothing.
  pub start_over-IsOpen :
      (heard : List (Option F)) (r : Recorder D F)
      → IsIdle Inv heard r
      → IsOpen d Inv heard false (start_over o d r).vad (start_over o d r).pre_roll []
  unfolding start_over Preroll.reset concat
  start_over-IsOpen heard r h = record {
    inv = j.keeps_reset r.vad h.inv;
    room = h.room;
    recorded = EndsWith-nil heard;
    before = λ e. EndsWith-nil heard;
    in_speech = λ unfinished e. absurd (cc);
  }

  Publishes-IsIdle :
      (heard : List (Option F)) (r r' : Recorder D F)
      → Inv r.vad
      → 0 < r.pre_roll.max_chunks
      → Publishes heard r r'
      → IsIdle Inv heard r'
  Publishes-IsIdle heard r r' inv room p = record {
    inv = subst Inv (sym p.vad) inv;
    room = subst (λ b. 0 < b.max_chunks) (sym p.pre_roll) room;
    queued = p.queued;
  }

  finish_if-IsTracked :
      (heard : List (Option F)) (finish : Bool) (r : Recorder D F) (l : Loop F)
      → l.was_suppressed ≡ false
      → IsOpen d Inv heard finish r.vad r.pre_roll l.recording
      → IsQueued heard r
      → IsTracked d Inv heard (finish_if o d finish (r, l)).0 (finish_if o d finish (r, l)).1
  unfolding finish_if
  finish_if-IsTracked heard false r l was h q = record {
    idle = record { inv = h.inv; room = h.room; queued = q };
    tracked = subst (λ b. TrackedWhen d Inv heard b r.vad r.pre_roll l.recording) (sym was) h;
  }
  finish_if-IsTracked heard true r l was h q =
      let piece = EndsWith-IsPiece heard l.recording h.recorded in
      let r' = publish_utterance r l.recording in
      let idle : IsIdle Inv heard r' =
        Publishes-IsIdle heard r r' h.inv h.room
          (publish_utterance-Publishes o d j heard r l.recording piece q) in
      record {
        idle = start_over-IsIdle heard r' idle;
        tracked =
            subst
              (λ b.
                TrackedWhen d Inv heard b (start_over o d r').vad (start_over o d r').pre_roll [])
              (sym was) (start_over-IsOpen heard r' idle);
      }

  hear-IsTracked :
      (heard : List (Option F)) (r : Recorder D F) (l : Loop F) (x : F) (xs : List F)
      → l.was_suppressed ≡ false
      → IsOpen d Inv heard false r.vad r.pre_roll l.recording
      → IsQueued heard r
      → IsTracked d Inv
          (heard ++ as_heard (x ∷ xs))
          (hear o d (x ∷ xs) (r, l)).0
          (hear o d (x ∷ xs) (r, l)).1
  unfolding hear
  hear-IsTracked heard r l x xs was h q =
      let heard' = heard ++ as_heard (x ∷ xs) in
      let judged = d.process_chunk r.vad (x ∷ xs) in
      let next = process_chunk r.pre_roll l.recording (x ∷ xs) judged.1 in
      let h' =
        process_chunk-IsOpen o d j heard r.vad judged.0 judged.1 r.pre_roll l.recording x xs
          (Detector-Agrees o d j r.vad x xs h.inv) h in
      let r' : Recorder D F = record r { vad = judged.0; pre_roll = next.0 } in
      let p =
        maybe_publish_partial-Publishes o d j heard' r' next.1 l.partial_sent
          (EndsWith-IsPiece heard' next.1 h'.recorded)
          (IsQueued-other heard' r judged.0 next.0 r.suppressed r.waiting
            (IsQueued-append o d j heard (as_heard (x ∷ xs)) r q)) in
      let sent = maybe_publish_partial o r' next.1 l.partial_sent in
      finish_if-IsTracked heard' next.2 sent.0
        (record l { recording = next.1; partial_sent = sent.1 }) was
        (subst (λ b. IsOpen d Inv heard' next.2 sent.0.vad b next.1) (sym p.pre_roll)
          (subst (λ s. IsOpen d Inv heard' next.2 s next.0 next.1) (sym p.vad) h'))
        p.queued

  heard_chunk-IsTracked :
      (heard : List (Option F)) (r : Recorder D F) (l : Loop F) (x : F) (xs : List F)
      → IsTracked d Inv heard r l
      → IsTracked d Inv
          (heard ++ as_heard (x ∷ xs))
          (heard_chunk o d (x ∷ xs) (r, l)).0
          (heard_chunk o d (x ∷ xs) (r, l)).1
  unfolding heard_chunk switch
  heard_chunk-IsTracked heard r l x xs h = elim (Bool-cases l.was_suppressed) [
    | inl was ↦ simp was (
        hear-IsTracked heard (start_over o d r) (switch o d false (r, l)).1 x xs refl
          (subst (IsOpen d Inv heard false (start_over o d r).vad (start_over o d r).pre_roll)
            (sym (nothing was h.tracked)) (start_over-IsOpen heard r h.idle))
          (start_over-IsIdle heard r h.idle).queued)
    | inr was ↦
        subst
          (λ b.
            IsTracked d Inv (heard ++ as_heard (x ∷ xs))
              (hear o d (x ∷ xs) (if b then switch o d false (r, l) else (r, l))).0
              (hear o d (x ∷ xs) (if b then switch o d false (r, l) else (r, l))).1)
          (sym was) (hear-IsTracked heard r l x xs was (recording was h.tracked) h.idle.queued)
  ]
    where
      nothing :
          {b : Bool}
          → b ≡ true
          → TrackedWhen d Inv heard b r.vad r.pre_roll l.recording
          → l.recording ≡ []
      nothing {b = true} e t = t
      nothing {b = false} e t = absurd (cc)

      recording :
          {b : Bool}
          → b ≡ false
          → TrackedWhen d Inv heard b r.vad r.pre_roll l.recording
          → IsOpen d Inv heard false r.vad r.pre_roll l.recording
      recording {b = true} e t = absurd (cc)
      recording {b = false} e t = t

  -- What is overheard is not recorded.
  hand_over-IsTracked :
      (heard : List (Option F)) (c : Option (BargeCandidate F)) (r : Recorder D F) (l : Loop F)
      → l.was_suppressed ≡ true
      → l.recording ≡ []
      → IsIdle Inv heard r
      → IsTracked d Inv heard (hand_over o d c (r, l)).0 (hand_over o d c (r, l)).1
  unfolding hand_over
  hand_over-IsTracked heard none r l was e h = record {
    idle = h;
    tracked = subst (λ b. TrackedWhen d Inv heard b r.vad r.pre_roll l.recording) (sym was) e;
  }
  hand_over-IsTracked heard (some c) r l was e h =
      let r' = publish_barge_candidate r c in
      let h' =
        Publishes-IsIdle heard r r' h.inv h.room
          (publish_barge_candidate-Publishes o d j heard r c h.queued) in
      record {
        idle = record {
          inv = j.keeps_reset r'.vad h'.inv;
          room = h'.room;
          queued =
              IsQueued-other heard r' (d.reset r'.vad) r'.pre_roll r'.suppressed r'.waiting
                h'.queued;
        };
        tracked =
            subst (λ b. TrackedWhen d Inv heard b (d.reset r'.vad) r'.pre_roll l.recording)
              (sym was) e;
      }

  overhear-IsTracked :
      (heard : List (Option F)) (r : Recorder D F) (l : Loop F) (x : F) (xs : List F)
      → l.was_suppressed ≡ true
      → IsIdle Inv heard r
      → IsTracked d Inv heard (overhear o d (x ∷ xs) (r, l)).0 (overhear o d (x ∷ xs) (r, l)).1
  unfolding overhear process_barge_chunk reset_partials
  overhear-IsTracked heard r l x xs was h =
      let barge = process_barge_chunk o d r.cfg r.vad l.barge (x ∷ xs) in
      hand_over-IsTracked heard barge.2 (record (reset_partials r) { vad = barge.0 })
        (record l { recording = []; partial_sent = false; barge = barge.1 }) was refl
        (record {
          inv = j.keeps r.vad (x ∷ xs) h.inv;
          room = h.room;
          queued = record {
            room = h.queued.room;
            utterances = h.queued.utterances;
            partials = tt;
            utterance_bound = h.queued.utterance_bound;
            partial_bound = omega arith;
            candidate_bound = h.queued.candidate_bound;
          };
        })

  suppressed_chunk-IsTracked :
      (heard : List (Option F)) (r : Recorder D F) (l : Loop F) (x : F) (xs : List F)
      → IsIdle Inv heard r
      → IsTracked d Inv heard
          (suppressed_chunk o d (x ∷ xs) (r, l)).0
          (suppressed_chunk o d (x ∷ xs) (r, l)).1
  unfolding suppressed_chunk switch
  suppressed_chunk-IsTracked heard r l x xs h = elim (Bool-cases l.was_suppressed) [
    | inl was ↦
        subst
          (λ b.
            IsTracked d Inv heard
              (overhear o d (x ∷ xs) (if b then (r, l) else switch o d true (r, l))).0
              (overhear o d (x ∷ xs) (if b then (r, l) else switch o d true (r, l))).1)
          (sym was) (overhear-IsTracked heard r l x xs was h)
    | inr was ↦
        rw (was, suppressed_chunk)
          (overhear-IsTracked heard (start_over o d r) (switch o d true (r, l)).1 x xs refl
            (start_over-IsIdle heard r h))
  ]

  pub IsIdle-append :
      (heard more : List (Option F)) (r : Recorder D F)
      → IsIdle Inv heard r
      → IsIdle Inv (heard ++ more) r
  IsIdle-append heard more r h = record {
    inv = h.inv;
    room = h.room;
    queued = IsQueued-append o d j heard more r h.queued;
  }

  branch-IsTracked :
      (heard : List (Option F)) (suppressed : Bool) (r : Recorder D F) (l : Loop F) (x : F)
      (xs : List F)
      → IsTracked d Inv heard r l
      → IsTracked d Inv
          (heard ++ heard_of suppressed (x ∷ xs))
          (if suppressed
            then suppressed_chunk o d (x ∷ xs) (r, l)
            else heard_chunk o d (x ∷ xs) (r, l)).0
          (if suppressed
            then suppressed_chunk o d (x ∷ xs) (r, l)
            else heard_chunk o d (x ∷ xs) (r, l)).1
  branch-IsTracked heard true r l x xs h =
      suppressed_chunk-IsTracked (heard ++ none ∷ []) r l x xs
        (IsIdle-append heard (none ∷ []) r h.idle)
  branch-IsTracked heard false r l x xs h = heard_chunk-IsTracked heard r l x xs h

  nothing_heard : (suppressed : Bool) → heard_of {F = F} suppressed [] ≡ []
  unfolding as_heard
  nothing_heard true = refl
  nothing_heard false = refl

  -- One read, where what was heard grows by its chunk.
  pub read_chunk-IsTracked :
      (heard : List (Option F)) (chunk : List F) (r : Recorder D F) (l : Loop F)
      → IsTracked d Inv heard r l
      → IsTracked d Inv
          (heard ++ heard_of r.suppressed chunk)
          (read_chunk o d chunk (r, l)).0
          (read_chunk o d chunk (r, l)).1
  unfolding read_chunk as_heard
  read_chunk-IsTracked heard [] r l h =
      subst (λ t. IsTracked d Inv t r l)
        (sym (append-nil heard) ∙ ap (λ t. heard ++ t) (sym (nothing_heard r.suppressed))) h
  read_chunk-IsTracked heard (x ∷ xs) r l h = branch-IsTracked heard r.suppressed r l x xs h
