-- ===== src/Audio/Capture/Read.antt =====
-- `readLoop` of internal/audio/continuous_capture.go, on the chunks that the reads yield.
pub mod Queues
use xarlatan.Common.{
  ℕ, zero, suc, ◌+◌, ◌*◌, ◌%◌, ◌-◌, Bool, true, false, not, Option, none, some, List, [], ◌∷◌, ◌++◌,
  if◌then◌else◌, length,
}
use xarlatan.Common.Text.{is_empty}
use xarlatan.Audio.Preroll.{PreRollBuffer, add, start_recording}
use xarlatan.Audio.Preroll
use xarlatan.Audio.Capture.{
  BargeCandidate, Recorder, publish_utterance, publish_barge_candidate, reset_partials,
  maybe_publish_partial,
}
use xarlatan.Audio.Capture.Barge.{BargeState, clear, new_barge_capture_state, process_barge_chunk}
use xarlatan.Vad.{Detector, Verdict}
use xarlatan.Vad.Real.{Real}

-- The local variables of the loop.
pub record Loop (F : Type 0) : Type 0 where
  pub recording : List F
  pub partial_sent : Bool
  pub was_suppressed : Bool
  pub barge : BargeState F

-- `processChunk`, behind the detector: the pre-roll, the recording, and whether it is finished.
unfoldable pub process_chunk :
    {F : Type 0} → PreRollBuffer F → List F → List F → Verdict → PreRollBuffer F × List F × Bool
unfolding add start_recording Preroll.reset
process_chunk pre_roll recording chunk v =
    if v.is_speaking
    then (if is_empty recording
        then (Preroll.reset pre_roll, start_recording pre_roll chunk, v.should_finish)
        else (pre_roll, recording ++ chunk, v.should_finish))
    else if is_empty recording
    then (add pre_roll chunk, recording, v.should_finish)
    else (pre_roll, recording, v.should_finish)

module _ {D F : Type 0} (o : Real F) (d : Detector D F) where
  -- The detector and the pre-roll start over.
  unfoldable pub start_over : Recorder D F → Recorder D F
  unfolding Preroll.reset
  start_over r = record r { vad = d.reset r.vad; pre_roll = Preroll.reset r.pre_roll }

  -- What both branches do first where the suppression has changed.
  unfoldable pub switch : Bool → Recorder D F × Loop F → Recorder D F × Loop F
  unfolding start_over clear
  switch suppressed (r, l) =
      (start_over r, record l { barge = clear o l.barge; was_suppressed = suppressed })

  -- A candidate that is ready is published, and the detection starts over.
  unfoldable pub hand_over :
      Option (BargeCandidate F) → Recorder D F × Loop F → Recorder D F × Loop F
  unfolding publish_barge_candidate clear
  hand_over none (r, l) = (r, l)
  hand_over (some candidate) (r, l) =
      let r' = publish_barge_candidate r candidate in
      (record r' { vad = d.reset r'.vad }, record l { barge = clear o l.barge })

  -- A chunk that is heard while the assistant speaks.
  unfoldable pub overhear : List F → Recorder D F × Loop F → Recorder D F × Loop F
  unfolding hand_over process_barge_chunk reset_partials
  overhear chunk (r, l) =
      let (vad, barge, candidate) = process_barge_chunk o d r.cfg r.vad l.barge chunk in
      hand_over candidate (
        record (reset_partials r) { vad = vad },
        record l { recording = []; partial_sent = false; barge = barge },
      )

  unfoldable pub suppressed_chunk : List F → Recorder D F × Loop F → Recorder D F × Loop F
  unfolding switch overhear
  suppressed_chunk chunk (r, l) =
      overhear chunk (if l.was_suppressed then (r, l) else switch true (r, l))

  -- The end of an utterance, where it is reached.
  unfoldable pub finish_if : Bool → Recorder D F × Loop F → Recorder D F × Loop F
  unfolding publish_utterance start_over
  finish_if false (r, l) = (r, l)
  finish_if true (r, l) = (
    start_over (publish_utterance r l.recording),
    record l { recording = []; partial_sent = false },
  )

  -- A chunk that is heard for a turn.
  unfoldable pub hear : List F → Recorder D F × Loop F → Recorder D F × Loop F
  unfolding process_chunk maybe_publish_partial finish_if
  hear chunk (r, l) =
      let (vad, v) = d.process_chunk r.vad chunk in
      let (pre_roll, recording, finish) = process_chunk r.pre_roll l.recording chunk v in
      let (r', sent) =
        maybe_publish_partial o (record r { vad = vad; pre_roll = pre_roll }) recording
          l.partial_sent in
      finish_if finish (r', record l { recording = recording; partial_sent = sent })

  unfoldable pub heard_chunk : List F → Recorder D F × Loop F → Recorder D F × Loop F
  unfolding switch hear
  heard_chunk chunk (r, l) = hear chunk (if l.was_suppressed then switch false (r, l) else (r, l))

  -- One read. A chunk without a complete frame is passed over.
  unfoldable pub read_chunk : List F → Recorder D F × Loop F → Recorder D F × Loop F
  unfolding suppressed_chunk heard_chunk
  read_chunk [] s = s
  read_chunk (x ∷ xs) (r, l) =
      if r.suppressed then suppressed_chunk (x ∷ xs) (r, l) else heard_chunk (x ∷ xs) (r, l)

  -- The variables before the first read.
  unfoldable pub first_loop : Recorder D F → Loop F
  unfolding new_barge_capture_state
  first_loop r = record {
    recording = [];
    partial_sent = false;
    was_suppressed = r.suppressed;
    barge = new_barge_capture_state o;
  }
