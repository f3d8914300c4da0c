-- ===== src/Audio/Capture/Barge.antt =====
-- `processBargeChunk` of internal/audio/continuous_capture.go: speech over the assistant's own voice.
use xarlatan.Common.{
  ℕ, ◌+◌, ◌*◌, Bool, true, false, not, ◌&&◌, Option, none, some, List, [], ◌∷◌, ◌++◌, ltb, leb,
  if◌then◌else◌, length,
}
use xarlatan.Common.Text.{is_empty}
use xarlatan.Audio.Preroll.{PreRollBuffer, new_pre_roll_buffer, add, start_recording}
use xarlatan.Audio.Preroll
use xarlatan.Audio.Capture.{AudioConfig, BargeCandidate, buffer_of}
use xarlatan.Vad.{Detector, Verdict}
use xarlatan.Vad.Real.{Real, rms}

abbrev pub barge_pre_roll_chunks : ℕ
barge_pre_roll_chunks = 2

abbrev pub barge_warmup_chunks : ℕ
barge_warmup_chunks = 3

abbrev pub barge_trigger_chunks : ℕ
barge_trigger_chunks = 2

-- `bargeCaptureState`
pub record BargeState (F : Type 0) : Type 0 where
  pub baseline : F
  pub warmup : ℕ
  pub loud_chunks : ℕ
  pub started : Bool
  pub peak_rms : F
  pub recording : List F
  pub pre_roll : PreRollBuffer F

module _ {F : Type 0} (o : Real F) where
  -- `reset`
  unfoldable pub clear : BargeState F → BargeState F
  unfolding Preroll.reset
  clear s = record {
    baseline = o.zero;
    warmup = 0;
    loud_chunks = 0;
    started = false;
    peak_rms = o.zero;
    recording = [];
    pre_roll = Preroll.reset s.pre_roll;
  }

  unfoldable pub new_barge_capture_state : BargeState F
  unfolding new_pre_roll_buffer
  new_barge_capture_state = record {
    baseline = o.zero;
    warmup = 0;
    loud_chunks = 0;
    started = false;
    peak_rms = o.zero;
    recording = [];
    pre_roll = new_pre_roll_buffer barge_pre_roll_chunks;
  }

  unfoldable pub update_barge_baseline : F → F → F
  update_barge_baseline current sample =
      if o.le current o.zero
      then sample
      else o.add (o.mul current (o.sub (o.of_ℕ 1) (o.decimal 8 2))) (o.mul sample (o.decimal 8 2))

  -- `math.Max`, where neither is a NaN.
  abbrev pub max_of : F → F → F
  max_of a b = if o.lt a b then b else a

  unfoldable pub louder : F → F → F
  louder peak level = if o.lt peak level then level else peak

  -- The chunk is one more of those that are waited through, and its level joins the baseline.
  unfoldable pub listen : BargeState F → F → List F → BargeState F
  unfolding update_barge_baseline add
  listen s level chunk = record s {
    baseline = update_barge_baseline s.baseline level;
    pre_roll = add s.pre_roll chunk;
  }

  -- A loud chunk of speech; the second in a row starts a recording.
  unfoldable pub loud : BargeState F → F → List F → BargeState F
  unfolding louder add start_recording Preroll.reset
  loud s level chunk =
      let s' = record s { loud_chunks = s.loud_chunks + 1; peak_rms = louder s.peak_rms level } in
      if leb barge_trigger_chunks s'.loud_chunks
      then record s' {
        started = true;
        recording = start_recording s.pre_roll chunk;
        pre_roll = Preroll.reset s.pre_roll;
      }
      else record s' { pre_roll = add s.pre_roll chunk }

  -- Nothing is recorded yet.
  unfoldable pub before_recording : BargeState F → F → Bool → List F → BargeState F
  unfolding listen loud
  before_recording s level is_speaking chunk =
      let threshold = max_of (o.decimal 25 3) (o.mul s.baseline (o.decimal 165 2)) in
      if ltb s.warmup barge_warmup_chunks
      then record (listen s level chunk) { warmup = s.warmup + 1 }
      else if is_speaking && o.le threshold level
      then loud s level chunk
      else record (listen s level chunk) { loud_chunks = 0 }

  unfoldable pub max_samples : AudioConfig → ℕ
  max_samples cfg =
      o.truncate (o.mul (o.of_ℕ (cfg.sample_rate * cfg.channels)) (o.seconds 2000000000))

  -- A recording is under way; it is handed over when the speech ends or it is two seconds long.
  unfoldable pub while_recording :
      AudioConfig → BargeState F → F → Bool → List F → BargeState F × Option (BargeCandidate F)
  unfolding louder max_samples
  while_recording cfg s level should_finish chunk =
      let s' = record s { recording = s.recording ++ chunk; peak_rms = louder s.peak_rms level } in
      if not should_finish && ltb (length s'.recording) (max_samples cfg) then (s', none) else (
        s',
        some (record {
          buffer = buffer_of cfg s'.recording;
          started = s'.started;
          peak_rms = s'.peak_rms;
        }),
      )

  unfoldable pub judge :
      AudioConfig → BargeState F → F → Verdict → List F → BargeState F × Option (BargeCandidate F)
  unfolding before_recording while_recording
  judge cfg s level v chunk =
      if is_empty s.recording
      then (before_recording s level v.is_speaking chunk, none)
      else while_recording cfg s level v.should_finish chunk

  -- `processBargeChunk`, with the detector behind it.
  unfoldable pub process_barge_chunk :
      {D : Type 0}
      → Detector D F
      → AudioConfig
      → D
      → BargeState F
      → List F
      → D × BargeState F × Option (BargeCandidate F)
  unfolding judge
  process_barge_chunk d cfg vad s [] = (vad, s, none)
  process_barge_chunk d cfg vad s (x ∷ xs) =
      let (vad', v) = d.process_chunk vad (x ∷ xs) in
      let (s', candidate) = judge cfg s (rms o (x ∷ xs)) v (x ∷ xs) in (vad', s', candidate)
