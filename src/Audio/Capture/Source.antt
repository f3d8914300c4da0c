-- ===== src/Audio/Capture/Source.antt =====
-- internal/audio/continuous_capture.go: `newContinuousRecorder`, `Next`, and the process behind the
-- recorder, with `pcmChunkBytes` of internal/audio/capture.go. `Start`, `Stop` and the detector's
-- `Close` are parameters. `wg.Wait` is not modelled.
use xarlatan.Common.{
  ℕ, ◌+◌, ◌*◌, ◌/◌, Bool, true, false, not, Option, none, some, List, [], ◌∷◌, ◌==◌, if◌then◌else◌,
}
use xarlatan.Common.Results.{Result, ok, err, ◌>>=◌, ◌>>◌, fail_if}
use xarlatan.Common.Text.{Text, codes}
use xarlatan.Audio.{Buffer}
use xarlatan.Audio.Preroll.{new_pre_roll_buffer}
use xarlatan.Audio.Capture.{
  AudioConfig, ContinuousOptions, Recorder, reset_partials, set_suppressed,
}
use xarlatan.Audio.Capture.Read.{Loop, first_loop, read_chunk, start_over}
use xarlatan.Vad.{Detector}
use xarlatan.Vad.Real.{Real}

abbrev pub chunk_duration_ms : ℕ
chunk_duration_ms = 80

abbrev pub pcm_bytes_per_sample : ℕ
pcm_bytes_per_sample = 2

-- `pcmChunkBytes`; a negative rate or number of channels counts as 0.
unfoldable pub pcm_chunk_bytes : ℕ → ℕ → Result Text ℕ
pcm_chunk_bytes sample_rate channels = do
  fail_if (sample_rate == 0) (codes "audio sample rate must be greater than zero")
  fail_if (not (channels == 1)) (codes "voice capture requires mono audio")
  ok ((sample_rate * chunk_duration_ms + 999) / 1000 * channels * pcm_bytes_per_sample)

-- The recorder with its process, and the loop that reads from it where one runs. `closed` is also
-- what `closeOnce` keeps. `source_err` is a channel with room for one error.
pub record Session (D F P : Type 0) : Type 0 where
  pub recorder : Recorder D F
  pub loop : Option (Loop F)
  pub process : Option P
  pub running : Bool
  pub closed : Bool
  pub close_err : Option Text
  pub source_err : Option Text

-- How a call of `Next` goes on.
pub data Outcome (F : Type 0) : Type 0 where
  returned : Buffer F → Outcome F
  failed : Text → Outcome F
  waits : Outcome F

-- What the `select` of `Next` may choose.
pub data Signal : Type 0 where
  cancelled : Text → Signal
  utterance_ready source_failure : Signal

-- `newContinuousRecorder`; the detector and the factory are given, not nil.
unfoldable pub new_continuous_recorder :
    {D F P : Type 0} → AudioConfig → D → ContinuousOptions → Result Text (Session D F P)
unfolding pcm_chunk_bytes new_pre_roll_buffer
new_continuous_recorder cfg detector options = do
  bytes ← pcm_chunk_bytes cfg.sample_rate cfg.channels
  fail_if (options.pre_roll_chunks == 0)
      (codes "continuous pre-roll chunks must be greater than zero")
  fail_if (options.queue_depth == 0)
      (codes "continuous utterance queue depth must be greater than zero")
  ok (record {
    recorder = record {
      cfg = cfg;
      vad = detector;
      pre_roll = new_pre_roll_buffer options.pre_roll_chunks;
      queue_depth = options.queue_depth;
      utterances = [];
      partials = [];
      barge_candidates = [];
      dropped = 0;
      suppressed = false;
      waiting = false;
    };
    loop = none;
    process = none;
    running = false;
    closed = false;
    close_err = none;
    source_err = none;
  })

-- A send to the channel of one error.
abbrev pub keep_first : Option Text → Text → Option Text
keep_first none e = some e
keep_first (some first) e = some first

abbrev pub stopped : {P : Type 0} → (P → Option Text) → Option P → Option Text
stopped stop none = none
stopped stop (some p) = stop p

abbrev pub first_error : Option Text → Option Text → Option Text
first_error none e = e
first_error (some first) e = some first

module _ {D F P : Type 0} where
  -- The end of a call of `Next`.
  unfoldable pub leave : Session D F P → Session D F P
  leave s = let r = s.recorder in record s { recorder = record r { waiting = false } }

  unfoldable pub take_from : Session D F P → List (Buffer F) → Session D F P × Outcome F
  unfolding leave
  take_from s [] = (s, waits)
  take_from s (b ∷ queue) =
      let r = s.recorder in
      (leave (record s { recorder = record r { utterances = queue } }), returned b)

  unfoldable pub fail_from : Session D F P → Option Text → Session D F P × Outcome F
  unfolding leave
  fail_from s none = (s, waits)
  fail_from s (some e) = (leave (record s { source_err = none }), failed e)

  -- The receives of `Next`: an utterance is returned, where there is none the call waits.
  abbrev pub take_utterance : Session D F P → Session D F P × Outcome F
  take_utterance s = take_from s s.recorder.utterances

  -- One turn of the loop in `Next`.
  unfoldable pub woken : Session D F P → Signal → Session D F P × Outcome F
  unfolding take_from fail_from leave
  woken s (cancelled e) = (leave s, failed e)
  woken s utterance_ready = take_utterance s
  woken s source_failure = fail_from s s.source_err

  -- `SetSuppressed`
  unfoldable pub suppress : Session D F P → Bool → Session D F P
  unfolding set_suppressed
  suppress s suppressed = record s { recorder = set_suppressed s.recorder suppressed }

  -- The process that failed is forgotten, if it is still the one that is kept.
  unfoldable pub forget : (P → P → Bool) → Session D F P → P → Option P → Session D F P
  forget same s process none = s
  forget same s process (some p) =
      if same p process then record s { process = none; running = false } else s

  -- `sourceFailed`; the loop ends with it.
  unfoldable pub source_failed : (P → P → Bool) → Session D F P → P → Text → Session D F P
  unfolding forget
  source_failed same s process error =
      let s' = record (forget same s process s.process) { loop = none } in
      if s.closed then s' else record s' { source_err = keep_first s.source_err error }

  -- The end of a loop, where its read fails: closed on purpose, or not.
  unfoldable pub read_failed : (P → P → Bool) → Session D F P → P → Text → Session D F P
  unfolding source_failed
  read_failed same s process error =
      if s.closed then record s { loop = none } else source_failed same s process error

  -- `Close`. The detector is closed once, and the first error is kept.
  unfoldable pub close :
      (P → Option Text) → Option Text → Session D F P → Session D F P × Option Text
  close stop detector_close s =
      let error = first_error (stopped stop s.process) detector_close in
      if s.closed
      then (s, s.close_err)
      else (record s { closed = true; process = none; running = false; close_err = error }, error)

module _ {D F P : Type 0} (o : Real F) (d : Detector D F)
    (start : AudioConfig → Result Text P) where
  unfoldable pub started : Session D F P → P → Session D F P
  unfolding start_over first_loop
  started s process =
      let r = start_over o d s.recorder in
      record s {
        process = some process;
        running = true;
        recorder = r;
        loop = some (first_loop o d r);
      }

  -- `ensureRunning`
  unfoldable pub ensure_running : Session D F P → Result Text (Session D F P)
  unfolding started
  ensure_running s =
      if s.closed
      then err (codes "continuous recorder is closed")
      else if s.running
      then ok s
      else (start s.recorder.cfg >>= λ process. ok (started s process))

  unfoldable pub with_source :
      Session D F P → Result Text (Session D F P) → Session D F P × Outcome F
  unfolding leave
  with_source s (err e) = (leave s, failed e)
  with_source s (ok s') = (s', waits)

  unfoldable pub or_source : Session D F P × Outcome F → Session D F P × Outcome F
  unfolding with_source ensure_running
  or_source (s, waits) = with_source s (ensure_running s)
  or_source (s, returned b) = (s, returned b)
  or_source (s, failed e) = (s, failed e)

  -- `Next` up to its loop; the first argument is `ctx.Err()`.
  unfoldable pub next : Option Text → Session D F P → Session D F P × Outcome F
  unfolding or_source take_from reset_partials
  next (some e) s = (s, failed e)
  next none s =
      let r = reset_partials s.recorder in
      or_source (take_utterance (record s { recorder = record r { waiting = true } }))

  unfoldable pub read_with : Session D F P → List F → Option (Loop F) → Session D F P
  unfolding read_chunk
  read_with s chunk none = s
  read_with s chunk (some l) =
      let (r', l') = read_chunk o d chunk (s.recorder, l) in
      record s { recorder = r'; loop = some l' }

  -- One read of the loop that runs.
  unfoldable pub read : Session D F P → List F → Session D F P
  unfolding read_with
  read s chunk = read_with s chunk s.loop
