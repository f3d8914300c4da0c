-- ===== src/Audio/Single.antt =====
-- `recordFromReader` of internal/audio/capture.go: one utterance from one process. `processChunk` there
-- is the method of the continuous recorder again. What a turn of the loop finds is an element of a
-- list: the deadline, the context, and the read.
pub mod Pieces
use xarlatan.Common.{
  ℕ, zero, ◌+◌, ◌*◌, ◌/◌, ◌<◌, ◌≡◌, refl, sym, ap, ◌∙◌, subst, inl, inr, Bool, true, false, Option,
  none, some, some_inj, List, [], ◌∷◌, ◌++◌, append-nil, append_assoc, arith, ltb, length,
  if◌then◌else◌, Bool-cases, Option-cases,
}
use xarlatan.Common.Results.{Result, ok, err, ok_inj}
use xarlatan.Common.Text.{Text}
use xarlatan.Audio.Preroll.{PreRollBuffer, concat}
use xarlatan.Audio.Preroll
use xarlatan.Audio.Capture.{AudioConfig}
use xarlatan.Audio.Capture.Heard.{as_heard, IsPiece, EndsWith-nil, EndsWith-IsPiece, IsPiece-append}
use xarlatan.Audio.Capture.Read.{process_chunk}
use xarlatan.Audio.Capture.Source.{pcm_chunk_bytes}
use xarlatan.Audio.Capture.Tracked.{IsOpen, Detector-Agrees, process_chunk-IsOpen}
use xarlatan.Tools.Executor.{ContextError}
use xarlatan.Vad.{Detector, Verdict}
use xarlatan.Vad.Contract.{IsDetector}
use xarlatan.Vad.Real.{Real}

pub data ReadFailure : Type 0 where
  end_of_audio : ReadFailure
  broken : Text → ReadFailure

pub data CaptureError : Type 0 where
  bad_format : Text → CaptureError
  context : ContextError → CaptureError
  reading : Text → CaptureError

-- One turn of the loop: whether the deadline has passed, the context, the complete frames that were
-- read, the failure of the read, and the context behind that.
pub record Look (F : Type 0) : Type 0 where
  pub late : Bool
  pub ended : Option ContextError
  pub samples : List F
  pub failure : Option ReadFailure
  pub ended_after : Option ContextError

-- The variables of the loop, with the detector, and the last `shouldFinish`.
pub record Take (D F : Type 0) : Type 0 where
  pub vad : D
  pub pre_roll : PreRollBuffer F
  pub recording : List F
  pub finish : Bool

-- Less than a quarter of a second is nothing.
unfoldable pub kept : {F : Type 0} → AudioConfig → List F → List F
kept cfg recording =
    if ltb (length recording) (cfg.sample_rate * cfg.channels / 4) then [] else recording

module _ {D F : Type 0} (d : Detector D F) (cfg : AudioConfig) where
  unfoldable pub heard : Take D F → List F → Take D F
  unfolding process_chunk
  heard t [] = record t { finish = false }
  heard t (x ∷ xs) =
      let (vad, v) = d.process_chunk t.vad (x ∷ xs) in
      let (pre_roll, recording, finish) = process_chunk t.pre_roll t.recording (x ∷ xs) v in
      record { vad = vad; pre_roll = pre_roll; recording = recording; finish = finish }

  -- The end of a turn of the loop; the last argument is what comes later.
  unfoldable pub after_read :
      Option ReadFailure
      → Option ContextError
      → List F
      → Option (Result CaptureError (List F))
      → Option (Result CaptureError (List F))
  unfolding kept
  after_read none ended recording later = later
  after_read (some failure) (some e) recording later = some (err (context e))
  after_read (some end_of_audio) none recording later = some (ok (kept cfg recording))
  after_read (some (broken e)) none recording later = some (err (reading e))

  abbrev pub unless_ended :
      Option ContextError
      → Option (Result CaptureError (List F))
      → Option (Result CaptureError (List F))
  unless_ended none read = read
  unless_ended (some e) read = some (err (context e))

  -- `none` where the loop still goes on.
  unfoldable pub record_loop : Take D F → List (Look F) → Option (Result CaptureError (List F))
  unfolding heard after_read kept
  record_loop t [] = none
  record_loop t (look ∷ looks) =
      let t' = heard t look.samples in
      let later = record_loop t' looks in
      let read =
        if t'.finish
        then some (ok (kept cfg t'.recording))
        else after_read look.failure look.ended_after t'.recording later in
      if look.late then some (ok (kept cfg t.recording)) else unless_ended look.ended read

  -- `RecordUntilSilence` starts a process, and this is what it returns of it.
  unfoldable pub record_checked :
      Result Text ℕ → D → PreRollBuffer F → List (Look F) → Option (Result CaptureError (List F))
  unfolding record_loop Preroll.reset
  record_checked (err e) vad pre_roll looks = some (err (bad_format e))
  record_checked (ok bytes) vad pre_roll looks =
      record_loop
        (record {
          vad = d.reset vad;
          pre_roll = Preroll.reset pre_roll;
          recording = [];
          finish = false;
        })
        looks

  unfoldable pub record_from_reader :
      D → PreRollBuffer F → List (Look F) → Option (Result CaptureError (List F))
  unfolding record_checked pcm_chunk_bytes
  record_from_reader vad pre_roll looks =
      record_checked (pcm_chunk_bytes cfg.sample_rate cfg.channels) vad pre_roll looks
