-- ===== src/Audio/Capture.antt =====
-- internal/audio/continuous_capture.go: the microphone that stays open. This module holds what the
-- recorder keeps and what it publishes; Read is the loop on the chunks, Barge the detection of speech
-- while the assistant speaks, Source the process behind it. A channel is the list of what it buffers.
-- The clock is not modelled: of a time only whether it is set.
pub mod Barge
pub mod Read
pub mod Source
pub mod Heard
pub mod Tracked
pub mod Kept
pub mod Sound
pub mod Reached
use xarlatan.Common.{
  ℕ, zero, suc, ◌+◌, ◌*◌, ◌/◌, Bool, true, false, not, ◌||◌, Option, none, some, List, [], ◌∷◌,
  ◌++◌, ltb, leb, ◌==◌, if◌then◌else◌, length,
}
use xarlatan.Common.Text.{is_empty}
use xarlatan.Audio.{Buffer, empty}
use xarlatan.Audio.Preroll.{PreRollBuffer, new_pre_roll_buffer}
use xarlatan.Vad.Real.{Real}

abbrev pub default_continuous_pre_roll_chunks : ℕ
default_continuous_pre_roll_chunks = 4

abbrev pub default_utterance_queue_depth : ℕ
default_utterance_queue_depth = 4

abbrev pub default_barge_candidate_depth : ℕ
default_barge_candidate_depth = 2

abbrev pub default_partial_snapshot_depth : ℕ
default_partial_snapshot_depth = 1

-- The part of the audio configuration that is used here.
pub record AudioConfig : Type 0 where
  pub sample_rate : ℕ
  pub channels : ℕ

pub record ContinuousOptions : Type 0 where
  pub pre_roll_chunks : ℕ
  pub queue_depth : ℕ

unfoldable pub default_continuous_options : ContinuousOptions
default_continuous_options = record {
  pre_roll_chunks = default_continuous_pre_roll_chunks;
  queue_depth = default_utterance_queue_depth;
}

-- `started` says that `StartedAt` is not the zero time.
pub record BargeCandidate (F : Type 0) : Type 0 where
  pub buffer : Buffer F
  pub started : Bool
  pub peak_rms : F

-- `PartialAudio` is its buffer, the time left out.
pub record Recorder (D F : Type 0) : Type 0 where
  pub cfg : AudioConfig
  pub vad : D
  pub pre_roll : PreRollBuffer F
  pub queue_depth : ℕ
  pub utterances : List (Buffer F)
  pub partials : List (Buffer F)
  pub barge_candidates : List (BargeCandidate F)
  pub dropped : ℕ
  pub suppressed : Bool
  pub waiting : Bool

-- A send that does not wait: where the channel is full it has no effect.
unfoldable pub try_send : {A : Type 0} → ℕ → List A → A → Option (List A)
try_send depth queue x = if leb depth (length queue) then none else some (queue ++ x ∷ [])

-- A receive that does not wait, with whether it took something.
unfoldable pub try_receive : {A : Type 0} → List A → List A × Bool
try_receive [] = ([], false)
try_receive (x ∷ queue) = (queue, true)

-- The second send of a publication; the flag says that it failed.
unfoldable pub resend : {A : Type 0} → ℕ → List A → A → List A × Bool
unfolding try_send
resend depth queue x = elim (try_send depth queue x) [
  | some queue' ↦ (queue', false)
  | none ↦ (queue, true)
]

-- The three selects of a publication: a send, or a receive and a send. The number counts what was
-- lost: what the receive took, and what the second send could not place.
unfoldable pub offer_latest : {A : Type 0} → ℕ → List A → A → List A × ℕ
unfolding try_send try_receive resend
offer_latest depth queue x =
    let (rest, taken) = try_receive queue in
    let (queue'', lost) = resend depth rest x in
    elim (try_send depth queue x) [
      | some queue' ↦ (queue', 0)
      | none ↦ (queue'', (if taken then 1 else 0) + (if lost then 1 else 0))
    ]

abbrev pub buffer_of : {F : Type 0} → AudioConfig → List F → Buffer F
buffer_of cfg samples = record {
  samples = samples;
  sample_rate = cfg.sample_rate;
  channels = cfg.channels;
}

module _ {D F : Type 0} where
  -- Utterances of less than a quarter of a second are passed over.
  unfoldable pub publish_utterance : Recorder D F → List F → Recorder D F
  unfolding offer_latest
  publish_utterance r samples =
      let (queue, lost) = offer_latest r.queue_depth r.utterances (buffer_of r.cfg samples) in
      if ltb (length samples) (r.cfg.sample_rate * r.cfg.channels / 4)
      then r
      else record r { utterances = queue; dropped = r.dropped + lost }

  unfoldable pub publish_partial : Recorder D F → Buffer F → Recorder D F
  unfolding offer_latest empty
  publish_partial r preview =
      let (queue, lost) = offer_latest default_partial_snapshot_depth r.partials preview in
      if empty preview then r else record r { partials = queue }

  unfoldable pub publish_barge_candidate : Recorder D F → BargeCandidate F → Recorder D F
  unfolding offer_latest empty
  publish_barge_candidate r candidate =
      let (queue, lost) = offer_latest default_barge_candidate_depth r.barge_candidates candidate in
      if empty candidate.buffer || not candidate.started
      then r
      else record r { barge_candidates = queue }

  -- `resetPartials` and `flushBargeCandidates` receive until nothing is left.
  unfoldable pub reset_partials : Recorder D F → Recorder D F
  reset_partials r = record r { partials = [] }

  unfoldable pub flush_barge_candidates : Recorder D F → Recorder D F
  flush_barge_candidates r = record r { barge_candidates = [] }

  unfoldable pub set_suppressed : Recorder D F → Bool → Recorder D F
  unfolding flush_barge_candidates
  set_suppressed r suppressed =
      let r' = record r { suppressed = suppressed } in
      if not suppressed then flush_barge_candidates r' else r'

  -- What `maybePublishPartial` publishes is the recording so far, when it is a second long.
  unfoldable pub maybe_publish_partial : Real F → Recorder D F → List F → Bool → Recorder D F × Bool
  unfolding publish_partial
  maybe_publish_partial o r recording already_sent =
      let threshold =
        o.truncate (o.mul (o.of_ℕ (r.cfg.sample_rate * r.cfg.channels)) (o.seconds 1000000000)) in
      if already_sent || not r.waiting || is_empty recording
      then (r, already_sent)
      else if ltb (length recording) threshold
      then (r, false)
      else (publish_partial r (buffer_of r.cfg recording), true)
