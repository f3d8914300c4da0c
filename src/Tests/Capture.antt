-- ===== src/Tests/Capture.antt =====
-- A microphone of one sample a second, with the energy detector behind it.
use xarlatan.Common.{
  ℕ, ◌≤◌, ◌≡◌, refl, ap, Bool, true, false, Option, none, List, [], ◌∷◌, ◌++◌, arith, length, ◌==◌,
  ◌&&◌, Option-cases, inl, inr,
}
use xarlatan.Common.Text.{Text}
use xarlatan.Common.Results.{Result, ok}
use xarlatan.Audio.{Buffer}
use xarlatan.Audio.Preroll.{new_pre_roll_buffer}
use xarlatan.Audio.Capture.{AudioConfig, ContinuousOptions}
use xarlatan.Audio.Capture.Heard.{IsPiece}
use xarlatan.Audio.Capture.Kept.{heard_of}
use xarlatan.Audio.Capture.Reached.{
  Reached, made, asked, was_read, Returns, at_once, Returns-IsPiece, Reached-bounds,
}
use xarlatan.Audio.Capture.Read.{first_loop}
use xarlatan.Audio.Capture.Sound.{ProcessWhen}
use xarlatan.Audio.Capture.Source.{
  Session, new_continuous_recorder, pcm_chunk_bytes, started, next, read,
}
use xarlatan.Memory.Update.{has}
use xarlatan.Vad.Real.{milli, rms}
use xarlatan.Vad.Energy.{Vad}
use xarlatan.Vad.Energy
use xarlatan.Vad.Energy.Lawful
use xarlatan.Vad.Energy.Lawful.{energy-IsDetector}

-- In thousandths: threshold 0.5, release at 0.2, silence of one sample.
abbrev pub quick : Vad ℕ
quick = record {
  threshold = 500;
  release_threshold = 200;
  silence_duration = 1000000000;
  sample_rate = 1;
  ema_alpha = 1000;
  smoothed_energy = 0;
  state = Energy.silence;
  silence_samples = 0;
  max_silence = 1;
}

abbrev pub slow_audio : AudioConfig
slow_audio = record { sample_rate = 1; channels = 1 }

abbrev one_chunk : ContinuousOptions
one_chunk = record { pre_roll_chunks = 1; queue_depth = 1 }

-- Processes are numbers, and the first start yields the first.
abbrev start : AudioConfig → Result Text ℕ
start cfg = ok 1

abbrev stop : ℕ → Option Text
stop p = none

abbrev opened : Session (Vad ℕ) ℕ ℕ
opened = record {
  recorder = record {
    cfg = slow_audio;
    vad = quick;
    pre_roll = record { max_chunks = 1; chunks = [] };
    queue_depth = 1;
    utterances = [];
    partials = [];
    barge_candidates = [];
    dropped = 0;
    suppressed = false;
    waiting = false;
  };
  loop = none;
  process = none;
  running = false;
  closed = false;
  close_err = none;
  source_err = none;
}

opened_runs : new_continuous_recorder slow_audio quick one_chunk ≡ ok opened
unfolding new_continuous_recorder pcm_chunk_bytes new_pre_roll_buffer
opened_runs = refl

-- The call of `Next` that starts the process, and waits.
abbrev asked_once : Session (Vad ℕ) ℕ ℕ
asked_once = (next milli (Energy.detector milli) start none opened).0

abbrev after : Session (Vad ℕ) ℕ ℕ → ℕ → Session (Vad ℕ) ℕ ℕ
after s x = read milli (Energy.detector milli) start s (x ∷ [])

abbrev once : List ℕ → Session (Vad ℕ) ℕ ℕ
once [] = asked_once
once (x ∷ xs) = after (once xs) x

-- The latest first: two chunks of silence, one of speech, and two of silence, the last of which ends
-- the utterance.
abbrev samples : List ℕ
samples = 4 ∷ 3 ∷ 1000 ∷ 2 ∷ 1 ∷ []

abbrev InSession : Session (Vad ℕ) ℕ ℕ → List (Option ℕ) → Type 0
InSession = Reached milli (Energy.detector milli) start ◌==◌ stop Lawful.Inv

asked_once_reached : InSession asked_once []
asked_once_reached = asked none (made slow_audio quick one_chunk opened opened_runs (λ h. refl))

-- What a run of reads of one sample each has heard.
abbrev heard_in : List ℕ → List (Option ℕ)
heard_in [] = []
heard_in (x ∷ xs) = heard_in xs ++ heard_of (once xs).recorder.suppressed (x ∷ [])

abbrev in_loop : List ℕ → Bool
in_loop [] = true
in_loop (x ∷ xs) = in_loop xs && has (once xs).loop

once_reached : (xs : List ℕ) → in_loop xs ≡ true → InSession (once xs) (heard_in xs)
once_reached [] h = asked_once_reached
once_reached (x ∷ xs) h = elim (Option-cases (once xs).loop) [
  | inl e ↦ absurd (ground (arith, no_loop e, h))
  | inr (l, e) ↦ was_read l (x ∷ []) e (once_reached xs (ground (arith, h)))
]
  where
    no_loop : (once xs).loop ≡ none → has (once xs).loop ≡ false
    no_loop e = ap has e

samples_in_loop : in_loop samples ≡ true
unfolding next started first_loop read Energy.detector rms
samples_in_loop = refl

abbrev said : Buffer ℕ
said = record { samples = 2 ∷ 1000 ∷ 3 ∷ 4 ∷ []; sample_rate = 1; channels = 1 }

said_returned : Returns milli (Energy.detector milli) start (once samples) said
unfolding next started first_loop read Energy.detector rms
said_returned = at_once none refl

Returns-IsPiece_example : IsPiece (heard_in samples) said.samples
Returns-IsPiece_example =
    Returns-IsPiece milli (Energy.detector milli) (energy-IsDetector milli) start ◌==◌ stop
      (once_reached samples samples_in_loop) said_returned

Reached-bounds_example :
    (length (once samples).recorder.utterances ≤ (once samples).recorder.queue_depth)
    × (length (once samples).recorder.partials ≤ 1)
    × (length (once samples).recorder.barge_candidates ≤ 2)
    × ProcessWhen (once samples).running (once samples).closed (once samples).process
Reached-bounds_example =
    Reached-bounds milli (Energy.detector milli) (energy-IsDetector milli) start ◌==◌ stop
      (once_reached samples samples_in_loop)
