-- ===== src/Tests/Detectors.antt =====
-- Both voice activity detectors on short streams.
use xarlatan.Common.{ℕ, ◌≡◌, ◌≤◌, ◌+◌, ◌-◌, ◌==◌, refl, true, false, some, List, [], ◌∷◌, arith}
use xarlatan.Vad.{voice_detected, silence_start, cut_by_silence}
use xarlatan.Vad.Real.{milli, rms}
use xarlatan.Vad.Contract.{IsDetector, bracket, ends, run, run_brackets}
use xarlatan.Vad.Energy.{Vad, State, trailing_silence, new}
use xarlatan.Vad.Energy
use xarlatan.Vad.Energy.Lawful
use xarlatan.Vad.Energy.Lawful.{energy-IsDetector, stream_brackets}
use xarlatan.Vad.Energy.Trailing.{cuts, cut_after_silence, silence_cuts}
use xarlatan.Vad.Silero
use xarlatan.Vad.Silero.{Backend, Detector, close, new_with_backend}
use xarlatan.Vad.Silero.Lawful as SileroLaws
use xarlatan.Vad.Silero.Lawful.{silero-IsDetector, new_with_backend-Inv, close_once}

-- In thousandths: threshold 0.5, release at 0.2, silence of three samples.
abbrev vad : Vad ℕ
vad = record {
  threshold = 500;
  release_threshold = 200;
  silence_duration = 3000000000;
  sample_rate = 1;
  ema_alpha = 250;
  smoothed_energy = 0;
  state = Energy.silence;
  silence_samples = 0;
  max_silence = 3;
}

new_runs : new milli 500 200 3000000000 1 ≡ vad
unfolding new
new_runs = refl

abbrev talk : List (List ℕ)
talk = (1000 ∷ []) ∷ (0 ∷ []) ∷ (0 ∷ 0 ∷ []) ∷ []

run_runs :
    (run (Energy.detector milli) vad talk).1
    ≡ voice_detected ∷ silence_start ∷ cut_by_silence 3000 ∷ []
unfolding run Energy.detector rms
run_runs = refl

run_brackets_runs :
    let r = run (Energy.detector milli) vad talk in
    (bracket (Energy.is_speaking vad) r.1 ≡ some (Energy.is_speaking r.0)) × (ends r.1 ≡ r.2)
unfolding Energy.detector
run_brackets_runs =
    run_brackets (Energy.detector milli) Lawful.Inv (energy-IsDetector milli) vad talk (λ h. refl)

stream_brackets_example :
    let r = run (Energy.detector milli) (new milli 500 200 3000000000 1) talk in
    (bracket false r.1 ≡ some (Energy.is_speaking r.0)) × (ends r.1 ≡ r.2)
stream_brackets_example = stream_brackets milli 500 200 3000000000 1 talk

-- The average is low and the utterance has trailed off for two samples.
abbrev trailing : Vad ℕ
trailing = record vad { state = trailing_silence; silence_samples = 2; smoothed_energy = 100 }

cut_after_silence_runs :
    (trailing.state ≡ trailing_silence)
    × (trailing.max_silence ≤ trailing.silence_samples + 1)
    × ((Energy.process_chunk milli trailing (0 ∷ [])).0.state ≡ Energy.silence)
    × ((Energy.process_chunk milli trailing (0 ∷ [])).0.silence_samples ≡ 0)
    × ((Energy.process_chunk milli trailing (0 ∷ [])).0.smoothed_energy ≡ 0)
unfolding Energy.process_chunk rms
cut_after_silence_runs = cut_after_silence milli trailing (0 ∷ []) refl

silence_cuts_example : cuts milli trailing ((0 ∷ []) ∷ []) ≡ true
unfolding Energy.process_chunk rms
silence_cuts_example =
    silence_cuts milli trailing ((0 ∷ []) ∷ []) refl (omega arith) (refl, tt) (omega arith)

-- A native detector that calls every chunk speech, and finishes a segment with each.
abbrev chatter : Backend ℕ ℕ
chatter = record {
  accept_waveform = λ n xs. n + 1;
  is_speech = λ n. true;
  is_empty = λ n. n == 0;
  pop = λ n. n - 1;
  clear = λ n. 0;
}

abbrev ready : Detector ℕ
ready = record { backend = some 0; speaking = false; closed = false }

ready-Inv : SileroLaws.Inv ready
ready-Inv = SileroLaws.is_open 0 refl refl

silero_run_brackets :
    let r = run (Silero.detector chatter) ready ((1 ∷ []) ∷ []) in
    (bracket (Silero.is_speaking ready) r.1 ≡ some (Silero.is_speaking r.0)) × (ends r.1 ≡ r.2)
unfolding Silero.detector
silero_run_brackets =
    run_brackets (Silero.detector chatter) SileroLaws.Inv (silero-IsDetector chatter) ready
      ((1 ∷ []) ∷ []) ready-Inv

energy-IsDetector_example : IsDetector (Energy.detector milli) Lawful.Inv
energy-IsDetector_example = energy-IsDetector milli

silero-IsDetector_example : IsDetector (Silero.detector chatter) SileroLaws.Inv
silero-IsDetector_example = silero-IsDetector chatter

close_once_runs :
    let closed = (close ready).0 in
    ((close ready).1 ≡ true)
    × (close closed ≡ (closed, false))
    × (Silero.process_chunk chatter closed (1 ∷ []) ≡ (closed, Silero.idle))
    × (Silero.reset chatter closed ≡ closed)
    × SileroLaws.Inv closed
close_once_runs = close_once chatter ready (1 ∷ []) ready-Inv
