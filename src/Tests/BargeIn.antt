-- ===== src/Tests/BargeIn.antt =====
-- An interruption behind a candidate that is not confirmed.
use xarlatan.Common.{ℕ, ◌≡◌, refl, true, false, some, List, [], ◌∷◌, length, ◌==◌, if◌then◌else◌}
use xarlatan.Common.Text.{codes, text_eq}
use xarlatan.Application.BargeIn.{
  Heard, candidate, Listener, sent, event_of, subscribe, Confirmed, subscribe_sound,
}
use xarlatan.Audio.Capture.{BargeCandidate}

-- The transcript of a single sample is another.
abbrev stop_word : Listener ℕ ℕ
stop_word = record {
  transcribe = λ b w. (w, some (if length b.samples == 1 then codes "hola" else codes "para"));
  confirm = λ text. text_eq text (codes "para");
  ctx_ended = λ w. (w, false);
}

abbrev said_by : List ℕ → BargeCandidate ℕ
said_by samples = record {
  buffer = record { samples = samples; sample_rate = 1; channels = 1 };
  started = true;
  peak_rms = 0;
}

abbrev candidates : List (Heard ℕ)
candidates = candidate (said_by (1 ∷ [])) 7 false ∷ candidate (said_by (1 ∷ 2 ∷ [])) 0 false ∷ []

sent_runs : (subscribe stop_word 5 candidates 0).1 ≡ sent (event_of 5 0)
unfolding subscribe text_eq
sent_runs = refl

subscribe_sound_example : Confirmed stop_word 5 candidates (event_of 5 0)
subscribe_sound_example = subscribe_sound stop_word 5 candidates 0 (event_of 5 0) sent_runs
