-- ===== src/Vad/Silero/Lawful.antt =====
-- The adapter of internal/vad/sherpa/silero.go meets the contract of the interface, whatever the
-- native library answers.
use xarlatan.Common.{
  ◌<◌, ◌≡◌, refl, inl, inr, true, false, not, ◌||◌, none, some, List, [], ◌∷◌, arith, length,
  Bool-cases,
}
use xarlatan.Vad.{Verdict}
use xarlatan.Vad.Contract.{IsDetector, bracket, ends, as_count}
use xarlatan.Vad.Silero.{
  Backend, Detector, judge, process_chunk, reset, is_speaking, close, new_with_backend, detector,
  idle,
}

-- A detector owns a backend until it is closed, and a closed one hears nothing.
pub data Inv {B : Type 0} (d : Detector B) : Type 0 where
  is_open : (b : B) → d.backend ≡ some b → d.closed ≡ false → Inv d
  is_closed : d.backend ≡ none → d.closed ≡ true → d.speaking ≡ false → Inv d

record ChunkLaws {B S : Type 0} (d : Detector B) (xs : List S) (r : Detector B × Verdict)
    : Type 0 where
  bracketed : bracket (is_speaking d) r.1.events ≡ some (is_speaking r.0)
  ended_once : ends r.1.events ≡ as_count r.1.should_finish
  finish_silent : r.1.should_finish ≡ true → is_speaking r.0 ≡ false
  active : 0 < length xs → r.1.is_speaking ≡ (is_speaking r.0 || r.1.should_finish)

module _ {B S : Type 0} (k : Backend B S) where
  judge-Inv : (d : Detector B) (b : B) → d.closed ≡ false → Inv (judge k d b).0
  unfolding judge
  judge-Inv d b e = elim (Bool-cases (k.is_empty b)) [
    | inl waits ↦ rw waits (is_open b refl e)
    | inr queued ↦ rw queued (is_open (k.pop b) refl e)
  ]

  chunk-Inv : (d : Detector B) (xs : List S) → Inv d → Inv (process_chunk k d xs).0
  unfolding process_chunk
  chunk-Inv d [] h = h
  chunk-Inv d (x ∷ xs) (is_open b e c) = rw (c, e) (judge-Inv d (k.accept_waveform b (x ∷ xs)) c)
  chunk-Inv d (x ∷ xs) (is_closed e c s) = is_closed (ground arith) (ground arith) (ground arith)

  chunk_laws : (d : Detector B) (xs : List S) → Inv d → ChunkLaws d xs (process_chunk k d xs)
  unfolding process_chunk is_speaking
  chunk_laws d [] h = ground arith
  chunk_laws d (x ∷ xs) (is_open b e c) = ground arith
  chunk_laws d (x ∷ xs) (is_closed e c s) = ground arith

  reset-Inv : (d : Detector B) → Inv d → Inv (reset k d)
  unfolding reset
  reset-Inv d (is_open b e c) = rw (c, e) (is_open (k.clear b) refl c)
  reset-Inv d (is_closed e c s) = is_closed (ground arith) (ground arith) (ground arith)

  -- Every law of the contract holds of the adapter, whatever the native detector.
  pub silero-IsDetector : IsDetector (detector k) Inv
  unfolding detector
  silero-IsDetector = record {
    keeps = chunk-Inv;
    keeps_reset = reset-Inv;
    reset_silent = λ d h. reset_silent_lem d h;
    bracketed = λ d xs h. (chunk_laws d xs h).bracketed;
    ended_once = λ d xs h. (chunk_laws d xs h).ended_once;
    finish_silent = λ d xs h. (chunk_laws d xs h).finish_silent;
    active = λ d xs h. (chunk_laws d xs h).active;
  }
    where
      reset_silent_lem : (d : Detector B) → Inv d → is_speaking (reset k d) ≡ false
      reset_silent_lem d (is_open b e c) = ground arith
      reset_silent_lem d (is_closed e c s) = ground arith

pub new_with_backend-Inv : {B S : Type 0} (k : Backend B S) (b : B) → Inv (new_with_backend k b)
unfolding new_with_backend
new_with_backend-Inv k b = is_open b refl refl

-- `Close` releases the native detector the first time it is called and never again, and a closed
-- detector hears nothing and stays as it is.
pub close_once :
    {B S : Type 0} (k : Backend B S) (d : Detector B) (xs : List S)
    → Inv d
    → let closed = (close d).0 in
      ((close d).1 ≡ not d.closed)
      × (close closed ≡ (closed, false))
      × (process_chunk k closed xs ≡ (closed, idle))
      × (reset k closed ≡ closed)
      × Inv closed
unfolding close process_chunk reset
close_once k d xs (is_open b e c) = (
  ground arith,
  ground arith,
  ground arith,
  ground arith,
  is_closed (ground arith) (ground arith) (ground arith),
)
close_once k d xs (is_closed e c s) = (
  ground arith,
  ground arith,
  ground arith,
  ground arith,
  is_closed (ground arith) (ground arith) (ground arith),
)
