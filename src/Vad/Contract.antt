-- ===== src/Vad/Contract.antt =====
-- The contract of the interface `Detector` of internal/vad/detector.go, and what the capture can
-- rely on over a whole stream of chunks.
use xarlatan.Common.{
  ℕ, suc, ◌+◌, ◌<◌, ◌≡◌, refl, ◌∙◌, Bool, true, false, ◌||◌, Option, none, some, List, [], ◌∷◌,
  ◌++◌, arith, if◌then◌else◌, length,
}
use xarlatan.Vad.{Event, voice_detected, silence_start, silence_progress, cut_by_silence, Detector}

-- follows the events from "speaking or not" to "speaking or not"; `none` where an utterance starts
-- inside another or ends outside one.
abbrev pub bracket : Bool → List Event → Option Bool
bracket s [] = some s
bracket s (silence_start ∷ es) = bracket s es
bracket s (silence_progress ms ∷ es) = bracket s es
bracket true (voice_detected ∷ es) = none
bracket false (voice_detected ∷ es) = bracket true es
bracket true (cut_by_silence ms ∷ es) = bracket false es
bracket false (cut_by_silence ms ∷ es) = none

abbrev pub ends : List Event → ℕ
ends [] = 0
ends (cut_by_silence ms ∷ es) = suc (ends es)
ends (_ ∷ es) = ends es

abbrev pub as_count : Bool → ℕ
as_count b = if b then 1 else 0

-- One chunk. `Inv` is what an implementation keeps true of its states.
pub record IsDetector {D S : Type 0} (d : Detector D S) (Inv : D → Type 0) : Type 0 where
  pub keeps : (s : D) (xs : List S) → Inv s → Inv (d.process_chunk s xs).0
  pub keeps_reset : (s : D) → Inv s → Inv (d.reset s)
  pub reset_silent : (s : D) → Inv s → d.is_speaking (d.reset s) ≡ false
  pub bracketed :
      (s : D) (xs : List S)
      → Inv s
      → bracket (d.is_speaking s) (d.process_chunk s xs).1.events
        ≡ some (d.is_speaking (d.process_chunk s xs).0)
  pub ended_once :
      (s : D) (xs : List S)
      → Inv s
      → ends (d.process_chunk s xs).1.events ≡ as_count (d.process_chunk s xs).1.should_finish
  pub finish_silent :
      (s : D) (xs : List S)
      → Inv s
      → (d.process_chunk s xs).1.should_finish ≡ true
      → d.is_speaking (d.process_chunk s xs).0 ≡ false
  pub active :
      (s : D) (xs : List S)
      → Inv s
      → 0 < length xs
      → (d.process_chunk s xs).1.is_speaking
        ≡ (d.is_speaking (d.process_chunk s xs).0 || (d.process_chunk s xs).1.should_finish)

-- A stream of chunks: the state behind it, its events, and how often it said to finish.
unfoldable pub run : {D S : Type 0} → Detector D S → D → List (List S) → D × List Event × ℕ
run d s [] = (s, [], 0)
run d s (xs ∷ xss) =
    let (s', v) = d.process_chunk s xs in
    let (s'', es, n) = run d s' xss in (s'', v.events ++ es, as_count v.should_finish + n)

bracket-append :
    (b c : Bool) (es fs : List Event) → bracket b es ≡ some c → bracket b (es ++ fs) ≡ bracket c fs
bracket-append b c [] fs h = ground arith
bracket-append b c (silence_start ∷ es) fs h = bracket-append b c es fs h
bracket-append b c (silence_progress ms ∷ es) fs h = bracket-append b c es fs h
bracket-append true c (voice_detected ∷ es) fs h = absurd (cc)
bracket-append false c (voice_detected ∷ es) fs h = bracket-append true c es fs h
bracket-append true c (cut_by_silence ms ∷ es) fs h = bracket-append false c es fs h
bracket-append false c (cut_by_silence ms ∷ es) fs h = absurd (cc)

ends-append : (es fs : List Event) → ends (es ++ fs) ≡ ends es + ends fs
ends-append [] fs = omega arith
ends-append (voice_detected ∷ es) fs = ends-append es fs
ends-append (silence_start ∷ es) fs = ends-append es fs
ends-append (silence_progress ms ∷ es) fs = ends-append es fs
ends-append (cut_by_silence ms ∷ es) fs = omega (arith, ends-append es fs)

-- Over any stream, whatever the implementation: an utterance starts only outside one and ends only
-- inside one, the state tells whether one is open, and as many are ended as are handed over.
pub run_brackets :
    {D S : Type 0} (d : Detector D S) (Inv : D → Type 0) (law : IsDetector d Inv) (s : D)
    (xss : List (List S))
    → Inv s
    → let r = run d s xss in
      (bracket (d.is_speaking s) r.1 ≡ some (d.is_speaking r.0)) × (ends r.1 ≡ r.2)
unfolding run
run_brackets d Inv law s [] h = (refl, refl)
run_brackets d Inv law s (xs ∷ xss) h =
    let r = d.process_chunk s xs in
    let later = run d r.0 xss in
    let ih = run_brackets d Inv law r.0 xss (law.keeps s xs h) in
    (
      bracket-append (d.is_speaking s) (d.is_speaking r.0) r.1.events later.1 (law.bracketed s xs h)
          ∙ ih.0,
      omega (arith, ends-append r.1.events later.1, law.ended_once s xs h, ih.1),
    )
