-- ===== src/Audio/Rearm/Still.antt =====
-- When `waitForStableSilence` of internal/audio/rearm.go lets the assistant listen again.
use xarlatan.Common.{
  ℕ, ◌+◌, ◌<◌, ◌≡◌, refl, sym, ap, ◌∙◌, subst, inl, inr, true, Option, none, some, List, [], ◌∷◌,
  ◌++◌, append_assoc, append-nil, arith, leb, length, length-append, Bool-cases, All, All-append,
}
use xarlatan.Common.Results.{Result, ok, err}
use xarlatan.Common.Text.{Text}
use xarlatan.Audio.Single.{ReadFailure, end_of_audio, broken, Look}
use xarlatan.Audio.Rearm.{
  Guard, stable_chunks, Waited, after_look, unless_over, quiet_threshold, is_quiet, count_quiet,
  wait_loop, wait_checked, wait_for_stable_silence,
}
use xarlatan.Audio.Capture.Source.{pcm_chunk_bytes}
use xarlatan.Tools.Executor.{ContextError}
use xarlatan.Vad.Real.{Real}

-- The chunks that hold a frame.
abbrev pub chunk_of : {F : Type 0} → List F → List (List F)
chunk_of [] = []
chunk_of (x ∷ xs) = (x ∷ xs) ∷ []

abbrev pub chunks_in : {F : Type 0} → List (Look F) → List (List F)
chunks_in [] = []
chunks_in (look ∷ looks) = chunk_of look.samples ++ chunks_in looks

module _ {F : Type 0} (o : Real F) (threshold : F) where
  abbrev pub Quiet : List F → Type 0
  Quiet chunk = is_quiet o threshold chunk ≡ true

  -- So many quiet chunks follow one another in what was heard.
  pub record IsStill (stable : ℕ) (chunks : List (List F)) : Type 0 where
    pub before : List (List F)
    pub run : List (List F)
    pub after : List (List F)
    pub parts : chunks ≡ before ++ run ++ after
    pub enough : length run ≡ stable
    pub quiet : All Quiet run

  -- What was heard ends in so many quiet chunks.
  record EndsQuiet (count : ℕ) (chunks : List (List F)) : Type 0 where
    before : List (List F)
    run : List (List F)
    parts : chunks ≡ before ++ run
    counted : length run ≡ count
    quiet : All Quiet run

  abbrev pub IsStillAt : ℕ → List (List F) → Waited → Type 0
  IsStillAt stable chunks none = Unit
  IsStillAt stable chunks (some (err e)) = Unit
  IsStillAt stable chunks (some (ok u)) = IsStill stable chunks

  after_look-IsStillAt :
      (stable : ℕ) (all : List (List F)) (failure : Option ReadFailure)
      (ended : Option ContextError) (later : Waited)
      → IsStillAt stable all later
      → IsStillAt stable all (after_look failure ended later)
  unfolding after_look
  after_look-IsStillAt stable all none ended later l = l
  after_look-IsStillAt stable all (some failure) (some e) later l = tt
  after_look-IsStillAt stable all (some end_of_audio) none later l = tt
  after_look-IsStillAt stable all (some (broken e)) none later l = tt

  unless_over-IsStillAt :
      (stable : ℕ) (all : List (List F)) (ended : Option ContextError) (read : Waited)
      → IsStillAt stable all read
      → IsStillAt stable all (unless_over ended read)
  unless_over-IsStillAt stable all none read l = l
  unless_over-IsStillAt stable all (some e) read l = tt

  EndsQuiet-next :
      (count : ℕ) (seen : List (List F)) (chunk : List F)
      → EndsQuiet count seen
      → Quiet chunk
      → EndsQuiet (count + 1) (seen ++ chunk ∷ [])
  EndsQuiet-next count seen chunk h q = record {
    before = h.before;
    run = h.run ++ chunk ∷ [];
    parts = ap (λ t. t ++ chunk ∷ []) h.parts ∙ append_assoc h.before h.run (chunk ∷ []);
    counted = omega (arith, length-append h.run (chunk ∷ []), h.counted);
    quiet = All-append Quiet h.run (chunk ∷ []) h.quiet (q, tt);
  }

  EndsQuiet-none : (seen : List (List F)) → EndsQuiet 0 seen
  EndsQuiet-none seen = record {
    before = seen;
    run = [];
    parts = sym (append-nil seen);
    counted = refl;
    quiet = tt;
  }

  -- One chunk, where the rest of the loop is known.
  count_quiet-IsStillAt :
      (stable count : ℕ) (seen rest : List (List F)) (chunk : List F) (go_on : ℕ → Waited)
      → EndsQuiet count seen
      → count < stable
      → ((n : ℕ)
          → EndsQuiet n (seen ++ chunk_of chunk)
          → n < stable
          → IsStillAt stable (seen ++ chunk_of chunk ++ rest) (go_on n))
      → IsStillAt stable
          (seen ++ chunk_of chunk ++ rest)
          (count_quiet o stable threshold count chunk go_on)
  unfolding count_quiet
  count_quiet-IsStillAt stable count seen rest [] go_on h p l =
      l count (subst (EndsQuiet count) (sym (append-nil seen)) h) p
  count_quiet-IsStillAt stable count seen rest (x ∷ xs) go_on h p l =
      elim (Bool-cases (is_quiet o threshold (x ∷ xs))) [
        | inr loud ↦
            rw (loud, count_quiet) (l 0 (EndsQuiet-none (seen ++ (x ∷ xs) ∷ [])) (omega (arith, p)))
        | inl silent ↦
            let h' = EndsQuiet-next count seen (x ∷ xs) h silent in
            elim (Bool-cases (leb stable (count + 1))) [
              | inl enough ↦
                  rw (silent, enough, count_quiet)
                    (record {
                      before = h'.before;
                      run = h'.run;
                      after = rest;
                      parts = ap (λ t. t ++ rest) h'.parts;
                      enough = ground (arith, h'.counted, enough, p);
                      quiet = h'.quiet;
                    })
              | inr fewer ↦
                  rw (silent, fewer, count_quiet) (l (count + 1) h' (ground (arith, fewer)))
            ]
      ]

  wait_loop-IsStillAt :
      (stable count : ℕ) (seen : List (List F)) (looks : List (Look F))
      → EndsQuiet count seen
      → count < stable
      → IsStillAt stable (seen ++ chunks_in looks) (wait_loop o stable threshold count looks)
  unfolding wait_loop
  wait_loop-IsStillAt stable count seen [] h p = tt
  wait_loop-IsStillAt stable count seen (look ∷ looks) h p =
      let chunk = chunk_of look.samples in
      let go_on : ℕ → Waited =
        λ n. after_look look.failure look.ended_after (wait_loop o stable threshold n looks) in
      subst
        (λ s.
          IsStillAt stable s
            (unless_over look.ended (count_quiet o stable threshold count look.samples go_on)))
        (append_assoc seen chunk (chunks_in looks))
        (unless_over-IsStillAt stable (seen ++ chunk ++ chunks_in looks) look.ended
          (count_quiet o stable threshold count look.samples go_on)
          (count_quiet-IsStillAt stable count seen (chunks_in looks) look.samples go_on h p
            (λ n e q.
              after_look-IsStillAt stable (seen ++ chunk ++ chunks_in looks) look.failure
                look.ended_after (wait_loop o stable threshold n looks)
                (wait_loop-IsStillAt stable n (seen ++ chunk) looks e q))))

stable_chunks-pos : {F : Type 0} (g : Guard F) → 0 < stable_chunks g
unfolding stable_chunks
stable_chunks-pos g = ground arith

module _ {F : Type 0} (o : Real F) where
  -- Where the wait ends without an error, as many chunks in a row as make up the stable silence were no
  -- louder than the threshold.
  pub wait-IsStill :
      (g : Guard F) (looks : List (Look F))
      → wait_for_stable_silence o g looks ≡ some (ok tt)
      → IsStill o (quiet_threshold o g.threshold) (stable_chunks g) (chunks_in looks)
  unfolding wait_for_stable_silence wait_checked
  wait-IsStill g looks e = checked (pcm_chunk_bytes g.sample_rate g.channels) e
    where
      checked :
          (r : Result Text ℕ)
          → wait_checked o r g looks ≡ some (ok tt)
          → IsStill o (quiet_threshold o g.threshold) (stable_chunks g) (chunks_in looks)
      checked (err x) e = absurd (cc)
      checked (ok bytes) e =
          subst (IsStillAt o (quiet_threshold o g.threshold) (stable_chunks g) (chunks_in looks)) e
            (wait_loop-IsStillAt o (quiet_threshold o g.threshold) (stable_chunks g) 0 [] looks
              (EndsQuiet-none o (quiet_threshold o g.threshold) []) (stable_chunks-pos g))
