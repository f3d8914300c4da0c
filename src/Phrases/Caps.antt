-- ===== src/Phrases/Caps.antt =====
-- How long the phrases of internal/application/sentence_buffer.go are.
use xarlatan.Common.{
  ℕ, zero, suc, ◌≤◌, ◌<◌, List, [], ◌∷◌, ◌++◌, arith, length, take, drop, length-take, All,
  All-append, All-drop,
}
use xarlatan.Common.Text.{Text, trim_space, length-trim_space}
use xarlatan.Phrases.Scan.{
  IsPlain, strong_from-IsPlain, strong_from_plain, bounded_phrase_boundary_cap,
}
use xarlatan.Phrases.Loop.{IsSettled}
use xarlatan.Phrases.{
  SentenceBuffer, strong_sentence_boundary, boundary, append_phrase, take_loop, take_ready, push,
}

-- A phrase that is worth synthesizing, and within the cap.
abbrev pub Fits : ℕ → Text → Type 0
Fits m p = (0 < length p) × (length p ≤ m)

append_phrase-Fits :
    (m : ℕ) (ps : List Text) (p : Text)
    → length p ≤ m
    → All (Fits m) ps
    → All (Fits m) (append_phrase ps p)
append_phrase-Fits m ps [] h all = all
append_phrase-Fits m ps (c ∷ p) h all =
    All-append (Fits m) ps ((c ∷ p) ∷ []) all ((omega arith, h), tt)

-- With no end of a sentence in sight only the cap cuts.
boundary_plain :
    (b : SentenceBuffer) → 0 < b.max_runes → All IsPlain b.pending → boundary b ≤ b.max_runes
unfolding boundary strong_sentence_boundary
boundary_plain b h plain =
    ground (
      arith,
      strong_from_plain 0 b.pending plain,
      bounded_phrase_boundary_cap b.pending b.max_runes,
    )

take_loop-Fits :
    (fuel : ℕ) (ps : List Text) (b : SentenceBuffer)
    → 0 < b.max_runes
    → All IsPlain b.pending
    → All (Fits b.max_runes) ps
    → All (Fits b.max_runes) (take_loop fuel ps b).0
unfolding take_loop
take_loop-Fits zero ps b h plain all = all
take_loop-Fits (suc fuel) ps b h plain all =
    let at = boundary b in
    let phrase = trim_space (take at b.pending) in
    ground (
      arith,
      take_loop-Fits fuel (append_phrase ps phrase) (record b { pending = drop at b.pending }) h
          (All-drop IsPlain at b.pending plain)
          (append_phrase-Fits b.max_runes ps phrase
            (omega (
              arith,
              length-trim_space (take at b.pending),
              length-take at b.pending,
              boundary_plain b h plain,
            ))
            all),
    )

-- While no sentence ends in the delta, no phrase that a push to a settled buffer returns is empty or
-- longer than `maxRunes` code points.
pub push-Fits :
    (delta : Text) (b : SentenceBuffer)
    → IsSettled b
    → All IsPlain delta
    → All (Fits b.max_runes) (push delta b).0
unfolding push take_ready strong_sentence_boundary
push-Fits [] b s plain = tt
push-Fits (c ∷ cs) b s plain =
    take_loop-Fits (length (b.pending ++ c ∷ cs)) [] (record b { pending = b.pending ++ c ∷ cs })
      s.capped
      (All-append IsPlain b.pending (c ∷ cs) (strong_from-IsPlain 0 b.pending s.no_terminator)
        plain)
      tt
