-- ===== src/Phrases/Loop.antt =====
-- The loop of `takeReady` in internal/application/sentence_buffer.go: it ends, and what it leaves.
use xarlatan.Common.{
  ℕ, zero, suc, ◌≤◌, ◌<◌, ◌≡◌, refl, false, List, [], ◌∷◌, ◌++◌, arith, length, length-drop, take,
  drop,
}
use xarlatan.Common.Text.{Text, trim_space}
use xarlatan.Phrases.Scan.{boundary-le, boundary-eq-zero, boundary-nil}
use xarlatan.Phrases.{
  SentenceBuffer, new_sentence_buffer, strong_sentence_boundary, boundary, append_phrase, take_loop,
  take_ready, push,
}

pub take_loop-max_runes :
    (fuel : ℕ) (ps : List Text) (b : SentenceBuffer)
    → (take_loop fuel ps b).1.max_runes ≡ b.max_runes
unfolding take_loop
take_loop-max_runes zero ps b = refl
take_loop-max_runes (suc fuel) ps b =
    let at = boundary b in
    ground (
      arith,
      take_loop-max_runes fuel (append_phrase ps (trim_space (take at b.pending)))
          (record b { pending = drop at b.pending }),
    )

-- As many rounds as there are code points are enough: the loop ends by its own test.
pub take_loop_done :
    (fuel : ℕ) (ps : List Text) (b : SentenceBuffer)
    → length b.pending ≤ fuel
    → boundary (take_loop fuel ps b).1 ≡ 0
unfolding take_loop
take_loop_done zero ps b h = boundary-nil b (omega arith)
take_loop_done (suc fuel) ps b h =
    let at = boundary b in
    ground (
      arith,
      length-drop at b.pending,
      boundary-le b,
      take_loop_done fuel (append_phrase ps (trim_space (take at b.pending)))
          (record b { pending = drop at b.pending }),
    )

-- Nothing waits that could be spoken: no sentence has ended, and the cap is not reached.
pub record IsSettled (b : SentenceBuffer) : Type 0 where
  pub capped : 0 < b.max_runes
  pub no_terminator : strong_sentence_boundary b.pending ≡ 0
  pub short : length b.pending < b.max_runes

pub new_sentence_buffer-IsSettled : IsSettled new_sentence_buffer
unfolding new_sentence_buffer strong_sentence_boundary
new_sentence_buffer-IsSettled = ground arith

take_ready-IsSettled : (b : SentenceBuffer) → 0 < b.max_runes → IsSettled (take_ready false b).1
unfolding take_ready
take_ready-IsSettled b h =
    let c = (take_loop (length b.pending) [] b).1 in
    ground (
      arith,
      take_loop_done (length b.pending) [] b (omega arith),
      boundary-eq-zero c,
      take_loop-max_runes (length b.pending) [] b,
    )

-- After a `Push` to a settled buffer what waits holds no end of a sentence and is shorter than the cap, so a reply
-- with no punctuation is held back for less than `maxRunes` code points.
pub push-IsSettled : (delta : Text) (b : SentenceBuffer) → IsSettled b → IsSettled (push delta b).1
unfolding push
push-IsSettled [] b s = s
push-IsSettled (c ∷ cs) b s =
    take_ready-IsSettled (record b { pending = b.pending ++ c ∷ cs }) s.capped
