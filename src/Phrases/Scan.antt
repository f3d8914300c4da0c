-- ===== src/Phrases/Scan.antt =====
-- Where the two boundary functions of internal/application/sentence_buffer.go may cut.
use xarlatan.Common.{ℕ, ◌+◌, ◌≤◌, ◌<◌, ◌≡◌, refl, ◌⊎◌, false, [], ◌∷◌, arith, length, All}
use xarlatan.Common.Text.{Text}
use xarlatan.Phrases.{
  SentenceBuffer, is_terminator, strong_from, strong_sentence_boundary, bounded_from,
  bounded_phrase_boundary, boundary,
}

-- A code point that ends no sentence.
abbrev pub IsPlain : ℕ → Type 0
IsPlain r = is_terminator r ≡ false

pub strong_from-le : (index : ℕ) (text : Text) → strong_from index text ≤ index + length text
unfolding strong_from
strong_from-le index [] = omega arith
strong_from-le index (r ∷ rs) = ground (arith, strong_from-le (index + 1) rs)

-- No boundary is found exactly when no code point ends a sentence.
pub strong_from-IsPlain : (index : ℕ) (text : Text) → strong_from index text ≡ 0 → All IsPlain text
unfolding strong_from
strong_from-IsPlain index [] h = tt
strong_from-IsPlain index (r ∷ rs) h = ground (arith, strong_from-IsPlain (index + 1) rs)

pub strong_from_plain : (index : ℕ) (text : Text) → All IsPlain text → strong_from index text ≡ 0
unfolding strong_from
strong_from_plain index [] h = refl
strong_from_plain index (r ∷ rs) h = ground (arith, strong_from_plain (index + 1) rs h.1)

bounded_from-le :
    (m runes last : ℕ) (text : Text)
    → last ≤ runes
    → bounded_from m runes last text ≤ runes + length text
unfolding bounded_from
bounded_from-le m runes last [] h = omega arith
bounded_from-le m runes last (r ∷ rs) h =
    ground
      (arith, bounded_from-le m (runes + 1) (runes + 1) rs, bounded_from-le m (runes + 1) last rs)

bounded_from_cap :
    (m runes last : ℕ) (text : Text) → last ≤ runes → runes ≤ m → bounded_from m runes last text ≤ m
unfolding bounded_from
bounded_from_cap m runes last [] h k = k
bounded_from_cap m runes last (r ∷ rs) h k =
    ground
      (arith, bounded_from_cap m (runes + 1) (runes + 1) rs, bounded_from_cap m (runes + 1) last rs)

bounded_from_pos : (m runes last : ℕ) (text : Text) → 0 < runes → 0 < bounded_from m runes last text
unfolding bounded_from
bounded_from_pos m runes last [] h = h
bounded_from_pos m runes last (r ∷ rs) h =
    ground
      (arith, bounded_from_pos m (runes + 1) (runes + 1) rs, bounded_from_pos m (runes + 1) last rs)

pub bounded_phrase_boundary-le :
    (text : Text) (m : ℕ) → bounded_phrase_boundary text m ≤ length text
unfolding bounded_phrase_boundary
bounded_phrase_boundary-le text m = ground (arith, bounded_from-le m 0 0 text)

pub bounded_phrase_boundary_cap : (text : Text) (m : ℕ) → 0 < m → bounded_phrase_boundary text m ≤ m
unfolding bounded_phrase_boundary
bounded_phrase_boundary_cap text m h = ground (arith, bounded_from_cap m 0 0 text)

-- A text that is not empty is cut behind its first code point or later.
pub bounded_phrase_boundary_pos :
    (text : Text) (m : ℕ) → 0 < length text → 0 < bounded_phrase_boundary text m
unfolding bounded_phrase_boundary
bounded_phrase_boundary_pos [] m h = elim h [ ]
bounded_phrase_boundary_pos (r ∷ rs) m h =
    ground (arith, bounded_from_pos m 1 1 rs, bounded_from_pos m 1 0 rs)

pub boundary-le : (b : SentenceBuffer) → boundary b ≤ length b.pending
unfolding boundary strong_sentence_boundary
boundary-le b =
    ground (arith, strong_from-le 0 b.pending, bounded_phrase_boundary-le b.pending b.max_runes)

-- The loop of `takeReady` stops only on a text with no end of a sentence in it, which is empty or
-- shorter than the cap.
pub boundary-eq-zero :
    (b : SentenceBuffer)
    → boundary b ≡ 0
    → (strong_sentence_boundary b.pending ≡ 0)
      × ((length b.pending < b.max_runes) ⊎ (length b.pending ≡ 0))
unfolding boundary
boundary-eq-zero b h = ground (arith, bounded_phrase_boundary_pos b.pending b.max_runes)

pub boundary-nil : (b : SentenceBuffer) → length b.pending ≡ 0 → boundary b ≡ 0
boundary-nil b h = omega (arith, boundary-le b)
