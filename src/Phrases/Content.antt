-- ===== src/Phrases/Content.antt =====
-- What internal/application/sentence_buffer.go does with the text that passes through it.
use xarlatan.Common.{
  ℕ, zero, suc, ◌≡◌, refl, sym, ap, ◌∙◌, Bool, true, false, List, [], ◌∷◌, ◌++◌, ◌==◌,
  if◌then◌else◌, length, take, drop, take-append-drop, append-nil, append_assoc, Bool-cases, inl,
  inr,
}
use xarlatan.Common.Text.{Text, trim_space, solid, solid-append, solid-trim_space}
use xarlatan.Phrases.{
  SentenceBuffer, new_sentence_buffer, boundary, append_phrase, take_loop, take_ready, push, flush,
}

-- The characters of a list of phrases that are no white space, in order.
abbrev pub spoken : List Text → Text
spoken [] = []
spoken (p ∷ ps) = solid p ++ spoken ps

pub spoken-append : (ps qs : List Text) → spoken (ps ++ qs) ≡ spoken ps ++ spoken qs
spoken-append [] qs = refl
spoken-append (p ∷ ps) qs = rw (spoken-append ps qs) (sym (append_assoc (solid p) _ _))

solid-nil : solid [] ≡ []
unfolding solid
solid-nil = refl

-- An empty phrase is not appended, and had nothing in it to speak.
spoken-append_phrase :
    (ps : List Text) (p : Text) → spoken (append_phrase ps p) ≡ spoken ps ++ solid p
spoken-append_phrase ps [] = rw (solid-nil, append-nil)
spoken-append_phrase ps (c ∷ p) =
    spoken-append ps ((c ∷ p) ∷ []) ∙ ap (◌++◌ (spoken ps)) (append-nil (solid (c ∷ p)))

spoken-cut :
    (ps : List Text) (n : ℕ) (s : Text)
    → spoken (append_phrase ps (trim_space (take n s))) ++ solid (drop n s) ≡ spoken ps ++ solid s
spoken-cut ps n s =
    rw (spoken-append_phrase ps (trim_space (take n s)), solid-trim_space (take n s))
      (append_assoc (spoken ps) (solid (take n s)) (solid (drop n s))
        ∙ ap (◌++◌ (spoken ps))
            (sym (solid-append (take n s) (drop n s)) ∙ ap solid (take-append-drop n s)))

take_loop-zero : (ps : List Text) (b : SentenceBuffer) → take_loop zero ps b ≡ (ps, b)
unfolding take_loop
take_loop-zero ps b = refl

take_loop-suc :
    (fuel : ℕ) (ps : List Text) (b : SentenceBuffer)
    → take_loop (suc fuel) ps b ≡ (
        if boundary b == 0
        then (ps, b)
        else take_loop fuel
            (append_phrase ps (trim_space (take (boundary b) b.pending)))
            (record b { pending = drop (boundary b) b.pending }))
unfolding take_loop
take_loop-suc fuel ps b = refl

spoken-take_loop :
    (fuel : ℕ) (ps : List Text) (b : SentenceBuffer)
    → let r = take_loop fuel ps b in spoken r.0 ++ solid r.1.pending ≡ spoken ps ++ solid b.pending
spoken-take_loop zero ps b = rw take_loop-zero
spoken-take_loop (suc fuel) ps b = elim (Bool-cases (boundary b == 0)) [
  | inl stop ↦ rw (take_loop-suc fuel ps b, stop)
  | inr go ↦
      rw (take_loop-suc fuel ps b, go)
        (spoken-take_loop fuel (append_phrase ps (trim_space (take (boundary b) b.pending)))
            (record b { pending = drop (boundary b) b.pending })
          ∙ spoken-cut ps (boundary b) b.pending)
]

spoken-take_ready :
    (end : Bool) (b : SentenceBuffer)
    → let r = take_ready end b in spoken r.0 ++ solid r.1.pending ≡ solid b.pending
unfolding take_ready
spoken-take_ready false b = spoken-take_loop (length b.pending) [] b
spoken-take_ready true b =
    let (ps, c) = take_loop (length b.pending) [] b in
    rw (solid-nil, append-nil, spoken-append_phrase ps (trim_space c.pending), solid-trim_space)
      (spoken-take_loop (length b.pending) [] b)

-- One `Push` loses, repeats or reorders no character but white space: what it returns and what
-- still waits are what waited before and the delta.
pub spoken-push :
    (delta : Text) (b : SentenceBuffer)
    → let r = push delta b in spoken r.0 ++ solid r.1.pending ≡ solid (b.pending ++ delta)
unfolding push
spoken-push [] b = rw append-nil
spoken-push (c ∷ cs) b = spoken-take_ready false (record b { pending = b.pending ++ c ∷ cs })

-- `Flush` empties the buffer, and returns all that waited.
pub spoken-flush :
    (b : SentenceBuffer) → ((flush b).1.pending ≡ []) × (spoken (flush b).0 ≡ solid b.pending)
unfolding flush take_ready
spoken-flush b =
    let (ps, c) = take_loop (length b.pending) [] b in
    (
      refl,
      rw (spoken-append_phrase ps (trim_space c.pending), solid-trim_space)
          (spoken-take_loop (length b.pending) [] b),
    )

-- A whole reply as the coordinator streams it: each delta is pushed, and the buffer is flushed at the end.
unfoldable pub push_all : List Text → SentenceBuffer → List Text × SentenceBuffer
push_all [] b = ([], b)
push_all (delta ∷ deltas) b =
    let (now, b') = push delta b in let (later, b'') = push_all deltas b' in (now ++ later, b'')

unfoldable pub concat : List Text → Text
concat [] = []
concat (s ∷ ss) = s ++ concat ss

spoken-push_all :
    (deltas : List Text) (b : SentenceBuffer)
    → let r = push_all deltas b in
      spoken r.0 ++ solid r.1.pending ≡ solid (b.pending ++ concat deltas)
unfolding push_all concat
spoken-push_all [] b = rw append-nil
spoken-push_all (delta ∷ deltas) b =
    let r = push delta b in
    let s = push_all deltas r.1 in
    rw (spoken-append r.0 s.0) (
      append_assoc (spoken r.0) (spoken s.0) (solid s.1.pending)
      ∙ ap (◌++◌ (spoken r.0))
          (spoken-push_all deltas r.1 ∙ solid-append r.1.pending (concat deltas))
      ∙ sym (append_assoc (spoken r.0) (solid r.1.pending) (solid (concat deltas)))
      ∙ ap (λ t. t ++ solid (concat deltas)) (spoken-push delta b)
      ∙ sym (solid-append (b.pending ++ delta) (concat deltas))
      ∙ ap solid (append_assoc b.pending delta (concat deltas)))

-- However a reply is cut into deltas, the phrases of its pushes and of the last flush hold each of
-- its characters but white space, once and in order.
pub spoken_stream :
    (deltas : List Text)
    → let r = push_all deltas new_sentence_buffer in
      spoken (r.0 ++ (flush r.1).0) ≡ solid (concat deltas)
unfolding new_sentence_buffer
spoken_stream deltas =
    let r = push_all deltas new_sentence_buffer in
    spoken-append r.0 (flush r.1).0
    ∙ ap (◌++◌ (spoken r.0)) (spoken-flush r.1).1
    ∙ spoken-push_all deltas new_sentence_buffer
