-- ===== src/Phrases.antt =====
-- internal/application/sentence_buffer.go: the buffer that cuts a streamed reply into phrases for
-- synthesis. Texts are lists of code points; a byte offset of the source is the number of code
-- points before it. A nil receiver is not modelled.
pub mod Scan
pub mod Loop
pub mod Content
pub mod Caps
use xarlatan.Common.{
  ℕ, zero, suc, ◌+◌, Bool, true, false, ◌&&◌, ◌||◌, List, [], ◌∷◌, ◌++◌, ltb, leb, ◌==◌,
  if◌then◌else◌, length, take, drop,
}
use xarlatan.Common.Text.{Text, trim_space, is_empty}

-- `defaultMaxStreamingPhraseRunes`
abbrev pub default_max_streaming_phrase_runes : ℕ
default_max_streaming_phrase_runes = 180

pub record SentenceBuffer : Type 0 where
  pub pending : Text
  pub max_runes : ℕ

unfoldable pub new_sentence_buffer : SentenceBuffer
new_sentence_buffer = record { pending = []; max_runes = default_max_streaming_phrase_runes }

-- The cases of the switch in `strongSentenceBoundary`.
unfoldable pub is_terminator : ℕ → Bool
is_terminator r = r == b'.' || r == b'!' || r == b'?' || r == b'\n'

-- The range loop, with `index` code points read. Its result 0 says that there is no boundary.
unfoldable pub strong_from : ℕ → Text → ℕ
strong_from index [] = 0
strong_from index (r ∷ rs) = if is_terminator r then index + 1 else strong_from (index + 1) rs

unfoldable pub strong_sentence_boundary : Text → ℕ
unfolding strong_from
strong_sentence_boundary text = strong_from 0 text

-- The range loop, with `runes` code points read and the position `last` behind the last space.
unfoldable pub bounded_from : ℕ → ℕ → ℕ → Text → ℕ
bounded_from max_runes runes last [] = runes
bounded_from max_runes runes last (r ∷ rs) =
    let last' = if r == b' ' || r == b'\t' then runes + 1 else last in
    let rest = bounded_from max_runes (runes + 1) last' rs in
    if leb max_runes runes then (if ltb 0 last then last else runes) else rest

unfoldable pub bounded_phrase_boundary : Text → ℕ → ℕ
unfolding bounded_from
bounded_phrase_boundary text max_runes =
    if leb max_runes 0 then length text else bounded_from max_runes 0 0 text

-- The two assignments to `boundary` in one round of the loop of `takeReady`.
unfoldable pub boundary : SentenceBuffer → ℕ
unfolding strong_sentence_boundary bounded_phrase_boundary
boundary b =
    let strong = strong_sentence_boundary b.pending in
    if strong == 0 && leb b.max_runes (length b.pending)
    then bounded_phrase_boundary b.pending b.max_runes
    else strong

-- `if phrase != "" { phrases = append(phrases, phrase) }`
abbrev pub append_phrase : List Text → Text → List Text
append_phrase phrases phrase = if is_empty phrase then phrases else phrases ++ phrase ∷ []

-- The loop of `takeReady`, with fuel for its rounds. Each round but the last takes at least one code
-- point off `pending`.
unfoldable pub take_loop : ℕ → List Text → SentenceBuffer → List Text × SentenceBuffer
take_loop zero phrases b = (phrases, b)
take_loop (suc fuel) phrases b =
    let at = boundary b in
    let rest =
      take_loop fuel (append_phrase phrases (trim_space (take at b.pending)))
        (record b { pending = drop at b.pending }) in
    if at == 0 then (phrases, b) else rest

unfoldable pub take_ready : Bool → SentenceBuffer → List Text × SentenceBuffer
unfolding take_loop
take_ready flush b =
    let (phrases, b') = take_loop (length b.pending) [] b in
    if flush
    then (append_phrase phrases (trim_space b'.pending), record b' { pending = [] })
    else (phrases, b')

unfoldable pub push : Text → SentenceBuffer → List Text × SentenceBuffer
unfolding take_ready
push delta b =
    if is_empty delta then ([], b) else take_ready false (record b { pending = b.pending ++ delta })

unfoldable pub flush : SentenceBuffer → List Text × SentenceBuffer
unfolding take_ready
flush b = take_ready true b
