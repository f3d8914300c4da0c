-- ===== src/Application/Workers.antt =====
-- The worker set of internal/application/coordinator.go behind the stages of a turn: `execute`,
-- `submit`, `await` and `publish`. The workers themselves are goroutines that take a request, call a
-- dependency and publish its result. A `select` yields one of its cases; which one is an argument.
pub mod Delivery
use xarlatan.Common.{
  ℕ, ◌≡◌, refl, ap, ◌∙◌, inl, inr, Bool, true, false, not, ◌&&◌, ◌||◌, Option, none, some, List, [],
  ◌∷◌, ◌++◌, arith, ◌==◌, if◌then◌else◌, Bool-cases, All, length, leb, map, sym, some_inj,
  Option-cases,
}
use xarlatan.Common.Text.{Text}
use xarlatan.Audio.{Buffer}
use xarlatan.Application.{Fault, Reply, ok, err}

pub data Stage : Type 0 where
  stage_capture stage_transcribe stage_respond stage_synthesize : Stage
  stage_playback stage_playback_write stage_playback_finish stage_playback_stop : Stage

-- The constants of the source, from 1 on.
abbrev pub code : Stage → ℕ
code stage_capture = 1
code stage_transcribe = 2
code stage_respond = 3
code stage_synthesize = 4
code stage_playback = 5
code stage_playback_write = 6
code stage_playback_finish = 7
code stage_playback_stop = 8

unfoldable pub same_stage : Stage → Stage → Bool
same_stage a b = code a == code b

pub record StageResult (S : Type 0) : Type 0 where
  pub turn_id : ℕ
  pub stage : Stage
  pub buffer : Option (Buffer S)
  pub text : Text
  pub error : Option Fault

-- The channels `results` and `responses`, with what they buffer.
pub record Channels (S : Type 0) : Type 0 where
  pub results : List (StageResult S)
  pub responses : List (StageResult S)

abbrev pub capacity : ℕ
capacity = 8

-- `output <- result`; `none` where the channel is full and the send waits.
unfoldable pub send :
    {S : Type 0} → List (StageResult S) → StageResult S → Option (List (StageResult S))
send queue result = if leb capacity (length queue) then none else some (queue ++ result ∷ [])

-- `publish`, while the set is running.
unfoldable pub publish : {S : Type 0} → Channels S → StageResult S → Option (Channels S)
unfolding send same_stage
publish c result =
    if same_stage result.stage stage_respond
    then elim (send c.responses result) [
      | none ↦ none
      | some queue ↦ some (record c { responses = queue })
    ]
    else elim (send c.results result) [
      | none ↦ none
      | some queue ↦ some (record c { results = queue })
    ]

-- The channel that `await` reads for a stage.
unfoldable pub channel : {S : Type 0} → Channels S → Stage → List (StageResult S)
unfolding same_stage
channel c target = if same_stage target stage_respond then c.responses else c.results

-- What the select of `submit` yields: one of the contexts has ended, or the worker takes the request.
pub data Offer : Type 0 where
  turn_over set_over : Fault → Offer
  taken : Offer

unfoldable pub submit : Offer → Option Fault
submit (turn_over f) = some f
submit (set_over f) = some f
submit taken = none

-- What one receive of the select of `await` yields. Where the set has ended, the turn's context is
-- looked at too.
pub data Arrival (S : Type 0) : Type 0 where
  turn_done : Fault → Arrival S
  set_done : Option Fault → Fault → Arrival S
  received : StageResult S → Arrival S

unfoldable pub is_mine : {S : Type 0} → ℕ → Stage → StageResult S → Bool
unfolding same_stage
is_mine turn_id target r = r.turn_id == turn_id && same_stage r.stage target

-- `await`; `none` where the receives run out and it still waits.
unfoldable pub await : {S : Type 0} → ℕ → Stage → List (Arrival S) → Option (Reply (StageResult S))
unfolding is_mine
await turn_id target [] = none
await turn_id target (turn_done f ∷ xs) = some (err f)
await turn_id target (set_done (some f) g ∷ xs) = some (err f)
await turn_id target (set_done none g ∷ xs) = some (err g)
await turn_id target (received r ∷ xs) =
    let later = await turn_id target xs in
    if not (is_mine turn_id target r) then later else some (ok r)

-- A result that carries an error counts as that error.
unfoldable pub unwrap : {S : Type 0} → Reply (StageResult S) → Reply (StageResult S)
unwrap (err f) = err f
unwrap (ok r) = elim r.error [ none ↦ ok r | some f ↦ err f ]

unfoldable pub execute :
    {S : Type 0} → ℕ → Stage → Offer → List (Arrival S) → Option (Reply (StageResult S))
unfolding submit await unwrap
execute turn_id target offer xs = elim (submit offer) [
  | some f ↦ some (err f)
  | none ↦ elim (await turn_id target xs) [ none ↦ none | some answer ↦ some (unwrap answer) ]
]
