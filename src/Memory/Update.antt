-- ===== src/Memory/Update.antt =====
-- `New`, `Update` of internal/memory/memory.go and `Prepare` of prepare.go.
use xarlatan.Common.{
  ℕ, Bool, true, false, not, ◌&&◌, ◌||◌, Option, none, some, List, [], ◌∷◌, ◌++◌, ltb, leb,
  if◌then◌else◌, length,
}
use xarlatan.Common.Text.{Text, codes, byte_length, is_empty, trim_space}
use xarlatan.Common.Results.{Result, ok, err, ◌>>=◌, ◌>>◌, fail_if}
use xarlatan.Orchestrator.{Message}
use xarlatan.Memory.{
  ErrorCode, invalid_config, invalid_history, budget_exceeded, summarizer_error, cancelled, Config,
  Trace, Snapshot, Summarizer, Manager, Machine, plain, flatten_turns, count_turn_messages,
  build_history, history, repeat_x, truncate_utf8,
}
use xarlatan.Memory.Turns.{conversation_messages, split_turns}

-- A measure that fails is an error of the given code.
unfoldable pub measured : Option ℕ → ErrorCode → Result ErrorCode ℕ
measured none code = err code
measured (some n) code = ok n

abbrev pub has : {A : Type 0} → Option A → Bool
has none = false
has (some a) = true

-- The summary that is reserved in `Update`.
unfoldable pub update_reserve : {W : Type 0} → Manager W → Text
unfolding repeat_x
update_reserve m = if has m.summarizer then repeat_x m.config.max_summary_bytes else []

-- `useSummary`, and the summary that `Prepare` reserves with it.
unfoldable pub use_summary : {W : Type 0} → Manager W → Bool
use_summary m = not (is_empty (trim_space m.summary)) || has m.summarizer

unfoldable pub prepare_reserve : {W : Type 0} → Manager W → Text
unfolding use_summary repeat_x
prepare_reserve m = if use_summary m then repeat_x m.config.max_summary_bytes else []

-- The trace of an update, and of a preparation, where `extra` is the message to come.
unfoldable pub trace_of : List Message → ℕ → List Message → ℕ → List (List Message) → Text → Trace
unfolding count_turn_messages byte_length
trace_of input input_bytes output output_bytes dropped summary = record {
  input_messages = length input;
  input_bytes = input_bytes;
  output_messages = length output;
  output_bytes = output_bytes;
  dropped_turns = length dropped;
  dropped_messages = count_turn_messages dropped;
  summary_generated = not (is_empty dropped) && not (is_empty summary);
  summary_bytes = byte_length summary;
}

module _ {W : Type 0} (mc : Machine W) where
  unfoldable pub new : Config → Text → Option (Summarizer W) → Result ErrorCode (Manager W)
  unfolding measured build_history repeat_x
  new config system_prompt summarizer = do
    fail_if (leb config.max_history_bytes 0) invalid_config
    fail_if (leb config.max_summary_bytes 0) invalid_config
    fail_if (leb config.max_history_bytes config.max_summary_bytes) invalid_config
    let manager : Manager W = record {
      config = config;
      system_prompt = system_prompt;
      summarizer = summarizer;
      summary = [];
      turns = [];
    }
    base ← measured (mc.measure (build_history system_prompt [] [])) invalid_config
    fail_if (ltb config.max_history_bytes base) budget_exceeded
    reserved ←
        if has summarizer
        then measured
            (mc.measure (build_history system_prompt (repeat_x config.max_summary_bytes) []))
            invalid_config
        else ok 0
    fail_if (ltb config.max_history_bytes reserved) invalid_config
    ok manager

  -- The turns that were dropped, and those that are kept.
  abbrev pub Cut : Type 0
  Cut = List (List Message) × List (List Message)

  -- The loop that drops the oldest turn until the rest fits beside the reserve and `extra`.
  unfoldable pub evict :
      Manager W
      → Text
      → List Message
      → List (List Message)
      → List (List Message)
      → Result ErrorCode Cut
  unfolding measured build_history
  evict m reserve extra dropped [] = ok (dropped, [])
  evict m reserve extra dropped (turn ∷ turns) =
      let later = evict m reserve extra (dropped ++ turn ∷ []) turns in
      do
        bytes ←
            measured (mc.measure (build_history m.system_prompt reserve (turn ∷ turns) ++ extra))
              invalid_history
        if leb bytes m.config.max_history_bytes then ok (dropped, turn ∷ turns) else later

  -- What `Update` works out before it summarizes: the bytes of its input, and the cut.
  unfoldable pub plan_update : Manager W → List Message → Result ErrorCode (ℕ × Cut)
  unfolding measured conversation_messages split_turns evict update_reserve build_history
  plan_update m input = do
    input_bytes ← measured (mc.measure input) invalid_history
    conversation ← conversation_messages m.system_prompt m.summary input
    turns ← split_turns conversation
    bytes ← measured (mc.measure (build_history m.system_prompt m.summary turns)) invalid_history
    cut ←
        if ltb m.config.max_history_bytes bytes
        then evict m (update_reserve m) [] [] turns
        else ok ([], turns)
    ok (input_bytes, cut)

  -- An error of the summarizer, behind one more look at the context.
  unfoldable pub summarizer_failed : W → W × Result ErrorCode Text
  summarizer_failed w =
      let (w', ended) = mc.ctx_err w in (w', err (if ended then cancelled else summarizer_error))

  unfoldable pub call_summarizer :
      Summarizer W → Manager W → List (List Message) → W → W × Result ErrorCode Text
  unfolding summarizer_failed flatten_turns truncate_utf8
  call_summarizer summarize m dropped w =
      let (w', answer) = summarize m.summary (flatten_turns dropped) m.config.max_summary_bytes w in
      elim answer [
        | none ↦ summarizer_failed w'
        | some text ↦ (w', ok (truncate_utf8 (trim_space text) m.config.max_summary_bytes))
      ]

  -- The new summary where turns are dropped.
  unfoldable pub summarize_with :
      Option (Summarizer W) → Manager W → List (List Message) → W → W × Result ErrorCode Text
  unfolding call_summarizer
  summarize_with none m dropped w = (w, ok [])
  summarize_with (some summarize) m dropped w = call_summarizer summarize m dropped w

  unfoldable pub summarize_dropped : Manager W → List (List Message) → W → W × Result ErrorCode Text
  unfolding summarize_with
  summarize_dropped m dropped w = summarize_with m.summarizer m dropped w

  -- `Update` looks at the context before it calls the summarizer.
  unfoldable pub update_summary : Manager W → List (List Message) → W → W × Result ErrorCode Text
  unfolding summarize_dropped
  update_summary m [] w = (w, ok m.summary)
  update_summary m (turn ∷ dropped) w =
      let (w', ended) = mc.ctx_err w in
      let summarized = summarize_dropped m (turn ∷ dropped) w' in
      let direct = summarize_dropped m (turn ∷ dropped) w in
      if has m.summarizer
      then elim ended [ true ↦ (w', err cancelled) | false ↦ summarized ]
      else direct

  -- The bytes of an output that is not over the budget.
  unfoldable pub checked_bytes : Manager W → List Message → Result ErrorCode ℕ
  unfolding measured
  checked_bytes m output = do
    bytes ← measured (mc.measure output) invalid_history
    fail_if (ltb m.config.max_history_bytes bytes) budget_exceeded
    ok bytes

  -- What an operation leaves: the manager, the world and its result.
  abbrev pub Left : Type 0
  Left = Manager W × W × Result ErrorCode Snapshot

  -- The last look at the context; then the new state is published.
  unfoldable pub commit : Manager W → Manager W → Snapshot → W → Left
  commit m m' s w =
      let (w', ended) = mc.ctx_err w in
      elim ended [ true ↦ (m, w', err cancelled) | false ↦ (m', w', ok s) ]

  -- From the new summary on; `extra` is the message to come, where there is one.
  unfoldable pub publish : Manager W → List Message → ℕ → List Message → Cut → Text → W → Left
  unfolding build_history trace_of checked_bytes commit
  publish m input input_bytes extra (dropped, kept) summary w =
      let output = build_history m.system_prompt summary kept in
      elim (checked_bytes m (output ++ extra)) [
        | err e ↦ (m, w, err e)
        | ok bytes ↦
            commit m (record m { summary = summary; turns = kept })
              (record {
                history = output;
                summary = summary;
                trace = trace_of input input_bytes (output ++ extra) bytes dropped summary;
              })
              w
      ]

  -- The outcome of the summary, in both operations.
  unfoldable pub finish_with :
      Manager W → List Message → ℕ → List Message → Cut → W × Result ErrorCode Text → Left
  unfolding publish
  finish_with m input input_bytes extra cut (w, err e) = (m, w, err e)
  finish_with m input input_bytes extra cut (w, ok summary) =
      publish m input input_bytes extra cut summary w

  -- `Update`, from the plan on.
  unfoldable pub update_planned : Manager W → List Message → Result ErrorCode (ℕ × Cut) → W → Left
  unfolding update_summary finish_with
  update_planned m input (err e) w = (m, w, err e)
  update_planned m input (ok (input_bytes, cut)) w =
      finish_with m input input_bytes [] cut (update_summary m cut.0 w)

  unfoldable pub update : Manager W → List Message → W → Left
  unfolding plan_update update_planned
  update m input w =
      let (w', ended) = mc.ctx_err w in
      elim ended [
        | true ↦ (m, w', err cancelled)
        | false ↦ update_planned m input (plan_update m input) w'
      ]

  -- The cut of `Prepare`, with whether a summary is used: where the reserve does not fit beside what
  -- is kept it is given up, and the loop is run again without it.
  unfoldable pub cut_prepare : Manager W → List Message → Result ErrorCode (Bool × Cut)
  unfolding measured evict prepare_reserve use_summary build_history
  cut_prepare m extra = do
    (dropped, kept) ← evict m (prepare_reserve m) extra [] m.turns
    base ←
        measured (mc.measure (build_history m.system_prompt (prepare_reserve m) kept ++ extra))
          invalid_history
    let fits = leb base m.config.max_history_bytes
    cut ← evict m (if fits then prepare_reserve m else []) extra dropped kept
    ok (use_summary m && fits, cut)

  unfoldable pub prepare_summary :
      Manager W → Bool → List (List Message) → W → W × Result ErrorCode Text
  unfolding summarize_dropped
  prepare_summary m used [] w = (w, ok (if used then m.summary else []))
  prepare_summary m used (turn ∷ dropped) w =
      let summarized = summarize_dropped m (turn ∷ dropped) w in
      if used then summarized else (w, ok [])

  -- `Prepare`, where the prompt has to be cut.
  unfoldable pub prepare_cut :
      Manager W → List Message → ℕ → List Message → Result ErrorCode (Bool × Cut) → W → Left
  unfolding prepare_summary finish_with
  prepare_cut m prompt bytes extra (err e) w = (m, w, err e)
  prepare_cut m prompt bytes extra (ok (used, cut)) w =
      finish_with m prompt bytes extra cut (prepare_summary m used cut.0 w)

  -- `Prepare`, from the measure of the prompt on.
  unfoldable pub prepare_measured :
      Manager W → List Message → List Message → Result ErrorCode ℕ → W → Left
  unfolding prepare_cut cut_prepare history trace_of
  prepare_measured m prompt extra (err e) w = (m, w, err e)
  prepare_measured m prompt extra (ok bytes) w =
      let cut = prepare_cut m prompt bytes extra (cut_prepare m extra) w in
      if leb bytes m.config.max_history_bytes
      then (
        m,
        w,
        ok (record {
          history = history m;
          summary = m.summary;
          trace = trace_of prompt bytes prompt bytes [] m.summary;
        }),
      )
      else cut

  unfoldable pub prepare : Manager W → Text → W → Left
  unfolding prepare_measured measured history
  prepare m user_text w =
      let (w', ended) = mc.ctx_err w in
      let extra = plain (codes "user") user_text ∷ [] in
      let prompt = history m ++ extra in
      elim ended [
        | true ↦ (m, w', err cancelled)
        | false ↦ prepare_measured m prompt extra (measured (mc.measure prompt) invalid_history) w'
      ]
