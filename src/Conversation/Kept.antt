-- ===== src/Conversation/Kept.antt =====
-- The session of internal/conversation over the bounded memory of internal/memory.
use xarlatan.Common.{
  ◌≡◌, refl, sym, ap, subst, ◌⊎◌, inl, inr, Bool, true, false, if◌then◌else◌, Option, none, some,
  List, [], ◌∷◌, ◌++◌, Bool-cases, Option-cases,
}
use xarlatan.Common.Results.{Result, ok, err}
use xarlatan.Common.Text.{Text, codes, is_empty, trim_space}
use xarlatan.Conversation.{
  ErrorCode, Cause, SessionError, Answer, no_answer, MemoryOps, AgentOps, call_agent, fail,
  committed, answered, prepared, respond_to, respond,
}
use xarlatan.Memory.Turns.{conversation_messages}
use xarlatan.Memory.{flatten_turns, Manager, Machine, Snapshot, history, plain}
use xarlatan.Memory
use xarlatan.Memory.Bounded.{IsManager, IsMeasure}
use xarlatan.Memory.Kept.{Updates, Prepares, update-Updates, prepare-Prepares}
use xarlatan.Memory.Update.{update, prepare}
use xarlatan.Orchestrator.{Message, Request, RuntimeError}
use xarlatan.Orchestrator

-- The memory as the session sees it.
abbrev pub memory_of : {W : Type 0} → Machine W → MemoryOps (Manager W) W Memory.ErrorCode
memory_of mc = record { prepare = prepare mc; update = update mc }

module _ {W : Type 0} (mc : Machine W) where
  -- The manager holds the last turns of another.
  abbrev pub HoldsLast : Manager W → Manager W → Type 0
  HoldsLast m m' = (dropped : List (List Message)) × (dropped ++ m'.turns ≡ m.turns)

  -- The memory has taken up a turn of the agent: after it was prepared, the turns that it dropped and
  -- those that it keeps are the conversation of the turn, in order.
  pub record IsRecorded (m1 : Manager W) (history : List Message) (m' : Manager W) : Type 0 where
    pub conversation : List Message
    pub accepted : conversation_messages m1.system_prompt m1.summary history ≡ ok conversation
    pub dropped : List (List Message)
    pub all_there : flatten_turns dropped ++ flatten_turns m'.turns ≡ conversation

  -- A turn on a text that is not blank: the agent has answered it without an error, on the history of
  -- the prepared memory; the memory has taken up what it says, and the answer is published.
  pub record IsAnswered (a : AgentOps W) (streamed : Bool) (m m' : Manager W) (text : Text)
      (answer : Answer) : Type 0 where
    pub ready : Manager W
    pub last : HoldsLast m ready
    pub turn : Orchestrator.Result
    pub before : W
    pub behind : W
    pub asked :
        call_agent a a.run_stream streamed (record { input = text; history = history ready }) before
        ≡ (behind, turn, none)
    pub recorded : IsRecorded ready turn.history m'
    pub reply : answer.reply ≡ trim_space turn.reply
    pub shown : answer.history ≡ history m'

  abbrev pub Responds :
      AgentOps W
      → Bool
      → Manager W
      → Text
      → Manager W × W × Result (SessionError Memory.ErrorCode) Answer
      → Type 0
  Responds a streamed m text (m', w, err e) = HoldsLast m m' × IsManager mc m'
  Responds a streamed m text (m', w, ok answer) =
      ((is_empty (trim_space text) ≡ true) × (answer ≡ no_answer) × (m' ≡ m))
      ⊎ ((is_empty (trim_space text) ≡ false)
          × IsAnswered a streamed m m' (trim_space text) answer
          × IsManager mc m')

module _ {W : Type 0} (mc : Machine W) (a : AgentOps W) (streamed : Bool) where
  -- The same, of a text that is trimmed and not blank.
  abbrev RespondsTo :
      Manager W → Text → Manager W × W × Result (SessionError Memory.ErrorCode) Answer → Type 0
  RespondsTo m text (m', w, err e) = HoldsLast mc m m' × IsManager mc m'
  RespondsTo m text (m', w, ok answer) = IsAnswered mc a streamed m m' text answer × IsManager mc m'

  fail-RespondsTo :
      (m m' : Manager W) (text : Text) (code : ErrorCode) (cause : Cause Memory.ErrorCode) (w : W)
      → HoldsLast mc m m'
      → IsManager mc m'
      → RespondsTo m text (fail (memory_of mc) a streamed m' code cause w)
  unfolding fail
  fail-RespondsTo m m' text code cause w last h = elim (Option-cases (a.ctx_err w).1) [
    | inl e ↦ rw (e, fail) (last, h)
    | inr (c, e) ↦ rw (e, fail) (last, h)
  ]

  committed-RespondsTo :
      (m m1 : Manager W) (text : Text) (turn : Orchestrator.Result) (v v' : W)
      (r : Manager W × W × Result Memory.ErrorCode Snapshot)
      → HoldsLast mc m m1
      → IsManager mc m1
      → call_agent a a.run_stream streamed (record { input = text; history = history m1 }) v
        ≡ (v', turn, none)
      → Updates mc m1 turn.history r
      → RespondsTo m text (committed (memory_of mc) a streamed turn r)
  unfolding committed
  committed-RespondsTo m m1 text turn v v' (m', w, err e) last h asked same =
      fail-RespondsTo m m' text _ _ w (subst (HoldsLast mc m) (sym same) last)
        (subst (IsManager mc) (sym same) h)
  committed-RespondsTo m m1 text turn v v' (m', w, ok s) last h asked
        (dropped, c, accepted, parts, same, shown, h') =
      (
        record {
          ready = m1;
          last = last;
          turn = turn;
          before = v;
          behind = v';
          asked = asked;
          recorded = record {
            conversation = c;
            accepted = accepted;
            dropped = dropped;
            all_there = parts;
          };
          reply = refl;
          shown = shown;
        },
        h',
      )

  answered-RespondsTo :
      (m m1 : Manager W) (text : Text) (v : W) (r : W × Orchestrator.Result × Option RuntimeError)
      → HoldsLast mc m m1
      → IsManager mc m1
      → call_agent a a.run_stream streamed (record { input = text; history = history m1 }) v ≡ r
      → RespondsTo m text (answered (memory_of mc) a streamed m1 r)
  unfolding answered
  answered-RespondsTo m m1 text v (w, turn, some e) last h asked =
      fail-RespondsTo m m1 text _ _ w last h
  answered-RespondsTo m m1 text v (w, turn, none) last h asked =
      committed-RespondsTo m m1 text turn v w (update mc m1 turn.history w) last h asked
        (update-Updates mc m1 turn.history w h)

  prepared-RespondsTo :
      (m : Manager W) (text : Text) (extra : List Message)
      (r : Manager W × W × Result Memory.ErrorCode Snapshot)
      → IsManager mc m
      → Prepares mc m extra r
      → RespondsTo m text (prepared (memory_of mc) a streamed text r)
  unfolding prepared
  prepared-RespondsTo m text extra (m', w, err e) h same =
      fail-RespondsTo m m' text _ _ w (subst (HoldsLast mc m) (sym same) ([], refl))
        (subst (IsManager mc) (sym same) h)
  prepared-RespondsTo m text extra (m', w, ok s) h (dropped, parts, same, shown, fits, h') =
      let ask : List Message → W × Orchestrator.Result × Option RuntimeError = λ history.
        call_agent a a.run_stream streamed (record { input = text; history = history }) w in
      answered-RespondsTo m m' text w (ask s.history) (dropped, parts) h' (ap ask (sym shown))

  spoken-Responds :
      (m : Manager W) (text : Text)
      (r : Manager W × W × Result (SessionError Memory.ErrorCode) Answer)
      → is_empty (trim_space text) ≡ false
      → RespondsTo m (trim_space text) r
      → Responds mc a streamed m text r
  spoken-Responds m text (m', w, err e) said h = h
  spoken-Responds m text (m', w, ok answer) said h = inr (said, h.0, h.1)

  -- Whatever the agent does and whenever the context ends, a turn that fails adds nothing to the
  -- memory, which holds the last turns of before. A turn that succeeds was blank, and changes and
  -- publishes nothing; or it was not blank, the agent was asked with the history of the prepared memory
  -- and answered without an error, the memory has taken up the conversation that it left, of which only
  -- the oldest turns are dropped, and what is published is its trimmed reply and the history that the
  -- memory then holds. The memory is taken to be within its budget, and stays so. `Measure` is taken to
  -- count no more bytes for some messages than for them with others behind.
  pub respond-Responds :
      IsMeasure mc
      → (m : Manager W) (text : Text) (w : W) → IsManager mc m
      → Responds mc a streamed m text (respond (memory_of mc) a streamed m text w)
  unfolding respond respond_to
  respond-Responds j m text w h = elim (Option-cases (a.ctx_err w).1) [
    | inr (c, e) ↦ rw (e, respond) (([], refl), h)
    | inl e ↦ elim (Bool-cases (is_empty (trim_space text))) [
      | inl blank ↦ rw (e, blank, respond, respond_to) (inl (blank, refl, refl))
      | inr said ↦
          let turn =
            prepared (memory_of mc) a streamed (trim_space text)
              (prepare mc m (trim_space text) (a.ctx_err w).0) in
          rw (e, respond, respond_to)
            (subst
              (λ b.
                Responds mc a streamed m text
                  (if b then (m, (a.ctx_err w).0, ok no_answer) else turn))
              (sym said)
              (spoken-Responds m text turn said (
                prepared-RespondsTo m (trim_space text)
                  (plain (codes "user") (trim_space text) ∷ [])
                  (prepare mc m (trim_space text) (a.ctx_err w).0) h
                  (prepare-Prepares mc j m (trim_space text) (a.ctx_err w).0 h))))
    ]
  ]
