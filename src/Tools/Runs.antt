-- ===== src/Tools/Runs.antt =====
-- What the executor of internal/tools/executor.go does with the calls of a round.
use xarlatan.Common.{
  ◌≡◌, refl, ap, ◌⊎◌, inl, inr, true, false, Option, none, some, List, [], ◌∷◌, arith, ◌++◌, length,
  Bool-cases, Option-cases,
}
use xarlatan.Common.Text.{Text, codes}
use xarlatan.Tools.{Tool, Registry, allows, get, find, is_denied}
use xarlatan.Tools.Registered.{IsRegistry, find_named}
use xarlatan.Tools.Executor.{
  ToolCall, ExecutionErrorCode, unknown_tool, denied_tool, tool_error, cancelled, ExecutionRecord,
  ContextError, Machine, executed, tool_message, not_found, denied_by_policy, execute_tool,
  dispatch, run_detailed, run_all_detailed,
}

-- A call for which nothing is executed: the world stays, and the record names the reason and tells
-- the model of it.
pub record IsRefusal {W : Type 0} (w v : W) (code : ExecutionErrorCode) (text : Text)
    (x : ExecutionRecord) : Type 0 where
  pub idle : v ≡ w
  pub reason : x.error_code ≡ some code
  pub told : x.message.content ≡ text

-- The run of a tool on the arguments of a call: its content is the record's, the world is the tool's
-- behind the look at the context, and the error tells a context that has ended and a failing tool.
pub record IsRun {W : Type 0} (m : Machine W) (t : Tool W) (call : ToolCall) (w v : W)
    (x : ExecutionRecord) : Type 0 where
  pub ran : v ≡ (m.ctx_err (t.execute call.arguments w).0).0
  pub content : x.message.content ≡ (t.execute call.arguments w).1.content
  pub reason :
      ((e : ContextError) × ((m.ctx_err (t.execute call.arguments w).0).1 ≡ some e)
        × (x.error_code ≡ some cancelled))
      ⊎ ((((m.ctx_err (t.execute call.arguments w).0).1 ≡ none)
            × ((t.execute call.arguments w).1.is_error ≡ true)
            × (x.error_code ≡ some tool_error))
          ⊎ (((m.ctx_err (t.execute call.arguments w).0).1 ≡ none)
              × ((t.execute call.arguments w).1.is_error ≡ false)
              × (x.error_code ≡ none)))

-- What becomes of a call: it is unknown, it is denied, or the tool of its name runs.
abbrev pub Outcome :
    {W : Type 0} → Machine W → Option (Registry W) → ToolCall → W → W → ExecutionRecord → Type 0
Outcome m none call w v x =
    IsRefusal w v unknown_tool (codes "ERROR: unknown tool " ++ m.quote call.name) x
Outcome m (some r) call w v x =
    ((is_denied r call.name ≡ true)
      × IsRefusal w v denied_tool
          (codes "ERROR: tool " ++ m.quote call.name ++ codes " denied by policy") x)
    ⊎ (((is_denied r call.name ≡ false)
          × (get r call.name ≡ none)
          × IsRefusal w v unknown_tool (codes "ERROR: unknown tool " ++ m.quote call.name) x)
        ⊎ ((t : Tool _) × (is_denied r call.name ≡ false)
            × (get r call.name ≡ some t)
            × IsRun m t call w v x))

-- A record answers a call in a world, and leaves another: its message is addressed to the call.
pub record Answers {W : Type 0} (m : Machine W) (r : Option (Registry W)) (call : ToolCall)
    (w v : W) (x : ExecutionRecord) : Type 0 where
  pub about : x.call ≡ call
  pub role : x.message.role ≡ codes "tool"
  pub addressed : x.message.tool_call_id ≡ call.id
  pub outcome : Outcome m r call w v x

-- The records of a round that starts in one world and ends in another: each answers the next call in
-- the world that the call before has left. A round is broken off only where the context has ended.
pub data IsRound {W : Type 0} (m : Machine W) (r : Option (Registry W))
    : List ToolCall → W → W → List ExecutionRecord → Type 0 where
  all_done : {w : W} → IsRound m r [] w w []
  ended_before :
      {call : ToolCall} {calls : List ToolCall} {w : W} (e : ContextError)
      → (m.ctx_err w).1 ≡ some e
      → IsRound m r (call ∷ calls) w (m.ctx_err w).0 []
  ended_behind :
      {call : ToolCall} {calls : List ToolCall} {w v : W} {x : ExecutionRecord} (e : ContextError)
      → (m.ctx_err w).1 ≡ none
      → Answers m r call (m.ctx_err w).0 v x
      → (m.ctx_err v).1 ≡ some e
      → IsRound m r (call ∷ calls) w (m.ctx_err v).0 (x ∷ [])
  answered :
      {call : ToolCall} {calls : List ToolCall} {w v u : W} {x : ExecutionRecord}
      {xs : List ExecutionRecord}
      → (m.ctx_err w).1 ≡ none
      → Answers m r call (m.ctx_err w).0 v x
      → (m.ctx_err v).1 ≡ none
      → IsRound m r calls (m.ctx_err v).0 u xs
      → IsRound m r (call ∷ calls) w u (x ∷ xs)

module _ {W : Type 0} (m : Machine W) where
  execute_tool-IsRun :
      (call : ToolCall) (w : W) (t : Tool W)
      → IsRun m t call w (execute_tool m t call w).0 (execute_tool m t call w).1
  unfolding execute_tool executed tool_message
  execute_tool-IsRun call w t =
      let (v, result) = t.execute call.arguments w in
      elim (Option-cases (m.ctx_err v).1) [
        | inr (e, p) ↦
            rw (p, execute_tool) (record { ran = refl; content = refl; reason = inl (e, p, refl) })
        | inl p ↦ elim (Bool-cases result.is_error) [
          | inl bad ↦
              rw (p, bad, execute_tool)
                (record { ran = refl; content = refl; reason = inr (inl (p, bad, refl)) })
          | inr good ↦
              rw (p, good, execute_tool)
                (record { ran = refl; content = refl; reason = inr (inr (p, good, refl)) })
        ]
      ]

  execute_tool-addressed :
      (call : ToolCall) (w : W) (t : Tool W)
      → ((execute_tool m t call w).1.call ≡ call)
        × ((execute_tool m t call w).1.message.role ≡ codes "tool")
        × ((execute_tool m t call w).1.message.tool_call_id ≡ call.id)
  unfolding execute_tool executed tool_message
  execute_tool-addressed call w t =
      elim (Option-cases (m.ctx_err (t.execute call.arguments w).0).1) [
        | inl e ↦ rw (e, execute_tool) (refl, refl, refl)
        | inr (x, e) ↦ rw (e, execute_tool) (refl, refl, refl)
      ]

  run_detailed-Answers :
      (r : Option (Registry W)) (call : ToolCall) (w : W)
      → Answers m r call w (run_detailed m r call w).0 (run_detailed m r call w).1
  unfolding run_detailed dispatch not_found denied_by_policy tool_message
  run_detailed-Answers none call w = record {
    about = refl;
    role = refl;
    addressed = refl;
    outcome = record { idle = refl; reason = refl; told = refl };
  }
  run_detailed-Answers (some r) call w = elim (Bool-cases (is_denied r call.name)) [
    | inl e ↦
        rw (e, run_detailed)
          (record {
            about = refl;
            role = refl;
            addressed = refl;
            outcome = inl (e, record { idle = refl; reason = refl; told = refl });
          })
    | inr e ↦ elim (Option-cases (get r call.name)) [
      | inl f ↦
          rw (e, f, run_detailed)
            (record {
              about = refl;
              role = refl;
              addressed = refl;
              outcome = inr (inl (e, f, record { idle = refl; reason = refl; told = refl }));
            })
      | inr (t, f) ↦
          let (about, role, addressed) = execute_tool-addressed call w t in
          rw (e, f, run_detailed)
            (record {
              about = about;
              role = role;
              addressed = addressed;
              outcome = inr (inr (t, e, f, execute_tool-IsRun call w t));
            })
    ]
  ]

  -- The calls of a round are answered in their order, each in the world that the one before has left,
  -- and the round is broken off only where the context has ended. The message of an answer is the
  -- call's own: without a registry, or without a tool of the call's name in it, nothing is executed
  -- and the tool is unknown; a denied tool is not executed and denied; any other is executed once on
  -- the call's arguments, its content is what is answered, and the record tells whether it failed or
  -- the context ended meanwhile.
  pub run_all_detailed-IsRound :
      (r : Option (Registry W)) (calls : List ToolCall) (w : W)
      → IsRound m r calls w (run_all_detailed m r calls w).0 (run_all_detailed m r calls w).1
  unfolding run_all_detailed
  run_all_detailed-IsRound r [] w = all_done
  run_all_detailed-IsRound r (call ∷ calls) w = elim (Option-cases (m.ctx_err w).1) [
    | inr (x, e) ↦ rw (e, run_all_detailed) (ended_before x e)
    | inl e ↦
        let w' = (m.ctx_err w).0 in
        let one = run_detailed m r call w' in
        let law = run_detailed-Answers r call w' in
        elim (Option-cases (m.ctx_err one.0).1) [
          | inr (x, f) ↦ rw (e, f, run_all_detailed) (ended_behind x e law f)
          | inl f ↦
              rw (e, f, run_all_detailed)
                (answered e law f (run_all_detailed-IsRound r calls (m.ctx_err one.0).0))
        ]
  ]

  -- While the context lasts, every call is answered.
  pub run_all_detailed_complete :
      (lasting : (w : W) → (m.ctx_err w).1 ≡ none) (r : Option (Registry W)) (calls : List ToolCall)
      (w : W)
      → length (run_all_detailed m r calls w).1 ≡ length calls
  unfolding run_all_detailed
  run_all_detailed_complete lasting r [] w = refl
  run_all_detailed_complete lasting r (call ∷ calls) w =
      let w' = (m.ctx_err w).0 in
      let one = run_detailed m r call w' in
      rw (lasting w, lasting one.0, run_all_detailed)
        (omega (arith, run_all_detailed_complete lasting r calls (m.ctx_err one.0).0))

  -- With a registry that is well formed, a tool that the policy forbids is not executed: the call changes nothing in the world,
  -- and its record says that the tool is denied or unknown.
  pub run_detailed-denied :
      (r : Registry W) (call : ToolCall) (w : W)
      → IsRegistry r
      → allows r.policy call.name ≡ false
      → ((run_detailed m (some r) call w).0 ≡ w)
        × (((run_detailed m (some r) call w).1.error_code ≡ some denied_tool)
            ⊎ ((run_detailed m (some r) call w).1.error_code ≡ some unknown_tool))
  unfolding run_detailed dispatch not_found denied_by_policy get
  run_detailed-denied r call w h forbidden = elim (Bool-cases (is_denied r call.name)) [
    | inl e ↦ rw (e, run_detailed) (refl, inl refl)
    | inr e ↦ elim (Option-cases (find r.tools call.name)) [
      | inl f ↦ rw (e, f, run_detailed) (refl, inr refl)
      | inr (t, f) ↦
          let (ok, same) =
            find_named (λ (x : Tool W). allows r.policy x.name ≡ true) r.tools call.name t
              h.all_allowed f in
          absurd (cc (ok, forbidden, ap (allows r.policy) same))
    ]
  ]
