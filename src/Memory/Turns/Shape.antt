-- ===== src/Memory/Turns/Shape.antt =====
-- What `splitTurns` of internal/memory/memory.go accepts: whole turns, in which every tool call is
-- answered before the assistant goes on.
use xarlatan.Common.{
  ◌≡◌, refl, sym, ap, ◌∙◌, subst, inl, inr, true, false, not, List, [], ◌∷◌, ◌++◌, map, append-nil,
  append_assoc, arith, if◌then◌else◌, Bool-cases, All, All-append,
}
use xarlatan.Common.Text.{Text, is_empty, trim_space}
use xarlatan.Common.Results.{ok, fail_if, ok_inj, >>=-eq-ok, fail_if-eq-ok}
use xarlatan.Tools.Executor.{ToolCall}
use xarlatan.Orchestrator.{Message}
use xarlatan.Memory.{flatten_turns}
use xarlatan.Memory.Turns.{
  Role, user, assistant, tool, system, unsupported, role_of, has_tool_fields, waits, delete,
  enter_calls, Split, finish, add_user, add_assistant, add_tool, add_message, split_from,
  split_turns,
}

-- The ids of some calls are not empty, and each is new among the ones before it.
pub data Distinct : List Text → Type 0 where
  none_yet : Distinct []
  one_more :
      {ids : List Text} (id : Text)
      → Distinct ids
      → is_empty id ≡ false
      → waits ids id ≡ false
      → Distinct (ids ++ id ∷ [])

-- A turn under way, with the ids of the calls that wait for their results.
pub data Open : List Text → List Message → Type 0 where
  asked : (m : Message) → role_of m ≡ user → has_tool_fields m ≡ false → Open [] (m ∷ [])
  answered :
      {ms : List Message} (m : Message)
      → Open [] ms
      → role_of m ≡ assistant
      → is_empty m.tool_call_id ≡ true
      → Distinct (map (λ (c : ToolCall). trim_space c.id) m.tool_calls)
      → Open (map (λ (c : ToolCall). trim_space c.id) m.tool_calls) (ms ++ m ∷ [])
  returned :
      {pending : List Text} {ms : List Message} (m : Message)
      → Open pending ms
      → role_of m ≡ tool
      → is_empty m.tool_calls ≡ true
      → waits pending (trim_space m.tool_call_id) ≡ true
      → Open (delete pending (trim_space m.tool_call_id)) (ms ++ m ∷ [])

-- A whole turn: a user message, then answers and tool results, with no call left without its result.
abbrev pub IsTurn : List Message → Type 0
IsTurn = Open []

enter_calls-Distinct :
    (calls : List ToolCall) (pending ids : List Text)
    → Distinct pending
    → enter_calls pending calls ≡ ok ids
    → Distinct ids × (ids ≡ pending ++ map (λ (c : ToolCall). trim_space c.id) calls)
unfolding enter_calls
enter_calls-Distinct [] pending ids d h =
    let same : pending ≡ ids = ok_inj h in
    (subst Distinct same d, sym same ∙ sym (append-nil pending))
enter_calls-Distinct (call ∷ calls) pending ids d h =
    let id = trim_space call.id in
    let (u, named, h1) = >>=-eq-ok (fail_if (is_empty id) _) _ h in
    let (v, fresh, h2) = >>=-eq-ok (fail_if (waits pending id) _) _ h1 in
    let later =
      enter_calls-Distinct calls (pending ++ id ∷ []) ids
        (one_more id d (fail_if-eq-ok _ _ named) (fail_if-eq-ok _ _ fresh)) h2 in
    (later.0, later.1 ∙ append_assoc pending (id ∷ []) _)

-- Between two messages: the turns so far are whole, and the current one is under way, if there is one.
data IsSplit (s : Split) : Type 0 where
  outside : s.current ≡ [] → s.pending ≡ [] → All IsTurn s.turns → IsSplit s
  inside : Open s.pending s.current → All IsTurn s.turns → IsSplit s

-- The messages that have been read.
abbrev flat : Split → List Message
flat s = flatten_turns s.turns ++ s.current

pub flatten_turns-append :
    (xs ys : List (List Message)) → flatten_turns (xs ++ ys) ≡ flatten_turns xs ++ flatten_turns ys
unfolding flatten_turns
flatten_turns-append [] ys = refl
flatten_turns-append (x ∷ xs) ys =
    ap (λ t. x ++ t) (flatten_turns-append xs ys)
    ∙ sym (append_assoc x (flatten_turns xs) (flatten_turns ys))

empty_is_nil : {A : Type 0} (xs : List A) → is_empty xs ≡ true → xs ≡ []
empty_is_nil [] h = refl
empty_is_nil (x ∷ xs) h = absurd (cc)

not-not_empty : {A : Type 0} (xs : List A) → not (is_empty xs) ≡ false → xs ≡ []
not-not_empty [] h = refl
not-not_empty (x ∷ xs) h = absurd (cc)

-- A current turn that is not empty is under way.
Open-now :
    (s : Split)
    → IsSplit s
    → is_empty s.current ≡ false
    → Open s.pending s.current × All IsTurn s.turns
Open-now s (outside e p t) h = absurd (ground (arith, ap is_empty e, h))
Open-now s (inside o t) h = (o, t)

whole_turns : (s : Split) → IsSplit s → All IsTurn s.turns
whole_turns s (outside e p t) = t
whole_turns s (inside o t) = t

empty-append_last : {A : Type 0} (xs : List A) (x : A) → is_empty (xs ++ x ∷ []) ≡ false
empty-append_last [] x = refl
empty-append_last (y ∷ xs) x = refl

Open-nonempty : {pending : List Text} {ms : List Message} → Open pending ms → is_empty ms ≡ false
Open-nonempty (asked m r f) = refl
Open-nonempty (answered {ms = ms} m o r i d) = empty-append_last ms m
Open-nonempty (returned {ms = ms} m o r i w) = empty-append_last ms m

idle_pending : (s : Split) → IsSplit s → is_empty s.current ≡ true → s.pending ≡ []
idle_pending s (outside e p t) h = p
idle_pending s (inside o t) h = absurd (cc (Open-nonempty o, h))

-- A finished split: only whole turns.
record IsDone (s : Split) (seen : List Message) : Type 0 where
  none_open : s.current ≡ []
  none_pending : s.pending ≡ []
  whole : All IsTurn s.turns
  complete : flatten_turns s.turns ≡ seen

finish-IsDone : (s s' : Split) → IsSplit s → finish s ≡ ok s' → IsDone s' (flat s)
unfolding finish flatten_turns
finish-IsDone s s' h e =
    let (u, answered_all, e1) = >>=-eq-ok (fail_if (not (is_empty s.pending)) _) _ e in
    let idle : s.pending ≡ [] = not-not_empty s.pending (fail_if-eq-ok _ _ answered_all) in
    elim (Bool-cases (is_empty s.current)) [
      | inl p ↦
          let same : s ≡ s' = ok_inj (rw p at e1) in
          let nothing = empty_is_nil s.current p in
          subst (λ x. IsDone x (flat s)) same
            (record {
              none_open = nothing;
              none_pending = idle;
              whole = whole_turns s h;
              complete =
                  sym (append-nil (flatten_turns s.turns))
                  ∙ ap (λ c. flatten_turns s.turns ++ c) (sym nothing);
            })
      | inr p ↦
          let same : record s { turns = s.turns ++ s.current ∷ []; current = [] } ≡ s' =
            ok_inj (rw p at e1) in
          let (o, t) = Open-now s h p in
          subst (λ x. IsDone x (flat s)) same
            (record {
              none_open = refl;
              none_pending = idle;
              whole =
                  All-append IsTurn s.turns (s.current ∷ []) t
                    (subst (λ q. Open q s.current) idle o, tt);
              complete =
                  flatten_turns-append s.turns (s.current ∷ [])
                  ∙ ap (λ c. flatten_turns s.turns ++ c) (append-nil s.current);
            })
    ]

-- A step keeps the split well formed, and adds its message to those that have been read.
record IsStep (s s' : Split) (m : Message) : Type 0 where
  kept : IsSplit s'
  grown : flat s' ≡ flat s ++ m ∷ []

add_user-IsStep :
    (s s' : Split) (m : Message)
    → IsSplit s
    → role_of m ≡ user
    → add_user s m ≡ ok s'
    → IsStep s s' m
unfolding add_user
add_user-IsStep s s' m h r e =
    let (u, clean, e1) = >>=-eq-ok (fail_if (has_tool_fields m) _) _ e in
    let (s1, first, e2) =
      >>=-eq-ok (if is_empty s.current then ok s else finish s)
        (λ x. ok (record x { current = x.current ++ m ∷ [] })) e1 in
    let same : record s1 { current = s1.current ++ m ∷ [] } ≡ s' = ok_inj e2 in
    let d : IsDone s1 (flat s) = between s1 first in
    let plain_user : Open s1.pending (s1.current ++ m ∷ []) =
      rw (d.none_open, d.none_pending) (asked m r (fail_if-eq-ok _ _ clean)) in
    subst (λ x. IsStep s x m) same
      (record { kept = inside plain_user d.whole; grown = rw (d.none_open, d.complete) refl })
  where
    between :
        (x : Split) → (if is_empty s.current then ok s else finish s) ≡ ok x → IsDone x (flat s)
    between x f = elim (Bool-cases (is_empty s.current)) [
      | inr p ↦ finish-IsDone s x h (sym (ap (λ t. if t then ok s else finish s) p) ∙ f)
      | inl p ↦
          let same : s ≡ x = ok_inj (sym (ap (λ t. if t then ok s else finish s) p) ∙ f) in
          let nothing = empty_is_nil s.current p in
          subst (λ y. IsDone y (flat s)) same
            (record {
              none_open = nothing;
              none_pending = idle_pending s h p;
              whole = whole_turns s h;
              complete =
                  sym (append-nil (flatten_turns s.turns))
                  ∙ ap (λ c. flatten_turns s.turns ++ c) (sym nothing);
            })
    ]

-- The current turn grows by a message that keeps it open.
grow-IsStep :
    (s : Split) (m : Message) (pending : List Text)
    → All IsTurn s.turns
    → Open pending (s.current ++ m ∷ [])
    → IsStep s (record s { current = s.current ++ m ∷ []; pending = pending }) m
grow-IsStep s m pending t o = record {
  kept = inside o t;
  grown = sym (append_assoc (flatten_turns s.turns) s.current (m ∷ []));
}

add_assistant-IsStep :
    (s s' : Split) (m : Message)
    → IsSplit s
    → role_of m ≡ assistant
    → add_assistant s m ≡ ok s'
    → IsStep s s' m
unfolding add_assistant
add_assistant-IsStep s s' m h r e =
    let (u, begun, e1) = >>=-eq-ok (fail_if (is_empty s.current) _) _ e in
    let (v, all, e2) = >>=-eq-ok (fail_if (not (is_empty s.pending)) _) _ e1 in
    let (x, bare, e3) = >>=-eq-ok (fail_if (not (is_empty m.tool_call_id)) _) _ e2 in
    let (ids, entered, e4) =
      >>=-eq-ok (enter_calls s.pending m.tool_calls)
        (λ q. ok (record s { current = s.current ++ m ∷ []; pending = q })) e3 in
    let idle : s.pending ≡ [] = not-not_empty s.pending (fail_if-eq-ok _ _ all) in
    let (o, t) = Open-now s h (fail_if-eq-ok _ _ begun) in
    let (fresh, made) =
      enter_calls-Distinct m.tool_calls [] ids none_yet
        (sym (ap (λ q. enter_calls q m.tool_calls) idle) ∙ entered) in
    subst (λ z. IsStep s z m) (ok_inj e4)
      (grow-IsStep s m ids t (
        subst (λ q. Open q (s.current ++ m ∷ [])) (sym made)
          (answered m (subst (λ q. Open q s.current) idle o) r
            (ap is_empty (not-not_empty m.tool_call_id (fail_if-eq-ok _ _ bare)))
            (subst Distinct made fresh))))

add_tool-IsStep :
    (s s' : Split) (m : Message)
    → IsSplit s
    → role_of m ≡ tool
    → add_tool s m ≡ ok s'
    → IsStep s s' m
unfolding add_tool
add_tool-IsStep s s' m h r e =
    let id = trim_space m.tool_call_id in
    let (u, begun, e1) = >>=-eq-ok (fail_if (is_empty s.current) _) _ e in
    let (v, bare, e2) = >>=-eq-ok (fail_if (not (is_empty m.tool_calls)) _) _ e1 in
    let (x, named, e3) = >>=-eq-ok (fail_if (is_empty id) _) _ e2 in
    let (y, known, e4) = >>=-eq-ok (fail_if (not (waits s.pending id)) _) _ e3 in
    let (o, t) = Open-now s h (fail_if-eq-ok _ _ begun) in
    subst (λ z. IsStep s z m) (ok_inj e4)
      (grow-IsStep s m (delete s.pending id) t (
        returned m o r (ap is_empty (not-not_empty m.tool_calls (fail_if-eq-ok _ _ bare)))
          (ground (arith, fail_if-eq-ok _ _ known))))

add_message-IsStep :
    (s s' : Split) (m : Message) (r : Role)
    → role_of m ≡ r
    → IsSplit s
    → add_message r s m ≡ ok s'
    → IsStep s s' m
unfolding add_message
add_message-IsStep s s' m user r h e = add_user-IsStep s s' m h r e
add_message-IsStep s s' m assistant r h e = add_assistant-IsStep s s' m h r e
add_message-IsStep s s' m tool r h e = add_tool-IsStep s s' m h r e
add_message-IsStep s s' m system r h e = absurd (cc)
add_message-IsStep s s' m unsupported r h e = absurd (cc)

split_from-IsDone :
    (s s' : Split) (ms : List Message)
    → IsSplit s
    → split_from s ms ≡ ok s'
    → All IsTurn s'.turns × (flatten_turns s'.turns ≡ flat s ++ ms)
unfolding split_from
split_from-IsDone s s' [] h e =
    let d = finish-IsDone s s' h e in (d.whole, d.complete ∙ sym (append-nil (flat s)))
split_from-IsDone s s' (m ∷ ms) h e =
    let (s1, first, e1) = >>=-eq-ok (add_message (role_of m) s m) (λ x. split_from x ms) e in
    let step = add_message-IsStep s s1 m (role_of m) refl h first in
    let (t, all) = split_from-IsDone s1 s' ms step.kept e1 in
    (t, all ∙ ap (λ f. f ++ ms) step.grown ∙ append_assoc (flat s) (m ∷ []) ms)

-- A conversation that is accepted is cut into whole turns, which hold its messages in order.
pub split_turns_lem :
    (ms : List Message) (turns : List (List Message))
    → split_turns ms ≡ ok turns
    → All IsTurn turns × (flatten_turns turns ≡ ms)
unfolding split_turns flatten_turns
split_turns_lem ms turns e =
    let start : Split = record { turns = []; current = []; pending = [] } in
    let (s, done, e1) = >>=-eq-ok (split_from start ms) (λ (x : Split). ok x.turns) e in
    let (t, all) = split_from-IsDone start s ms (outside refl refl tt) done in
    let same : s.turns ≡ turns = ok_inj e1 in
    (subst (All IsTurn) same t, ap flatten_turns (sym same) ∙ all)
