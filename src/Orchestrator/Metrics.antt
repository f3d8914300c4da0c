-- ===== src/Orchestrator/Metrics.antt =====
-- `MetricsObserver` of internal/orchestrator/observability.go. A map of counters is an association
-- list; a key that is missing counts 0. The lock has no counterpart here.
use xarlatan.Common.{
  ℕ, ◌+◌, ◌≡◌, refl, ap, inl, inr, Bool, true, not, Option, none, some, List, [], ◌∷◌, arith,
  length, ◌==◌, if◌then◌else◌, Bool-cases,
}
use xarlatan.Common.Text.{Text, is_empty, text_eq, text_eq_iff}
use xarlatan.Orchestrator.{
  StopReason, stop_direct_reply, stop_round_limit, stop_model_error, stop_cancelled,
  stop_deadline_exceeded, ToolTrace, RoundTrace,
}

module _ {K : Type 0} (eq : K → K → Bool) where
  -- `counter[key]++`
  unfoldable pub increment : K → List (K × ℕ) → List (K × ℕ)
  increment key [] = (key, 1) ∷ []
  increment key ((k, n) ∷ counter) =
      let rest = increment key counter in if eq k key then (k, n + 1) ∷ counter else (k, n) ∷ rest

  unfoldable pub lookup : K → List (K × ℕ) → ℕ
  lookup key [] = 0
  lookup key ((k, n) ∷ counter) = if eq k key then n else lookup key counter

  -- A test of equality.
  record IsTest : Type 0 where
    same : (a : K) → eq a a ≡ true
    agree : (a b c : K) → eq a b ≡ true → eq a c ≡ eq b c

  lookup-increment :
      (t : IsTest) (key j : K) (counter : List (K × ℕ))
      → lookup j (increment key counter) ≡ lookup j counter + (if eq key j then 1 else 0)
  unfolding increment lookup
  lookup-increment t key j [] = ground arith
  lookup-increment t key j ((k, n) ∷ counter) = elim (Bool-cases (eq k key)) [
    | inl e ↦ ground (arith, e, t.agree k key j e)
    | inr e ↦ elim (Bool-cases (eq k j)) [
      | inr f ↦ ground (arith, e, f, lookup-increment t key j counter)
      | inl f ↦ elim (Bool-cases (eq key j)) [
        | inr g ↦ ground (arith, e, f, g)
        | inl g ↦ absurd (cc (e, t.agree k j key f, t.agree key j key g, t.same key))
      ]
    ]
  ]

-- `==` on stop reasons, which are strings of their own.
unfoldable pub stop_number : StopReason → ℕ
stop_number stop_direct_reply = 0
stop_number stop_round_limit = 1
stop_number stop_model_error = 2
stop_number stop_cancelled = 3
stop_number stop_deadline_exceeded = 4

unfoldable pub same_stop : StopReason → StopReason → Bool
same_stop a b = stop_number a == stop_number b

pub record MetricsObserver : Type 0 where
  pub rounds : ℕ
  pub tool_rounds : ℕ
  pub tool_calls : List (Text × ℕ)
  pub tool_failures : List (Text × ℕ)
  pub stops : List (StopReason × ℕ)

unfoldable pub new_metrics_observer : MetricsObserver
new_metrics_observer = record {
  rounds = 0;
  tool_rounds = 0;
  tool_calls = [];
  tool_failures = [];
  stops = [];
}

-- The loop over the tools of a round.
unfoldable pub count_tools : List ToolTrace → MetricsObserver → MetricsObserver
unfolding increment
count_tools [] m = m
count_tools (t ∷ ts) m = count_tools ts (record m {
  tool_calls = increment text_eq t.tool m.tool_calls;
  tool_failures =
      if not t.success then increment text_eq t.tool m.tool_failures else m.tool_failures;
})

unfoldable pub count_stop : Option StopReason → MetricsObserver → MetricsObserver
unfolding increment
count_stop none m = m
count_stop (some s) m = record m { stops = increment same_stop s m.stops }

unfoldable pub on_round : RoundTrace → MetricsObserver → MetricsObserver
unfolding count_tools count_stop
on_round round m = count_stop round.stop_reason (
    count_tools round.tools (record m {
      rounds = m.rounds + 1;
      tool_rounds = if is_empty round.tools then m.tool_rounds else m.tool_rounds + 1;
    }))

-- The rounds of any number of turns, in the order in which they are observed.
unfoldable pub observe_all : List RoundTrace → MetricsObserver → MetricsObserver
observe_all [] m = m
observe_all (r ∷ rs) m = observe_all rs (on_round r m)

-- The executions of a tool in a round, and those that failed.
abbrev pub calls_of : Text → List ToolTrace → ℕ
calls_of name [] = 0
calls_of name (t ∷ ts) = (if text_eq t.tool name then 1 else 0) + calls_of name ts

abbrev pub failures_of : Text → List ToolTrace → ℕ
failures_of name [] = 0
failures_of name (t ∷ ts) =
    (if t.success then 0 else if text_eq t.tool name then 1 else 0) + failures_of name ts

abbrev pub sum : (RoundTrace → ℕ) → List RoundTrace → ℕ
sum f [] = 0
sum f (r ∷ rs) = f r + sum f rs

text_eq-IsTest : IsTest text_eq
text_eq-IsTest = record {
  same = λ a. (text_eq_iff a a).1 refl;
  agree = λ a b c h. ap (λ x. text_eq x c) ((text_eq_iff a b).0 h);
}

-- What one round adds.
record Adds (ts : List ToolTrace) (m m' : MetricsObserver) : Type 0 where
  calls :
      (name : Text)
      → lookup text_eq name m'.tool_calls ≡ lookup text_eq name m.tool_calls + calls_of name ts
  failures :
      (name : Text)
      → lookup text_eq name m'.tool_failures
        ≡ lookup text_eq name m.tool_failures + failures_of name ts
  same_rounds : m'.rounds ≡ m.rounds
  same_tool_rounds : m'.tool_rounds ≡ m.tool_rounds

count_failure :
    (t : ToolTrace) (counter : List (Text × ℕ)) (name : Text)
    → lookup text_eq name (if not t.success then increment text_eq t.tool counter else counter)
      ≡ lookup text_eq name counter
        + (if t.success then 0 else if text_eq t.tool name then 1 else 0)
count_failure t counter name = elim (Bool-cases t.success) [
  | inl e ↦ simp e (omega arith)
  | inr e ↦ simp e (lookup-increment text_eq text_eq-IsTest t.tool name counter)
]

count_tools-Adds : (ts : List ToolTrace) (m : MetricsObserver) → Adds ts m (count_tools ts m)
unfolding count_tools
count_tools-Adds [] m = record {
  calls = λ name. omega arith;
  failures = λ name. omega arith;
  same_rounds = refl;
  same_tool_rounds = refl;
}
count_tools-Adds (t ∷ ts) m =
    let m1 : MetricsObserver = record m {
      tool_calls = increment text_eq t.tool m.tool_calls;
      tool_failures =
          if not t.success then increment text_eq t.tool m.tool_failures else m.tool_failures;
    } in
    let rest = count_tools-Adds ts m1 in
    record {
      calls = λ name. omega (
        arith,
        rest.calls name,
        lookup-increment text_eq text_eq-IsTest t.tool name m.tool_calls,
      );
      failures = λ name. omega (arith, rest.failures name, count_failure t m.tool_failures name);
      same_rounds = rest.same_rounds;
      same_tool_rounds = rest.same_tool_rounds;
    }

abbrev has_tools : RoundTrace → ℕ
has_tools r = if is_empty r.tools then 0 else 1

-- What the observer counts of some rounds.
record Counts (rs : List RoundTrace) (m m' : MetricsObserver) : Type 0 where
  all_rounds : m'.rounds ≡ m.rounds + length rs
  with_tools : m'.tool_rounds ≡ m.tool_rounds + sum has_tools rs
  calls :
      (name : Text)
      → lookup text_eq name m'.tool_calls
        ≡ lookup text_eq name m.tool_calls + sum (λ r. calls_of name r.tools) rs
  failures :
      (name : Text)
      → lookup text_eq name m'.tool_failures
        ≡ lookup text_eq name m.tool_failures + sum (λ r. failures_of name r.tools) rs

count_stop_keeps :
    (s : Option StopReason) (ts : List ToolTrace) (m m' : MetricsObserver)
    → Adds ts m m'
    → Adds ts m (count_stop s m')
unfolding count_stop
count_stop_keeps none ts m m' h = h
count_stop_keeps (some s) ts m m' h = record {
  calls = h.calls;
  failures = h.failures;
  same_rounds = h.same_rounds;
  same_tool_rounds = h.same_tool_rounds;
}

observe_all-Counts : (rs : List RoundTrace) (m : MetricsObserver) → Counts rs m (observe_all rs m)
unfolding observe_all on_round
observe_all-Counts [] m = record {
  all_rounds = omega arith;
  with_tools = omega arith;
  calls = λ name. omega arith;
  failures = λ name. omega arith;
}
observe_all-Counts (r ∷ rs) m =
    let entered : MetricsObserver = record m {
      rounds = m.rounds + 1;
      tool_rounds = if is_empty r.tools then m.tool_rounds else m.tool_rounds + 1;
    } in
    let one =
      count_stop_keeps r.stop_reason r.tools entered (count_tools r.tools entered)
        (count_tools-Adds r.tools entered) in
    let rest = observe_all-Counts rs (on_round r m) in
    record {
      all_rounds = omega (arith, rest.all_rounds, one.same_rounds);
      with_tools = ground (arith, rest.with_tools, one.same_tool_rounds);
      calls = λ name. omega (arith, rest.calls name, one.calls name);
      failures = λ name. omega (arith, rest.failures name, one.failures name);
    }

-- A new observer that has seen some rounds counts them, those among them with tools, and for each
-- tool its executions and its failures.
pub observe_all_counts :
    (rs : List RoundTrace) (name : Text)
    → let m = observe_all rs new_metrics_observer in
      (m.rounds ≡ length rs)
      × (m.tool_rounds ≡ sum has_tools rs)
      × (lookup text_eq name m.tool_calls ≡ sum (λ r. calls_of name r.tools) rs)
      × (lookup text_eq name m.tool_failures ≡ sum (λ r. failures_of name r.tools) rs)
unfolding new_metrics_observer lookup
observe_all_counts rs name =
    let h = observe_all-Counts rs new_metrics_observer in
    (
      omega (arith, h.all_rounds),
      omega (arith, h.with_tools),
      omega (arith, h.calls name),
      omega (arith, h.failures name),
    )
