-- ===== src/Runtime/Counts.antt =====
-- What the counters of a run count: src/llm_gateway/llm_gateway/task_runtime.py.
use gp4_ws.Common.{
  ℕ, ◌+◌, String, Bool, true, false, Option, none, some, List, [], ◌∷◌, ◌++◌, ◌≡◌, refl, ap, ◌∙◌,
  arith, ◌==◌, eq_iff, lookup, insert, lookup-insert, if◌then◌else◌,
}
use gp4_ws.Common.Outcome.{pure, After}
use gp4_ws.Python.{PyLib, Json}
use gp4_ws.Runtime.Task.{FactoryTask}
use gp4_ws.Runtime.State.{PolicyDecision, Action, polled, called, TaskRuntime, RuntimeState, start}
use gp4_ws.Runtime.Nodes.{attempts, or_text, is_stopped, poll_with, count_fallback, decide}
use gp4_ws.Runtime.Skills.{after_call, run_skill-state}
use gp4_ws.Runtime.Replans.{ask, run}
use gp4_ws.Runtime.Keeping.{NodeSteps, RunSteps, Keeps-run}

abbrev pub bit : Bool → ℕ
bit true = 1
bit false = 0

-- How often a skill was called
abbrev pub calls_of : {F : Type 0} → String → List (Action F) → ℕ
calls_of name [] = 0
calls_of name (polled b ∷ rest) = calls_of name rest
calls_of name (called other args ∷ rest) = bit (other == name) + calls_of name rest

-- How many decisions there are of a kind
abbrev pub decisions_of : String → List PolicyDecision → ℕ
decisions_of kind [] = 0
decisions_of kind (d ∷ ds) = bit (d.decision == kind) + decisions_of kind ds

decisions_of-append :
    (kind : String) (ds es : List PolicyDecision)
    → decisions_of kind (ds ++ es) ≡ decisions_of kind ds + decisions_of kind es
decisions_of-append kind [] es = omega arith
decisions_of-append kind (d ∷ ds) es = omega (arith, decisions_of-append kind ds es)

module _ (py : PyLib) (rt : TaskRuntime py) where
  open py use {Float}
  open rt use {World}

  abbrev State : Type 0
  State = RuntimeState py rt

  -- The counters agree with the actions and the decisions.
  pub record Counted (s : State) : Type 0 where
    pub skills :
        (name : String) → attempts (lookup name s.attempts_by_skill) ≡ calls_of name s.actions
    pub fallbacks : s.fallback_count ≡ decisions_of "fallback_selected" s.policy_decisions
    pub replans : s.replan_count ≡ decisions_of "replan" s.policy_decisions

  attempts-insert :
      (b : Bool) (n : ℕ) (o : Option ℕ)
      → attempts (if b then some n else o) ≡ (if b then n else attempts o)
  attempts-insert true n o = refl
  attempts-insert false n o = refl

  one_more : (b : Bool) (m n : ℕ) → (b ≡ true → m ≡ n) → (if b then m + 1 else n) ≡ bit b + n
  one_more true m n h = omega (arith, h refl)
  one_more false m n h = omega arith

  after_call-Counted :
      (name : String) (args : Json Float) (world : World) (s : State)
      → Counted s
      → Counted (after_call py rt name args world s)
  after_call-Counted name args world s c = record {
    skills = skills;
    fallbacks = c.fallbacks;
    replans = c.replans;
  }
    where
      skills :
          (j : String)
          → attempts (
              lookup j
                (insert name (attempts (lookup name s.attempts_by_skill) + 1) s.attempts_by_skill))
            ≡ bit (name == j) + calls_of j s.actions
      skills j =
          rw
            (
              lookup-insert name j (attempts (lookup name s.attempts_by_skill) + 1)
                  s.attempts_by_skill,
              attempts-insert (name == j) (attempts (lookup name s.attempts_by_skill) + 1)
                  (lookup j s.attempts_by_skill),
              c.skills j,
            )
            (one_more (name == j) _ _
              (λ e. c.skills name ∙ ap (λ n. calls_of n s.actions) ((eq_iff name j).0 e)))

  after_poll :
      (s : State) (stopped : Bool) (world : World)
      → Counted s
      → Counted (record s { world = world; actions = polled stopped ∷ s.actions })
  after_poll s stopped world c = record {
    skills = c.skills;
    fallbacks = c.fallbacks;
    replans = c.replans;
  }

  polled-Counted :
      (s : State)
      → Counted s
      → After (λ stopped t. Counted t × (stopped ≡ false → Counted t)) Counted (is_stopped py rt s)
  unfolding poll_with pure
  polled-Counted s c = by_flag rt.is_stopped_fn refl
    where
      by_flag :
          (o : Option (World → Bool × World))
          → rt.is_stopped_fn ≡ o
          → After
              (λ stopped t. Counted t × (stopped ≡ false → Counted t))
              Counted
              (is_stopped py rt s)
      by_flag none e = rw e (c, λ _. c)
      by_flag (some f) e = rw e (
        after_poll s (f s.world).0 (f s.world).1 c,
        λ _. after_poll s (f s.world).0 (f s.world).1 c,
      )

  decide-Counted :
      (path kind reason : String) (f r : ℕ) (s : State)
      → Counted s
      → f ≡ bit (kind == "fallback_selected") + s.fallback_count
      → r ≡ bit (kind == "replan") + s.replan_count
      → Counted (decide py rt path kind reason (record s { fallback_count = f; replan_count = r }))
  decide-Counted path kind reason f r s c hf hr = record {
    skills = c.skills;
    fallbacks = omega (
      arith,
      hf,
      c.fallbacks,
      decisions_of-append "fallback_selected" s.policy_decisions
          (record { node_path = path; decision = kind; reason = reason } ∷ []),
    );
    replans = omega (
      arith,
      hr,
      c.replans,
      decisions_of-append "replan" s.policy_decisions
          (record { node_path = path; decision = kind; reason = reason } ∷ []),
    );
  }

  counting : NodeSteps py rt Counted Counted
  counting = record {
    forget = λ s c. c;
    poll = polled-Counted;
    skill = λ name args bindings s c.
        run_skill-state py rt Counted name args bindings s c
          λ resolved world. after_call-Counted name resolved world s c;
    decided = λ reason s c.
        decide-Counted "retry" "retry_exhausted" reason s.fallback_count s.replan_count s c
          (omega arith) (omega arith);
    fell_back = fell_back;
  }
    where
      fell_back :
          (first : Bool) (chosen : String) (s : State)
          → Counted s
          → Counted (count_fallback py rt first chosen s)
      fell_back true chosen s c = c
      fell_back false chosen s c =
          decide-Counted "fallback" "fallback_selected" chosen (s.fallback_count + 1) s.replan_count
            s c (omega arith) (omega arith)

  asking : (task : FactoryTask Float) → RunSteps py rt Counted Counted counting task
  unfolding ask
  asking task = record {
    noted = λ limit result s e below c.
        decide-Counted "root" "replan" (or_text result.reason "skill requested replan")
          s.fallback_count (s.replan_count + 1) s c (omega arith) (omega arith);
    asked = λ handler result s c. record {
      skills = c.skills;
      fallbacks = c.fallbacks;
      replans = c.replans;
    };
  }

  -- However a run ends, `attempts_by_skill` has for each skill the number of calls of its executor,
  -- `fallback_count` is the number of decisions for a fallback, and `replan_count` that of decisions
  -- to replan.
  pub run-Counted :
      (task : FactoryTask Float) (world : World) → Counted (run py rt task (start py rt world)).1
  unfolding lookup
  run-Counted task world =
      (Keeps-run py rt _ _ counting task (asking task)).at (start py rt world)
        (record { skills = λ name. refl; fallbacks = refl; replans = refl })
