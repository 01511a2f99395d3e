-- ===== src/Runtime/Budget.antt =====
-- How many skills a task calls: src/llm_gateway/llm_gateway/task_runtime.py.
use gp4_ws.Common.{
  ℕ, zero, suc, ◌+◌, ◌*◌, ◌≤◌, String, Bool, true, false, not, Option, none, some, List, [], ◌∷◌,
  length, ◌≡◌, refl, arith, ◌==◌, mem_str, if◌then◌else◌,
}
use gp4_ws.Common.Outcome.{Outcome, ok, raised, pure, lift, update, ◌>>=◌, continue}
use gp4_ws.Python.{PyLib, Json, Fields}
use gp4_ws.Runtime.Task.{RuntimeError, NodeFields, TaskNode, TaskNodes, node, nil, cons, collection}
use gp4_ws.Runtime.State.{RuntimeStepResult, Action, polled, called, TaskRuntime, RuntimeState}
use gp4_ws.Runtime.Nodes.{
  Run, failure, success, times, bind, is_stopped, poll_with, run_skill, label, count_fallback,
  repeat, retry, for_each, run_type, unless_stopped, run_node, run_children, run_branches,
}
use gp4_ws.Runtime.Skills.{run_skill-state}

abbrev pub calls : {F : Type 0} → List (Action F) → ℕ
calls [] = 0
calls (polled b ∷ rest) = calls rest
calls (called name args ∷ rest) = suc (calls rest)

module _ (py : PyLib) (rt : TaskRuntime py) where
  open py use {Float}
  open rt use {World}

  abbrev State : Type 0
  State = RuntimeState py rt

  abbrev pub size : Outcome RuntimeError (List (Json Float)) → ℕ
  size (ok items) = length items
  size (raised e) = 0

  -- The skills that a node may call: a loop as often as it may pass, a fallback all its branches
  abbrev pub cost_type : NodeFields Float → ℕ → ℕ
  cost_type n inner =
      if mem_str n.type ("skill" ∷ "observe" ∷ [])
      then 1
      else if n.type == "sequence"
      then inner
      else if n.type == "repeat"
      then times n.count * inner
      else if n.type == "retry"
      then times n.count * inner
      else if n.type == "fallback"
      then inner
      else if n.type == "for_each"
      then size (collection py rt.world_model n.collection) * inner
      else 0

  unfoldable mutual
    pub cost : TaskNode Float → ℕ
    cost (node n children) = cost_type n (costs children)

    pub costs : TaskNodes Float → ℕ
    costs nil = 0
    costs (cons n ns) = cost n + costs ns

  -- `m` calls at most `k` skills.
  record Within (k : ℕ) {A : Type 0} (m : Run py rt A) : Type 0 where
    at : (s : State) → calls (m s).1.actions ≤ calls s.actions + k

  Within-pure : {A : Type 0} (k : ℕ) (a : A) → Within k (pure a)
  unfolding pure
  Within-pure k a = record { at = λ s. omega arith }

  Within-update :
      (k : ℕ) (f : State → State)
      → ((s : State) → calls (f s).actions ≡ calls s.actions)
      → Within k (update f)
  unfolding update
  Within-update k f h = record { at = λ s. omega (arith, h s) }

  Within-if :
      {A : Type 0} (k : ℕ) (b : Bool) (m n : Run py rt A)
      → Within k m
      → Within k n
      → Within k (if b then m else n)
  Within-if k true m n h g = h
  Within-if k false m n h g = g

  Within-bind :
      {A B : Type 0} (j k l : ℕ) (m : Run py rt A) (f : A → Run py rt B)
      → j + k ≤ l
      → Within j m
      → ((a : A) → Within k (f a))
      → Within l (m >>= f)
  unfolding ◌>>=◌
  Within-bind j k l m f le h g = record { at = λ s. by_outcome s (m s).0 (m s).1 (h.at s) }
    where
      by_outcome :
          (s : State) (r : Outcome RuntimeError _) (t : State)
          → calls t.actions ≤ calls s.actions + j
          → calls (continue r f t).1.actions ≤ calls s.actions + l
      by_outcome s (ok a) t e = omega (arith, (g a).at t, e, le)
      by_outcome s (raised x) t e = omega (arith, e, le)

  Within-repeat :
      (n k : ℕ) (body : Run py rt RuntimeStepResult)
      → Within k body
      → Within (n * k) (repeat py rt n body)
  unfolding repeat
  Within-repeat zero k body h = Within-pure _ success
  Within-repeat (suc n) k body h =
      Within-bind k (n * k) _ body _ (grind arith) h
        λ r. Within-if _ (not r.success) _ _ (Within-pure _ r) (Within-repeat n k body h)

  Within-retry :
      (n k : ℕ) (last : RuntimeStepResult) (body : Run py rt RuntimeStepResult)
      → Within k body
      → Within (n * k) (retry py rt n last body)
  unfolding retry
  Within-retry zero k last body h =
      Within-bind 0 0 _ _ _ (omega arith) (Within-update 0 _ (λ s. refl)) λ _. Within-pure 0 last
  Within-retry (suc n) k last body h = Within-bind k (n * k) _ body _ (grind arith) h λ r.
      Within-if _ r.success _ _ (Within-pure _ r)
        (Within-if _ r.requests_replan _ _ (Within-pure _ r) (Within-retry n k r body h))

  Within-for_each :
      (items : List (Json Float)) (k : ℕ) (body : Json Float → Run py rt RuntimeStepResult)
      → ((v : Json Float) → Within k (body v))
      → Within (length items * k) (for_each py rt items body)
  unfolding for_each
  Within-for_each [] k body h = Within-pure _ success
  Within-for_each (v ∷ items) k body h =
      Within-bind k (length items * k) _ (body v) _ (grind arith) (h v)
        λ r. Within-if _ (not r.success) _ _ (Within-pure _ r) (Within-for_each items k body h)

  Within-collection :
      (items : Outcome RuntimeError (List (Json Float))) (k : ℕ)
      (body : Json Float → Run py rt RuntimeStepResult)
      → ((v : Json Float) → Within k (body v))
      → Within (size items * k) (lift items >>= λ vs. for_each py rt vs body)
  unfolding lift ◌>>=◌
  Within-collection (ok vs) k body h = Within-for_each vs k body h
  Within-collection (raised e) k body h = record { at = λ s. omega arith }

  Within-run_skill :
      (name : String) (args bindings : Fields Float) → Within 1 (run_skill py rt name args bindings)
  Within-run_skill name args bindings = record {
    at = λ s.
        run_skill-state py rt (λ t. calls t.actions ≤ calls s.actions + 1) name args bindings s
          (omega arith) λ resolved world. omega arith;
  }

  Within-is_stopped : Within 0 (is_stopped py rt)
  unfolding pure poll_with
  Within-is_stopped = record { at = λ s. by_flag s rt.is_stopped_fn refl }
    where
      by_flag :
          (s : State) (o : Option (World → Bool × World))
          → rt.is_stopped_fn ≡ o
          → calls (is_stopped py rt s).1.actions ≤ calls s.actions + 0
      by_flag s none e = rw e (omega arith)
      by_flag s (some f) e = rw e (omega arith)

  Within-unless_stopped :
      (k : ℕ) (m : Run py rt RuntimeStepResult) → Within k m → Within k (unless_stopped py rt m)
  unfolding unless_stopped
  Within-unless_stopped k m h =
      Within-bind 0 k k _ _ (omega arith) Within-is_stopped
        λ b. Within-if k b _ m (Within-pure k (failure "operator_stopped")) h

  -- The same test chooses the cost and the run.
  choose :
      (b : Bool) (j k : ℕ) (m n : Run py rt RuntimeStepResult)
      → Within j m
      → Within k n
      → Within (if b then j else k) (if b then m else n)
  choose true j k m n h g = h
  choose false j k m n h g = g

  Within-run_type :
      (n : NodeFields Float) (k : ℕ) (bindings : Fields Float)
      (body : Fields Float → Run py rt RuntimeStepResult) (branches : Run py rt RuntimeStepResult)
      → ((b : Fields Float) → Within k (body b))
      → Within k branches
      → Within (cost_type n k) (run_type py rt n bindings body branches)
  unfolding run_type
  Within-run_type n k bindings body branches h g =
      choose (mem_str n.type ("skill" ∷ "observe" ∷ [])) _ _ _ _
        (Within-run_skill n.name n.args bindings)
        (choose (n.type == "sequence") _ _ _ _ (h bindings) (
          choose (n.type == "repeat") _ _ _ _ (Within-repeat (times n.count) k _ (h bindings)) (
            choose (n.type == "retry") _ _ _ _ (Within-retry (times n.count) k _ _ (h bindings)) (
              choose (n.type == "fallback") _ _ _ _ g (
                choose (n.type == "for_each") _ _ _ _
                  (Within-collection (collection py rt.world_model n.collection) k _
                    λ v. h (bind n.item_name v bindings))
                  (Within-if 0 (mem_str n.type ("if" ∷ "until" ∷ "wait_until" ∷ [])) _ _
                    (Within-pure 0 _) (Within-pure 0 _)))))))

  fell_back :
      (first : Bool) (chosen : String) (s : State)
      → calls (count_fallback py rt first chosen s).actions ≡ calls s.actions
  fell_back true chosen s = refl
  fell_back false chosen s = refl

  mutual
    unfolding cost costs run_node run_children run_branches

    node-Within : (n : TaskNode Float) (b : Fields Float) → Within (cost n) (run_node py rt n b)
    node-Within (node n children) b = Within-unless_stopped _ _ (
        Within-run_type n (costs children) b (λ c. run_children py rt children c)
          (run_branches py rt children b true) (λ c. children-Within children c)
          (branches-Within children b true))

    children-Within :
        (ns : TaskNodes Float) (b : Fields Float) → Within (costs ns) (run_children py rt ns b)
    children-Within nil b = Within-pure 0 success
    children-Within (cons n ns) b =
        Within-bind (cost n) (costs ns) _ _ _ (omega arith) (node-Within n b)
          λ r. Within-if _ (not r.success) _ _ (Within-pure _ r) (children-Within ns b)

    branches-Within :
        (ns : TaskNodes Float) (b : Fields Float) (first : Bool)
        → Within (costs ns) (run_branches py rt ns b first)
    branches-Within nil b first = Within-pure 0 _
    branches-Within (cons n ns) b first =
        Within-bind (cost n) (costs ns) _ _ _ (omega arith) (node-Within n b) λ r.
          Within-if _ r.success _ _
            (Within-bind 0 (costs ns) _ _ _ (omega arith)
              (Within-update 0 _ (fell_back first (label py rt n))) λ _. Within-pure _ r)
            (Within-if _ r.requests_replan _ _ (Within-pure _ r) (branches-Within ns b false))

  -- However a node's run ends, it calls at most as many skills as the node's cost: one for a skill,
  -- the sum over the children of a sequence or a fallback, and that sum times the count of a repeat
  -- or a retry and times the items of a for_each.
  pub run_node-cost :
      (n : TaskNode Float) (bindings : Fields Float) (s : State)
      → calls (run_node py rt n bindings s).1.actions ≤ calls s.actions + cost n
  run_node-cost n bindings s = (node-Within n bindings).at s
