-- ===== src/Runtime/Keeping.antt =====
-- What a run of a task keeps, by induction on its nodes. `P` holds between the nodes, and `Q` where
-- the stop flag was just read as clear.
use gp4_ws.Common.{
  ℕ, zero, suc, ltb, String, Bool, true, false, not, Option, none, some, List, [], ◌∷◌, ◌≡◌, refl,
  ◌==◌, mem_str, if◌then◌else◌,
}
use gp4_ws.Common.Outcome.{
  Outcome, ok, raised, pure, lift, gets, update, ◌>>=◌, Keeps, Keeps-pure, Keeps-lift, Keeps-gets,
  Keeps-if, Keeps-bind, After, After-of, After-bind, After-state,
}
use gp4_ws.Python.{PyLib, Json, Fields, end}
use gp4_ws.Runtime.Task.{
  RuntimeError, FactoryTask, NodeFields, TaskNode, TaskNodes, node, nil, cons,
}
use gp4_ws.Runtime.State.{RuntimeStepResult, TaskRuntime, RuntimeState}
use gp4_ws.Runtime.Nodes.{
  failure, success, bind, Run, is_stopped, run_skill, decide, repeat, retry, for_each, label,
  count_fallback, run_type, unless_stopped, run_node, run_children, run_branches,
}
use gp4_ws.Runtime.Replans.{
  Handler, note_replan, ask, answered, report, max_replans_for_task, replan_loop, replan, run,
}

module _ (py : PyLib) (rt : TaskRuntime py) (P Q : RuntimeState py rt → Type 0) where
  open py use {Float}

  abbrev State : Type 0
  State = RuntimeState py rt

  -- What the steps of a run do to `P` and `Q`
  pub record NodeSteps : Type 0 where
    pub forget : (s : State) → Q s → P s
    pub poll :
        (s : State)
        → P s
        → After (λ stopped t. P t × (stopped ≡ false → Q t)) P (is_stopped py rt s)
    pub skill :
        (name : String) (args bindings : Fields Float) (s : State)
        → Q s
        → P (run_skill py rt name args bindings s).1
    pub decided :
        (reason : String) (s : State) → P s → P (decide py rt "retry" "retry_exhausted" reason s)
    pub fell_back :
        (first : Bool) (chosen : String) (s : State) → P s → P (count_fallback py rt first chosen s)

  module _ (steps : NodeSteps) where
    Keeps-repeat :
        (n : ℕ) (body : Run py rt RuntimeStepResult) → Keeps P body → Keeps P (repeat py rt n body)
    unfolding repeat
    Keeps-repeat zero body k = Keeps-pure success
    Keeps-repeat (suc n) body k =
        Keeps-bind body _ k λ r. Keeps-if (not r.success) _ _ (Keeps-pure r) (Keeps-repeat n body k)

    Keeps-update :
        (f : State → State) → ((s : State) → P s → P (f s)) → Keeps {E = RuntimeError} P (update f)
    unfolding update
    Keeps-update f h = record { at = h }

    Keeps-retry :
        (n : ℕ) (last : RuntimeStepResult) (body : Run py rt RuntimeStepResult)
        → Keeps P body
        → Keeps P (retry py rt n last body)
    unfolding retry
    Keeps-retry zero last body k =
        Keeps-bind _ _ (Keeps-update _ (steps.decided _)) λ _. Keeps-pure last
    Keeps-retry (suc n) last body k = Keeps-bind body _ k λ r.
        Keeps-if r.success _ _ (Keeps-pure r)
          (Keeps-if r.requests_replan _ _ (Keeps-pure r) (Keeps-retry n r body k))

    Keeps-for_each :
        (items : List (Json Float)) (body : Json Float → Run py rt RuntimeStepResult)
        → ((v : Json Float) → Keeps P (body v))
        → Keeps P (for_each py rt items body)
    unfolding for_each
    Keeps-for_each [] body k = Keeps-pure success
    Keeps-for_each (item ∷ items) body k =
        Keeps-bind (body item) _ (k item)
          λ r. Keeps-if (not r.success) _ _ (Keeps-pure r) (Keeps-for_each items body k)

    Keeps-from_Q : {m : Run py rt RuntimeStepResult} → Keeps P m → (s : State) → Q s → P (m s).1
    Keeps-from_Q k s q = k.at s (steps.forget s q)

    by_test :
        (b : Bool) (m n : Run py rt RuntimeStepResult)
        → ((s : State) → Q s → P (m s).1)
        → ((s : State) → Q s → P (n s).1)
        → (s : State) → Q s
        → P ((if b then m else n) s).1
    by_test true m n k l = k
    by_test false m n k l = l

    run_type-Keeps :
        (n : NodeFields Float) (bindings : Fields Float)
        (body : Fields Float → Run py rt RuntimeStepResult) (branches : Run py rt RuntimeStepResult)
        → ((b : Fields Float) → Keeps P (body b))
        → Keeps P branches
        → (s : State) → Q s
        → P (run_type py rt n bindings body branches s).1
    unfolding run_type
    run_type-Keeps n bindings body branches kb kf =
        by_test (mem_str n.type ("skill" ∷ "observe" ∷ [])) _ _ (steps.skill n.name n.args bindings)
          (by_test (n.type == "sequence") _ _ (Keeps-from_Q (kb bindings)) (
            by_test (n.type == "repeat") _ _ (Keeps-from_Q (Keeps-repeat _ _ (kb bindings))) (
              by_test (n.type == "retry") _ _ (Keeps-from_Q (Keeps-retry _ _ _ (kb bindings))) (
                by_test (n.type == "fallback") _ _ (Keeps-from_Q kf) (
                  by_test (n.type == "for_each") _ _
                    (Keeps-from_Q (
                      Keeps-bind _ _ (Keeps-lift _)
                        λ items. Keeps-for_each items _ λ v. kb (bind n.item_name v bindings)))
                    (Keeps-from_Q (
                      Keeps-if (mem_str n.type ("if" ∷ "until" ∷ "wait_until" ∷ [])) _ _
                        (Keeps-pure _) (Keeps-pure _))))))))

    unless_stopped-Keeps :
        (m : Run py rt RuntimeStepResult)
        → ((s : State) → Q s → P (m s).1)
        → Keeps P (unless_stopped py rt m)
    unfolding unless_stopped pure
    unless_stopped-Keeps m k = record {
      at = λ s h.
          After-state P _
            (After-bind (is_stopped py rt) _ _ (λ _. P) P s (steps.poll s h) after_poll);
    }
      where
        after_poll :
            (stopped : Bool) (t : State)
            → P t × (stopped ≡ false → Q t)
            → After (λ _. P) P ((if stopped then pure (failure "operator_stopped") else m) t)
        after_poll true t h = h.0
        after_poll false t h = After-of P (m t) (k t (h.1 refl))

    mutual
      unfolding run_node run_children run_branches

      run_node-Keeps : (n : TaskNode Float) (b : Fields Float) → Keeps P (run_node py rt n b)
      run_node-Keeps (node n children) b = unless_stopped-Keeps _ (
          run_type-Keeps n b (λ c. run_children py rt children c)
            (run_branches py rt children b true) (λ c. run_children-Keeps children c)
            (run_branches-Keeps children b true))

      run_children-Keeps :
          (ns : TaskNodes Float) (b : Fields Float) → Keeps P (run_children py rt ns b)
      run_children-Keeps nil b = Keeps-pure success
      run_children-Keeps (cons n ns) b =
          Keeps-bind _ _ (run_node-Keeps n b)
            λ r. Keeps-if (not r.success) _ _ (Keeps-pure r) (run_children-Keeps ns b)

      run_branches-Keeps :
          (ns : TaskNodes Float) (b : Fields Float) (first : Bool)
          → Keeps P (run_branches py rt ns b first)
      run_branches-Keeps nil b first = Keeps-pure _
      run_branches-Keeps (cons n ns) b first = Keeps-bind _ _ (run_node-Keeps n b) λ r.
          Keeps-if r.success _ _
            (Keeps-bind _ _ (Keeps-update _ (steps.fell_back first (label py rt n)))
              λ _. Keeps-pure r)
            (Keeps-if r.requests_replan _ _ (Keeps-pure r) (run_branches-Keeps ns b false))

    pub Keeps-run_node : (n : TaskNode Float) (b : Fields Float) → Keeps P (run_node py rt n b)
    Keeps-run_node = run_node-Keeps

    -- What the steps between the runs of a root do to `P`
    pub record RunSteps (task : FactoryTask Float) : Type 0 where
      pub noted :
          (limit : ℕ) (result : RuntimeStepResult) (s : State)
          → max_replans_for_task py rt task ≡ ok limit
          → ltb s.replan_count limit ≡ true
          → P s
          → P (note_replan py rt result s)
      pub asked :
          (handler : Handler py rt) (result : RuntimeStepResult) (s : State)
          → P s
          → P (ask py rt handler result s).1

    if_state :
        {A : Type 0} (b : Bool) (m n : Run py rt A) (s : State)
        → (b ≡ true → P (m s).1)
        → P (n s).1
        → P ((if b then m else n) s).1
    if_state true m n s k h = k refl
    if_state false m n s k h = h

    Keeps-lift_then :
        {A B : Type 0} (outcome : Outcome RuntimeError A) (next : A → Run py rt B)
        → ((value : A) → outcome ≡ ok value → Keeps P (next value))
        → Keeps P (lift outcome >>= next)
    unfolding lift ◌>>=◌
    Keeps-lift_then (raised e) next k = record { at = λ s h. h }
    Keeps-lift_then (ok value) next k = k value refl

    module _ (task : FactoryTask Float) (rest : RunSteps task) where
      -- the statements after an answer of the handler
      Keeps-answered :
          (again_loop : RuntimeStepResult → Run py rt RuntimeStepResult)
          (result : RuntimeStepResult)
          → ((again : RuntimeStepResult) → Keeps P (again_loop again))
          → (next : Option (FactoryTask Float)) → Keeps P (answered py rt again_loop result next)
      Keeps-answered again_loop result k none = Keeps-pure result
      Keeps-answered again_loop result k (some other) =
          Keeps-bind _ _ (run_node-Keeps other.root end)
            λ again. Keeps-if again.requests_replan _ _ (k again) (Keeps-pure again)

      Keeps-replan_loop :
          (fuel : ℕ) (handler : Handler py rt) (limit : ℕ) (result : RuntimeStepResult)
          → max_replans_for_task py rt task ≡ ok limit
          → Keeps P (replan_loop py rt fuel handler limit result)
      unfolding replan_loop ◌>>=◌ gets update pure
      Keeps-replan_loop zero handler limit result e = record { at = λ s h. h }
      Keeps-replan_loop (suc fuel) handler limit result e = record {
        at = λ s h.
            if_state (ltb s.replan_count limit) _ _ s
              (λ below.
                (Keeps-bind (ask py rt handler result) _ (record { at = rest.asked handler result })
                    (Keeps-answered (replan_loop py rt fuel handler limit) result
                      λ again. Keeps-replan_loop fuel handler limit again e)).at
                  (note_replan py rt result s) (rest.noted limit result s e below h))
              h;
      }

      Keeps-replan : (result : RuntimeStepResult) → Keeps P (replan py rt task result)
      unfolding replan
      Keeps-replan result =
          Keeps-if result.requests_replan _ _ (by_handler rt.replan_handler) (Keeps-pure result)
        where
          by_handler :
              (o : Option (Handler py rt))
              → Keeps {E = RuntimeError} P (elim o [
                | none ↦ pure result
                | some handler ↦ do
                  limit ← lift (max_replans_for_task py rt task)
                  replan_loop py rt (suc limit) handler limit result
              ])
          by_handler none = Keeps-pure result
          by_handler (some handler) =
              Keeps-lift_then (max_replans_for_task py rt task) _
                λ limit e. Keeps-replan_loop (suc limit) handler limit result e

      pub Keeps-run : Keeps P (run py rt task)
      unfolding run
      Keeps-run = Keeps-bind _ _ (run_node-Keeps task.root end) λ first.
          Keeps-bind _ _ (Keeps-replan first)
            λ result. Keeps-gets (report py rt result.success result.reason)
