-- ===== src/Runtime/Restored.antt =====
-- Runs of a task that was read back from its plan.
use mathlib.Core.Path.{fun_ext}
use gp4_ws.Common.{Bool, true, false, ◌≡◌, refl, sym, ap, ◌∙◌, ◌==◌, Bool-cases, inl, inr}
use gp4_ws.Common.Outcome.{ok}
use gp4_ws.Python.{PyLib, Fields}
use gp4_ws.Runtime.Task.{NodeFields, TaskNode, TaskNodes, node, nil, cons}
use gp4_ws.Runtime.Parse.{NodePath, parse_node}
use gp4_ws.Runtime.Plan.{node_to_runtime_plan}
use gp4_ws.Runtime.State.{RuntimeStepResult, TaskRuntime}
use gp4_ws.Runtime.Nodes.{
  Run, run_type, run_node, run_children, run_branches, unless_stopped, label,
}
use gp4_ws.Runtime.WellFormed.{FieldsFit, WellFormed, AllWellFormed}
use gp4_ws.Runtime.RoundTrip.{plain_item, canonical, canonicals, parse_node-plan}

module _ (py : PyLib) (rt : TaskRuntime py) where
  open py use {Float}

  run_type-plain_item :
      (n : NodeFields Float) (is_empty : Bool) (bindings : Fields Float)
      (body : Fields Float → Run py rt RuntimeStepResult) (branches : Run py rt RuntimeStepResult)
      → FieldsFit py n is_empty
      → run_type py rt (plain_item n) bindings body branches
        ≡ run_type py rt n bindings body branches
  unfolding run_type
  run_type-plain_item n is_empty bindings body branches fit =
      elim (Bool-cases (n.type == "for_each")) [
        | inl e ↦
            let filled : (n.collection == "") ≡ false = rw e at fit.collected in rw filled refl
        | inr e ↦ rw e refl
      ]

  label-canonical : (n : TaskNode Float) → label py rt (canonical n) ≡ label py rt n
  unfolding canonical
  label-canonical (node n children) = refl

  mutual
    unfolding run_node run_children run_branches canonical canonicals WellFormed

    node_same :
        (n : TaskNode Float) (b : Fields Float)
        → WellFormed py n
        → run_node py rt (canonical n) b ≡ run_node py rt n b
    node_same (node n children) b h =
        let bodies : ◌≡◌ {A = Fields Float → Run py rt RuntimeStepResult}
            (λ c. run_children py rt (canonicals children) c) (λ c. run_children py rt children c) =
          fun_ext (λ c. children_same children c h.1) in
        ap (unless_stopped py rt) (
          run_type-plain_item n _ b _ _ h.0
          ∙ ap (λ body. run_type py rt n b body (run_branches py rt (canonicals children) b true))
              bodies
          ∙ ap (run_type py rt n b (λ c. run_children py rt children c))
              (branches_same children b true h.1))

    children_same :
        (ns : TaskNodes Float) (b : Fields Float)
        → AllWellFormed py ns
        → run_children py rt (canonicals ns) b ≡ run_children py rt ns b
    children_same nil b h = refl
    children_same (cons n ns) b h = rw (node_same n b h.0, children_same ns b h.1) refl

    branches_same :
        (ns : TaskNodes Float) (b : Fields Float) (first : Bool)
        → AllWellFormed py ns
        → run_branches py rt (canonicals ns) b first ≡ run_branches py rt ns b first
    branches_same nil b first h = refl
    branches_same (cons n ns) b first h =
        rw (node_same n b h.0, branches_same ns b false h.1, label-canonical n) refl

  -- A well-formed node whose runtime plan was printed and parsed runs as the node itself: from every
  -- state and with every binding, with the same result, calls, counters and decisions.
  pub run_node-parsed_plan :
      (path : NodePath) (n restored : TaskNode Float) (bindings : Fields Float)
      → WellFormed py n
      → parse_node py path (node_to_runtime_plan n) ≡ ok restored
      → run_node py rt restored bindings ≡ run_node py rt n bindings
  run_node-parsed_plan path n restored bindings h e =
      let same : canonical n ≡ restored = cc (e, parse_node-plan py path n h) in
      rw (sym same) (node_same n bindings h)
