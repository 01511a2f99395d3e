-- ===== src/Runtime/Skills.antt =====
-- The state after `_run_skill` of src/llm_gateway/llm_gateway/task_runtime.py.
use gp4_ws.Common.{String, ◌∷◌}
use gp4_ws.Common.Outcome.{pure, lift, update, ◌>>=◌, continue-state}
use gp4_ws.Python.{PyLib, Json, obj, Fields}
use gp4_ws.Runtime.State.{called, TaskRuntime, RuntimeState}
use gp4_ws.Runtime.Nodes.{resolve_bindings, count_attempt, run_skill, call_skill}

module _ (py : PyLib) (rt : TaskRuntime py) where
  open py use {Float}
  open rt use {World}

  abbrev State : Type 0
  State = RuntimeState py rt

  abbrev pub after_call : String → Json Float → World → State → State
  after_call name args world s = record (count_attempt py rt name s) {
    world = world;
    actions = called name args ∷ s.actions;
  }

  pub run_skill-state :
      (P : State → Type 0) (name : String) (args bindings : Fields Float) (s : State)
      → P s
      → ((resolved : Json Float) (world : World) → P (after_call name resolved world s))
      → P (run_skill py rt name args bindings s).1
  unfolding run_skill call_skill lift update ◌>>=◌ pure
  run_skill-state P name args bindings s h k =
      continue-state P (resolve_bindings bindings (obj args)) _ s h λ resolved.
        continue-state P (rt.skill_executor name resolved s.world).0 _
          (after_call name resolved (rt.skill_executor name resolved s.world).1 s) (k resolved _)
          (λ reply. k resolved _)
