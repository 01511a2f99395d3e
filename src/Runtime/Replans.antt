-- ===== src/Runtime/Replans.antt =====
-- src/llm_gateway/llm_gateway/task_runtime.py: `run`, and its loop of replans.
use gp4_ws.Common.{ℕ, zero, suc, ◌+◌, String, Bool, false, Option, none, some, ltb, if◌then◌else◌}
use gp4_ws.Common.Int.{ℤ, pos, negsuc}
use gp4_ws.Common.Outcome.{Outcome, ok, raised, pure, lift, gets, update, ◌>>=◌, ◌>>◌}
use gp4_ws.Python.{PyError, type_error, value_error, PyLib, Json, end, get_field, to_int}
use gp4_ws.Runtime.Task.{RuntimeError, max_replans_not_integer, python, FactoryTask}
use gp4_ws.Runtime.State.{RuntimeStepResult, TaskRuntimeReport, TaskRuntime, RuntimeState}
use gp4_ws.Runtime.Nodes.{or_text, Run, decide, run_node}

-- max(0, i)
abbrev pub max_zero : ℤ → ℕ
max_zero (pos n) = n
max_zero (negsuc n) = 0

module _ (py : PyLib) (rt : TaskRuntime py) where
  open py use {Float}
  open rt use {World, replan_handler}

  abbrev State : Type 0
  State = RuntimeState py rt

  abbrev pub Handler : Type 0
  Handler = TaskRuntimeReport → World → Outcome RuntimeError (Option (FactoryTask Float)) × World

  abbrev pub report : Bool → String → State → TaskRuntimeReport
  report success reason s = record {
    success = success;
    reason = reason;
    attempts_by_skill = s.attempts_by_skill;
    fallback_count = s.fallback_count;
    replan_count = s.replan_count;
    policy_decisions = s.policy_decisions;
  }

  abbrev read_max_replans : Outcome PyError ℤ → Outcome RuntimeError ℕ
  read_max_replans (ok i) = ok (max_zero i)
  read_max_replans (raised type_error) = raised max_replans_not_integer
  read_max_replans (raised value_error) = raised max_replans_not_integer
  read_max_replans (raised e) = raised (python e)

  unfoldable pub max_replans_for_task : FactoryTask Float → Outcome RuntimeError ℕ
  max_replans_for_task task = elim (get_field "max_replans" task.replan_policy) [
    | none ↦ ok (max_zero rt.max_replans)
    | some v ↦ by_value v
  ]
    where
      by_value : Json Float → Outcome RuntimeError ℕ
      by_value Json.null = ok (max_zero rt.max_replans)
      by_value v = read_max_replans (to_int py v)

  abbrev pub note_replan : RuntimeStepResult → State → State
  note_replan result s =
      decide py rt "root" "replan" (or_text result.reason "skill requested replan")
        (record s { replan_count = s.replan_count + 1 })

  unfoldable pub ask : Handler → RuntimeStepResult → Run py rt (Option (FactoryTask Float))
  ask handler result s =
      let (answer, world) =
        handler (report false (or_text result.reason "replan requested") s) s.world in
      (answer, record s { world = world })

  -- the statements after an answer of the handler
  abbrev pub answered :
      (RuntimeStepResult → Run py rt RuntimeStepResult)
      → RuntimeStepResult
      → Option (FactoryTask Float)
      → Run py rt RuntimeStepResult
  answered loop result none = pure result
  answered loop result (some task) = do
    again ← run_node py rt task.root end
    if again.requests_replan then loop again else pure again

  -- The `while`, on fuel; the test of `replan_count` ends it.
  unfoldable pub replan_loop : ℕ → Handler → ℕ → RuntimeStepResult → Run py rt RuntimeStepResult
  replan_loop zero handler limit result = pure result
  replan_loop (suc fuel) handler limit result = do
    count ← gets (λ s. s.replan_count)
    if ltb count limit
        then (do
          update (note_replan result)
          next ← ask handler result
          answered (replan_loop fuel handler limit) result next)
        else pure result

  unfoldable pub replan : FactoryTask Float → RuntimeStepResult → Run py rt RuntimeStepResult
  unfolding ask
  replan task result =
      if result.requests_replan
      then elim replan_handler [
        | none ↦ pure result
        | some handler ↦ do
          limit ← lift (max_replans_for_task task)
          replan_loop (suc limit) handler limit result
      ]
      else pure result

  unfoldable pub run : FactoryTask Float → Run py rt TaskRuntimeReport
  run task = do
    first ← run_node py rt task.root end
    result ← replan task first
    gets (report result.success result.reason)
