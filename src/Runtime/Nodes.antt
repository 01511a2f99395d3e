-- ===== src/Runtime/Nodes.antt =====
-- src/llm_gateway/llm_gateway/task_runtime.py: `_run_node` and what it calls.
use Prim.Native.String.{slice, len, ◌++◌ as append}
use text.Mathlib.Text.{starts_with}
use gp4_ws.Common.{
  ℕ, zero, suc, ◌+◌, String, Bool, true, false, not, Option, none, some, List, [], ◌∷◌, ◌++◌, ◌==◌,
  lookup, insert, mem_str, if◌then◌else◌,
}
use gp4_ws.Common.Int.{ℤ, pos, negsuc}
use gp4_ws.Common.Outcome.{Outcome, ok, raised, pure, lift, update, ◌>>=◌, ◌>>◌}
use gp4_ws.Common.Fallible.{◌>>=◌ as then_outcome}
use gp4_ws.Python.{PyLib, Json, str, arr, obj, Items, Fields, end, field, get_field}
use gp4_ws.Runtime.Task.{
  RuntimeError, binding_unavailable, NodeFields, TaskNode, TaskNodes, node, nil, cons, collection,
}
use gp4_ws.Runtime.State.{
  RuntimeStepResult, Reply, step, plain, polled, called, TaskRuntime, RuntimeState, Running,
}

abbrev pub failure : String → RuntimeStepResult
failure reason = record { success = false; reason = reason; requests_replan = false }

abbrev pub success : RuntimeStepResult
success = record { success = true; reason = ""; requests_replan = false }

-- `_run_skill`: how a reply is read
abbrev pub as_result : Reply → RuntimeStepResult
as_result (step r) = r
as_result (plain b) = record { success = b; reason = ""; requests_replan = false }

-- `reason or text`
abbrev pub or_text : String → String → String
or_text reason text = if reason == "" then text else reason

-- the passes of `range(int(count or 0))`
abbrev pub times : Option ℤ → ℕ
times none = 0
times (some (pos n)) = n
times (some (negsuc n)) = 0

-- text[1:], of a text that starts with a character of one byte
abbrev binding_name : String → String
binding_name text = slice text 1 (len text)

module _ {F : Type 0} where
  -- bindings[key] = value
  unfoldable pub bind : String → Json F → Fields F → Fields F
  bind key value end = field key value end
  bind key value (field k v rest) =
      if k == key then field k value rest else field k v (bind key value rest)

  abbrev pub resolve_text : Fields F → String → Outcome RuntimeError (Json F)
  resolve_text bindings text =
      if starts_with text "$"
      then elim (get_field (binding_name text) bindings) [
        | none ↦ raised (binding_unavailable text)
        | some v ↦ ok v
      ]
      else ok (str text)

  unfoldable mutual
    pub resolve_bindings : Fields F → Json F → Outcome RuntimeError (Json F)
    resolve_bindings bindings (str text) = resolve_text bindings text
    resolve_bindings bindings (arr items) =
        then_outcome (resolve_items bindings items) (λ r. ok (arr r))
    resolve_bindings bindings (obj fields) =
        then_outcome (resolve_fields bindings fields) (λ r. ok (obj r))
    resolve_bindings bindings Json.null = ok Json.null
    resolve_bindings bindings (Json.bool b) = ok (Json.bool b)
    resolve_bindings bindings (Json.int i) = ok (Json.int i)
    resolve_bindings bindings (Json.float f) = ok (Json.float f)

    pub resolve_items : Fields F → Items F → Outcome RuntimeError (Items F)
    resolve_items bindings Items.nil = ok Items.nil
    resolve_items bindings (Items.cons v rest) =
        then_outcome (resolve_bindings bindings v)
          (λ w. then_outcome (resolve_items bindings rest) (λ r. ok (Items.cons w r)))

    pub resolve_fields : Fields F → Fields F → Outcome RuntimeError (Fields F)
    resolve_fields bindings end = ok end
    resolve_fields bindings (field k v rest) =
        then_outcome (resolve_bindings bindings v)
          (λ w. then_outcome (resolve_fields bindings rest) (λ r. ok (field k w r)))

abbrev pub attempts : Option ℕ → ℕ
attempts none = 0
attempts (some n) = n

module _ (py : PyLib) (rt : TaskRuntime py) where
  open py use {Float}
  open rt use {World, skill_executor, is_stopped_fn}

  abbrev State : Type 0
  State = RuntimeState py rt

  abbrev pub Run : Type 0 → Type 0
  Run A = Running py rt A

  -- state.attempts_by_skill[name] = state.attempts_by_skill.get(name, 0) + 1
  abbrev pub count_attempt : String → State → State
  count_attempt name s = record s {
    attempts_by_skill =
        insert name (attempts (lookup name s.attempts_by_skill) + 1) s.attempts_by_skill;
  }

  -- `skill_executor(name, resolved_args)`
  unfoldable pub call_skill : String → Json Float → Run Reply
  call_skill name args s =
      let (reply, world) = skill_executor name args s.world in
      (reply, record s { world = world; actions = called name args ∷ s.actions })

  unfoldable pub poll_with : (World → Bool × World) → Run Bool
  poll_with is_stopped s =
      let (stopped, world) = is_stopped s.world in
      (ok stopped, record s { world = world; actions = polled stopped ∷ s.actions })

  -- `self._is_stopped_fn is not None and self._is_stopped_fn()`
  abbrev pub is_stopped : Run Bool
  is_stopped = elim is_stopped_fn [ none ↦ pure false | some f ↦ poll_with f ]

  unfoldable pub run_skill : String → Fields Float → Fields Float → Run RuntimeStepResult
  unfolding call_skill
  run_skill name args bindings = do
    resolved ← lift (resolve_bindings bindings (obj args))
    update (count_attempt name)
    reply ← call_skill name resolved
    pure (as_result reply)

  abbrev pub decide : String → String → String → State → State
  decide path decision reason s = record s {
    policy_decisions =
        s.policy_decisions
        ++ record { node_path = path; decision = decision; reason = reason } ∷ [];
  }

  -- the loop of a repeat
  unfoldable pub repeat : ℕ → Run RuntimeStepResult → Run RuntimeStepResult
  repeat zero body = pure success
  repeat (suc n) body = do result ← body; if not result.success then pure result else repeat n body

  -- the loop of a retry, after `last`
  unfoldable pub retry : ℕ → RuntimeStepResult → Run RuntimeStepResult → Run RuntimeStepResult
  retry zero last body = do
    update (decide "retry" "retry_exhausted" (or_text last.reason "all retry attempts failed"))
    pure last
  retry (suc n) last body = do
    result ← body
    if result.success
        then pure result
        else if result.requests_replan
        then pure result
        else retry n result body

  -- the loop of a for_each
  unfoldable pub for_each :
      List (Json Float) → (Json Float → Run RuntimeStepResult) → Run RuntimeStepResult
  for_each [] body = pure success
  for_each (item ∷ items) body = do
    result ← body item
    if not result.success then pure result else for_each items body

  -- `child.name or child.type`
  abbrev pub label : TaskNode Float → String
  label (node n children) = or_text n.name n.type

  -- `if index > 0`, of a fallback
  abbrev pub count_fallback : Bool → String → State → State
  count_fallback first chosen s =
      if first
      then s
      else decide "fallback" "fallback_selected" chosen
          (record s { fallback_count = s.fallback_count + 1 })

  -- `_run_node` past the stop flag: `body` runs the children and `branches` is the loop of a fallback
  unfoldable pub run_type :
      NodeFields Float
      → Fields Float
      → (Fields Float → Run RuntimeStepResult)
      → Run RuntimeStepResult
      → Run RuntimeStepResult
  run_type n bindings body branches =
      if mem_str n.type ("skill" ∷ "observe" ∷ [])
      then run_skill n.name n.args bindings
      else if n.type == "sequence"
      then body bindings
      else if n.type == "repeat"
      then repeat (times n.count) (body bindings)
      else if n.type == "retry"
      then retry (times n.count) (failure "retry had no attempts") (body bindings)
      else if n.type == "fallback"
      then branches
      else if n.type == "for_each"
      then (do
        items ← lift (collection py rt.world_model n.collection)
        for_each items λ v. body (bind n.item_name v bindings))
      else if mem_str n.type ("if" ∷ "until" ∷ "wait_until" ∷ [])
      then pure (failure (append n.type " requires an explicit condition evaluator"))
      else pure (failure (append "unsupported runtime node: " n.type))

  -- the stop flag, and the node if it is clear
  unfoldable pub unless_stopped : Run RuntimeStepResult → Run RuntimeStepResult
  unfolding poll_with
  unless_stopped m = do
    stopped ← is_stopped
    if stopped then pure (failure "operator_stopped") else m

  unfoldable mutual
    pub run_node : TaskNode Float → Fields Float → Run RuntimeStepResult
    run_node (node n children) bindings =
        unless_stopped
          (run_type n bindings (λ b. run_children children b) (run_branches children bindings true))

    pub run_children : TaskNodes Float → Fields Float → Run RuntimeStepResult
    run_children nil bindings = pure success
    run_children (cons child rest) bindings = do
      result ← run_node child bindings
      if not result.success then pure result else run_children rest bindings

    -- the loop of a fallback; `first` is `index == 0`
    pub run_branches : TaskNodes Float → Fields Float → Bool → Run RuntimeStepResult
    run_branches nil bindings first = pure (failure "all fallback branches failed")
    run_branches (cons child rest) bindings first = do
      result ← run_node child bindings
      if result.success
          then (do update (count_fallback first (label child)); pure result)
          else if result.requests_replan
          then pure result
          else run_branches rest bindings false
