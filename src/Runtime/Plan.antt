-- ===== src/Runtime/Plan.antt =====
-- src/llm_gateway/llm_gateway/factory_task.py: `_node_to_runtime_plan`.
use gp4_ws.Common.{String, Bool, true, false, not, Option, none, some, ◌==◌, if◌then◌else◌}
use gp4_ws.Common.Int.{ℤ}
use gp4_ws.Python.{Json, str, int, arr, obj, Items, Fields, end, field}
use gp4_ws.Runtime.Task.{NodeFields, TaskNode, TaskNodes, node, nil, cons}

abbrev pub is_given : Option ℤ → Bool
is_given none = false
is_given (some n) = true

module _ {F : Type 0} where
  -- `if b: payload[key] = value`, for keys that are set in order and once
  abbrev pub field_if : Bool → String → Json F → Fields F → Fields F
  field_if b key value rest = if b then field key value rest else rest

  abbrev pub count_value : Option ℤ → Json F
  count_value none = Json.null
  count_value (some n) = int n

  abbrev pub is_none : Json F → Bool
  is_none Json.null = true
  is_none v = false

  abbrev pub is_end : Fields F → Bool
  is_end end = true
  is_end (field k v rest) = false

  abbrev pub is_nil : Items F → Bool
  is_nil Items.nil = true
  is_nil (Items.cons v rest) = false

  abbrev pub plan_fields : NodeFields F → Items F → Fields F
  plan_fields n children = field "type" (str n.type) (
      field_if (not (n.name == "")) "name" (str n.name) (
        field_if (not (is_end n.args)) "args" (obj n.args) (
          field_if (is_given n.count) "count" (count_value n.count) (
            field_if (not (n.collection == "")) "collection" (str n.collection) (
              field_if (not (n.collection == "")) "item_name" (str n.item_name) (
                field_if (not (is_none n.condition)) "condition" n.condition (
                  field_if (not (is_none n.until)) "until" n.until (
                    field_if (not (is_none n.on_failure)) "on_failure" n.on_failure
                      (field_if (not (is_nil children)) "children" (arr children) end)))))))))

  unfoldable mutual
    pub node_to_runtime_plan : TaskNode F → Json F
    node_to_runtime_plan (node n children) = obj (plan_fields n (plans children))

    pub plans : TaskNodes F → Items F
    plans nil = Items.nil
    plans (cons n ns) = Items.cons (node_to_runtime_plan n) (plans ns)
