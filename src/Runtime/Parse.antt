-- ===== src/Runtime/Parse.antt =====
-- src/llm_gateway/llm_gateway/factory_task.py: `parse_factory_task` and what it calls. A path is the
-- list of the children's positions; the messages of the errors are not modelled.
use gp4_ws.Common.{
  ℕ, suc, ◌+◌, String, Bool, true, false, not, ◌&&◌, Option, none, some, List, [], ◌∷◌, ◌++◌, ◌==◌,
  mem_str, if◌then◌else◌,
}
use gp4_ws.Common.Int.{ℤ, pos}
use gp4_ws.Common.Outcome.{Outcome, ok, raised}
use gp4_ws.Common.Fallible.{◌>>=◌, ◌>>◌}
use gp4_ws.Python.{
  PyLib, Json, arr, obj, int, Items, Fields, end, field, get_field, default, text_or, is_text,
}
use gp4_ws.Runtime.Task.{TaskNode, TaskNodes, node, nil, cons, FactoryTask}

abbrev pub NodePath : Type 0
NodePath = List ℕ

-- The reasons of a FactoryTaskError
pub data ParseError : Type 0 where
  payload_not_object wrong_task_type empty_task_id : ParseError
  unsupported_version : String → ParseError
  field_not_object : String → ParseError
  node_not_object unsupported_type count_required children_not_list : NodePath → ParseError
  children_required children_forbidden name_required collection_required args_not_object :
      NodePath → ParseError

abbrev pub factory_task_version : String
factory_task_version = "1.0"

abbrev pub supported_node_types : List String
supported_node_types =
    "sequence" ∷ "skill" ∷ "repeat" ∷ "for_each" ∷ "until" ∷ "if" ∷ "retry" ∷ "fallback" ∷ "observe"
    ∷ "wait_until" ∷ []

abbrev pub child_node_types : List String
child_node_types = "sequence" ∷ "repeat" ∷ "for_each" ∷ "until" ∷ "if" ∷ "retry" ∷ "fallback" ∷ []

-- `if b: raise FactoryTaskError(…)`
abbrev pub fail_if : Bool → ParseError → Outcome ParseError (Unit {0})
fail_if b e = if b then raised e else ok tt

abbrev pub is_counted : String → Bool
is_counted type = mem_str type ("repeat" ∷ "retry" ∷ [])

abbrev pub is_named : String → Bool
is_named type = mem_str type ("skill" ∷ "observe" ∷ [])

abbrev pub check_count : NodePath → String → Bool → Outcome ParseError (Unit {0})
check_count path type is_empty = do
  fail_if (mem_str type child_node_types && is_empty) (children_required path)
  fail_if (not (mem_str type child_node_types) && not is_empty) (children_forbidden path)

module _ {F : Type 0} where
  -- `payload.get(key)`, where None is `null`
  abbrev pub field_or_none : String → Fields F → Json F
  field_or_none key fields = default Json.null (get_field key fields)

  -- an int that is positive; `True` is one
  abbrev pub positive_int : NodePath → Json F → Outcome ParseError (Option ℤ)
  positive_int path (int (pos (suc n))) = ok (some (pos (suc n)))
  positive_int path (Json.bool true) = ok (some (pos 1))
  positive_int path v = raised (count_required path)

  unfoldable pub optional_positive_int : NodePath → String → Json F → Outcome ParseError (Option ℤ)
  optional_positive_int path type value =
      if not (is_counted type) then ok none else positive_int path value

  unfoldable pub dict_or_empty : ParseError → Json F → Outcome ParseError (Fields F)
  dict_or_empty e Json.null = ok end
  dict_or_empty e (obj fields) = ok fields
  dict_or_empty e v = raised e

  -- the checks of `_children_payload`; an absent list is empty
  unfoldable pub children_payload :
      NodePath → String → Option (Json F) → Outcome ParseError (Unit {0})
  children_payload path type none = check_count path type true
  children_payload path type (some (arr Items.nil)) = check_count path type true
  children_payload path type (some (arr (Items.cons v vs))) = check_count path type false
  children_payload path type (some v) = raised (children_not_list path)

module _ (py : PyLib) where
  open py use {Float, strip}

  -- `str(payload.get(key) or "").strip()`
  abbrev pub stripped : String → Fields Float → String
  stripped key fields = strip (text_or py "" (field_or_none key fields))

  -- the `TaskNode(…)` that `_parse_node` returns
  abbrev pub built :
      Fields Float → String → Option ℤ → Fields Float → TaskNodes Float → TaskNode Float
  built payload type count args children =
      node
        (record {
          type = type;
          name = stripped "name" payload;
          args = args;
          count = count;
          collection = stripped "collection" payload;
          item_name = text_or py "item" (field_or_none "item_name" payload);
          condition = field_or_none "condition" payload;
          until = field_or_none "until" payload;
          on_failure = field_or_none "on_failure" payload;
        })
        children

  -- `_parse_node` past the children
  abbrev pub finish_node :
      NodePath
      → Fields Float
      → String
      → Option ℤ
      → TaskNodes Float
      → Outcome ParseError (TaskNode Float)
  finish_node path payload type count children = do
    fail_if (is_named type && stripped "name" payload == "") (name_required path)
    fail_if (type == "for_each" && stripped "collection" payload == "") (collection_required path)
    args ← dict_or_empty (args_not_object path) (field_or_none "args" payload)
    ok (built payload type count args children)

  -- The checks that come before the children are parsed, and the node's count
  abbrev pub start_node : NodePath → Fields Float → Outcome ParseError (Option ℤ)
  start_node path payload = do
    let type = stripped "type" payload
    fail_if (not (mem_str type supported_node_types)) (unsupported_type path)
    count ← optional_positive_int path type (field_or_none "count" payload)
    children_payload path type (get_field "children" payload)
    ok count

  unfoldable mutual
    pub parse_node : NodePath → Json Float → Outcome ParseError (TaskNode Float)
    parse_node path (obj payload) =
        let children = parse_children path payload in
        (do
          count ← start_node path payload
          nodes ← children
          finish_node path payload (stripped "type" payload) count nodes)
    parse_node path v = raised (node_not_object path)

    -- the nodes of the field `children`
    pub parse_children : NodePath → Fields Float → Outcome ParseError (TaskNodes Float)
    parse_children path end = ok nil
    parse_children path (field k v rest) =
        let here = parse_list path v in
        let later = parse_children path rest in if k == "children" then here else later

    pub parse_list : NodePath → Json Float → Outcome ParseError (TaskNodes Float)
    parse_list path (arr items) = parse_items path 0 items
    parse_list path v = ok nil

    pub parse_items : NodePath → ℕ → Items Float → Outcome ParseError (TaskNodes Float)
    parse_items path index Items.nil = ok nil
    parse_items path index (Items.cons v rest) =
        let child = parse_node (path ++ index ∷ []) v in
        let later = parse_items path (index + 1) rest in (do n ← child; ns ← later; ok (cons n ns))

  abbrev pub version_of : Fields Float → String
  version_of payload = text_or py factory_task_version (field_or_none "version" payload)

  -- the `FactoryTask(…)` that `parse_factory_task` returns
  abbrev pub built_task :
      Fields Float → TaskNode Float → Fields Float → Fields Float → FactoryTask Float
  built_task payload root limits replan_policy = record {
    task_id = stripped "task_id" payload;
    root = root;
    mode = text_or py "supervised_hardware" (field_or_none "mode" payload);
    version = version_of payload;
    operator_summary = text_or py "" (field_or_none "operator_summary" payload);
    limits = limits;
    replan_policy = replan_policy;
  }

  abbrev pub parse_fields : Fields Float → Outcome ParseError (FactoryTask Float)
  parse_fields payload = do
    fail_if (not (is_text "factory_task" (field_or_none "task_type" payload))) wrong_task_type
    fail_if (not (version_of payload == factory_task_version))
        (unsupported_version (version_of payload))
    fail_if (stripped "task_id" payload == "") empty_task_id
    root ← parse_node [] (field_or_none "root" payload)
    limits ← dict_or_empty (field_not_object "limits") (field_or_none "limits" payload)
    replan_policy ←
        dict_or_empty (field_not_object "replan_policy") (field_or_none "replan_policy" payload)
    ok (built_task payload root limits replan_policy)

  unfoldable pub parse_factory_task : Json Float → Outcome ParseError (FactoryTask Float)
  parse_factory_task (obj payload) = parse_fields payload
  parse_factory_task v = raised payload_not_object
