-- ===== src/Runtime/Accepted.antt =====
-- What a factory task that parses is: src/llm_gateway/llm_gateway/factory_task.py.
use mathlib.Core.Path.{subst}
use gp4_ws.Common.{
  ℕ, ◌+◌, String, Bool, true, false, not, ◌&&◌, Option, some, [], ◌∷◌, ◌++◌, ◌≡◌, refl, arith,
  eq_iff, ◌==◌, Bool-cases, true_of, inl, inr, mem_str, if◌then◌else◌,
}
use gp4_ws.Common.Int.{ℤ}
use gp4_ws.Common.Outcome.{Outcome, ok}
use gp4_ws.Common.Fallible.{>>=-eq-ok}
use gp4_ws.Python.{
  PyLib, Json, arr, obj, str, Items, Fields, end, field, get_field, is_text, text_or, to_text,
  is_truthy,
}
use gp4_ws.Runtime.Task.{TaskNode, TaskNodes, FactoryTask}
use gp4_ws.Runtime.Parse.{
  NodePath, ParseError, supported_node_types, child_node_types, fail_if, is_counted,
  optional_positive_int, children_payload, field_or_none, stripped, dict_or_empty, built,
  finish_node, start_node, parse_node, parse_children, parse_list, parse_items, version_of,
  built_task, parse_fields, parse_factory_task, factory_task_version,
}
use gp4_ws.Runtime.WellFormed.{
  TextLaws, WellFormed, AllWellFormed, no_children, count_fits, is_empty_list, fail_if-passes,
  check_count-passes, children_payload-check, optional_positive_int-fits,
}

module _ (py : PyLib) (laws : TextLaws py) where
  open py use {Float, strip}

  -- What a node that started, with the children that were parsed, is known to be
  record Started (payload : Fields Float) (count : Option ℤ) : Type 0 where
    supported : mem_str (stripped py "type" payload) supported_node_types ≡ true
    counted : count_fits (is_counted (stripped py "type" payload)) count ≡ true
    children :
        (mem_str (stripped py "type" payload) child_node_types
          && is_empty_list (get_field "children" payload))
        ≡ false
    leaf :
        (not (mem_str (stripped py "type" payload) child_node_types)
          && not (is_empty_list (get_field "children" payload)))
        ≡ false

  start_node-Started :
      (path : NodePath) (payload : Fields Float) {count : Option ℤ}
      → start_node py path payload ≡ ok count
      → Started payload count
  start_node-Started path payload {count} h =
      let (_, supported, h1) = >>=-eq-ok (fail_if _ (ParseError.unsupported_type path)) _ h in
      let (c, counted, h2) =
        >>=-eq-ok (optional_positive_int path _ (field_or_none "count" payload)) _ h1 in
      let (_, checked, h3) =
        >>=-eq-ok (children_payload path _ (get_field "children" payload)) _ h2 in
      let (children, leaf) =
        check_count-passes path (stripped py "type" payload)
          (is_empty_list (get_field "children" payload))
          (children_payload-check path _ (get_field "children" payload) checked) in
      record {
        supported = true_of _ (fail_if-passes _ (ParseError.unsupported_type path) supported);
        counted =
            subst (λ o. count_fits (is_counted (stripped py "type" payload)) o ≡ true) (same_ok h3)
              (optional_positive_int-fits path _ _ counted);
        children = children;
        leaf = leaf;
      }
    where
      same_ok : {a b : Option ℤ} → ◌≡◌ {A = Outcome ParseError (Option ℤ)} (ok a) (ok b) → a ≡ b
      same_ok e = cc

  filled :
      (b : Bool) (t : String)
      → (b ≡ true → (t == "") ≡ false)
      → ((if b then t else "item") == "") ≡ false
  filled true t h = h refl
  filled false t h = refl

  text_or-filled : (v : Json Float) → (text_or py "item" v == "") ≡ false
  unfolding is_truthy to_text
  text_or-filled (str s) = filled (not (s == "")) s (λ h. ground arith)
  text_or-filled v = filled (is_truthy py v) (py.render v) (λ h. laws.render_filled v)

  same_nodes :
      {a b : TaskNodes Float} → ◌≡◌ {A = Outcome ParseError (TaskNodes Float)} (ok a) (ok b) → a ≡ b
  same_nodes e = cc

  -- The node that is built, from what was checked before
  finish_node-FieldsFit :
      (path : NodePath) (payload : Fields Float) (count : Option ℤ) (children : TaskNodes Float)
      {n : TaskNode Float}
      → Started payload count
      → no_children children ≡ is_empty_list (get_field "children" payload)
      → AllWellFormed py children
      → finish_node py path payload (stripped py "type" payload) count children ≡ ok n
      → WellFormed py n
  unfolding WellFormed
  finish_node-FieldsFit path payload count children {n} st e all h =
      let (_, named, h1) = >>=-eq-ok (fail_if _ (ParseError.name_required path)) _ h in
      let (_, collected, h2) = >>=-eq-ok (fail_if _ (ParseError.collection_required path)) _ h1 in
      let (args, _, h3) =
        >>=-eq-ok (dict_or_empty (ParseError.args_not_object path) (field_or_none "args" payload)) _
          h2 in
      let fit : WellFormed py (built py payload (stripped py "type" payload) count args children) =
        (
          record {
            supported = st.supported;
            counted = st.counted;
            children = rw e st.children;
            leaf = rw e st.leaf;
            named = fail_if-passes _ (ParseError.name_required path) named;
            collected = fail_if-passes _ (ParseError.collection_required path) collected;
            type_stripped = laws.strip_strip _;
            name_stripped = laws.strip_strip _;
            collection_stripped = laws.strip_strip _;
            item_named = text_or-filled (field_or_none "item_name" payload);
          },
          all,
        ) in
      subst (WellFormed py) (same_ok h3) fit
    where
      same_ok :
          {a b : TaskNode Float}
          → ◌≡◌ {A = Outcome ParseError (TaskNode Float)} (ok a) (ok b)
          → a ≡ b
      same_ok e = cc

  parse_items-empty :
      (path : NodePath) (index : ℕ) (items : Items Float) {ns : TaskNodes Float}
      → parse_items py path index items ≡ ok ns
      → no_children ns ≡ is_empty_list (some (arr items))
  unfolding parse_items is_empty_list
  parse_items-empty path index Items.nil h = cc
  parse_items-empty path index (Items.cons v rest) h =
      let (n, _, h1) = >>=-eq-ok (parse_node py (path ++ index ∷ []) v) _ h in
      let (ns, _, h2) = >>=-eq-ok (parse_items py path (index + 1) rest) _ h1 in cc

  parse_list-empty :
      (path : NodePath) (v : Json Float) {ns : TaskNodes Float}
      → parse_list py path v ≡ ok ns
      → no_children ns ≡ is_empty_list (some v)
  unfolding parse_list is_empty_list
  parse_list-empty path (arr items) h = parse_items-empty path 0 items h
  parse_list-empty path v h = cc

  parse_children-empty :
      (path : NodePath) (payload : Fields Float) {ns : TaskNodes Float}
      → parse_children py path payload ≡ ok ns
      → no_children ns ≡ is_empty_list (get_field "children" payload)
  unfolding parse_children is_empty_list
  parse_children-empty path end h = cc
  parse_children-empty path (field k v rest) h = elim (Bool-cases (k == "children")) [
    | inl e ↦ rw e (parse_list-empty path v (rw e at h))
    | inr e ↦ rw e (parse_children-empty path rest (rw e at h))
  ]

  mutual
    unfolding parse_node WellFormed

    parse_node-WellFormed :
        (path : NodePath) (v : Json Float) {n : TaskNode Float}
        → parse_node py path v ≡ ok n
        → WellFormed py n
    parse_node-WellFormed path (obj payload) h =
        let (count, started, h1) = >>=-eq-ok (start_node py path payload) _ h in
        let (children, parsed, h2) = >>=-eq-ok (parse_children py path payload) _ h1 in
        finish_node-FieldsFit path payload count children (start_node-Started path payload started)
          (parse_children-empty path payload parsed) (parse_children-WellFormed path payload parsed)
          h2
    parse_node-WellFormed path v h = cc

    parse_children-WellFormed :
        (path : NodePath) (payload : Fields Float) {ns : TaskNodes Float}
        → parse_children py path payload ≡ ok ns
        → AllWellFormed py ns
    parse_children-WellFormed path end {ns} h = subst (AllWellFormed py) (same_nodes h) tt
    parse_children-WellFormed path (field k v rest) h = elim (Bool-cases (k == "children")) [
      | inl e ↦ parse_list-WellFormed path v (rw e at h)
      | inr e ↦ parse_children-WellFormed path rest (rw e at h)
    ]

    parse_list-WellFormed :
        (path : NodePath) (v : Json Float) {ns : TaskNodes Float}
        → parse_list py path v ≡ ok ns
        → AllWellFormed py ns
    parse_list-WellFormed path (arr items) h = parse_items-WellFormed path 0 items h
    parse_list-WellFormed path v h = subst (AllWellFormed py) (same_nodes h) tt

    parse_items-WellFormed :
        (path : NodePath) (index : ℕ) (items : Items Float) {ns : TaskNodes Float}
        → parse_items py path index items ≡ ok ns
        → AllWellFormed py ns
    parse_items-WellFormed path index Items.nil h = subst (AllWellFormed py) (same_nodes h) tt
    parse_items-WellFormed path index (Items.cons v rest) h =
        let (n, first, h1) = >>=-eq-ok (parse_node py (path ++ index ∷ []) v) _ h in
        let (ns, later, h2) = >>=-eq-ok (parse_items py path (index + 1) rest) _ h1 in
        subst (AllWellFormed py) (same_nodes h2) (
          parse_node-WellFormed (path ++ index ∷ []) v first,
          parse_items-WellFormed path (index + 1) rest later,
        )

  -- What is known of a task that was parsed
  pub record TaskFits (task : FactoryTask Float) : Type 0 where
    pub root : WellFormed py task.root
    pub version : task.version ≡ factory_task_version
    pub task_id : (task.task_id == "") ≡ false

  parse_fields-TaskFits :
      (payload : Fields Float) {task : FactoryTask Float}
      → parse_fields py payload ≡ ok task
      → TaskFits task
  parse_fields-TaskFits payload {task} h =
      let (_, _, h1) =
        >>=-eq-ok
          (fail_if (not (is_text "factory_task" (field_or_none "task_type" payload)))
            ParseError.wrong_task_type)
          _ h in
      let (_, version, h2) =
        >>=-eq-ok
          (fail_if (not (version_of py payload == factory_task_version))
            (ParseError.unsupported_version (version_of py payload)))
          _ h1 in
      let (_, named, h3) =
        >>=-eq-ok (fail_if (stripped py "task_id" payload == "") ParseError.empty_task_id) _ h2 in
      let (root, parsed, h4) = >>=-eq-ok (parse_node py [] (field_or_none "root" payload)) _ h3 in
      let (limits, _, h5) =
        >>=-eq-ok
          (dict_or_empty (ParseError.field_not_object "limits") (field_or_none "limits" payload)) _
          h4 in
      let (policy, _, h6) =
        >>=-eq-ok
          (dict_or_empty (ParseError.field_not_object "replan_policy")
            (field_or_none "replan_policy" payload))
          _ h5 in
      let fits : TaskFits (built_task py payload root limits policy) = record {
        root = parse_node-WellFormed [] (field_or_none "root" payload) parsed;
        version = (eq_iff (version_of py payload) factory_task_version).0 (
            true_of _
              (fail_if-passes _ (ParseError.unsupported_version (version_of py payload)) version));
        task_id = fail_if-passes _ ParseError.empty_task_id named;
      } in
      subst TaskFits (same_task h6) fits
    where
      same_task :
          {a b : FactoryTask Float}
          → ◌≡◌ {A = Outcome ParseError (FactoryTask Float)} (ok a) (ok b)
          → a ≡ b
      same_task e = cc

  -- A payload that the parser of factory tasks accepts gives a task of version 1.0 with an id, whose
  -- nodes, at every depth, have a supported type, a positive count where and only where they are a
  -- repeat or a retry, children where and only where their type has children, a name if they are a
  -- skill or an observe, and a collection if they are a for_each.
  pub parse_factory_task-TaskFits :
      (payload : Json Float) {task : FactoryTask Float}
      → parse_factory_task py payload ≡ ok task
      → TaskFits task
  unfolding parse_factory_task
  parse_factory_task-TaskFits (obj payload) h = parse_fields-TaskFits payload h
  parse_factory_task-TaskFits v h = cc
