-- ===== src/Runtime/RoundTrip.antt =====
-- The runtime plan of a task, read back by the parser: src/llm_gateway/llm_gateway/factory_task.py.
use gp4_ws.Common.{
  ℕ, zero, suc, ◌+◌, String, Bool, true, false, not, ◌&&◌, Option, none, some, [], ◌∷◌, ◌++◌, ◌≡◌,
  refl, sym, ap, ◌∙◌, arith, eq_iff, ◌==◌, Bool-cases, inl, inr, if◌then◌else◌,
}
use gp4_ws.Common.Int.{ℤ, pos, negsuc}
use gp4_ws.Common.Outcome.{ok}
use gp4_ws.Python.{
  PyLib, Json, arr, obj, str, Items, Fields, end, field, get_field, default, text_or, to_text,
  is_truthy,
}
use gp4_ws.Runtime.Task.{NodeFields, TaskNode, TaskNodes, node, nil, cons}
use gp4_ws.Runtime.Parse.{
  NodePath, ParseError, is_counted, positive_int, optional_positive_int, children_payload,
  field_or_none, stripped, dict_or_empty, finish_node, start_node, parse_node, parse_children,
  parse_list, parse_items,
}
use gp4_ws.Runtime.Plan.{
  field_if, count_value, is_none, is_end, is_nil, is_given, plan_fields, node_to_runtime_plan,
  plans,
}
use gp4_ws.Runtime.WellFormed.{FieldsFit, WellFormed, AllWellFormed, no_children, count_fits}

module _ {F : Type 0} where
  -- A plan does not show the item name of a node without a collection.
  abbrev pub plain_item : NodeFields F → NodeFields F
  plain_item n = record n { item_name = if n.collection == "" then "item" else n.item_name }

  unfoldable mutual
    pub canonical : TaskNode F → TaskNode F
    canonical (node n children) = node (plain_item n) (canonicals children)

    pub canonicals : TaskNodes F → TaskNodes F
    canonicals nil = nil
    canonicals (cons n ns) = cons (canonical n) (canonicals ns)

  get_field-field_if :
      (key j : String) (b : Bool) (v : Json F) (rest : Fields F)
      → get_field key (field_if b j v rest) ≡ (if j == key && b then some v else get_field key rest)
  get_field-field_if key j true v rest = ground arith
  get_field-field_if key j false v rest = ground arith

module _ (py : PyLib) where
  open py use {Float, strip}

  abbrev opt : Bool → Json Float → Option (Json Float)
  opt b v = if b then some v else none

  -- A text that is set where it is not empty reads back.
  stripped_text :
      (s : String)
      → strip s ≡ s
      → strip (text_or py "" (default Json.null (opt (not (s == "")) (str s)))) ≡ s
  unfolding is_truthy to_text
  stripped_text s h = elim (Bool-cases (s == "")) [
    | inl e ↦ rw (e, sym ((eq_iff s "").0 e)) h
    | inr e ↦ rw (e, e) h
  ]

  stripped_value : (s : String) → strip s ≡ s → strip (text_or py "" (str s)) ≡ s
  unfolding is_truthy to_text
  stripped_value s h = elim (Bool-cases (s == "")) [
    | inl e ↦ rw (e, sym ((eq_iff s "").0 e)) h
    | inr e ↦ rw e h
  ]

  stripped_lookup :
      (key s : String) (fields : Fields Float)
      → get_field key fields ≡ opt (not (s == "")) (str s)
      → strip s ≡ s
      → stripped py key fields ≡ s
  stripped_lookup key s fields e h =
      ap (λ o. strip (text_or py "" (default Json.null o))) e ∙ stripped_text s h

  -- What the parser reads of a plan
  record Reads (n : NodeFields Float) (items : Items Float) : Type 0 where
    type : stripped py "type" (plan_fields n items) ≡ n.type
    name : stripped py "name" (plan_fields n items) ≡ n.name
    collection : stripped py "collection" (plan_fields n items) ≡ n.collection
    item_name :
        text_or py "item" (field_or_none "item_name" (plan_fields n items))
        ≡ (plain_item n).item_name
    args :
        (path : NodePath)
        → dict_or_empty
            (ParseError.args_not_object path)
            (field_or_none "args" (plan_fields n items))
          ≡ ok n.args
    count : field_or_none "count" (plan_fields n items) ≡ count_value n.count
    condition : field_or_none "condition" (plan_fields n items) ≡ n.condition
    until : field_or_none "until" (plan_fields n items) ≡ n.until
    on_failure : field_or_none "on_failure" (plan_fields n items) ≡ n.on_failure

  given_value : (v : Json Float) → default Json.null (opt (not (is_none v)) v) ≡ v
  given_value Json.null = refl
  given_value v = refl

  given_count :
      (c : Option ℤ) → default Json.null (opt (is_given c) (count_value c)) ≡ count_value c
  given_count none = refl
  given_count (some i) = refl

  given_args :
      (path : NodePath) (args : Fields Float)
      → dict_or_empty
          (ParseError.args_not_object path)
          (default Json.null (opt (not (is_end args)) (obj args)))
        ≡ ok args
  unfolding dict_or_empty
  given_args path end = refl
  given_args path (field k v rest) = refl

  given_item :
      (collection item : String)
      → (item == "") ≡ false
      → text_or py "item" (default Json.null (opt (not (collection == "")) (str item)))
        ≡ (if collection == "" then "item" else item)
  unfolding is_truthy to_text
  given_item collection item h = elim (Bool-cases (collection == "")) [
    | inl e ↦ rw e
    | inr e ↦ rw (e, h)
  ]

  reads : (n : NodeFields Float) (items : Items Float) (b : Bool) → FieldsFit py n b → Reads n items
  reads n items b fit = record {
    type = stripped_value n.type fit.type_stripped;
    name =
        stripped_lookup "name" n.name (plan_fields n items) (simp get_field-field_if refl)
          fit.name_stripped;
    collection =
        stripped_lookup "collection" n.collection (plan_fields n items)
          (simp get_field-field_if refl) fit.collection_stripped;
    item_name = simp (get_field-field_if, given_item n.collection n.item_name fit.item_named);
    args = λ path. simp (get_field-field_if, given_args path n.args);
    count = simp (get_field-field_if, given_count n.count);
    condition = simp (get_field-field_if, given_value n.condition);
    until = simp (get_field-field_if, given_value n.until);
    on_failure = simp (get_field-field_if, given_value n.on_failure);
  }

  count_back :
      (path : NodePath) (type : String) (c : Option ℤ)
      → count_fits (is_counted type) c ≡ true
      → optional_positive_int path type (count_value {F = Float} c) ≡ ok c
  unfolding optional_positive_int
  count_back path type c h = by_type (is_counted type) c h
    where
      by_type :
          (b : Bool) (c : Option ℤ)
          → count_fits b c ≡ true
          → (if not b then ok none else positive_int path (count_value {F = Float} c)) ≡ ok c
      by_type false none h = refl
      by_type true (some (pos (suc n))) h = refl
      by_type true none h = cc
      by_type false (some (pos (suc n))) h = cc
      by_type b (some (pos zero)) h = cc
      by_type b (some (negsuc n)) h = cc

  children_back :
      (path : NodePath) (n : NodeFields Float) (items : Items Float)
      → FieldsFit py n (is_nil items)
      → children_payload path n.type (get_field "children" (plan_fields n items)) ≡ ok tt
  unfolding children_payload
  children_back path n Items.nil fit = simp (get_field-field_if, fit.children, fit.leaf)
  children_back path n (Items.cons v vs) fit = simp (get_field-field_if, fit.children, fit.leaf)

  start_back :
      (path : NodePath) (n : NodeFields Float) (items : Items Float)
      → FieldsFit py n (is_nil items)
      → start_node py path (plan_fields n items) ≡ ok n.count
  start_back path n items fit =
      let r = reads n items (is_nil items) fit in
      rw
        (
          r.type,
          fit.supported,
          r.count,
          count_back path n.type n.count fit.counted,
          children_back path n items fit,
        )
        refl

  finish_back :
      (path : NodePath) (n : NodeFields Float) (items : Items Float) (children : TaskNodes Float)
      → FieldsFit py n (is_nil items)
      → finish_node py path
          (plan_fields n items)
          (stripped py "type" (plan_fields n items))
          n.count
          children
        ≡ ok (node (plain_item n) children)
  finish_back path n items children fit =
      let r = reads n items (is_nil items) fit in
      rw
        (
          r.type,
          r.name,
          r.collection,
          fit.named,
          fit.collected,
          r.args path,
          r.item_name,
          r.condition,
          r.until,
          r.on_failure,
        )
        refl

  parse_children-field_if :
      (path : NodePath) (b : Bool) (key : String) (v : Json Float) (rest : Fields Float)
      → (key == "children") ≡ false
      → parse_children py path (field_if b key v rest) ≡ parse_children py path rest
  unfolding parse_children
  parse_children-field_if path true key v rest h = rw h refl
  parse_children-field_if path false key v rest h = refl

  nodes_back :
      (path : NodePath) (n : NodeFields Float) (items : Items Float)
      → parse_children py path (plan_fields n items) ≡ parse_items py path 0 items
  unfolding parse_children parse_list parse_items
  nodes_back path n items = simp parse_children-field_if (last items)
    where
      last :
          (items : Items Float)
          → parse_children py path (field_if (not (is_nil items)) "children" (arr items) end)
            ≡ parse_items py path 0 items
      last Items.nil = refl
      last (Items.cons v vs) = refl

  plans-is_nil : (ns : TaskNodes Float) → is_nil (plans ns) ≡ no_children ns
  unfolding plans
  plans-is_nil nil = refl
  plans-is_nil (cons n ns) = refl

  mutual
    unfolding parse_node parse_items node_to_runtime_plan plans canonical canonicals WellFormed

    node_back :
        (path : NodePath) (n : TaskNode Float)
        → WellFormed py n
        → parse_node py path (node_to_runtime_plan n) ≡ ok (canonical n)
    node_back path (node n children) h =
        let fit : FieldsFit py n (is_nil (plans children)) = rw (plans-is_nil children) h.0 in
        rw
          (
            start_back path n (plans children) fit,
            nodes_back path n (plans children),
            items_back path 0 children h.1,
          )
          (finish_back path n (plans children) (canonicals children) fit)

    items_back :
        (path : NodePath) (index : ℕ) (ns : TaskNodes Float)
        → AllWellFormed py ns
        → parse_items py path index (plans ns) ≡ ok (canonicals ns)
    items_back path index nil h = refl
    items_back path index (cons n ns) h =
        rw (node_back (path ++ index ∷ []) n h.0, items_back path (index + 1) ns h.1) refl

  -- The runtime plan of a well-formed node parses, as a node at any path, to the node itself, but for
  -- the item names of nodes without a collection, which a plan does not show and which read as "item".
  pub parse_node-plan :
      (path : NodePath) (n : TaskNode Float)
      → WellFormed py n
      → parse_node py path (node_to_runtime_plan n) ≡ ok (canonical n)
  parse_node-plan = node_back
