-- ===== src/Runtime/WellFormed.antt =====
-- The nodes that the parser of factory tasks builds: src/llm_gateway/llm_gateway/factory_task.py.
use gp4_ws.Common.{
  suc, String, Bool, true, false, not, ◌&&◌, Option, none, some, ◌≡◌, refl, ◌==◌, mem_str,
  if◌then◌else◌,
}
use gp4_ws.Common.Int.{ℤ, pos}
use gp4_ws.Common.Outcome.{ok}
use gp4_ws.Common.Fallible.{>>=-eq-ok}
use gp4_ws.Python.{PyLib, Json, arr, int, Items}
use gp4_ws.Runtime.Task.{NodeFields, TaskNode, TaskNodes, node, nil, cons}
use gp4_ws.Runtime.Parse.{
  NodePath, ParseError, supported_node_types, child_node_types, fail_if, is_counted, is_named,
  positive_int, optional_positive_int, check_count, children_payload,
}

-- A count where, and only where, the type takes one, and a positive one
abbrev pub count_fits : Bool → Option ℤ → Bool
count_fits counted none = not counted
count_fits counted (some (pos (suc n))) = counted
count_fits counted (some i) = false

module _ {F : Type 0} where
  abbrev pub no_children : TaskNodes F → Bool
  no_children nil = true
  no_children (cons n ns) = false

module _ (py : PyLib) where
  open py use {Float, strip}

  -- What the parser asks of the fields of a node, and of whether it has children
  pub record FieldsFit (n : NodeFields Float) (is_empty : Bool) : Type 0 where
    pub supported : mem_str n.type supported_node_types ≡ true
    pub counted : count_fits (is_counted n.type) n.count ≡ true
    pub children : (mem_str n.type child_node_types && is_empty) ≡ false
    pub leaf : (not (mem_str n.type child_node_types) && not is_empty) ≡ false
    pub named : (is_named n.type && n.name == "") ≡ false
    pub collected : (n.type == "for_each" && n.collection == "") ≡ false
    pub type_stripped : strip n.type ≡ n.type
    pub name_stripped : strip n.name ≡ n.name
    pub collection_stripped : strip n.collection ≡ n.collection
    pub item_named : (n.item_name == "") ≡ false

  unfoldable mutual
    pub WellFormed : TaskNode Float → Type 0
    WellFormed (node n children) = FieldsFit n (no_children children) × AllWellFormed children

    pub AllWellFormed : TaskNodes Float → Type 0
    AllWellFormed nil = Unit
    AllWellFormed (cons n ns) = WellFormed n × AllWellFormed ns

-- What the standard library documents of `strip` and `str`
pub record TextLaws (py : PyLib) : Type 0 where
  pub strip_strip : (s : String) → py.strip (py.strip s) ≡ py.strip s
  pub render_filled : (v : Json py.Float) → (py.render v == "") ≡ false

pub fail_if-passes : (b : Bool) (e : ParseError) {u : Unit {0}} → fail_if b e ≡ ok u → b ≡ false
fail_if-passes true e h = cc
fail_if-passes false e h = refl

pub check_count-passes :
    (path : NodePath) (type : String) (is_empty : Bool) {u : Unit {0}}
    → check_count path type is_empty ≡ ok u
    → ((mem_str type child_node_types && is_empty) ≡ false)
      × ((not (mem_str type child_node_types) && not is_empty) ≡ false)
check_count-passes path type is_empty h =
    let (_, e, h1) = >>=-eq-ok (fail_if _ (ParseError.children_required path)) _ h in
    (fail_if-passes _ _ e, fail_if-passes _ _ h1)

unfoldable pub is_empty_list : {F : Type 0} → Option (Json F) → Bool
is_empty_list (some (arr (Items.cons v vs))) = false
is_empty_list o = true

module _ {F : Type 0} where
  pub children_payload-check :
      (path : NodePath) (type : String) (o : Option (Json F)) {u : Unit {0}}
      → children_payload path type o ≡ ok u
      → check_count path type (is_empty_list o) ≡ ok u
  unfolding children_payload is_empty_list
  children_payload-check path type none h = h
  children_payload-check path type (some (arr Items.nil)) h = h
  children_payload-check path type (some (arr (Items.cons v vs))) h = h
  children_payload-check path type (some v) h = cc

  positive_int-fits :
      (path : NodePath) (v : Json F) {c : Option ℤ}
      → positive_int path v ≡ ok c
      → count_fits true c ≡ true
  positive_int-fits path (int (pos (suc n))) h = cc
  positive_int-fits path (Json.bool true) h = cc
  positive_int-fits path v h = cc

  pub optional_positive_int-fits :
      (path : NodePath) (type : String) (v : Json F) {c : Option ℤ}
      → optional_positive_int path type v ≡ ok c
      → count_fits (is_counted type) c ≡ true
  unfolding optional_positive_int
  optional_positive_int-fits path type v {c} h = by_type (is_counted type) h
    where
      by_type :
          (b : Bool)
          → (if not b then ok none else positive_int path v) ≡ ok c
          → count_fits b c ≡ true
      by_type true h = positive_int-fits path v h
      by_type false h = cc
