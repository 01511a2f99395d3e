-- ===== src/Runtime/Task.antt =====
-- src/llm_gateway/llm_gateway/factory_task.py: what the runtime reads of a task and of the world
-- model.
use gp4_ws.Common.{String, Option, none, some, List, ◌==◌, Dict, lookup, map, if◌then◌else◌}
use gp4_ws.Common.Int.{ℤ}
use gp4_ws.Common.Outcome.{Outcome, ok, raised}
use gp4_ws.Python.{PyError, PyLib, Json, obj, Fields}

pub data RuntimeError : Type 0 where
  -- the three errors of FactoryTaskError that the runtime meets
  binding_unavailable collection_unavailable : String → RuntimeError
  max_replans_not_integer : RuntimeError
  -- an exception of Python itself
  python : PyError → RuntimeError

-- The fields of a node beside its children. `condition`, `until` and `on_failure` are values as the
-- payload has them, with `null` for None.
pub record NodeFields (F : Type 0) : Type 0 where
  pub type : String
  pub name : String
  pub args : Fields F
  pub count : Option ℤ
  pub collection : String
  pub item_name : String
  pub condition : Json F
  pub until : Json F
  pub on_failure : Json F

-- `mutual` for the tuple of children
mutual
  pub data TaskNode (F : Type 0) : Type 0 where
    node : NodeFields F → TaskNodes F → TaskNode F

  pub data TaskNodes (F : Type 0) : Type 0 where
    nil : TaskNodes F
    cons : TaskNode F → TaskNodes F → TaskNodes F

pub record FactoryTask (F : Type 0) : Type 0 where
  pub task_id : String
  pub root : TaskNode F
  pub mode : String
  pub version : String
  pub operator_summary : String
  pub limits : Fields F
  pub replan_policy : Fields F

pub record WorldModel (F : Type 0) : Type 0 where
  pub objects : Dict (Fields F)
  pub collections : Dict (List (Json F))

module _ (py : PyLib) where
  open py use {Float, strip}

  abbrev values : Dict (Fields Float) → List (Json Float)
  values d = map (λ entry. obj entry.1) d

  -- `WorldModel.collection`
  unfoldable pub collection : WorldModel Float → String → Outcome RuntimeError (List (Json Float))
  collection world name = elim (lookup (strip name) world.collections) [
    | some items ↦ ok items
    | none ↦
        if strip name == "visible_objects"
        then ok (values world.objects)
        else raised (collection_unavailable (strip name))
  ]
