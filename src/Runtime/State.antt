-- ===== src/Runtime/State.antt =====
-- src/llm_gateway/llm_gateway/task_runtime.py: the results, the state of a run, and what a run calls.
-- Events that are published are not modelled.
use gp4_ws.Common.{ℕ, String, Bool, Option, List, [], Dict}
use gp4_ws.Common.Int.{ℤ}
use gp4_ws.Common.Outcome.{Outcome, Exec}
use gp4_ws.Python.{PyLib, Json}
use gp4_ws.Runtime.Task.{RuntimeError, FactoryTask, WorldModel}

pub record RuntimeStepResult : Type 0 where
  pub success : Bool
  pub reason : String
  pub requests_replan : Bool

-- What a skill executor returns: a result or a plain value, which is read as a Boolean
pub data Reply : Type 0 where
  step : RuntimeStepResult → Reply
  plain : Bool → Reply

pub record PolicyDecision : Type 0 where
  pub node_path : String
  pub decision : String
  pub reason : String

pub record TaskRuntimeReport : Type 0 where
  pub success : Bool
  pub reason : String
  pub attempts_by_skill : Dict ℕ
  pub fallback_count : ℕ
  pub replan_count : ℕ
  pub policy_decisions : List PolicyDecision

-- What a run did to its surroundings
pub data Action (F : Type 0) : Type 0 where
  polled : Bool → Action F
  called : String → Json F → Action F

module _ (py : PyLib) where
  open py use {Float}

  -- A TaskRuntime and the skill executor of its `run`: `World` is everything outside of the runtime
  -- that its callbacks read and change. A reading of the stop flag may find that the world moved.
  pub record TaskRuntime : Type 1 where
    pub World : Type 0
    pub world_model : WorldModel Float
    pub max_replans : ℤ
    pub skill_executor : String → Json Float → World → Outcome RuntimeError Reply × World
    pub is_stopped_fn : Option (World → Bool × World)
    pub replan_handler :
        Option
          (TaskRuntimeReport → World → Outcome RuntimeError (Option (FactoryTask Float)) × World)

  module _ (rt : TaskRuntime) where
    open rt use {World}

    -- `_RuntimeState`, with the world, and the actions of the run, the latest first
    pub record RuntimeState : Type 0 where
      pub attempts_by_skill : Dict ℕ
      pub fallback_count : ℕ
      pub replan_count : ℕ
      pub policy_decisions : List PolicyDecision
      pub world : World
      pub actions : List (Action Float)

    abbrev pub Running : Type 0 → Type 0
    Running A = Exec RuntimeState RuntimeError A

    abbrev pub start : World → RuntimeState
    start world = record {
      attempts_by_skill = [];
      fallback_count = 0;
      replan_count = 0;
      policy_decisions = [];
      world = world;
      actions = [];
    }
