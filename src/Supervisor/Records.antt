-- ===== src/Supervisor/Records.antt =====
-- The records of hmi/backend/domain/models.py that the supervisor keeps and reads.
use gp4_ws.Common.{ℕ, String, Bool, Option, List, Dict, nat_eq}
use gp4_ws.Lifecycle.{CommandLifecycleState, SystemRuntimeState, TransitionError}
use gp4_ws.Session.{LeaseError, SessionLockService}

pub data RuntimeMode : Type 0 where
  sim hardware unknown : RuntimeMode

abbrev mode_number : RuntimeMode → ℕ
mode_number sim = 0
mode_number hardware = 1
mode_number unknown = 2

abbrev pub mode_eq : RuntimeMode → RuntimeMode → Bool
mode_eq a b = nat_eq (mode_number a) (mode_number b)

pub data CommandKind : Type 0 where
  command sequence : CommandKind

pub record RobotStatusSnapshot : Type 0 where
  pub e_stop : String
  pub alarm_state : String
  pub motion_mode : Option String

pub record RuntimeSnapshot : Type 0 where
  pub system_state : SystemRuntimeState
  pub mode : RuntimeMode
  pub robot_status : RobotStatusSnapshot

-- What the supervisor reads of `parsed_intent`: the action and the primitive of the normalized
-- command, in capitals.
pub record ParsedIntent : Type 0 where
  pub action : String
  pub primitive_type : String

-- The code tests the lower-cased status for these two texts only.
pub data ExecutionStatus : Type 0 where
  status_succeeded status_cancelled status_other : ExecutionStatus

pub record ExecutionResult : Type 0 where
  pub status : ExecutionStatus
  pub dispatched_to_ros : Bool
  pub summary : Option String

pub record CommandRecord : Type 0 where
  pub session_id : String
  pub operator_id : String
  pub lifecycle_state : CommandLifecycleState
  pub mode : RuntimeMode
  pub command_kind : CommandKind
  pub plan_fingerprint : Option String
  pub reject_reason : Option String
  pub parsed_intent : Option ParsedIntent
  pub confirmation_expires_at : Option ℕ
  pub confirm_at : Option ℕ
  pub execute_at : Option ℕ
  pub execution_result : Option ExecutionResult
  pub final_state : Option CommandLifecycleState
  pub parent_sequence_id : Option String
  pub sequence_step_index : Option ℕ
  pub sequence_step_count : Option ℕ
  pub current_step_index : Option ℕ
  pub child_command_ids : List String
  pub manual_recovery_required : Bool

-- A row of `record_transition`
pub record TransitionRow : Type 0 where
  pub command_id : String
  pub from_state : CommandLifecycleState
  pub to_state : CommandLifecycleState

-- A call of `self._ros.confirm_command`
pub record Dispatch : Type 0 where
  pub command_id : String
  pub fingerprint : String
  pub operator : String
  pub session : String
  pub lease : String

pub data Conflict : Type 0 where
  sequence_controlled not_waiting window_expired fingerprint_mismatch : Conflict
  abort_refused : String → Conflict

pub data SupervisorError : Type 0 where
  forbidden : LeaseError → SupervisorError
  other_session : SupervisorError
  not_found : SupervisorError
  conflict : Conflict → SupervisorError
  invalid : TransitionError → SupervisorError
  key_error : String → SupervisorError
  -- an exception of the adapter, by its text
  adapter_raised : String → SupervisorError

pub record Supervisor : Type 0 where
  pub commands : Dict CommandRecord
  pub active_command_id : Option String
  pub session_lock : SessionLockService
  pub transitions : List TransitionRow
  pub dispatched : List Dispatch
  pub aborted : List String
  -- the number of answers that the clock and the adapter have given
  pub tick : ℕ
