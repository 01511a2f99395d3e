-- ===== src/Safety/Manager.antt =====
-- src/safety/safety/safety_manager.py: the readiness of the robot. Each callback holds the lock for
-- its whole body, so it is one step.
use Prim.Native.String.{◌++◌ as append}
use gp4_ws.Common.{String, Bool, true, false, not, List, [], ◌∷◌, ◌++◌, ◌==◌, if◌then◌else◌}

-- industrial_msgs/TriState: its constants, and any other value
pub data TriState : Type 0 where
  tri_true tri_false tri_unknown : TriState

pub record RobotStatus : Type 0 where
  pub in_error : TriState
  pub e_stopped : TriState
  pub drives_powered : TriState
  pub motion_possible : TriState

pub record RobotReadiness : Type 0 where
  pub ready : Bool
  pub status_message : String

pub record SafetyManager : Type 0 where
  pub sim_mode : Bool
  pub robot_ready : Bool
  pub last_error_reason : String
  pub status_received : Bool
  pub adapter_ready_received : Bool
  -- what was published on /safety_status
  pub published : List String

abbrev pub is_true : TriState → Bool
is_true tri_true = true
is_true _ = false

-- __init__
unfoldable pub init : Bool → SafetyManager
init sim_mode = record {
  sim_mode = sim_mode;
  robot_ready = false;
  last_error_reason =
      if sim_mode
      then "no hw_adapter readiness received yet (sim mode)"
      else "no robot status received yet (fail-closed)";
  status_received = false;
  adapter_ready_received = false;
  published = [];
}

abbrev pub block : String → String → SafetyManager → SafetyManager
block reason status m = record m {
  robot_ready = false;
  last_error_reason = reason;
  published = m.published ++ status ∷ [];
}

abbrev pub allow : SafetyManager → SafetyManager
allow m = record m {
  robot_ready = true;
  last_error_reason = "";
  published = m.published ++ "OK" ∷ [];
}

abbrev pub classify : RobotStatus → SafetyManager → SafetyManager
classify msg m =
    if is_true msg.in_error
    then block "robot in_error via /yaskawa/robot_status" "ERROR: in_error active" m
    else if is_true msg.e_stopped
    then block "robot e_stopped via /yaskawa/robot_status" "ERROR: E-stop active" m
    else if not (is_true msg.drives_powered)
    then block "drives not powered" "BLOCKED: drives not powered" m
    else if not (is_true msg.motion_possible)
    then block "motion not possible" "BLOCKED: motion not possible" m
    else allow m

unfoldable pub status_callback : RobotStatus → SafetyManager → SafetyManager
status_callback msg m = if m.sim_mode then m else classify msg (record m { status_received = true })

-- the `last_error_reason` of an adapter that is not ready
abbrev pub adapter_reason : String → String
adapter_reason message =
    if message == "" then "hw_adapter reported not ready (sim mode)" else message

-- `f"BLOCKED: {self._last_error_reason}"`
abbrev pub blocked_text : RobotReadiness → String
blocked_text msg = append "BLOCKED: " (adapter_reason msg.status_message)

abbrev pub classify_adapter : RobotReadiness → SafetyManager → SafetyManager
classify_adapter msg m =
    if not msg.ready
    then block (adapter_reason msg.status_message) (blocked_text msg) m
    else allow m

unfoldable pub adapter_ready_callback : RobotReadiness → SafetyManager → SafetyManager
adapter_ready_callback msg m =
    if not m.sim_mode then m else classify_adapter msg (record m { adapter_ready_received = true })

pub data Message : Type 0 where
  robot_status : RobotStatus → Message
  adapter_ready : RobotReadiness → Message

unfoldable pub receive : Message → SafetyManager → SafetyManager
unfolding status_callback adapter_ready_callback
receive (robot_status msg) = status_callback msg
receive (adapter_ready msg) = adapter_ready_callback msg

unfoldable pub receive_all : List Message → SafetyManager → SafetyManager
receive_all [] m = m
receive_all (msg ∷ msgs) m = receive_all msgs (receive msg m)
