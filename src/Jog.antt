-- ===== src/Jog.antt =====
-- hmi/backend/services/jog_service.py: the status of the servo bridge, and the guard of a jog
-- command. Threads, service calls and subscribers' queues are not modelled: `events` has what
-- `_broadcast` sends, and an absent node, publisher or message type is a Boolean.
use gp4_ws.Common.{
  ℕ, String, Bool, true, false, not, ◌&&◌, ◌||◌, List, [], ◌∷◌, ◌++◌, ◌==◌, if◌then◌else◌,
}
use gp4_ws.Common.Int.{ℤ, pos}
pub mod Guard
mod Tests

pub data JogBridgeState : Type 0 where
  idle starting ready active halting halted error : JogBridgeState
  rejected_not_ready rejected_fjt_active timeout busy_retry : JogBridgeState

-- `JogBridgeState(text)`, where a text that names no state is read as IDLE
unfoldable pub parse_state : String → JogBridgeState
parse_state text =
    if text == "STARTING"
    then starting
    else if text == "READY"
    then ready
    else if text == "ACTIVE"
    then active
    else if text == "HALTING"
    then halting
    else if text == "HALTED"
    then halted
    else if text == "ERROR"
    then error
    else if text == "REJECTED_NOT_READY"
    then rejected_not_ready
    else if text == "REJECTED_FJT_ACTIVE"
    then rejected_fjt_active
    else if text == "TIMEOUT"
    then timeout
    else if text == "BUSY_RETRY"
    then busy_retry
    else idle

pub data JogAnswer : Type 0 where
  node_unavailable type_unavailable bridge_not_active not_ready publish_exception : JogAnswer
  bridge_state : JogBridgeState → JogAnswer
  published_answer : JogAnswer

module _ (Float : Type 0) (zero_hz : Float) where
  -- A message of /servo_bridge/status
  pub record ServoBridgeStatus : Type 0 where
    pub state : String
    pub points_queued : ℤ
    pub effective_hz : Float
    pub robot_ready : Bool
    pub servo_active : Bool
    pub bridge_active : Bool
    pub last_error : String
    pub rejection_reason : String

  pub record JogBridgeStatusView : Type 0 where
    pub state : JogBridgeState
    pub points_queued : ℤ
    pub effective_hz : Float
    pub robot_ready : Bool
    pub servo_active : Bool
    pub bridge_active : Bool
    pub last_error : String
    pub rejection_reason : String

  pub record JogCommand : Type 0 where
    pub joint_index : ℤ
    pub direction : ℤ
    pub mode : String
    pub velocity_scale : Float
    pub step_degrees : Float

  pub record JogService : Type 0 where
    pub status : JogBridgeStatusView
    pub has_node : Bool
    pub has_publisher : Bool
    pub has_message_type : Bool
    -- what was broadcast, and what the publisher was given
    pub events : List JogBridgeStatusView
    pub published : List JogCommand

  abbrev pub default_jog_status : JogBridgeStatusView
  default_jog_status = record {
    state = idle;
    points_queued = pos 0;
    effective_hz = zero_hz;
    robot_ready = false;
    servo_active = false;
    bridge_active = false;
    last_error = "";
    rejection_reason = "";
  }

  -- The service as `__init__` and `start` leave it
  abbrev pub started : Bool → Bool → Bool → JogService
  started has_node has_publisher has_message_type = record {
    status = default_jog_status;
    has_node = has_node;
    has_publisher = has_publisher;
    has_message_type = has_message_type;
    events = [];
    published = [];
  }

  abbrev pub view : ServoBridgeStatus → JogBridgeStatusView
  view msg = record {
    state = parse_state msg.state;
    points_queued = msg.points_queued;
    effective_hz = msg.effective_hz;
    robot_ready = msg.robot_ready;
    servo_active = msg.servo_active;
    bridge_active = msg.bridge_active;
    last_error = msg.last_error;
    rejection_reason = msg.rejection_reason;
  }

  unfoldable pub on_servo_bridge_status : ServoBridgeStatus → JogService → JogService
  on_servo_bridge_status msg s = record s { status = view msg; events = s.events ++ view msg ∷ [] }

  abbrev pub is_jogging : JogBridgeState → Bool
  is_jogging ready = true
  is_jogging active = true
  is_jogging _ = false

  -- `publish` says whether the publisher returns on a command or raises.
  abbrev pub publish_command :
      (JogCommand → Bool) → JogCommand → JogService → (Bool × JogAnswer) × JogService
  publish_command publish command s =
      let given = record s { published = s.published ++ command ∷ [] } in
      if publish command
      then ((true, published_answer), given)
      else ((false, publish_exception), given)

  unfoldable pub send_jog_command :
      (JogCommand → Bool) → JogCommand → JogService → (Bool × JogAnswer) × JogService
  send_jog_command publish command s =
      if not s.has_node || not s.has_publisher
      then ((false, node_unavailable), s)
      else if not s.has_message_type
      then ((false, type_unavailable), s)
      else if not s.status.bridge_active
      then ((false, bridge_not_active), s)
      else if not s.status.robot_ready || not s.status.servo_active
      then ((false, not_ready), s)
      else if not (is_jogging s.status.state)
      then ((false, bridge_state s.status.state), s)
      else publish_command publish command s
