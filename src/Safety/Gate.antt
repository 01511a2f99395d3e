-- ===== src/Safety/Gate.antt =====
-- src/safety/safety/execution_gate.py: the callback of /validate_command. Trace and log lines are
-- not modelled.
use gp4_ws.Common.{
  String, Bool, true, false, not, ◌&&◌, ◌||◌, Option, none, some, List, [], ◌∷◌, if◌then◌else◌,
}
use gp4_ws.Common.Outcome.{ok, raised}
use gp4_ws.Python.{attribute_error, PyLib, Json, cons, Fields, get_field, default, is_text}
use gp4_ws.Safety.Checks.{Check, relabel, refuse_if, and_then}
use gp4_ws.Safety.Rules.{SafetyRules}
use gp4_ws.Safety.Workspace.{PoseReason, Position}
use gp4_ws.Safety.Validator.{CommandReason, in_texts, validate}
use gp4_ws.Safety.Points.{
  MoveRelReason, PointReason, validate_move_rel_deltas, validate_circ, validate_cartesian_path,
  in_workspace,
}
use gp4_ws.Safety.Blended.{StepReason, validate_blended_sequence}

pub data GateReason : Type 0 where
  blocked : String → GateReason
  bad_command : CommandReason → GateReason
  move_rel : MoveRelReason → GateReason
  bad_pose : PoseReason → GateReason
  circ cartesian : PointReason → GateReason
  blended : StepReason → GateReason

-- What the gate reads of its `SafetyManager`
pub record Readiness : Type 0 where
  pub is_robot_ready : Bool
  pub last_error_reason : String

abbrev pub pose_validation_skip_primitives : List String
pose_validation_skip_primitives =
    "HOME" ∷ "STOP" ∷ "MOVE_REL" ∷ "SET_SPEED" ∷ "WAIT" ∷ "ALARM_RESET" ∷ "IO_SET" ∷ "MOVE_JOINT"
    ∷ "MOVE_JOINTS" ∷ "GET_POSE" ∷ "BLENDED_SEQUENCE" ∷ "FACTORY_TASK_RUNTIME" ∷ []

module _ (py : PyLib) where
  open py use {Float, loads, dumps}

  abbrev JsonValue : Type 0
  JsonValue = Json Float

  -- the `primitive_type` of a dictionary
  abbrev pub names_primitive : String → Option JsonValue → Bool
  names_primitive name none = false
  names_primitive name (some v) = is_text name v

  -- `raw_primitive_type == "ALARM_RESET"`, on a text that may be no JSON or no dictionary
  abbrev pub is_alarm_reset : Option JsonValue → Bool
  is_alarm_reset (some (Json.obj fields)) =
      names_primitive "ALARM_RESET" (get_field "primitive_type" fields)
  is_alarm_reset _ = false

  abbrev pub check_readiness : Readiness → Option JsonValue → Check GateReason
  check_readiness state raw =
      refuse_if (not state.is_robot_ready && not (is_alarm_reset raw))
        (blocked state.last_error_reason) (ok none)

  abbrev pub is_filled_list : Option JsonValue → Bool
  is_filled_list (some (Json.arr (cons x xs))) = true
  is_filled_list _ = false

  abbrev pub skips_pose : Fields Float → Bool
  skips_pose cmd =
      in_texts (default Json.null (get_field "primitive_type" cmd)) pose_validation_skip_primitives
      || (names_primitive "PTP" (get_field "primitive_type" cmd)
          && is_filled_list (get_field "joint_target" cmd))

  -- `if prim_type == name:`, a check
  abbrev pub for_primitive : String → Fields Float → Check GateReason → Check GateReason
  for_primitive name cmd check =
      if names_primitive name (get_field "primitive_type" cmd) then check else ok none

  -- the steps 3a to 3e, on a command that is a dictionary
  unfoldable pub check_geometry : SafetyRules py → Position py → Fields Float → Check GateReason
  check_geometry rules target cmd =
      and_then
        (for_primitive "MOVE_REL" cmd (relabel move_rel (validate_move_rel_deltas py rules cmd)))
        (and_then (if skips_pose cmd then ok none else in_workspace py rules bad_pose target) (
          and_then
            (for_primitive "CIRC" cmd
              (relabel circ (validate_circ py rules (get_field "waypoints" cmd))))
            (and_then
              (for_primitive "CARTESIAN_PATH" cmd
                (relabel cartesian (validate_cartesian_path py rules (get_field "waypoints" cmd))))
              (for_primitive "BLENDED_SEQUENCE" cmd (
                relabel blended
                  (validate_blended_sequence py rules (get_field "sequence_steps" cmd)))))))

  abbrev pub check_parsed : SafetyRules py → Position py → Option JsonValue → Check GateReason
  check_parsed rules target (some (Json.obj cmd)) = check_geometry rules target cmd
  check_parsed rules target _ = raised attribute_error

  -- `_validate_callback_inner`: `none` is `response.valid`
  unfoldable pub validate_callback_inner :
      SafetyRules py → Readiness → String → Position py → Check GateReason
  validate_callback_inner rules state command_json target =
      and_then (check_readiness state (loads command_json)) (
        and_then (relabel bad_command (validate py rules command_json))
          (check_parsed rules target (loads command_json)))

  -- `response.sanitized_json`
  unfoldable pub sanitized_json : String → Check GateReason → String
  sanitized_json command_json (ok none) = elim (loads command_json) [
    | none ↦ ""
    | some cmd ↦ dumps cmd
  ]
  sanitized_json command_json _ = ""
