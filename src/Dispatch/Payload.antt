-- ===== src/Dispatch/Payload.antt =====
-- hmi/backend/ros/command_dispatch.py and jog_dispatch.py: the dictionary that is validated and
-- executed, built from what was parsed. `pi` is the float nearest to it.
use gp4_ws.Common.{ℕ, String, Option, none, some, List, [], ◌∷◌, ◌==◌, ◌||◌, mem_str, if◌then◌else◌}
use gp4_ws.Common.Int.{pos}
use gp4_ws.Common.Outcome.{Outcome, ok, raised}
use gp4_ws.Common.Fallible.{◌>>=◌, ◌>>◌}
use gp4_ws.Python.{
  PyLib, PyError, value_error, index_error, Json, null, str, int, float, obj, Fields, end, field,
  get_field, default, get_or_null, update_fields, to_float, text_or, is_truthy, zero_float,
}
use gp4_ws.Dispatch.Joints.{
  TextLib, Joint, JointPosition, gp4_joint_names, get_elem?, resolve_joint_target,
  read_joint_position_deg,
}

abbrev pub primitive_actions : List String
primitive_actions =
    "HOME" ∷ "PTP" ∷ "LIN" ∷ "CIRC" ∷ "CARTESIAN_PATH" ∷ "MOVE_REL" ∷ "MOVE_JOINT" ∷ "MOVE_JOINTS"
    ∷ "WAIT" ∷ "STOP" ∷ "SET_SPEED" ∷ "IO_SET" ∷ "ALARM_RESET" ∷ "GET_POSE" ∷ "BLENDED_SEQUENCE"
    ∷ []

module _ (py : PyLib) where
  open py use {Float, decimal, mul, div, add, strip}

  -- `float(fields.get(key, 0.0))`
  abbrev pub float_field : String → Fields Float → Outcome PyError Float
  float_field key fields = to_float py (default (float (zero_float py)) (get_field key fields))

  abbrev pub default_motion_scale : Json Float
  default_motion_scale = float (decimal 6 2)

  -- `float(parameters.get(key, 0.0)) / 1000.0`
  abbrev pub metres : String → Fields Float → Outcome PyError (Json Float)
  metres key parameters = do mm ← float_field key parameters; ok (float (div mm (decimal 1000 0)))

  abbrev pub scaled : String → Fields Float
  scaled planner_id =
      field "velocity_scale" default_motion_scale
        (field "acceleration_scale" default_motion_scale (field "planner_id" (str planner_id) end))

  unfoldable pub build_move_cartesian_delta_payload : Fields Float → Outcome PyError (Fields Float)
  build_move_cartesian_delta_payload parameters = do
    let frame = text_or py "base_link" (get_or_null "frame" parameters)
    if frame == "" || frame == "base_link" then ok tt else raised value_error
    x ← metres "xMm" parameters
    y ← metres "yMm" parameters
    z ← metres "zMm" parameters
    ok (
        field "primitive_type" (str "MOVE_REL") (
          field "delta_x" x (
            field "delta_y" y
              (field "delta_z" z (field "reference_frame" (str "base_link") (scaled "PILZ_LIN"))))))

  abbrev pub float_or_missing : Option Float → Outcome PyError (Json Float)
  float_or_missing none = raised value_error
  float_or_missing (some f) = ok (float f)

  abbrev named_position : List (JointPosition Float) → Option String → Outcome PyError (Json Float)
  named_position positions none = raised index_error
  named_position positions (some name) = float_or_missing (read_joint_position_deg name positions)

  -- `currentPositionDeg`, else the position that is read
  abbrev pub current_position :
      List (JointPosition Float) → ℕ → Json Float → Outcome PyError (Json Float)
  current_position positions joint_index null =
      named_position positions (get_elem? gp4_joint_names joint_index)
  current_position positions joint_index v = ok v

  unfoldable pub resolve_joint_target_deg :
      List (JointPosition Float) → ℕ → Fields Float → Outcome PyError Float
  resolve_joint_target_deg positions joint_index parameters = do
    current ← current_position positions joint_index (get_or_null "currentPositionDeg" parameters)
    delta_deg ← float_field "deltaDeg" parameters
    current_deg ← to_float py current
    ok (add current_deg delta_deg)

  -- `resolvedTargetDeg`, else the position and the delta
  abbrev pub target_deg :
      List (JointPosition Float) → ℕ → Fields Float → Json Float → Outcome PyError Float
  target_deg positions joint_index parameters null =
      resolve_joint_target_deg positions joint_index parameters
  target_deg positions joint_index parameters v = to_float py v

  abbrev pub joint_or_error : Option Joint → Outcome PyError Joint
  joint_or_error none = raised value_error
  joint_or_error (some joint) = ok joint

  module _ (tx : TextLib) (positions : List (JointPosition Float)) where
    unfoldable pub build_move_joint_delta_payload : Fields Float → Outcome PyError (Fields Float)
    build_move_joint_delta_payload parameters = do
      found ← resolve_joint_target py tx parameters gp4_joint_names
      joint ← joint_or_error found
      deg ← target_deg positions joint.0 parameters (get_or_null "resolvedTargetDeg" parameters)
      ok (
          field "primitive_type" (str "MOVE_JOINT") (
            field "joint_index" (int (pos joint.0)) (
              field "joint_angle"
                (float (div (mul deg (decimal 3141592653589793 15)) (decimal 180 0)))
                (scaled "PILZ_PTP"))))

    abbrev pub move_home : Fields Float
    move_home = field "primitive_type" (str "HOME") (
        field "velocity_scale" default_motion_scale (
          field "acceleration_scale" default_motion_scale
            (field "planner_id" (str "PILZ_PTP") (field "reference_frame" (str "base_link") end))))

    abbrev pub stop : Fields Float
    stop = field "primitive_type" (str "STOP") (field "reference_frame" (str "base_link") end)

    abbrev pub payload_of_action : String → Fields Float → Outcome PyError (Fields Float)
    payload_of_action action parameters =
        if mem_str (tx.upper action) primitive_actions
        then ok (update_fields (field "primitive_type" (str (tx.upper action)) end) parameters)
        else (if action == "move_home"
            then ok move_home
            else (if action == "stop"
                then ok stop
                else (if action == "move_cartesian_delta"
                    then build_move_cartesian_delta_payload parameters
                    else (if action == "move_joint_delta"
                        then build_move_joint_delta_payload parameters
                        else raised value_error))))

    -- `dict(parsed_intent.get("parameters") or {})`; of a value that is no dictionary, `to_dict`
    abbrev pub parameters_of :
        (Json Float → Outcome PyError (Fields Float)) → Json Float → Outcome PyError (Fields Float)
    parameters_of to_dict (obj fields) = ok fields
    parameters_of to_dict v = if is_truthy py v then to_dict v else ok end

    -- `normalizedCommand`, if it is a dictionary that names a primitive
    abbrev pub normalized_command : Json Float → Option (Fields Float)
    normalized_command (obj fields) =
        if is_truthy py (get_or_null "primitive_type" fields) then some fields else none
    normalized_command v = none

    abbrev pub payload_of_intent :
        (Json Float → Outcome PyError (Fields Float))
        → Fields Float
        → Option (Fields Float)
        → Outcome PyError (Fields Float)
    payload_of_intent to_dict parsed_intent (some command) = ok command
    payload_of_intent to_dict parsed_intent none = do
      parameters ← parameters_of to_dict (get_or_null "parameters" parsed_intent)
      if is_truthy py (get_or_null "primitive_type" parsed_intent)
          then ok parsed_intent
          else payload_of_action (strip (text_or py "" (get_or_null "action" parsed_intent)))
              parameters

    unfoldable pub build_command_payload :
        (Json Float → Outcome PyError (Fields Float))
        → Fields Float
        → Outcome PyError (Fields Float)
    build_command_payload to_dict parsed_intent =
        payload_of_intent to_dict parsed_intent
          (normalized_command (get_or_null "normalizedCommand" parsed_intent))
