-- ===== src/Safety/Blended.antt =====
-- src/safety/safety/execution_gate.py: `_validate_blended_sequence`.
use gp4_ws.Common.{String, Bool, true, false, not, ◌&&◌, Option, none, some, [], ◌∷◌, mem_str}
use gp4_ws.Common.Int.{ℤ, pos, int_eq}
use gp4_ws.Common.Outcome.{Outcome, ok, raised}
use gp4_ws.Common.Fallible.{◌>>=◌}
use gp4_ws.Python.{
  PyError, type_error, PyLib, Json, Items, nil, cons, Fields, get_field, default, is_zero, to_float,
  to_int,
}
use gp4_ws.Safety.Checks.{Check, relabel, refuse_if, and_then, numeric_or, indexed_or}
use gp4_ws.Safety.Rules.{SafetyRules, max_velocity, max_acceleration}
use gp4_ws.Safety.Workspace.{PoseReason, Position}
use gp4_ws.Safety.Validator.{velocity_scale, acceleration_scale, CommandReason, check_scale}
use gp4_ws.Safety.Points.{three_floats, axis_of, in_workspace}

pub data StepReason : Type 0 where
  too_few not_a_dict unsupported_primitive radius_not_numeric radius_negative : StepReason
  last_radius_not_zero goal_joints goal_named missing_target position_invalid : StepReason
  scale : CommandReason → StepReason
  outside : PoseReason → StepReason

module _ (py : PyLib) where
  open py use {Float, lt, decimal, strip_upper}

  abbrev JsonValue : Type 0
  JsonValue = Json Float

  abbrev pub is_last : Items Float → Bool
  is_last nil = true
  is_last (cons x xs) = false

  -- a value that is missing or `None`
  abbrev pub present : Option JsonValue → Option JsonValue
  present (some Json.null) = none
  present o = o

  abbrev pub or_present : Option JsonValue → Option JsonValue → Option JsonValue
  or_present none o = o
  or_present (some v) o = some v

  abbrev pub blend_radius : Fields Float → Outcome PyError Float
  blend_radius step =
      elim (or_present (present (get_field "blend_radius_m" step))
        (present (get_field "blend_radius" step))) [
          | none ↦ ok (decimal 0 0)
          | some v ↦ to_float py v
        ]

  abbrev pub check_radius : Bool → Float → Check StepReason
  check_radius last radius =
      refuse_if (lt radius (decimal 0 0)) radius_negative
        (refuse_if (last && not (is_zero py radius)) last_radius_not_zero (ok none))

  abbrev pub check_goal_type : ℤ → Check StepReason
  check_goal_type goal =
      refuse_if (int_eq goal (pos 1)) goal_joints
        (refuse_if (int_eq goal (pos 2)) goal_named (ok none))

  -- `pos["x"]`, `pos["y"]` and `pos["z"]` as floats: only a dictionary is indexed by a text
  abbrev pub step_position : JsonValue → Outcome PyError (Position py)
  step_position (Json.obj position) =
      three_floats py (axis_of py "x" position) (axis_of py "y" position) (axis_of py "z" position)
  step_position _ = raised type_error

  abbrev pub check_target : SafetyRules py → Option JsonValue → Check StepReason
  check_target rules (some (Json.obj target)) = elim (get_field "position" target) [
    | none ↦ ok (some missing_target)
    | some p ↦ indexed_or position_invalid (step_position p) (in_workspace py rules outside)
  ]
  check_target rules _ = ok (some missing_target)

  abbrev pub step_primitive : Fields Float → String
  step_primitive step = strip_upper (default (Json.str "") (get_field "primitive_type" step))

  abbrev pub is_step_primitive : String → Bool
  is_step_primitive name = mem_str name ("" ∷ "LIN" ∷ "PTP" ∷ [])

  -- the body of the loop, on a step that is a dictionary
  unfoldable pub check_step_fields : SafetyRules py → Bool → Fields Float → Check StepReason
  check_step_fields rules last step =
      refuse_if (not (is_step_primitive (step_primitive step))) unsupported_primitive (
        numeric_or radius_not_numeric (blend_radius step) λ radius.
          and_then (check_radius last radius) (
            and_then
              (relabel scale (
                check_scale py velocity_scale (max_velocity py rules)
                  (get_field "velocity_scale" step)))
              (and_then
                (relabel scale (
                  check_scale py acceleration_scale (max_acceleration py rules)
                    (get_field "acceleration_scale" step)))
                (do
                  goal ← to_int py (default (Json.int (pos 0)) (get_field "goal_type" step))
                  and_then (check_goal_type goal)
                      (check_target rules (get_field "target_pose" step))))))

  abbrev pub check_step : SafetyRules py → Bool → JsonValue → Check StepReason
  check_step rules last (Json.obj step) = check_step_fields rules last step
  check_step rules last _ = ok (some not_a_dict)

  -- the loop over the steps
  unfoldable pub check_steps : SafetyRules py → Items Float → Check StepReason
  check_steps rules nil = ok none
  check_steps rules (cons step rest) =
      let later = check_steps rules rest in and_then (check_step rules (is_last rest) step) later

  unfoldable pub validate_blended_sequence : SafetyRules py → Option JsonValue → Check StepReason
  validate_blended_sequence rules (some (Json.arr (cons first (cons second rest)))) =
      check_steps rules (cons first (cons second rest))
  validate_blended_sequence rules _ = ok (some too_few)
