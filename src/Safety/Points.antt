-- ===== src/Safety/Points.antt =====
-- src/safety/safety/execution_gate.py: the checks on the points of MOVE_REL, CIRC and CARTESIAN_PATH.
use gp4_ws.Common.{String, Bool, true, false, not, ◌&&◌, Option, none, some, [], ◌∷◌, if◌then◌else◌}
use gp4_ws.Common.Outcome.{Outcome, ok, raised}
use gp4_ws.Common.Fallible.{◌>>=◌}
use gp4_ws.Python.{
  PyError, type_error, key_error, PyLib, Json, Items, nil, cons, Fields, get_field, default,
  is_hashable, is_zero, to_float,
}
use gp4_ws.Safety.Checks.{Check, refuse_if, and_then, numeric_or}
use gp4_ws.Safety.Rules.{SafetyRules, max_move_rel_delta_norm}
use gp4_ws.Safety.Workspace.{PoseReason, Position, check_pose}
use gp4_ws.Safety.Validator.{in_texts}

pub data MoveRelReason : Type 0 where
  unsupported_frame not_numeric not_finite all_zero norm_exceeds_limit : MoveRelReason

pub data PointReason : Type 0 where
  wrong_count not_an_object missing_position missing_axis not_numeric not_finite : PointReason
  outside : PoseReason → PointReason

module _ (py : PyLib) where
  open py use {Float, lt, le, add, mul, sqrt, is_finite, decimal, strip_upper, loads, dumps}

  abbrev JsonValue : Type 0
  JsonValue = Json Float

  -- three conversions in one `try`
  abbrev pub three_floats :
      Outcome PyError JsonValue
      → Outcome PyError JsonValue
      → Outcome PyError JsonValue
      → Outcome PyError (Position py)
  three_floats mx my mz = do
    vx ← mx
    x ← to_float py vx
    vy ← my
    y ← to_float py vy
    vz ← mz
    z ← to_float py vz
    ok (record { x = x; y = y; z = z })

  abbrev pub finite : Position py → Bool
  finite p = is_finite p.x && (is_finite p.y && is_finite p.z)

  abbrev pub norm : Position py → Float
  norm d = sqrt (add (add (mul d.x d.x) (mul d.y d.y)) (mul d.z d.z))

  -- `position.get(axis, 0.0)`
  abbrev pub axis_or_zero : String → Fields Float → Outcome PyError JsonValue
  axis_or_zero axis fields = ok (default (Json.float (decimal 0 0)) (get_field axis fields))

  -- `position[axis]`
  abbrev pub axis_of : String → Fields Float → Outcome PyError JsonValue
  axis_of axis fields = elim (get_field axis fields) [ none ↦ raised key_error | some v ↦ ok v ]

  unfoldable pub validate_move_rel_deltas : SafetyRules py → Fields Float → Check MoveRelReason
  validate_move_rel_deltas rules cmd =
      let frame = default (Json.str "") (get_field "reference_frame" cmd) in
      if not (is_hashable frame)
      then raised type_error
      else refuse_if (not (in_texts frame ("" ∷ "base_link" ∷ []))) unsupported_frame (
          numeric_or MoveRelReason.not_numeric
            (three_floats (axis_or_zero "delta_x" cmd) (axis_or_zero "delta_y" cmd)
              (axis_or_zero "delta_z" cmd))
            λ d. refuse_if (not (finite d)) MoveRelReason.not_finite (
              refuse_if (is_zero py d.x && (is_zero py d.y && is_zero py d.z)) all_zero (
                refuse_if (lt (max_move_rel_delta_norm py rules) (norm d)) norm_exceeds_limit
                  (ok none))))

  abbrev pub in_workspace : {R : Type 0} → SafetyRules py → (PoseReason → R) → Position py → Check R
  in_workspace rules f p = elim (check_pose py rules p) [
    | none ↦ ok none
    | some r ↦ ok (some (f r))
  ]

  -- the checks on one point that CIRC and CARTESIAN_PATH share
  abbrev pub check_point : SafetyRules py → Position py → Check PointReason
  check_point rules p =
      refuse_if (not (finite p)) PointReason.not_finite (in_workspace rules PointReason.outside p)

  -- 3c: the auxiliary waypoint of a CIRC
  abbrev pub check_auxiliary_position : SafetyRules py → Option JsonValue → Check PointReason
  check_auxiliary_position rules (some (Json.obj position)) =
      numeric_or PointReason.not_numeric
        (three_floats (axis_or_zero "x" position) (axis_or_zero "y" position)
          (axis_or_zero "z" position))
        (check_point rules)
  check_auxiliary_position rules _ = ok (some missing_position)

  abbrev pub check_auxiliary : SafetyRules py → JsonValue → Check PointReason
  check_auxiliary rules (Json.obj waypoint) =
      check_auxiliary_position rules (get_field "position" waypoint)
  check_auxiliary rules _ = ok (some missing_position)

  unfoldable pub validate_circ : SafetyRules py → Option JsonValue → Check PointReason
  validate_circ rules (some (Json.arr (cons waypoint nil))) = check_auxiliary rules waypoint
  validate_circ rules _ = ok (some wrong_count)

  abbrev pub has_field : String → Fields Float → Bool
  has_field key fields = elim (get_field key fields) [ none ↦ false | some v ↦ true ]

  abbrev pub check_path_position : SafetyRules py → Option JsonValue → Check PointReason
  check_path_position rules (some (Json.obj position)) =
      refuse_if (not (has_field "x" position && (has_field "y" position && has_field "z" position)))
        missing_axis
        (numeric_or PointReason.not_numeric
          (three_floats (axis_of "x" position) (axis_of "y" position) (axis_of "z" position))
          (check_point rules))
  check_path_position rules _ = ok (some missing_position)

  abbrev pub check_waypoint : SafetyRules py → JsonValue → Check PointReason
  check_waypoint rules (Json.obj waypoint) =
      check_path_position rules (get_field "position" waypoint)
  check_waypoint rules _ = ok (some not_an_object)

  -- the loop over the waypoints
  unfoldable pub check_waypoints : SafetyRules py → Items Float → Check PointReason
  check_waypoints rules nil = ok none
  check_waypoints rules (cons waypoint rest) =
      let later = check_waypoints rules rest in and_then (check_waypoint rules waypoint) later

  -- `_validate_cartesian_path_waypoints`
  unfoldable pub validate_cartesian_path : SafetyRules py → Option JsonValue → Check PointReason
  validate_cartesian_path rules (some (Json.arr (cons waypoint rest))) =
      check_waypoints rules (cons waypoint rest)
  validate_cartesian_path rules _ = ok (some wrong_count)
