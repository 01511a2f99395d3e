-- ===== src/Safety/Validator.antt =====
-- src/safety/safety/command_validator.py
use gp4_ws.Common.{
  String, Bool, false, not, ◌&&◌, Option, none, some, List, [], ◌∷◌, ◌==◌, mem_str, if◌then◌else◌,
}
use gp4_ws.Common.Outcome.{Outcome, ok, raised}
use gp4_ws.Common.Fallible.{◌>>=◌}
use gp4_ws.Python.{
  PyError, type_error, PyLib, Json, float, str, get, default, is_text, is_hashable, to_float,
  is_truthy_opt,
}
use gp4_ws.Safety.Checks.{Check, refuse_if, and_then, numeric_or}
use gp4_ws.Safety.Rules.{
  Joint6, SafetyRules, or_default, max_velocity, max_acceleration, max_move_rel_velocity,
}

-- What the messages of `validate` name
pub data Scale : Type 0 where
  velocity_scale acceleration_scale : Scale

pub data CommandReason : Type 0 where
  empty_json invalid_json missing_primitive_type : CommandReason
  invalid_format exceeds_cap not_positive : Scale → CommandReason
  extended_disabled cable_token_required extended_velocity operator_token_required : CommandReason
  extended_duration : CommandReason

abbrev pub velocity_bypass_primitives : List String
velocity_bypass_primitives =
    "ALARM_RESET" ∷ "STOP" ∷ "WAIT" ∷ "IO_SET" ∷ "GET_POSE" ∷ "FACTORY_TASK_RUNTIME" ∷ []

abbrev pub in_texts : {F : Type 0} → Json F → List String → Bool
in_texts (str s) names = mem_str s names
in_texts v names = false

module _ (py : PyLib) where
  open py use {Float, lt, le, decimal, of_int, loads}

  abbrev pub JsonValue : Type 0
  JsonValue = Json Float

  abbrev pub Checked : Type 0
  Checked = Check CommandReason

  -- the block on one of the two scales; an absent or null scale is accepted
  abbrev pub check_scale_value : Scale → Float → JsonValue → Checked
  check_scale_value scale cap Json.null = ok none
  check_scale_value scale cap v = numeric_or (invalid_format scale) (to_float py v) λ f.
      refuse_if (lt cap f) (exceeds_cap scale)
        (refuse_if (le f (decimal 0 0)) (not_positive scale) (ok none))

  unfoldable pub check_scale : Scale → Float → Option JsonValue → Checked
  check_scale scale cap none = ok none
  check_scale scale cap (some v) = check_scale_value scale cap v

  -- `float(command.get(key, default))`
  abbrev pub float_field : String → Float → JsonValue → Outcome PyError Float
  float_field key d command = do v ← get key command; to_float py (default (float d) v)

  abbrev pub check_extended : Joint6 py → JsonValue → Checked
  check_extended cfg command = do
    cable ← get "cable_inspection_signed_off_token" command
    refuse_if (cfg.cable_inspection_signed_off && not (is_truthy_opt py cable)) cable_token_required
        (do
          vel ← float_field "velocity_scale" (decimal 6 2) command
          refuse_if (lt (or_default py cfg.max_velocity_scale (decimal 10 2)) vel) extended_velocity
              (do
                token ← get "operator_confirm_token" command
                refuse_if (cfg.requires_operator_confirm && not (is_truthy_opt py token))
                    operator_token_required
                    (do
                      estimated ← float_field "estimated_duration_s" (decimal 0 0) command
                      refuse_if
                          (lt (or_default py cfg.max_continuous_extended_time_s (decimal 30 0))
                            estimated)
                          extended_duration (ok none))))

  unfoldable pub check_extended_mode_preconditions : SafetyRules py → JsonValue → Checked
  check_extended_mode_preconditions rules command = do
    mode ← get "extended_mode" command
    if not (is_truthy_opt py mode) then ok none else (elim rules.joint_6_t [
      | none ↦ ok (some extended_disabled)
      | some cfg ↦
          if not cfg.has_extended then ok (some extended_disabled) else check_extended cfg command
    ])

  abbrev pub velocity_cap : SafetyRules py → JsonValue → Float
  velocity_cap rules primitive =
      if is_text "MOVE_REL" primitive then max_move_rel_velocity py rules else max_velocity py rules

  unfoldable pub check_scales : SafetyRules py → JsonValue → JsonValue → Checked
  check_scales rules primitive cmd = do
    velocity ← get "velocity_scale" cmd
    acceleration ← get "acceleration_scale" cmd
    and_then (check_scale velocity_scale (velocity_cap rules primitive) velocity)
        (check_scale acceleration_scale (max_acceleration py rules) acceleration)

  unfoldable pub validate_command : SafetyRules py → JsonValue → Checked
  validate_command rules cmd = do
    primitive ← get "primitive_type" cmd
    if not (is_truthy_opt py primitive)
        then ok (some missing_primitive_type)
        else (let p = default Json.null primitive in
            if not (is_hashable p)
            then raised type_error
            else if in_texts p velocity_bypass_primitives
            then ok none
            else and_then (check_extended_mode_preconditions rules cmd) (check_scales rules p cmd))

  unfoldable pub validate : SafetyRules py → String → Checked
  validate rules command_json =
      if command_json == "" then ok (some empty_json) else elim (loads command_json) [
        | none ↦ ok (some invalid_json)
        | some cmd ↦ validate_command rules cmd
      ]
