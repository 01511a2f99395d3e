-- ===== src/Safety/Extended.antt =====
-- What the validator asks of a command in extended mode: src/safety/safety/command_validator.py.
use gp4_ws.Common.{
  Bool, true, false, not, ◌&&◌, ◌||◌, Option, none, some, ◌≡◌, refl, arith, if◌then◌else◌,
}
use gp4_ws.Common.Outcome.{Outcome, ok}
use gp4_ws.Common.Fallible.{>>=-eq-ok}
use gp4_ws.Python.{PyError, PyLib, Json, obj, Fields, get_field, is_truthy_opt}
use gp4_ws.Safety.Checks.{Check, refuse_if-accepts}
use gp4_ws.Safety.Rules.{Joint6, SafetyRules, or_default}
use gp4_ws.Safety.Validator.{
  CommandReason, extended_disabled, cable_token_required, operator_token_required, float_field,
  check_extended, check_extended_mode_preconditions,
}

module _ (py : PyLib) where
  open py use {Float, lt, decimal}

  -- A token is given, or none is required.
  abbrev pub GivenIf : Bool → Option (Json Float) → Type 0
  GivenIf required token = (not required || is_truthy_opt py token) ≡ true

  -- A float that is not above its limit
  abbrev pub WithinLimit : Outcome PyError Float → Float → Type 0
  WithinLimit read limit = (f : Float) × (read ≡ ok f) × (lt limit f ≡ false)

  pub record ExtendedAllowed (rules : SafetyRules py) (cmd : Fields Float) : Type 0 where
    pub cfg : Joint6 py
    pub configured : rules.joint_6_t ≡ some cfg
    pub enabled : cfg.has_extended ≡ true
    pub cable :
        GivenIf cfg.cable_inspection_signed_off (get_field "cable_inspection_signed_off_token" cmd)
    pub velocity :
        WithinLimit
          (float_field py "velocity_scale" (decimal 6 2) (obj cmd))
          (or_default py cfg.max_velocity_scale (decimal 10 2))
    pub operator : GivenIf cfg.requires_operator_confirm (get_field "operator_confirm_token" cmd)
    pub duration :
        WithinLimit
          (float_field py "estimated_duration_s" (decimal 0 0) (obj cmd))
          (or_default py cfg.max_continuous_extended_time_s (decimal 30 0))

  given :
      (required present : Bool)
      → (required && not present) ≡ false
      → (not required || present) ≡ true
  given required present h = ground arith

  check_extended-ExtendedAllowed :
      (rules : SafetyRules py) (cfg : Joint6 py) (cmd : Fields Float)
      → rules.joint_6_t ≡ some cfg
      → cfg.has_extended ≡ true
      → check_extended py cfg (obj cmd) ≡ ok none
      → ExtendedAllowed rules cmd
  check_extended-ExtendedAllowed rules cfg cmd configured enabled h =
      let (cable, h1) = refuse_if-accepts _ cable_token_required _ h in
      let (vel, read_vel, h2) =
        >>=-eq-ok (float_field py "velocity_scale" (decimal 6 2) (obj cmd)) _ h1 in
      let (slow, h3) = refuse_if-accepts _ _ _ h2 in
      let (operator, h4) = refuse_if-accepts _ operator_token_required _ h3 in
      let (time, read_time, h5) =
        >>=-eq-ok (float_field py "estimated_duration_s" (decimal 0 0) (obj cmd)) _ h4 in
      let (short, _) = refuse_if-accepts _ CommandReason.extended_duration (ok none) h5 in
      record {
        cfg = cfg;
        configured = configured;
        enabled = enabled;
        cable = given _ _ cable;
        velocity = (vel, read_vel, slow);
        operator = given _ _ operator;
        duration = (time, read_time, short);
      }

  by_config :
      (rules : SafetyRules py) (cmd : Fields Float) (o : Option (Joint6 py))
      → rules.joint_6_t ≡ o
      → ◌≡◌ {A = Check CommandReason}
          (elim o [
            | none ↦ ok (some extended_disabled)
            | some cfg ↦
                if not cfg.has_extended
                then ok (some extended_disabled)
                else check_extended py cfg (obj cmd)
          ])
          (ok none)
      → ExtendedAllowed rules cmd
  by_config rules cmd none e h = cc
  by_config rules cmd (some cfg) e h =
      let (enabled, rest) = enabled_of cfg.has_extended _ h in
      check_extended-ExtendedAllowed rules cfg cmd e enabled rest
    where
      enabled_of :
          (b : Bool) (rest : Check CommandReason)
          → (if not b then ok (some extended_disabled) else rest) ≡ ok none
          → (b ≡ true) × (rest ≡ ok none)
      enabled_of true rest k = (refl, k)
      enabled_of false rest k = cc

  -- A command in extended mode that passes its check has an extended range of joint 6 enabled in the
  -- rules, the cable inspection and operator tokens that they require, and a velocity scale (0.06 if
  -- absent) and an estimated duration (0 if absent) that read as floats not above their limits.
  pub check_extended_mode_preconditions-ExtendedAllowed :
      (rules : SafetyRules py) (cmd : Fields Float)
      → is_truthy_opt py (get_field "extended_mode" cmd) ≡ true
      → check_extended_mode_preconditions py rules (obj cmd) ≡ ok none
      → ExtendedAllowed rules cmd
  unfolding check_extended_mode_preconditions
  check_extended_mode_preconditions-ExtendedAllowed rules cmd mode h =
      by_config rules cmd rules.joint_6_t refl
        (requested (is_truthy_opt py (get_field "extended_mode" cmd)) _ mode h)
    where
      requested :
          (b : Bool) (rest : Check CommandReason)
          → b ≡ true
          → (if not b then ok none else rest) ≡ ok none
          → rest ≡ ok none
      requested true rest e k = k
      requested false rest e k = cc
