-- ===== src/Safety/Scales.antt =====
-- What the command validator says of the scales: src/safety/safety/command_validator.py.
use gp4_ws.Common.{
  String, Bool, true, false, not, Option, none, some, ◌≡◌, refl, ◌==◌, if◌then◌else◌,
}
use gp4_ws.Common.Outcome.{Outcome, ok}
use gp4_ws.Python.{
  PyError, type_error, PyLib, Json, obj, Fields, get_field, default, to_float, is_truthy_opt,
}
use gp4_ws.Safety.Checks.{
  Check, refuse_if, numeric_or, and_then, refuse_if-accepts, raise_if-accepts, and_then-accepts,
  numeric_or-accepts,
}
use gp4_ws.Safety.Rules.{SafetyRules, max_acceleration}
use gp4_ws.Safety.Validator.{
  Scale, velocity_scale, acceleration_scale, CommandReason, empty_json, invalid_format, exceeds_cap,
  not_positive, velocity_bypass_primitives, in_texts, check_scale_value, check_scale, velocity_cap,
  check_extended_mode_preconditions, check_scales, validate_command, validate,
}

module _ (py : PyLib) where
  open py use {Float, lt, le, decimal, loads}

  -- A scale that is given reads as a float that the tests for too high and too low do not hold of.
  abbrev pub InRange : Float → Json Float → Type 0
  InRange cap v =
      (f : Float) × (to_float py v ≡ ok f) × (lt cap f ≡ false) × (le f (decimal 0 0) ≡ false)

  abbrev pub ScaleValueFits : Float → Json Float → Type 0
  ScaleValueFits cap Json.null = Unit
  ScaleValueFits cap v = InRange cap v

  abbrev pub ScaleFits : Float → Option (Json Float) → Type 0
  ScaleFits cap none = Unit
  ScaleFits cap (some v) = ScaleValueFits cap v

  range :
      (scale : Scale) (cap : Float) (v : Json Float)
      → numeric_or (invalid_format scale) (to_float py v) (λ f.
        refuse_if
          (lt cap f)
          (exceeds_cap scale)
          (refuse_if (le f (decimal 0 0)) (not_positive scale) (ok none)))
        ≡ ok none
      → InRange cap v
  range scale cap v h =
      let (f, e, g) = numeric_or-accepts (invalid_format scale) (to_float py v) _ h in
      let (low, rest) = refuse_if-accepts _ _ _ g in
      let (high, _) = refuse_if-accepts _ (not_positive scale) (ok none) rest in (f, e, low, high)

  check_scale_value-fits :
      (scale : Scale) (cap : Float) (v : Json Float)
      → check_scale_value py scale cap v ≡ ok none
      → ScaleValueFits cap v
  check_scale_value-fits scale cap Json.null h = tt
  check_scale_value-fits scale cap v h = range scale cap v h

  check_scale-ScaleFits :
      (scale : Scale) (cap : Float) (o : Option (Json Float))
      → check_scale py scale cap o ≡ ok none
      → ScaleFits cap o
  unfolding check_scale
  check_scale-ScaleFits scale cap none h = tt
  check_scale-ScaleFits scale cap (some v) h = check_scale_value-fits scale cap v h

  module _ (rules : SafetyRules py) where
    -- `scales` leaves out the primitives whose scales are not read.
    pub record Valid (text : String) (cmd : Fields Float) : Type 0 where
      pub parsed : loads text ≡ some (obj cmd)
      pub named : is_truthy_opt py (get_field "primitive_type" cmd) ≡ true
      pub scales :
          in_texts (default Json.null (get_field "primitive_type" cmd)) velocity_bypass_primitives
            ≡ false
          → ScaleFits
              (velocity_cap py rules (default Json.null (get_field "primitive_type" cmd)))
              (get_field "velocity_scale" cmd)
            × ScaleFits (max_acceleration py rules) (get_field "acceleration_scale" cmd)

    refused :
        {A : Type 0} (b : Bool) (a : A) (rest : Outcome PyError (Option A))
        → (if not b then ok (some a) else rest) ≡ ok none
        → (b ≡ true) × (rest ≡ ok none)
    refused true a rest h = (refl, h)
    refused false a rest h = cc

    scales_checked :
        (b : Bool) (cmd : Fields Float) (p : Json Float)
        → ◌≡◌ {A = Check CommandReason}
            (if b
              then ok none
              else and_then
                  (check_extended_mode_preconditions py rules (obj cmd))
                  (check_scales py rules p (obj cmd)))
            (ok none)
        → b ≡ false
        → ScaleFits (velocity_cap py rules p) (get_field "velocity_scale" cmd)
          × ScaleFits (max_acceleration py rules) (get_field "acceleration_scale" cmd)
    unfolding check_scales
    scales_checked true cmd p h e = cc
    scales_checked false cmd p h e =
        let (v, a) = and_then-accepts _ _ (and_then-accepts _ _ h).1 in
        (check_scale-ScaleFits velocity_scale _ _ v, check_scale-ScaleFits acceleration_scale _ _ a)

    validate_command-Valid :
        (text : String) (v : Json Float)
        → loads text ≡ some v
        → validate_command py rules v ≡ ok none
        → (cmd : Fields Float) × Valid text cmd
    unfolding validate_command
    validate_command-Valid text (obj cmd) parsed h =
        let (named, h1) = refused (is_truthy_opt py (get_field "primitive_type" cmd)) _ _ h in
        let (_, h2) = raise_if-accepts _ type_error _ h1 in
        (cmd, record { parsed = parsed; named = named; scales = scales_checked _ cmd _ h2 })
    validate_command-Valid text v parsed h = cc

    by_parse :
        (text : String) (o : Option (Json Float))
        → loads text ≡ o
        → ◌≡◌ {A = Check CommandReason}
            (elim o [
              | none ↦ ok (some CommandReason.invalid_json)
              | some cmd ↦ validate_command py rules cmd
            ])
            (ok none)
        → (cmd : Fields Float) × Valid text cmd
    by_parse text none e h = cc
    by_parse text (some v) e h = validate_command-Valid text v e h

    -- A command that the validator accepts is a JSON dictionary with a primitive type; and for every
    -- primitive type but the six that move nothing, a velocity or acceleration scale that is given
    -- reads as a float that is neither above its cap (for MOVE_REL: its own velocity cap) nor at
    -- most 0.
    pub validate-Valid :
        (text : String) → validate py rules text ≡ ok none → (cmd : Fields Float) × Valid text cmd
    unfolding validate
    validate-Valid text h =
        by_parse text (loads text) refl (refuse_if-accepts (text == "") empty_json _ h).1
