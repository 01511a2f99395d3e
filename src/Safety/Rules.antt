-- ===== src/Safety/Rules.antt =====
-- The values that the safety package reads of safety_rules.yaml, as the constructors of its classes
-- take them: a missing key is `none`, and the defaults of the code are written out.
use gp4_ws.Common.{String, Bool, Option, none, some, List}
use gp4_ws.Python.{PyLib}

module _ (py : PyLib) where
  open py use {Float, decimal, negative}

  pub record Zone : Type 0 where
    pub name : String
    pub x : Float
    pub y : Float
    pub z : Float
    pub size_x : Float
    pub size_y : Float
    pub size_z : Float

  -- `motion_limits`, and `joint_limits_override` for the two legacy keys
  pub record MotionLimits : Type 0 where
    pub max_velocity_scale : Option Float
    pub max_acceleration_scale : Option Float
    pub max_move_rel_velocity_scale : Option Float
    pub max_move_rel_translation : Option Float
    pub legacy_velocity_scale : Option Float
    pub legacy_acceleration_scale : Option Float

  -- `workspace_bounds`
  pub record Bounds : Type 0 where
    pub x_min : Option Float
    pub x_max : Option Float
    pub y_min : Option Float
    pub y_max : Option Float
    pub z_min : Option Float
    pub z_max : Option Float

  -- `operational_joint_limits.joint_6_t`, if it is a dictionary
  pub record Joint6 : Type 0 where
    pub has_extended : Bool
    pub cable_inspection_signed_off : Bool
    pub max_velocity_scale : Option Float
    pub requires_operator_confirm : Bool
    pub max_continuous_extended_time_s : Option Float

  pub record SafetyRules : Type 0 where
    pub limits : MotionLimits
    pub bounds : Bounds
    pub forbidden_zones : List Zone
    pub joint_6_t : Option Joint6

  abbrev pub or_default : Option Float → Float → Float
  or_default none d = d
  or_default (some v) d = v

  -- CommandValidator.__init__
  abbrev pub max_velocity : SafetyRules → Float
  max_velocity rules =
      or_default rules.limits.max_velocity_scale
        (or_default rules.limits.legacy_velocity_scale (decimal 6 2))

  abbrev pub max_acceleration : SafetyRules → Float
  max_acceleration rules =
      or_default rules.limits.max_acceleration_scale
        (or_default rules.limits.legacy_acceleration_scale (decimal 6 2))

  abbrev pub max_move_rel_velocity : SafetyRules → Float
  max_move_rel_velocity rules =
      or_default rules.limits.max_move_rel_velocity_scale (max_velocity rules)

  -- ExecutionGate.__init__
  abbrev pub max_move_rel_delta_norm : SafetyRules → Float
  max_move_rel_delta_norm rules = or_default rules.limits.max_move_rel_translation (decimal 21 2)
