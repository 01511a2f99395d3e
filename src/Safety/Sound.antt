-- ===== src/Safety/Sound.antt =====
-- What the gate of /validate_command admits: src/safety/safety/execution_gate.py.
use mathlib.Core.Path.{subst}
use gp4_ws.Common.{
  String, Bool, true, false, not, ◌&&◌, ◌||◌, Option, none, some, ◌≡◌, refl, if◌then◌else◌,
}
use gp4_ws.Common.Int.{pos}
use gp4_ws.Common.Outcome.{ok}
use gp4_ws.Common.Fallible.{>>=-eq-ok}
use gp4_ws.Python.{
  type_error, PyLib, Json, arr, obj, Items, nil, cons, Fields, get_field, default, to_int, is_zero,
}
use gp4_ws.Safety.Checks.{
  Check, refuse_if-accepts, raise_if-accepts, and_then-accepts, numeric_or-accepts, relabel-accepts,
}
use gp4_ws.Safety.Rules.{SafetyRules, max_move_rel_delta_norm}
use gp4_ws.Safety.Workspace.{Position, IsSafe}
use gp4_ws.Safety.Validator.{validate}
use gp4_ws.Safety.Points.{
  MoveRelReason, three_floats, axis_or_zero, finite, norm, validate_move_rel_deltas, in_workspace,
}
use gp4_ws.Safety.Blended.{
  StepReason, blend_radius, check_radius, check_goal_type, is_last, check_step_fields, check_steps,
  check_step, validate_blended_sequence,
}
use gp4_ws.Safety.Gate.{
  GateReason, Readiness, is_alarm_reset, check_readiness, skips_pose, names_primitive,
  for_primitive, check_geometry, check_parsed, validate_callback_inner,
}
use gp4_ws.Safety.SafePoints.{
  AllItems, step_point, ReadsSafe, in_workspace-IsSafe, OneWaypoint, validate_circ-OneWaypoint,
  SafePath, validate_cartesian_path-SafePath, target_safe, true_of,
}

module _ (py : PyLib) (rules : SafetyRules py) where
  open py use {Float, lt, loads}

  abbrev pub SafeStep : Json Float → Type 0
  SafeStep step = ReadsSafe py rules (step_point py step)

  check_step_fields-safe :
      (last : Bool) (step : Fields Float)
      → check_step_fields py rules last step ≡ ok none
      → ReadsSafe py rules (step_point py (obj step))
  unfolding check_step_fields
  check_step_fields-safe last step h =
      let (_, numeric) = refuse_if-accepts _ _ _ h in
      let (radius, _, scales) =
        numeric_or-accepts StepReason.radius_not_numeric (blend_radius py step) _ numeric in
      let (_, velocity) = and_then-accepts (check_radius py last radius) _ scales in
      let (_, acceleration) = and_then-accepts _ _ velocity in
      let (_, goal) = and_then-accepts _ _ acceleration in
      let (g, _, target) =
        >>=-eq-ok (to_int py (default (Json.int (pos 0)) (get_field "goal_type" step))) _ goal in
      target_safe py rules (get_field "target_pose" step)
        (and_then-accepts (check_goal_type py g) _ target).1

  check_step-safe :
      (last : Bool) (step : Json Float) → check_step py rules last step ≡ ok none → SafeStep step
  check_step-safe last (obj step) h = check_step_fields-safe last step h
  check_step-safe last v h = cc

  steps_safe :
      (steps : Items Float) → check_steps py rules steps ≡ ok none → AllItems SafeStep steps
  unfolding check_steps
  steps_safe nil h = tt
  steps_safe (cons step rest) h =
      let (first, later) = and_then-accepts _ _ h in
      (check_step-safe (is_last py rest) step first, steps_safe rest later)

  -- A list of two safe steps or more
  abbrev pub SafeSteps : Option (Json Float) → Type 0
  SafeSteps o =
      (first : Json Float) × (second : Json Float) × (rest : Items Float) × (o
        ≡ some (arr (cons first (cons second rest))))
      × AllItems SafeStep (cons first (cons second rest))

  validate_blended_sequence-SafeSteps :
      (o : Option (Json Float)) → validate_blended_sequence py rules o ≡ ok none → SafeSteps o
  unfolding validate_blended_sequence
  validate_blended_sequence-SafeSteps (some (arr (cons first (cons second rest)))) h =
      (first, second, rest, refl, steps_safe (cons first (cons second rest)) h)
  validate_blended_sequence-SafeSteps none h = cc
  validate_blended_sequence-SafeSteps (some v) h = cc

  -- Three deltas within the limit
  abbrev pub SafeDeltas : Fields Float → Type 0
  SafeDeltas cmd =
      (d : Position py) × (three_floats py (axis_or_zero py "delta_x" cmd)
          (axis_or_zero py "delta_y" cmd) (axis_or_zero py "delta_z" cmd)
        ≡ ok d)
      × (finite py d ≡ true)
      × ((is_zero py d.x && (is_zero py d.y && is_zero py d.z)) ≡ false)
      × (lt (max_move_rel_delta_norm py rules) (norm py d) ≡ false)

  validate_move_rel_deltas-SafeDeltas :
      (cmd : Fields Float) → validate_move_rel_deltas py rules cmd ≡ ok none → SafeDeltas cmd
  unfolding validate_move_rel_deltas
  validate_move_rel_deltas-SafeDeltas cmd h =
      let (_, framed) = raise_if-accepts _ type_error _ h in
      let (_, numeric) = refuse_if-accepts _ MoveRelReason.unsupported_frame _ framed in
      let (d, e, g) = numeric_or-accepts MoveRelReason.not_numeric _ _ numeric in
      let (f, moves) = refuse_if-accepts _ _ _ g in
      let (z, bounded) = refuse_if-accepts _ _ _ moves in
      let (n, _) = refuse_if-accepts _ MoveRelReason.norm_exceeds_limit (ok none) bounded in
      (d, e, true_of py rules (finite py d) f, z, n)

  -- What the gate found of the primitive `name`
  abbrev pub Named : String → Fields Float → Type 0 → Type 0
  Named name cmd P = names_primitive py name (get_field "primitive_type" cmd) ≡ true → P

  for_primitive-accepts :
      (name : String) (cmd : Fields Float) (check : Check GateReason)
      → for_primitive py name cmd check ≡ ok none
      → Named name cmd (check ≡ ok none)
  for_primitive-accepts name cmd check h e =
      -- the test is true
      by_test (names_primitive py name (get_field "primitive_type" cmd)) h e
    where
      by_test : (b : Bool) → (if b then check else ok none) ≡ ok none → b ≡ true → check ≡ ok none
      by_test true h e = h
      by_test false h e = cc

  -- A command that may be handed on, with its target
  pub record Admitted (state : Readiness) (target : Position py) (text : String)
      (cmd : Fields Float) : Type 0 where
    pub parsed : loads text ≡ some (obj cmd)
    pub valid : validate py rules text ≡ ok none
    pub robot : (state.is_robot_ready || is_alarm_reset py (some (obj cmd))) ≡ true
    pub target_is_safe : skips_pose py cmd ≡ false → IsSafe py rules target
    pub deltas : Named "MOVE_REL" cmd (SafeDeltas cmd)
    pub auxiliary : Named "CIRC" cmd (OneWaypoint py rules (get_field "waypoints" cmd))
    pub path : Named "CARTESIAN_PATH" cmd (SafePath py rules (get_field "waypoints" cmd))
    pub steps : Named "BLENDED_SEQUENCE" cmd (SafeSteps (get_field "sequence_steps" cmd))

  is_dictionary :
      (target : Position py) (o : Option (Json Float))
      → check_parsed py rules target o ≡ ok none
      → (cmd : Fields Float) × (o ≡ some (obj cmd)) × (check_geometry py rules target cmd ≡ ok none)
  is_dictionary target (some (obj cmd)) h = (cmd, refl, h)
  is_dictionary target none h = cc
  is_dictionary target (some v) h = cc

  is_ready :
      (state : Readiness) (raw : Option (Json Float))
      → check_readiness py state raw ≡ ok none
      → (state.is_robot_ready || is_alarm_reset py raw) ≡ true
  is_ready state raw h =
      either state.is_robot_ready (is_alarm_reset py raw) (refuse_if-accepts _ _ _ h).0
    where
      either : (a b : Bool) → (not a && not b) ≡ false → (a || b) ≡ true
      either true b e = refl
      either false true e = refl
      either false false e = cc

  skipped_or_IsSafe :
      (target : Position py) (skips : Bool)
      → ◌≡◌ {A = Check GateReason}
          (if skips then ok none else in_workspace py rules GateReason.bad_pose target)
          (ok none)
      → skips ≡ false
      → IsSafe py rules target
  skipped_or_IsSafe target true h e = cc
  skipped_or_IsSafe target false h e = in_workspace-IsSafe py rules GateReason.bad_pose target h

  -- A command that the gate validates is a JSON dictionary that the command validator accepts; the
  -- robot is ready or the command is an ALARM_RESET; and every point it moves to is checked: the
  -- target of a command that has one, the deltas of a MOVE_REL, the auxiliary point of a CIRC and
  -- every point of a CARTESIAN_PATH or a BLENDED_SEQUENCE.
  pub validate_callback_inner-Admitted :
      (state : Readiness) (text : String) (target : Position py)
      → validate_callback_inner py rules state text target ≡ ok none
      → (cmd : Fields Float) × Admitted state target text cmd
  unfolding validate_callback_inner check_geometry
  validate_callback_inner-Admitted state text target h =
      let (ready, h1) = and_then-accepts _ _ h in
      let (valid, h2) = and_then-accepts _ _ h1 in
      let (cmd, parsed, geometry) = is_dictionary target (loads text) h2 in
      let (deltas, g1) = and_then-accepts _ _ geometry in
      let (pose, g2) = and_then-accepts _ _ g1 in
      let (auxiliary, g3) = and_then-accepts _ _ g2 in
      let (path, steps) = and_then-accepts _ _ g3 in
      (
        cmd,
        record {
          parsed = parsed;
          valid = relabel-accepts GateReason.bad_command _ valid;
          robot =
              subst (λ raw. (state.is_robot_ready || is_alarm_reset py raw) ≡ true) parsed
                (is_ready state (loads text) ready);
          target_is_safe = skipped_or_IsSafe target (skips_pose py cmd) pose;
          deltas = λ e. validate_move_rel_deltas-SafeDeltas cmd (
              relabel-accepts GateReason.move_rel _
                (for_primitive-accepts "MOVE_REL" cmd _ deltas e));
          auxiliary = λ e.
              validate_circ-OneWaypoint py rules _ (
                relabel-accepts GateReason.circ _ (for_primitive-accepts "CIRC" cmd _ auxiliary e));
          path = λ e. validate_cartesian_path-SafePath py rules _ (
              relabel-accepts GateReason.cartesian _
                (for_primitive-accepts "CARTESIAN_PATH" cmd _ path e));
          steps = λ e. validate_blended_sequence-SafeSteps _ (
              relabel-accepts GateReason.blended _
                (for_primitive-accepts "BLENDED_SEQUENCE" cmd _ steps e));
        },
      )
