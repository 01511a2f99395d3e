-- ===== src/Safety/Tests.antt =====
-- The safety package at concrete rules and commands. Floats are hundredths of a unit here, and the
-- JSON texts are read by a table.
use gp4_ws.Common.{
  ℕ, suc, zero, ◌+◌, ◌-◌, ◌*◌, String, Bool, true, false, not, Option, none, some, List, [], ◌∷◌,
  ◌≡◌, ◌↔◌, refl, ltb, if◌then◌else◌, ◌==◌,
}
use gp4_ws.Common.Int.{ℤ, pos, negsuc}
use gp4_ws.Common.Outcome.{ok}
use gp4_ws.Python.{
  PyLib, Json, str, float, arr, obj, nil, cons, Fields, end, field, to_float, is_truthy,
}
use gp4_ws.Safety.Rules.{SafetyRules}
use gp4_ws.Safety.Workspace.{Position, check_pose, check_zones, IsSafe, check_pose_exact}
use gp4_ws.Safety.Validator.{
  validate, validate_command, check_extended_mode_preconditions, check_scales, check_scale,
}
use gp4_ws.Safety.Manager.{
  tri_true, tri_false, Message, robot_status, adapter_ready, init, receive_all,
}
use gp4_ws.Safety.Readiness.{expected_ready, ready_from_last_message, reason_when_blocked}
use gp4_ws.Safety.Points.{validate_cartesian_path, check_waypoints}
use gp4_ws.Safety.Gate.{Readiness, check_geometry, validate_callback_inner}
use gp4_ws.Safety.Sound.{Admitted, validate_callback_inner-Admitted}
use gp4_ws.Safety.Extended.{ExtendedAllowed, check_extended_mode_preconditions-ExtendedAllowed}
use gp4_ws.Safety.Scales.{Valid, validate-Valid}

abbrev lt_int : ℤ → ℤ → Bool
lt_int (pos a) (pos b) = ltb a b
lt_int (pos a) (negsuc b) = false
lt_int (negsuc a) (pos b) = true
lt_int (negsuc a) (negsuc b) = ltb b a

abbrev le_int : ℤ → ℤ → Bool
le_int a b = not (lt_int b a)

-- a - b, of two natural numbers
abbrev diff : ℕ → ℕ → ℤ
diff a b = if ltb a b then negsuc (b - suc a) else pos (a - b)

abbrev negate : ℤ → ℤ
negate (pos n) = diff 0 n
negate (negsuc n) = pos (suc n)

abbrev add_int : ℤ → ℤ → ℤ
add_int (pos a) (pos b) = pos (a + b)
add_int (pos a) (negsuc b) = diff a (suc b)
add_int (negsuc a) (pos b) = diff b (suc a)
add_int (negsuc a) (negsuc b) = negsuc (suc (a + b))

-- Products and roots are of absolute values, which is what a norm needs.
abbrev magnitude : ℤ → ℕ
magnitude (pos n) = n
magnitude (negsuc n) = suc n

abbrev root_up_to : ℕ → ℕ → ℕ
root_up_to zero n = 0
root_up_to (suc k) n =
    let smaller = root_up_to k n in if ltb n (suc k * suc k) then smaller else suc k

abbrev halve : ℕ → ℕ
halve zero = 0
halve (suc zero) = 0
halve (suc (suc n)) = suc (halve n)

abbrev half : ℤ → ℤ
half (pos n) = pos (halve n)
half (negsuc n) = negate (pos (halve (suc n)))

abbrev hundredths : ℕ → ℕ → ℤ
hundredths m zero = pos (m * 100)
hundredths m (suc zero) = pos (m * 10)
hundredths m _ = pos m

abbrev point : ℕ → ℕ → ℕ → Json ℤ
point x y z = obj (
    field "position"
      (obj (field "x" (float (pos x)) (field "y" (float (pos y)) (field "z" (float (pos z)) end))))
      end)

abbrev path_command : Fields ℤ
path_command = field "primitive_type" (str "CARTESIAN_PATH") (
    field "velocity_scale" (float (pos 5))
      (field "waypoints" (arr (cons (point 10 20 30) (cons (point 12 20 30) nil))) end))

abbrev table : String → Option (Json ℤ)
table text = if text == "path" then some (obj path_command) else none

abbrev upper : Json ℤ → String
upper (str s) = s
upper _ = ""

abbrev py : PyLib
py = record {
  Float = ℤ;
  lt = lt_int;
  le = le_int;
  add = add_int;
  sub = λ a b. add_int a (negate b);
  mul = λ a b. pos (magnitude a * magnitude b);
  div = λ a b. half a;
  sqrt = λ a. pos (root_up_to 100 (magnitude a));
  is_finite = λ a. true;
  decimal = hundredths;
  negative = negate;
  of_int = λ i. some i;
  parse_float = λ s. none;
  truncate = λ f. ok f;
  parse_int = λ s. none;
  strip_upper = upper;
  strip = λ s. s;
  render = λ v. "?";
  loads = table;
  dumps = λ v. "";
}

abbrev rules : SafetyRules py
rules = record {
  limits = record {
    max_velocity_scale = some (pos 6);
    max_acceleration_scale = some (pos 6);
    max_move_rel_velocity_scale = some (pos 9);
    max_move_rel_translation = some (pos 21);
    legacy_velocity_scale = none;
    legacy_acceleration_scale = none;
  };
  bounds = record {
    x_min = some (negate (pos 45));
    x_max = some (pos 45);
    y_min = some (negate (pos 16));
    y_max = some (pos 52);
    z_min = some (pos 10);
    z_max = none;
  };
  forbidden_zones =
      record {
        name = "floor_clearance_guard";
        x = pos 0;
        y = pos 30;
        z = pos 4;
        size_x = pos 150;
        size_y = pos 110;
        size_z = pos 10;
      }
      ∷ [];
  joint_6_t = none;
}

abbrev target : Position py
target = record { x = pos 10; y = pos 20; z = pos 30 }

check_pose_exact_example : (check_pose py rules target ≡ none) ↔ IsSafe py rules target
check_pose_exact_example = check_pose_exact py rules target

abbrev too_low : Position py
too_low = record { x = pos 10; y = pos 20; z = pos 5 }

low_target_refused : (check_pose py rules too_low ≡ none) → ⊥
unfolding check_pose
low_target_refused e = cc

abbrev ready : Readiness
ready = record { is_robot_ready = true; last_error_reason = "" }

path_valid : validate py rules "path" ≡ ok none
unfolding validate validate_command check_extended_mode_preconditions check_scales check_scale
    to_float is_truthy
path_valid = refl

path_admitted : validate_callback_inner py rules ready "path" target ≡ ok none
unfolding validate_callback_inner check_geometry validate_cartesian_path check_waypoints check_pose
    check_zones validate validate_command check_extended_mode_preconditions check_scales check_scale
    to_float is_truthy
path_admitted = refl

validate_callback_inner-Admitted_example :
    (cmd : Fields ℤ) × Admitted py rules ready target "path" cmd
validate_callback_inner-Admitted_example =
    validate_callback_inner-Admitted py rules ready "path" target path_admitted

validate-Valid_example : (cmd : Fields ℤ) × Valid py rules "path" cmd
validate-Valid_example = validate-Valid py rules "path" path_valid

abbrev messages : List Message
messages =
    robot_status (record {
      in_error = tri_false;
      e_stopped = tri_true;
      drives_powered = tri_true;
      motion_possible = tri_false;
    })
    ∷ adapter_ready (record { ready = true; status_message = "" })
    ∷ []

ready_from_last_message_example :
    (receive_all messages (init false)).robot_ready ≡ expected_ready false false messages
ready_from_last_message_example = ready_from_last_message false messages

reason_when_blocked_example :
    (receive_all messages (init false)).robot_ready
    ≡ ((receive_all messages (init false)).last_error_reason == "")
reason_when_blocked_example = reason_when_blocked false messages

-- Rules that enable the extended range, and a command that asks for it
abbrev extended_rules : SafetyRules py
extended_rules = record rules {
  joint_6_t = some (record {
    has_extended = true;
    cable_inspection_signed_off = true;
    max_velocity_scale = none;
    requires_operator_confirm = true;
    max_continuous_extended_time_s = some (pos 2000);
  });
}

abbrev extended_command : Fields ℤ
extended_command = field "extended_mode" (Json.bool true) (
    field "cable_inspection_signed_off_token" (str "c") (
      field "operator_confirm_token" (str "o")
        (field "estimated_duration_s" (float (pos 1500)) end)))

extended_passes :
    check_extended_mode_preconditions py extended_rules (obj extended_command) ≡ ok none
unfolding check_extended_mode_preconditions is_truthy to_float
extended_passes = refl

check_extended_mode_preconditions-ExtendedAllowed_example :
    ExtendedAllowed py extended_rules extended_command
unfolding is_truthy
check_extended_mode_preconditions-ExtendedAllowed_example =
    check_extended_mode_preconditions-ExtendedAllowed py extended_rules extended_command refl
      extended_passes
