-- ===== src/Gripper/Tests.antt =====
-- The adapter with a configuration that is complete, on a robot that is idle.
use gp4_ws.Common.{ℕ, ◌+◌, ◌-◌, ◌*◌, String, true, not, none, some, List, [], ◌∷◌, ◌≡◌, refl, ltb}
use gp4_ws.Common.Int.{pos}
use gp4_ws.Common.Outcome.{ok}
use gp4_ws.Python.{PyLib, Json, int, obj, Fields, end, field, to_float, to_int, to_text}
use gp4_ws.Gripper.{
  GripperConfig, verify_config_required, no_error, write, IoNode, Io, opening, io_keys,
  built_config, from_rules, verified, write_guarded, operate,
}
use gp4_ws.Gripper.Guarded.{AtMostOneCall, operate-AtMostOneCall}

-- Floats are natural numbers here.
abbrev py : PyLib
py = record {
  Float = ℕ;
  lt = ltb;
  le = λ a b. not (ltb b a);
  add = λ a b. a + b;
  sub = λ a b. a - b;
  mul = λ a b. a * b;
  div = λ a b. a;
  sqrt = λ a. a;
  is_finite = λ a. true;
  decimal = λ m k. m;
  negative = λ a. a;
  of_int = λ i. none;
  parse_float = λ s. none;
  truncate = λ f. ok (pos f);
  parse_int = λ s. none;
  strip_upper = λ v. "";
  strip = λ s. s;
  render = λ v. "?";
  loads = λ s. none;
  dumps = λ v. "";
}

abbrev node : IoNode
node = record {
  robot_mode = λ n. "IDLE";
  is_ready = λ n service. true;
  has_messages = true;
  can_wait = true;
  answer = λ n call. ok (some (record { success = true; message = ""; value = pos 1 }));
}

abbrev idle : Io
idle = record { calls = []; tick = 0 }

abbrev numbered : List String → Fields ℕ
numbered [] = end
numbered (key ∷ keys) = field key (int (pos 10)) (numbered keys)

abbrev rules : Json ℕ
rules = obj (field "gripper" (obj (numbered io_keys)) end)

abbrev config : GripperConfig ℕ
config = built_config py (numbered io_keys) 10

reads : from_rules py rules ≡ ok config
unfolding from_rules to_float to_text
reads = refl

opens :
    operate py node opening config idle
    ≡ (no_error, record { calls = write (pos 10) (pos 10) ∷ []; tick = 3 })
unfolding operate write_guarded verified to_int to_text
opens = refl

-- Rules that say nothing of the gripper
refuses : (operate py node opening (built_config py end 10) idle) ≡ (verify_config_required, idle)
unfolding operate write_guarded verified to_text
refuses = refl

operate-AtMostOneCall_example :
    AtMostOneCall py node rules config opening idle (operate py node opening config idle)
operate-AtMostOneCall_example = operate-AtMostOneCall py node rules opening idle reads
