-- ===== src/Gripper.antt =====
-- src/llm_gateway/llm_gateway/gripper_adapter.py: the gripper behind its IO services. What the node,
-- the robot and the services answer is given by the number of the answer; every exception of a call
-- is one error, as its `except Exception` has it.
pub mod Configured
pub mod Guarded
mod Tests
use gp4_ws.Common.{
  ℕ, ◌+◌, String, Bool, true, false, not, ◌&&◌, Option, none, some, List, [], ◌∷◌, ◌++◌, all, ◌==◌,
  if◌then◌else◌,
}
use gp4_ws.Common.Int.{ℤ, pos, int_eq}
use gp4_ws.Common.Outcome.{Outcome, ok, raised}
use gp4_ws.Common.Fallible.{◌>>=◌}
use gp4_ws.Python.{
  PyLib, PyError, attribute_error, Json, str, float, obj, Fields, end, get_field, default, is_text,
  to_float, to_int, to_text,
}

pub record GripperConfig (F : Type 0) : Type 0 where
  pub write_single_io_service : String
  pub read_single_io_service : String
  pub open_output_address : Json F
  pub open_output_value : Json F
  pub close_output_address : Json F
  pub close_output_value : Json F
  pub closed_input_address : Json F
  pub closed_input_active_value : Json F
  pub feedback_timeout_sec : F

-- The errors of a GripperResult; `no_error` is its `ok=True`
pub data GripperResult : Type 0 where
  no_error verify_config_required robot_not_idle runtime_unavailable : GripperResult
  io_timeout grasp_failed io_exception : GripperResult
  io_failed : String → GripperResult

abbrev pub is_ok : GripperResult → Bool
is_ok no_error = true
is_ok _ = false

pub data Service : Type 0 where
  write_single_io read_single_io : Service

pub data Operation : Type 0 where
  opening closing verifying_grasp : Operation

-- A request to WriteSingleIO or ReadSingleIO
pub data IoCall : Type 0 where
  write : ℤ → ℤ → IoCall
  read : ℤ → IoCall

pub record IoResponse : Type 0 where
  pub success : Bool
  pub message : String
  pub value : ℤ

pub record IoNode : Type 0 where
  pub robot_mode : ℕ → String
  -- whether there is a client and its service is ready
  pub is_ready : ℕ → Service → Bool
  -- the messages import; the node can wait for a future
  pub has_messages : Bool
  pub can_wait : Bool
  -- what the wait gives: an exception, nothing in time, or the response
  pub answer : ℕ → IoCall → Outcome (Unit {0}) (Option IoResponse)

pub record Io : Type 0 where
  pub calls : List IoCall
  pub tick : ℕ

abbrev pub unset : String
unset = "VERIFY_CONFIG"

-- the keys of the section `gripper` that must be set
abbrev pub io_keys : List String
io_keys =
    "open_output_address" ∷ "open_output_value" ∷ "close_output_address" ∷ "close_output_value"
    ∷ "closed_input_address" ∷ "closed_input_active_value" ∷ []

module _ (py : PyLib) where
  open py use {Float, decimal}

  -- `raw.get(key, "VERIFY_CONFIG")`
  abbrev pub setting : String → Fields Float → Json Float
  setting key raw = default (str unset) (get_field key raw)

  abbrev pub section : Option (Json Float) → Outcome PyError (Fields Float)
  section none = ok end
  section (some (obj raw)) = ok raw
  section (some v) = raised attribute_error

  abbrev pub built_config : Fields Float → Float → GripperConfig Float
  built_config raw timeout = record {
    write_single_io_service =
        to_text py (default (str "/io_set") (get_field "write_single_io_service" raw));
    read_single_io_service =
        to_text py (default (str "/read_single_io") (get_field "read_single_io_service" raw));
    open_output_address = setting "open_output_address" raw;
    open_output_value = setting "open_output_value" raw;
    close_output_address = setting "close_output_address" raw;
    close_output_value = setting "close_output_value" raw;
    closed_input_address = setting "closed_input_address" raw;
    closed_input_active_value = setting "closed_input_active_value" raw;
    feedback_timeout_sec = timeout;
  }

  abbrev pub of_section : Outcome PyError (Fields Float) → Outcome PyError (GripperConfig Float)
  of_section found = do
    raw ← found
    timeout ← to_float py (default (float (decimal 10 1)) (get_field "feedback_timeout_sec" raw))
    ok (built_config raw timeout)

  unfoldable pub from_rules : Json Float → Outcome PyError (GripperConfig Float)
  from_rules (obj rules) = of_section (section (get_field "gripper" rules))
  from_rules v = of_section (ok end)

  abbrev pub values : GripperConfig Float → List (Json Float)
  values c =
      c.open_output_address ∷ c.open_output_value ∷ c.close_output_address ∷ c.close_output_value
      ∷ c.closed_input_address ∷ c.closed_input_active_value ∷ []

  unfoldable pub verified : GripperConfig Float → Bool
  verified c = all (λ v. not (is_text unset v)) (values c)

  module _ (node : IoNode) where
    abbrev pub Act : Type 0
    Act = Io → GripperResult × Io

    -- the judgement of a response that came, for a write and for a read
    abbrev pub judge_write : IoResponse → GripperResult
    judge_write r = if r.success then no_error else io_failed r.message

    abbrev pub compare_value : ℤ → Outcome PyError ℤ → GripperResult
    compare_value value (raised e) = io_exception
    compare_value value (ok expected) = if int_eq value expected then no_error else grasp_failed

    abbrev pub judge_read : Json Float → IoResponse → GripperResult
    judge_read expected r =
        if r.success then compare_value r.value (to_int py expected) else io_failed r.message

    abbrev pub judge :
        (IoResponse → GripperResult) → Outcome (Unit {0}) (Option IoResponse) → GripperResult
    judge accept (raised e) = io_exception
    judge accept (ok none) = io_timeout
    judge accept (ok (some r)) = accept r

    -- the call, which is under way whether the node can wait for it or not
    abbrev pub perform : IoCall → (IoResponse → GripperResult) → Act
    perform call accept s = (
      if node.can_wait
          then judge accept (node.answer (s.tick + 1 + 1) call)
          else runtime_unavailable,
      record s { calls = s.calls ++ call ∷ []; tick = s.tick + 1 + 1 + 1 },
    )

    abbrev pub perform_if : Outcome PyError IoCall → (IoResponse → GripperResult) → Act
    perform_if (raised e) accept s = (io_exception, s)
    perform_if (ok call) accept s =
        if node.has_messages then perform call accept s else (io_exception, s)

    -- the three guards, then the call; `kind` is the service that must be ready
    abbrev pub guarded :
        GripperConfig Float → Service → Outcome PyError IoCall → (IoResponse → GripperResult) → Act
    guarded c kind call accept s =
        if not (verified c)
        then (verify_config_required, s)
        else (if not (node.robot_mode s.tick == "IDLE")
            then (robot_not_idle, s)
            else (if not (node.is_ready (s.tick + 1) kind)
                then (runtime_unavailable, s)
                else perform_if call accept s))

    abbrev pub write_request : Json Float → Json Float → Outcome PyError IoCall
    write_request address value = do a ← to_int py address; v ← to_int py value; ok (write a v)

    abbrev pub read_request : Json Float → Outcome PyError IoCall
    read_request address = do a ← to_int py address; ok (read a)

    unfoldable pub write_guarded : GripperConfig Float → Json Float → Json Float → Act
    write_guarded c address value =
        guarded c write_single_io (write_request address value) judge_write

    unfoldable pub read_guarded : GripperConfig Float → Json Float → Json Float → Act
    read_guarded c address expected =
        guarded c read_single_io (read_request address) (judge_read expected)

    -- `open`, `close` and `verify_grasp`
    unfoldable pub operate : Operation → GripperConfig Float → Act
    unfolding write_guarded read_guarded
    operate opening c = write_guarded c c.open_output_address c.open_output_value
    operate closing c = write_guarded c c.close_output_address c.close_output_value
    operate verifying_grasp c = read_guarded c c.closed_input_address c.closed_input_active_value
