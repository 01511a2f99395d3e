-- ===== src/Dispatch/Tests.antt =====
-- The adapter with a simulated robot whose sources are all live: the command is to move home.
use gp4_ws.Common.{
  ℕ, ◌+◌, ◌-◌, ◌*◌, String, true, false, not, none, some, List, [], ◌∷◌, ◌≡◌, ◌≢◌, refl, ltb, ◌↔◌,
  map, lookup,
}
use gp4_ws.Common.Int.{pos}
use gp4_ws.Common.Outcome.{ok, raised, pure, lift, ◌>>=◌}
use gp4_ws.Python.{
  PyLib, value_error, key_error, str, Fields, end, field, is_truthy, to_text, to_float, to_int,
}
use gp4_ws.Lifecycle.{normal, execution_requested}
use gp4_ws.Supervisor.Records.{sim, command, RuntimeSnapshot, CommandRecord, Supervisor}
use gp4_ws.Supervisor.Store.{fresh, SourceStatus}
use gp4_ws.Supervisor.Execution.{conclude}
use gp4_ws.Dispatch.Joints.{TextLib, gp4_joint_names, resolve_joint_target}
use gp4_ws.Dispatch.Preflight.{required_sources, evaluate_execution_preflight, reason_if}
use gp4_ws.Dispatch.Payload.{build_command_payload, move_home}
use gp4_ws.Dispatch.Goal.{validate_request, build_execute_motion_goal, cartesian_path_target_pose}
use gp4_ws.Dispatch.Adapter.{
  Confirmation, Adapter, succeeded_silently, Response, RosClients, ask, order, register, unregister,
  validate_motion_request, dispatch_execute_motion,
}
use gp4_ws.Dispatch.Confirm.{confirm_command}
use gp4_ws.Dispatch.Primitive.{HasKey}
use gp4_ws.Dispatch.KeyErrors.{validate_request-build_command_payload}
use gp4_ws.Dispatch.Required.{KeepsModes, ReadyToExecute, preflight_accepted_exactly}
use gp4_ws.Dispatch.Orders.{AtMostOne}
use gp4_ws.Dispatch.Cleared.{Cleared, confirm_command-Cleared}
use gp4_ws.Dispatch.Reports.{Reported, confirm_command-Reported}
use gp4_ws.Dispatch.Handles.{confirm_command-handles}
use gp4_ws.Dispatch.Supervised.{
  KeepsStatuses, execution_result, Concluded, conclude-confirm_command,
}

-- Floats are natural numbers here.
abbrev py : PyLib
py = record {
  Float = ℕ;
  lt = ltb;
  le = λ a b. not (ltb b a);
  add = λ a b. a + b;
  sub = λ a b. a - b;
  mul = λ a b. a * b;
  div = λ a b. a;
  sqrt = λ a. a;
  is_finite = λ a. true;
  decimal = λ m k. m;
  negative = λ a. a;
  of_int = λ i. none;
  parse_float = λ s. none;
  truncate = λ f. ok (pos f);
  parse_int = λ s. none;
  strip_upper = λ v. "";
  strip = λ s. s;
  render = λ v. "?";
  loads = λ s. none;
  dumps = λ v. "";
}

abbrev tx : TextLib
tx = record {
  lower = λ s. s;
  upper = λ s. s;
  joint_pattern = λ s. none;
  characters = λ s. [];
  has_cancel = λ s. false;
}

abbrev calm : RuntimeSnapshot
calm = record {
  system_state = normal;
  mode = sim;
  robot_status = record { e_stop = "CLEAR"; alarm_state = "NONE"; motion_mode = some "AUTO" };
}

abbrev live : String → SourceStatus
live name = record { name = name; active = true; freshness = fresh; preferred = true }

abbrev sources : List SourceStatus
sources = map live (required_sources sim)

abbrev ros : RosClients ℕ
ros = record {
  has_messages = true;
  has_node = true;
  has_validate_client = true;
  has_execute_client = true;
  has_confirm_execution = true;
  read_runtime_snapshot = λ n. calm;
  read_source_statuses = λ n. sources;
  read_joint_positions = λ n. [];
  wait_for_validate = λ n. true;
  validate = λ n request. ok (record { valid = true; reason = ""; sanitized_json = "" });
  wait_for_server = λ n. true;
  send_goal = λ n goal. ok (some (record { number = 7; accepted = true }));
  get_result = λ n h. ok (some (record { success = true; message = "" }));
  cancel_goal = λ n h. ok true;
  wait_for_confirm = λ n. true;
  confirm_execution = λ n request. raised "busy";
  to_dict = λ v. raised value_error;
  clean = λ s. s;
}

abbrev go_home : Fields ℕ
go_home = field "action" (str "move_home") end

abbrev call : Confirmation ℕ
call = record {
  command_id = "c1";
  plan_fingerprint = "f";
  operator_id = "alice";
  session_id = "a";
  lease_id = "l1";
  parsed_intent = some go_home;
  requested_mode = some "sim";
}

abbrev idle : Adapter ℕ
idle = record { goal_handles = []; sent = []; tick = 0 }

abbrev moved : Response
moved = record {
  accepted = true;
  status = "succeeded";
  summary = succeeded_silently;
  dispatched_to_ros = true;
}

goes_home : (confirm_command py tx ros call idle).0 ≡ ok moved
unfolding confirm_command ask pure lift order register unregister ◌>>=◌ evaluate_execution_preflight
    reason_if build_command_payload is_truthy to_text to_float to_int validate_motion_request
    validate_request cartesian_path_target_pose dispatch_execute_motion build_execute_motion_goal
goes_home = refl

confirm_command-Cleared_example :
    AtMostOne py tx ros (Cleared py tx ros call 0) [] (confirm_command py tx ros call idle).1
confirm_command-Cleared_example = confirm_command-Cleared py tx ros call idle

confirm_command-Reported_example :
    Reported py tx ros [] moved (confirm_command py tx ros call idle).1.sent
confirm_command-Reported_example = confirm_command-Reported py tx ros call idle goes_home

confirm_command-handles_example :
    lookup "c1" (confirm_command py tx ros call idle).1.goal_handles ≡ none
unfolding lookup
confirm_command-handles_example = confirm_command-handles py tx ros call idle "c1" refl

keeps_modes : KeepsModes (λ s. s)
keeps_modes mode = refl

preflight_accepted_exactly_example :
    ((evaluate_execution_preflight (λ s. s) calm sources (some "sim")).accepted ≡ true)
    ↔ ReadyToExecute calm sources sim
preflight_accepted_exactly_example =
    preflight_accepted_exactly (λ s. s) calm sources sim keeps_modes

abbrev third_joint : Fields ℕ
third_joint = field "joint" (str "joint_3_u") end

resolves : resolve_joint_target py tx third_joint gp4_joint_names ≡ ok (some (2, "joint_3_u"))
unfolding resolve_joint_target is_truthy to_text
resolves = refl

builds : build_command_payload py tx [] ros.to_dict go_home ≡ ok (move_home py tx [])
unfolding build_command_payload is_truthy to_text
builds = refl

validate_request-build_command_payload_example :
    HasKey "primitive_type" (move_home py tx [])
    × (validate_request py tx (move_home py tx []) ≢ raised key_error)
validate_request-build_command_payload_example =
    validate_request-build_command_payload py tx [] ros.to_dict go_home builds

abbrev requested : CommandRecord
requested = record {
  session_id = "a";
  operator_id = "alice";
  lifecycle_state = execution_requested;
  mode = sim;
  command_kind = command;
  plan_fingerprint = some "f";
  reject_reason = none;
  parsed_intent = some (record { action = "move_home"; primitive_type = "" });
  confirmation_expires_at = some 130;
  confirm_at = some 100;
  execute_at = some 100;
  execution_result = none;
  final_state = none;
  parent_sequence_id = none;
  sequence_step_index = none;
  sequence_step_count = none;
  current_step_index = none;
  child_command_ids = [];
  manual_recovery_required = false;
}

abbrev desk : Supervisor
desk = record {
  commands = ("c1", requested) ∷ [];
  active_command_id = some "c1";
  session_lock = record { ttl = 15; active_controller = none };
  transitions = [];
  dispatched = [];
  aborted = [];
  tick = 0;
}

keeps_statuses : KeepsStatuses (λ s. s)
keeps_statuses = record {
  keeps_blocked = refl;
  keeps_failed = refl;
  keeps_cancelled = refl;
  keeps_succeeded = refl;
}

conclude-confirm_command_example :
    Concluded "c1" true (conclude "c1" (execution_result (λ s. s) (λ why. "") moved) desk).1
unfolding lookup
conclude-confirm_command_example =
    conclude-confirm_command py tx ros (λ why. "") call idle desk requested keeps_statuses goes_home
      refl refl
