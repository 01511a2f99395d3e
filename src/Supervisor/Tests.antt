-- ===== src/Supervisor/Tests.antt =====
-- The supervisor at a concrete table of commands.
use mathlib.Core.List.{Memᴰ}
use gp4_ws.Common.{
  ◌≤◌, ◌≡◌, ◌≢◌, refl, inl, true, false, none, some, List, [], ◌∷◌, arith, lookup, modify, length,
}
use gp4_ws.Common.Outcome.{ok, ◌>>=◌}
use gp4_ws.Lifecycle.{
  normal, needs_confirmation, confirmed, execution_requested, cancelled, succeeded,
  ensure_command_transition, is_terminal_command_state,
}
use gp4_ws.Lifecycle.Paths.{here}
use gp4_ws.Session
use gp4_ws.Session.{LeaseRecord, controller}
use gp4_ws.Supervisor.Records.{
  sim, command, RuntimeSnapshot, CommandRecord, status_succeeded, Supervisor,
}
use gp4_ws.Supervisor.Store.{
  RosAdapter, ask, fetch, assign, transition_command, each, require_owned_command,
  assert_controller,
}
use gp4_ws.Supervisor.Gate.{blocking_reasons}
use gp4_ws.Supervisor.Execution.{
  hand_over, settle, is_get_pose_command, dispatch_to_adapter, execute_confirmed_command,
  confirm_gate, confirm_command_internal,
}
use gp4_ws.Supervisor.Control.{expiring, expire_pending_confirmations, confirm_command}
use gp4_ws.Supervisor.Requests.{Caller, Request, confirm, serve}
use gp4_ws.Supervisor.Trail.{Trailed, targets, serve-Trailed, rows_bounded, execution_was_confirmed}
use gp4_ws.Supervisor.Settled.{InState, terminal_for_good}
use gp4_ws.Supervisor.Dispatches.{times, dispatched_at_most_once}
use gp4_ws.Supervisor.Guard.{Permitted, confirm_command-Permitted}

abbrev calm : RuntimeSnapshot
calm = record {
  system_state = normal;
  mode = sim;
  robot_status = record { e_stop = "CLEAR"; alarm_state = "NONE"; motion_mode = some "AUTO" };
}

abbrev simulator : RosAdapter
simulator = record {
  utcnow = λ n. 100;
  read_runtime_snapshot = λ n. calm;
  read_source_statuses = λ n. [];
  evaluate_execution_preflight = λ n mode. record { accepted = true; reasons = [] };
  confirm_command = λ n d.
      ok (record { status = status_succeeded; dispatched_to_ros = true; summary = some "done" });
  get_current_pose = λ n. none;
  abort_command = λ n command_id. none;
}

abbrev lease : LeaseRecord
lease = record {
  lease_id = "l1";
  lease_token = "t1";
  role = controller;
  session_id = "a";
  operator_id = "alice";
  acquired_at = 90;
  expires_at = 200;
  force_takeover = false;
  takeover_reason = none;
}

abbrev waiting : CommandRecord
waiting = record {
  session_id = "a";
  operator_id = "alice";
  lifecycle_state = needs_confirmation;
  mode = sim;
  command_kind = command;
  plan_fingerprint = some "f";
  reject_reason = none;
  parsed_intent = some (record { action = "HOME"; primitive_type = "HOME" });
  confirmation_expires_at = some 130;
  confirm_at = none;
  execute_at = none;
  execution_result = none;
  final_state = none;
  parent_sequence_id = none;
  sequence_step_index = none;
  sequence_step_count = none;
  current_step_index = none;
  child_command_ids = [];
  manual_recovery_required = false;
}

abbrev desk : Supervisor
desk = record {
  commands = ("c1", waiting) ∷ [];
  active_command_id = some "c1";
  session_lock = record { ttl = 15; active_controller = some lease };
  transitions = [];
  dispatched = [];
  aborted = [];
  tick = 0;
}

abbrev who : Caller
who = record { session_id = "a"; operator_id = "alice"; lease_token = some "t1" }

abbrev twice : List Request
twice = confirm who "c1" "f" ∷ confirm who "c1" "f" ∷ []

dispatched_once : times "c1" (serve simulator twice desk).dispatched ≡ 1
unfolding serve confirm_command expire_pending_confirmations expiring each assert_controller
    Session.assert_controller require_owned_command confirm_command_internal confirm_gate fetch ask
    blocking_reasons execute_confirmed_command transition_command ensure_command_transition assign
    dispatch_to_adapter hand_over settle is_get_pose_command lookup modify ◌>>=◌ times
dispatched_once = refl

serve-Trailed_example : Trailed "c1" needs_confirmation (serve simulator twice desk)
unfolding lookup targets
serve-Trailed_example = serve-Trailed "c1" needs_confirmation simulator twice desk here

rows_bounded_example : length (targets "c1" (serve simulator twice desk).transitions) ≤ 7
unfolding lookup targets
rows_bounded_example = rows_bounded simulator twice "c1" needs_confirmation desk here

dispatched_at_most_once_example : times "c1" (serve simulator twice desk).dispatched ≤ 1
unfolding times
dispatched_at_most_once_example = dispatched_at_most_once simulator "c1" twice desk refl

abbrev withdrawn : Supervisor
withdrawn = record desk {
  commands =
      ("c1", record waiting { lifecycle_state = cancelled; final_state = some cancelled }) ∷ [];
}

terminal_for_good_example : InState "c1" cancelled (serve simulator twice withdrawn)
unfolding is_terminal_command_state lookup
terminal_for_good_example = terminal_for_good "c1" cancelled refl simulator twice withdrawn refl

sends_once :
    (confirm_command simulator "a" "alice" (some "t1") "c1" "f" desk).1.dispatched ≢ desk.dispatched
unfolding confirm_command expire_pending_confirmations expiring each assert_controller
    Session.assert_controller require_owned_command confirm_command_internal confirm_gate fetch ask
    blocking_reasons execute_confirmed_command transition_command ensure_command_transition assign
    dispatch_to_adapter hand_over settle is_get_pose_command lookup modify ◌>>=◌
sends_once e = cc

confirm_command-Permitted_example :
    Permitted simulator "a" "alice"
      (some "t1")
      "c1"
      "f"
      (expire_pending_confirmations simulator desk).1
confirm_command-Permitted_example =
    confirm_command-Permitted simulator "a" "alice" (some "t1") "c1" "f" desk sends_once

-- An adapter that reports success for a command that it has not dispatched
abbrev overconfident : RosAdapter
overconfident = record simulator {
  confirm_command = λ n d.
      ok (record { status = status_succeeded; dispatched_to_ros = false; summary = some "done" });
}

abbrev once : List Request
once = confirm who "c1" "f" ∷ []

abbrev stranded : CommandRecord
stranded = record waiting {
  lifecycle_state = execution_requested;
  confirm_at = some 100;
  execute_at = some 100;
  execution_result =
      some (record { status = status_succeeded; dispatched_to_ros = false; summary = some "done" });
  final_state = some succeeded;
}

left_in_execution : lookup "c1" (serve overconfident once desk).commands ≡ some stranded
unfolding serve confirm_command expire_pending_confirmations expiring each assert_controller
    Session.assert_controller require_owned_command confirm_command_internal confirm_gate fetch ask
    blocking_reasons execute_confirmed_command transition_command ensure_command_transition assign
    dispatch_to_adapter hand_over settle is_get_pose_command lookup modify ◌>>=◌
left_in_execution = refl

execution_was_confirmed_example :
    Memᴰ confirmed (targets "c1" (serve overconfident once desk).transitions)
unfolding lookup targets
execution_was_confirmed_example =
    execution_was_confirmed overconfident once "c1" needs_confirmation desk here (omega arith)
      left_in_execution (inl refl)
