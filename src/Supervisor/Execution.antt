-- ===== src/Supervisor/Execution.antt =====
-- hmi/backend/services/supervisor_execution.py: from a confirmation to the adapter and the result.
use gp4_ws.Common.{
  String, Bool, true, false, Option, none, some, List, [], ◌∷◌, ◌++◌, ◌==◌, not, if◌then◌else◌,
}
use gp4_ws.Common.Outcome.{Outcome, ok, raised, pure, raise, ◌>>=◌, ◌>>◌}
use gp4_ws.Lifecycle.{
  CommandLifecycleState, validating, confirmed, execution_requested, executing, succeeded, failed,
  cancelled, state_eq,
}
use gp4_ws.Session.{LeaseRecord}
use gp4_ws.Supervisor.Records.{
  ExecutionStatus, status_succeeded, status_cancelled, status_other, ExecutionResult, CommandRecord,
  Dispatch, adapter_raised,
}
use gp4_ws.Supervisor.Store.{
  Action, RosAdapter, ask, fetch, set_final, set_final_state, set_confirm_at, set_execute_at,
  set_execution_result, assign, transition_command,
}
use gp4_ws.Supervisor.Gate.{BlockingReason, blocking_reasons, is_nil}

-- What a response says of the command: `accepted`, and the reason that stands beside it
pub data Response : Type 0 where
  accepted : Response
  already_terminal : Response
  done_with : Option String → Response
  refused : Option String → Response
  refused_by_gate : List BlockingReason → Response

unfoldable pub is_get_pose_command : CommandRecord → Bool
is_get_pose_command c = elim c.parsed_intent [
  | none ↦ false
  | some i ↦
      if i.primitive_type == "" then i.action == "GET_POSE" else i.primitive_type == "GET_POSE"
]

abbrev pub response_for : Option CommandLifecycleState → Option String → Response
response_for none summary = refused summary
response_for (some st) summary = if state_eq st succeeded then accepted else refused summary

-- `self._ros.confirm_command(…)`: the call is on record before the adapter answers
unfoldable pub hand_over : Dispatch → Action (Unit {0})
hand_over d s = (ok tt, record s { dispatched = s.dispatched ++ d ∷ [] })

abbrev pub when_action : Bool → Action (Unit {0}) → Action (Unit {0})
when_action b m = if b then m else pure tt

-- the three branches on the lower-cased status
unfoldable pub settle : String → ExecutionResult → ExecutionStatus → Action (Unit {0})
unfolding assign transition_command
settle command_id r status_succeeded = do
  assign command_id (set_final (some succeeded) none)
  transition_command command_id succeeded
settle command_id r status_cancelled = do
  when_action (not r.dispatched_to_ros) (transition_command command_id executing)
  assign command_id (set_final (some cancelled) r.summary)
  transition_command command_id cancelled
settle command_id r status_other = do
  assign command_id (set_final (some failed) r.summary)
  transition_command command_id failed

unfoldable pub settle_query : ExecutionResult → String → ExecutionStatus → Action (Unit {0})
unfolding assign transition_command
settle_query r command_id status_succeeded = do
  assign command_id (set_final (some succeeded) none)
  transition_command command_id succeeded
settle_query r command_id _ = do
  assign command_id (set_final (some failed) r.summary)
  transition_command command_id failed

-- the `execution_result` of the query, with and without a pose
abbrev pub pose_result : Option String → ExecutionResult
pose_result none = record {
  status = status_other;
  dispatched_to_ros = false;
  summary = some "GET_POSE query failed: /get_current_pose is unavailable or returned no pose.";
}
pose_result (some text) = record {
  status = status_succeeded;
  dispatched_to_ros = false;
  summary = some text;
}

abbrev pub query_with : String → ExecutionResult → Action Response
query_with command_id r = do
  assign command_id (set_execution_result r)
  c ← fetch command_id
  when_action (not (state_eq c.lifecycle_state validating))
      (transition_command command_id executing)
  settle_query r command_id r.status
  done ← fetch command_id
  pure (response_for done.final_state r.summary)

-- what follows the adapter's answer
abbrev pub conclude : String → ExecutionResult → Action Response
conclude command_id r = do
  assign command_id (set_execution_result r)
  when_action r.dispatched_to_ros (transition_command command_id executing)
  when_action r.dispatched_to_ros (assign command_id (set_final_state none))
  settle command_id r r.status
  done ← fetch command_id
  pure (response_for done.final_state r.summary)

-- an exception of the adapter leaves the method, with the command as it is
abbrev pub conclude_answer : String → Outcome String ExecutionResult → Action Response
conclude_answer command_id (raised text) = raise (adapter_raised text)
conclude_answer command_id (ok r) = conclude command_id r

module _ (ros : RosAdapter) where
  unfoldable pub execute_get_pose_query : String → Action Response
  execute_get_pose_query command_id = do
    pose ← ask ros.get_current_pose
    query_with command_id (pose_result pose)

  unfoldable pub dispatch_to_adapter : Dispatch → Action Response
  dispatch_to_adapter d = do
    hand_over d
    answer ← ask (λ n. ros.confirm_command n d)
    conclude_answer d.command_id answer

  unfoldable pub execute_confirmed_command :
      String → LeaseRecord → String → String → String → Action Response
  execute_confirmed_command command_id lease session_id operator_id plan_fingerprint = do
    transition_command command_id confirmed
    now ← ask ros.utcnow
    assign command_id (set_confirm_at now)
    transition_command command_id execution_requested
    later ← ask ros.utcnow
    assign command_id (set_execute_at later)
    c ← fetch command_id
    if is_get_pose_command c
        then execute_get_pose_query command_id
        else dispatch_to_adapter (record {
          command_id = command_id;
          fingerprint = plan_fingerprint;
          operator = operator_id;
          session = session_id;
          lease = lease.lease_id;
        })

  -- the gate that a command passes again when it is confirmed
  unfoldable pub confirm_gate : String → Action (List BlockingReason)
  confirm_gate command_id = do
    c ← fetch command_id
    runtime ← ask ros.read_runtime_snapshot
    sources ← ask ros.read_source_statuses
    preflight ← ask (λ n. ros.evaluate_execution_preflight n c.mode)
    pure (blocking_reasons runtime sources preflight c.parsed_intent c.mode true)

  unfoldable pub confirm_command_internal :
      String → LeaseRecord → String → String → String → Action Response
  confirm_command_internal command_id lease session_id operator_id plan_fingerprint = do
    reasons ← confirm_gate command_id
    if is_nil reasons
        then execute_confirmed_command command_id lease session_id operator_id plan_fingerprint
        else pure (refused_by_gate reasons)
