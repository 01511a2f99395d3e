-- ===== src/Dispatch/Confirm.antt =====
-- hmi/backend/ros/command_dispatch.py: `confirm_command` and `abort_command`, and the
-- `confirm_execution` of adapter.py.
use gp4_ws.Common.{
  String, Bool, true, false, not, ◌||◌, Option, none, some, lookup, ◌==◌, if◌then◌else◌,
}
use gp4_ws.Common.Outcome.{Outcome, ok, raised, pure, lift, ◌>>=◌, ◌>>◌}
use gp4_ws.Python.{PyLib, PyError, value_error, obj, Fields, get_or_null, is_text}
use gp4_ws.Supervisor.Records.{RuntimeMode, RuntimeSnapshot}
use gp4_ws.Supervisor.Store.{Preflight}
use gp4_ws.Dispatch.Joints.{TextLib}
use gp4_ws.Dispatch.Preflight.{mode_value, evaluate_execution_preflight}
use gp4_ws.Dispatch.Payload.{build_command_payload}
use gp4_ws.Dispatch.Adapter.{
  GoalHandle, Confirmation, TaskRequest, TaskAnswer, task, mode_mismatch, preflight_failed,
  intent_missing, payload_unbuildable, client_missing, server_missing, no_result, task_completed,
  told, Summary, Response, RosClients, blocked, failed, told_or, Validation, accepted_as, rejected,
  Act, ask, order, validate_motion_request, dispatch_execute_motion,
}

-- What `abort_command` answers
pub data AbortAnswer : Type 0 where
  nothing_to_cancel cancel_requested cancel_refused : AbortAnswer
  cancel_failed : String → AbortAnswer

-- its first component
abbrev pub abort_accepted : AbortAnswer → Bool
abort_accepted nothing_to_cancel = true
abort_accepted cancel_requested = true
abort_accepted _ = false

abbrev pub cancel_answer : Outcome String Bool → AbortAnswer
cancel_answer (raised text) = cancel_failed text
cancel_answer (ok true) = cancel_requested
cancel_answer (ok false) = cancel_refused

-- `exec_res.get("reason") or exec_res.get("execution_summary") or …`
abbrev pub task_summary : TaskAnswer → Summary
task_summary a = told_or a.reason (told_or a.execution_summary task_completed)

abbrev pub succeeded_or_failed : Bool → Summary → Response
succeeded_or_failed true why = record {
  accepted = true;
  status = "succeeded";
  summary = why;
  dispatched_to_ros = true;
}
succeeded_or_failed false why = failed why true

abbrev pub task_response : Outcome String (Option TaskAnswer) → Response
task_response (raised text) = failed (told text) true
task_response (ok none) = failed no_result true
task_response (ok (some a)) = succeeded_or_failed a.accepted (task_summary a)

-- `requested_mode is not None and requested_mode != runtime.mode.value`
abbrev pub mismatches : Option String → RuntimeMode → Bool
mismatches none mode = false
mismatches (some text) mode = not (text == mode_value mode)

abbrev pub text_or_empty : Option String → String
text_or_empty none = ""
text_or_empty (some text) = text

abbrev pub or_sim : String → String
or_sim text = if text == "" then "sim" else text

module _ (py : PyLib) (tx : TextLib) (ros : RosClients py.Float) where
  open py use {Float, dumps}

  Does : Type 0 → Type 0
  Does = Act py tx ros

  abbrev pub task_request : Confirmation Float → Fields Float → TaskRequest
  task_request c parsed_intent = record {
    command_id = c.command_id;
    plan_fingerprint = c.plan_fingerprint;
    operator_id = c.operator_id;
    session_id = c.session_id;
    lease_id = c.lease_id;
    parsed_intent_json = dumps (obj parsed_intent);
    requested_mode = or_sim (text_or_empty c.requested_mode);
  }

  -- `confirm_execution`, with the response that `confirm_command` makes of its answer
  unfoldable pub confirm_execution : TaskRequest → Act py tx ros Response
  confirm_execution request =
      if not ros.has_node || not ros.has_confirm_execution
      then pure (failed client_missing true)
      else (do
        available ← ask py tx ros ros.wait_for_confirm
        if available
            then (do
              order py tx ros (task request)
              answer ← ask py tx ros (λ n. ros.confirm_execution n request)
              pure (task_response answer))
            else pure (failed server_missing true))

  -- the hand-over of a dictionary that was validated
  abbrev pub hand_over :
      Confirmation Float → Fields Float → Validation Float → Act py tx ros Response
  hand_over c parsed_intent (rejected why) = pure (blocked why)
  hand_over c parsed_intent (accepted_as payload) =
      if is_text "FACTORY_TASK_RUNTIME" (get_or_null "primitive_type" payload)
      then confirm_execution (task_request c parsed_intent)
      else dispatch_execute_motion py tx ros c.command_id payload

  -- `except ValueError` around the build of the dictionary
  abbrev pub with_payload :
      Confirmation Float → Fields Float → Outcome PyError (Fields Float) → Act py tx ros Response
  with_payload c parsed_intent (ok payload) = do
    checked ← validate_motion_request py tx ros payload
    hand_over c parsed_intent checked
  with_payload c parsed_intent (raised value_error) = pure (blocked payload_unbuildable)
  with_payload c parsed_intent (raised e) = lift (raised e)

  -- past the preflight; the positions of the joints are read whether the command needs them or not
  abbrev pub with_intent : Confirmation Float → Option (Fields Float) → Act py tx ros Response
  with_intent c none = pure (blocked intent_missing)
  with_intent c (some parsed_intent) = do
    positions ← ask py tx ros ros.read_joint_positions
    with_payload c parsed_intent (build_command_payload py tx positions ros.to_dict parsed_intent)

  -- `evaluate_execution_preflight`, with its readings of the runtime and of the sources
  abbrev pub read_preflight : RuntimeMode → Act py tx ros Preflight
  read_preflight mode = do
    runtime ← ask py tx ros ros.read_runtime_snapshot
    sources ← ask py tx ros ros.read_source_statuses
    pure (evaluate_execution_preflight ros.clean runtime sources (some (mode_value mode)))

  abbrev pub with_runtime : Confirmation Float → RuntimeSnapshot → Act py tx ros Response
  with_runtime c runtime =
      if mismatches c.requested_mode runtime.mode
      then pure (blocked (mode_mismatch (text_or_empty c.requested_mode) runtime.mode))
      else (do
        preflight ← read_preflight runtime.mode
        if preflight.accepted
            then with_intent c c.parsed_intent
            else pure (blocked (preflight_failed preflight.reasons)))

  unfoldable pub confirm_command : Confirmation Float → Act py tx ros Response
  confirm_command c = do runtime ← ask py tx ros ros.read_runtime_snapshot; with_runtime c runtime

  abbrev pub abort_with : Option GoalHandle → Act py tx ros AbortAnswer
  abort_with none = pure nothing_to_cancel
  abort_with (some h) = do
    answer ← ask py tx ros (λ n. ros.cancel_goal n h)
    pure (cancel_answer answer)

  unfoldable pub abort_command : String → Act py tx ros AbortAnswer
  abort_command command_id s = abort_with (lookup command_id s.goal_handles) s
