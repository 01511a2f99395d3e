-- ===== src/Dispatch/Adapter.antt =====
-- hmi/backend/ros/command_dispatch.py and `confirm_execution` of adapter.py: the calls to ROS. What
-- ROS answers is given by the number of the answer; an exception of a call is its text. Trace events
-- and correlation ids are not modelled.
use gp4_ws.Common.{
  ℕ, ◌+◌, String, Bool, true, false, not, ◌||◌, Option, none, some, List, [], ◌∷◌, ◌++◌, Dict,
  insert, remove, ◌==◌, if◌then◌else◌,
}
use gp4_ws.Common.Outcome.{Outcome, ok, raised, Exec, pure, lift, ◌>>=◌, ◌>>◌}
use gp4_ws.Python.{PyLib, PyError, Json, obj, Fields}
use gp4_ws.Supervisor.Records.{RuntimeMode, RuntimeSnapshot}
use gp4_ws.Supervisor.Store.{SourceStatus}
use gp4_ws.Dispatch.Joints.{TextLib, JointPosition}
use gp4_ws.Dispatch.Goal.{MotionGoal, ValidateRequest, validate_request, build_execute_motion_goal}

pub record GoalHandle : Type 0 where
  pub number : ℕ
  pub accepted : Bool

pub record ValidateResponse : Type 0 where
  pub valid : Bool
  pub reason : String
  pub sanitized_json : String

pub record MotionResult : Type 0 where
  pub success : Bool
  pub message : String

-- The arguments of `confirm_command`
pub record Confirmation (F : Type 0) : Type 0 where
  pub command_id : String
  pub plan_fingerprint : String
  pub operator_id : String
  pub session_id : String
  pub lease_id : String
  pub parsed_intent : Option (Fields F)
  pub requested_mode : Option String

-- The request of the service /supervisor/confirm_execution
pub record TaskRequest : Type 0 where
  pub command_id : String
  pub plan_fingerprint : String
  pub operator_id : String
  pub session_id : String
  pub lease_id : String
  pub parsed_intent_json : String
  pub requested_mode : String

pub record TaskAnswer : Type 0 where
  pub accepted : Bool
  pub reason : String
  pub execution_summary : String

-- What the adapter asks ROS to carry out
pub data Order (F : Type 0) : Type 0 where
  motion : MotionGoal F → Order F
  task : TaskRequest → Order F

pub record Adapter (F : Type 0) : Type 0 where
  pub goal_handles : Dict GoalHandle
  pub sent : List (Order F)
  -- the number of answers that ROS has given
  pub tick : ℕ

-- The summaries of the responses: `told` is a text of ROS, or of an exception of a call
pub data Summary : Type 0 where
  mode_mismatch : String → RuntimeMode → Summary
  preflight_failed : List String → Summary
  intent_missing payload_unbuildable node_missing client_missing server_missing : Summary
  validate_rejected goal_rejected no_result succeeded_silently failed_silently : Summary
  task_completed : Summary
  told : String → Summary

pub record Response : Type 0 where
  pub accepted : Bool
  pub status : String
  pub summary : Summary
  pub dispatched_to_ros : Bool

pub record RosClients (F : Type 0) : Type 0 where
  -- the ROS messages import, and what is not None after the start
  pub has_messages : Bool
  pub has_node : Bool
  pub has_validate_client : Bool
  pub has_execute_client : Bool
  pub has_confirm_execution : Bool
  pub read_runtime_snapshot : ℕ → RuntimeSnapshot
  pub read_source_statuses : ℕ → List SourceStatus
  pub read_joint_positions : ℕ → List (JointPosition F)
  pub wait_for_validate : ℕ → Bool
  pub validate : ℕ → ValidateRequest F → Outcome String ValidateResponse
  pub wait_for_server : ℕ → Bool
  pub send_goal : ℕ → MotionGoal F → Outcome String (Option GoalHandle)
  pub get_result : ℕ → GoalHandle → Outcome String (Option MotionResult)
  -- whether the answer names a goal that is being cancelled
  pub cancel_goal : ℕ → GoalHandle → Outcome String Bool
  pub wait_for_confirm : ℕ → Bool
  pub confirm_execution : ℕ → TaskRequest → Outcome String (Option TaskAnswer)
  -- `dict(value)` of a value that is no dictionary, and `text.strip().lower()`
  pub to_dict : Json F → Outcome PyError (Fields F)
  pub clean : String → String

abbrev pub blocked : Summary → Response
blocked why = record {
  accepted = false;
  status = "blocked";
  summary = why;
  dispatched_to_ros = false;
}

abbrev pub failed : Summary → Bool → Response
failed why dispatched = record {
  accepted = false;
  status = "failed";
  summary = why;
  dispatched_to_ros = dispatched;
}

-- `text or …`
abbrev pub told_or : String → Summary → Summary
told_or text other = if text == "" then other else told text

-- What `_validate_motion_request` answers, with the dictionary that it may have replaced
pub data Validation (F : Type 0) : Type 0 where
  accepted_as : Fields F → Validation F
  rejected : Summary → Validation F

module _ (py : PyLib) (tx : TextLib) (ros : RosClients py.Float) where
  open py use {Float, loads, dumps}

  abbrev pub Act : Type 0 → Type 0
  Act A = Exec (Adapter Float) PyError A

  unfoldable pub ask : {A : Type 0} → (ℕ → A) → Act A
  ask answer s = (ok (answer s.tick), record s { tick = s.tick + 1 })

  unfoldable pub order : Order Float → Act (Unit {0})
  order o s = (ok tt, record s { sent = s.sent ++ o ∷ [] })

  unfoldable pub register : String → GoalHandle → Act (Unit {0})
  register command_id h s = (ok tt, record s { goal_handles = insert command_id h s.goal_handles })

  unfoldable pub unregister : String → Act (Unit {0})
  unregister command_id s = (ok tt, record s { goal_handles = remove command_id s.goal_handles })

  -- the dictionary after `sanitized_json`
  abbrev pub sanitized : Fields Float → Option (Json Float) → Fields Float
  sanitized payload (some (obj fields)) = fields
  sanitized payload _ = payload

  abbrev pub sanitized_by : Fields Float → ValidateResponse → Fields Float
  sanitized_by payload r =
      if r.sanitized_json == "" then payload else sanitized payload (loads r.sanitized_json)

  abbrev pub validation : Fields Float → Outcome String ValidateResponse → Validation Float
  validation payload (raised text) = rejected (told text)
  validation payload (ok r) =
      if r.valid
      then accepted_as (sanitized_by payload r)
      else rejected (told_or r.reason validate_rejected)

  -- `_validate_motion_request` past its three guards
  abbrev pub call_validate : Fields Float → Act (Validation Float)
  call_validate payload = do
    request ← lift (validate_request py tx payload)
    answer ← ask (λ n. ros.validate n request)
    pure (validation payload answer)

  unfoldable pub validate_motion_request : Fields Float → Act (Validation Float)
  validate_motion_request payload =
      if not ros.has_node || not ros.has_messages
      then pure (rejected node_missing)
      else (if not ros.has_validate_client then pure (rejected client_missing) else (do
        available ← ask ros.wait_for_validate
        if available then call_validate payload else pure (rejected server_missing)))

  abbrev pub motion_response : MotionResult → Response
  motion_response r =
      if r.success
      then record {
        accepted = true;
        status = "succeeded";
        summary = told_or r.message succeeded_silently;
        dispatched_to_ros = true;
      }
      else (if tx.has_cancel
            (tx.lower (if r.message == "" then "ExecuteMotion failed." else r.message))
          then record {
            accepted = false;
            status = "cancelled";
            summary = told_or r.message failed_silently;
            dispatched_to_ros = true;
          }
          else failed (told_or r.message failed_silently) true)

  abbrev pub result_response : Outcome String (Option MotionResult) → Response
  result_response (raised text) = failed (told text) true
  result_response (ok none) = failed no_result true
  result_response (ok (some r)) = motion_response r

  -- the wait for the result of a goal that was accepted, with its `finally`
  abbrev pub await_result : String → GoalHandle → Act Response
  await_result command_id h = do
    register command_id h
    answer ← ask (λ n. ros.get_result n h)
    unregister command_id
    pure (result_response answer)

  abbrev pub after_send : String → Outcome String (Option GoalHandle) → Act Response
  after_send command_id (raised text) = pure (failed (told text) false)
  after_send command_id (ok none) = pure (blocked goal_rejected)
  after_send command_id (ok (some h)) =
      if h.accepted then await_result command_id h else pure (blocked goal_rejected)

  abbrev pub send : String → Fields Float → Act Response
  send command_id payload = do
    goal ← lift (build_execute_motion_goal py tx payload)
    order (motion goal)
    answer ← ask (λ n. ros.send_goal n goal)
    after_send command_id answer

  unfoldable pub dispatch_execute_motion : String → Fields Float → Act Response
  dispatch_execute_motion command_id payload =
      if not ros.has_node || not ros.has_messages
      then pure (blocked node_missing)
      else (if not ros.has_execute_client then pure (blocked client_missing) else (do
        available ← ask ros.wait_for_server
        if available then send command_id payload else pure (blocked server_missing)))
