-- ===== src/Supervisor/Sequences.antt =====
-- hmi/backend/services/supervisor_lifecycle.py: confirm and cancel whole sequences.
use gp4_ws.Common.{
  ℕ, suc, zero, ◌+◌, String, Bool, true, false, Option, none, some, List, [], ◌∷◌, ◌==◌, not, ◌&&◌,
  ◌||◌, lookup, if◌then◌else◌,
}
use gp4_ws.Common.Outcome.{pure, raise, gets, require, ◌>>=◌, ◌>>◌}
use gp4_ws.Lifecycle.{
  CommandLifecycleState, needs_confirmation, confirmed, execution_requested, executing, succeeded,
  failed, cancelled, state_eq, is_terminal_command_state,
}
use gp4_ws.Session.{LeaseRecord}
use gp4_ws.Supervisor.Records.{
  ExecutionStatus, status_succeeded, status_cancelled, status_other, ExecutionResult, CommandRecord,
  not_waiting, window_expired, fingerprint_mismatch, conflict, Supervisor,
}
use gp4_ws.Supervisor.Store.{
  Action, RosAdapter, ask, fetch, set_final, set_confirm_at, set_execute_at, set_execution_result,
  set_current_step, set_manual_recovery, assign, set_active, transition_command, each,
  require_owned_sequence, assert_controller,
}
use gp4_ws.Supervisor.Execution.{
  Response, accepted, already_terminal, done_with, refused, when_action, confirm_command_internal,
}
use gp4_ws.Supervisor.Control.{
  window_closed, fingerprint_eq, expire_command, expire_pending_confirmations, abort_or_raise,
}

abbrev pub take : {A : Type 0} → ℕ → List A → List A
take zero xs = []
take (suc n) [] = []
take (suc n) (x ∷ xs) = x ∷ take n xs

abbrev pub or_else : {A : Type 0} → Option A → A → A
or_else none d = d
or_else (some a) d = a

abbrev pub is_io_set : CommandRecord → Bool
is_io_set c = elim c.parsed_intent [ none ↦ false | some i ↦ i.action == "IO_SET" ]

-- `any(… for step_id in …)`
unfoldable pub any_io_set : List String → Action Bool
any_io_set [] = pure false
any_io_set (step_id ∷ rest) = do
  c ← fetch step_id
  if is_io_set c then pure true else any_io_set rest

abbrev pub is_state : CommandLifecycleState → Option CommandLifecycleState → Bool
is_state st none = false
is_state st (some other) = state_eq other st

-- The status text of a sequence whose step did not succeed
abbrev pub step_status : Option CommandLifecycleState → ExecutionStatus
step_status none = status_other
step_status (some st) = if state_eq st cancelled then status_cancelled else status_other

abbrev pub was_dispatched : Option ExecutionResult → Bool
was_dispatched none = false
was_dispatched (some r) = r.dispatched_to_ros

-- the branch of the loop that a step takes when it has not succeeded
abbrev pub stop_sequence : String → List String → CommandRecord → Action (Unit {0})
stop_sequence sequence_id children child = do
  assign sequence_id (set_final child.final_state child.reject_reason)
  recovery ← any_io_set (take (or_else child.sequence_step_index 0 + 1) children)
  assign sequence_id (set_manual_recovery recovery)
  assign sequence_id (
      set_execution_result (record {
        status = step_status child.final_state;
        dispatched_to_ros = was_dispatched child.execution_result;
        summary = some (or_else child.reject_reason "sequence step failed");
      }))
  transition_command sequence_id (or_else child.final_state failed)

-- `sequence_step_count - 1`, if the count is set and not zero
abbrev pub last_step : Option ℕ → Option ℕ → Option ℕ
last_step current none = current
last_step current (some zero) = current
last_step current (some (suc n)) = some n

abbrev pub finish_sequence : String → CommandRecord → Action Response
finish_sequence sequence_id sequence = do
  assign sequence_id
      (set_current_step (last_step sequence.current_step_index sequence.sequence_step_count))
  assign sequence_id (set_final (some succeeded) none)
  assign sequence_id (
      set_execution_result (record {
        status = status_succeeded;
        dispatched_to_ros = true;
        summary = some "Sequence executed successfully.";
      }))
  transition_command sequence_id succeeded
  pure accepted

-- Does the active command belong to this sequence, and is it with the adapter?
abbrev pub is_running_step : String → Option CommandRecord → Bool
is_running_step sequence_id none = false
is_running_step sequence_id (some child) =
    elim child.parent_sequence_id [ none ↦ false | some parent ↦ parent == sequence_id ]
    && (state_eq child.lifecycle_state execution_requested
        || state_eq child.lifecycle_state executing)

abbrev pub active_child : Supervisor → Option CommandRecord
active_child s = elim s.active_command_id [
  | none ↦ none
  | some command_id ↦ lookup command_id s.commands
]

unfoldable pub cancel_child : Option String → String → Action (Unit {0})
cancel_child reason child_id = do
  child ← fetch child_id
  when_action (not (is_terminal_command_state child.lifecycle_state)) (do
    assign child_id (set_final (some cancelled) reason)
    transition_command child_id cancelled)

module _ (ros : RosAdapter) where
  -- the loop over `child_command_ids`, and what stands after it
  unfoldable pub run_steps :
      String → LeaseRecord → String → String → List String → List String → Action Response
  run_steps sequence_id lease session_id operator_id children [] = do
    now ← fetch sequence_id
    finish_sequence sequence_id now
  run_steps sequence_id lease session_id operator_id children (child_id ∷ rest) = do
    child ← fetch child_id
    assign sequence_id (set_current_step child.sequence_step_index)
    set_active child_id
    confirm_command_internal ros child_id lease session_id operator_id
        (or_else child.plan_fingerprint "")
    after ← fetch child_id
    if is_state succeeded after.final_state
        then run_steps sequence_id lease session_id operator_id children rest
        else (do stop_sequence sequence_id children after; pure (refused after.reject_reason))

  unfoldable pub confirm_sequence :
      String → String → Option String → String → String → Action Response
  confirm_sequence session_id operator_id lease_token sequence_id plan_fingerprint = do
    expire_pending_confirmations ros
    lease ← assert_controller ros session_id operator_id lease_token
    sequence ← require_owned_sequence sequence_id session_id operator_id
    require (state_eq sequence.lifecycle_state needs_confirmation) (conflict not_waiting)
    now ← ask ros.utcnow
    if window_closed now sequence.confirmation_expires_at
        then (do
          expire_command sequence_id "confirmation window expired before operator confirmation"
          raise (conflict window_expired))
        else (do
          require (fingerprint_eq plan_fingerprint sequence.plan_fingerprint)
              (conflict fingerprint_mismatch)
          transition_command sequence_id confirmed
          confirmed_at ← ask ros.utcnow
          assign sequence_id (set_confirm_at confirmed_at)
          transition_command sequence_id execution_requested
          executed_at ← ask ros.utcnow
          assign sequence_id (set_execute_at executed_at)
          transition_command sequence_id executing
          run_steps sequence_id lease session_id operator_id sequence.child_command_ids
              sequence.child_command_ids)

  unfoldable pub cancel_sequence :
      String → String → Option String → String → Option String → Action Response
  cancel_sequence session_id operator_id lease_token sequence_id reason = do
    expire_pending_confirmations ros
    assert_controller ros session_id operator_id lease_token
    sequence ← require_owned_sequence sequence_id session_id operator_id
    if is_terminal_command_state sequence.lifecycle_state then pure already_terminal else (do
      current ← gets (λ s. s.active_command_id)
      child ← gets active_child
      when_action (is_running_step sequence_id child) (abort_or_raise ros (or_else current ""))
      each sequence.child_command_ids (cancel_child reason)
      assign sequence_id (set_final (some cancelled) reason)
      transition_command sequence_id cancelled
      pure (done_with reason))
