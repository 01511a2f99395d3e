-- ===== src/Supervisor/Control.antt =====
-- hmi/backend/services/supervisor_lifecycle.py: confirm, cancel and expire single commands.
use gp4_ws.Common.{
  ℕ, String, Bool, true, false, Option, none, some, List, [], ◌∷◌, ◌==◌, ◌&&◌, ◌||◌, leb,
  if◌then◌else◌,
}
use gp4_ws.Common.Outcome.{pure, raise, gets, require, ◌>>=◌, ◌>>◌}
use gp4_ws.Lifecycle.{
  needs_confirmation, execution_requested, executing, cancelled, expired, state_eq,
  is_terminal_command_state,
}
use gp4_ws.Supervisor.Records.{
  CommandKind, command, CommandRecord, sequence_controlled, not_waiting, window_expired,
  fingerprint_mismatch, abort_refused, conflict,
}
use gp4_ws.Supervisor.Store.{
  Action, RosAdapter, ask, set_final, assign, transition_command, each, require_owned_command,
  assert_controller,
}
use gp4_ws.Supervisor.Execution.{
  Response, already_terminal, done_with, when_action, confirm_command_internal,
}

abbrev pub is_command : CommandKind → Bool
is_command command = true
is_command _ = false

abbrev pub is_unset : Option String → Bool
is_unset none = true
is_unset (some s) = false

-- `confirmation_expires_at is None or confirmation_expires_at <= now`
abbrev pub window_closed : ℕ → Option ℕ → Bool
window_closed now none = true
window_closed now (some t) = leb t now

abbrev pub fingerprint_eq : String → Option String → Bool
fingerprint_eq given none = false
fingerprint_eq given (some f) = given == f

-- `confirmation_expires_at is not None and confirmation_expires_at <= now`
abbrev pub ends_by : ℕ → Option ℕ → Bool
ends_by now none = false
ends_by now (some t) = leb t now

-- A pending confirmation whose window has ended by `now`
abbrev pub is_expiring : ℕ → CommandRecord → Bool
is_expiring now c =
    state_eq c.lifecycle_state needs_confirmation
    && (is_unset c.parent_sequence_id && ends_by now c.confirmation_expires_at)

unfoldable pub expiring : ℕ → List (String × CommandRecord) → List String
expiring now [] = []
expiring now ((command_id, c) ∷ rest) =
    let others = expiring now rest in if is_expiring now c then command_id ∷ others else others

-- `_expire_command` and `_expire_top_level_record`: they differ in the event that they emit
unfoldable pub expire_command : String → String → Action (Unit {0})
expire_command command_id reason = do
  assign command_id (set_final (some expired) (some reason))
  transition_command command_id expired

abbrev pub abort_answer : Option String → Action (Unit {0})
abort_answer none = pure tt
abort_answer (some reason) = raise (conflict (abort_refused reason))

module _ (ros : RosAdapter) where
  unfoldable pub expire_pending_confirmations : Action (Unit {0})
  expire_pending_confirmations = do
    now ← ask ros.utcnow
    ids ← gets (λ s. expiring now s.commands)
    each ids (λ command_id. expire_command command_id "confirmation window expired")

  unfoldable pub confirm_command :
      String → String → Option String → String → String → Action Response
  confirm_command session_id operator_id lease_token command_id plan_fingerprint = do
    expire_pending_confirmations
    lease ← assert_controller ros session_id operator_id lease_token
    c ← require_owned_command command_id session_id operator_id
    require (is_command c.command_kind && is_unset c.parent_sequence_id)
        (conflict sequence_controlled)
    require (state_eq c.lifecycle_state needs_confirmation) (conflict not_waiting)
    now ← ask ros.utcnow
    if window_closed now c.confirmation_expires_at
        then (do
          expire_command command_id "confirmation window expired before operator confirmation"
          raise (conflict window_expired))
        else (do
          require (fingerprint_eq plan_fingerprint c.plan_fingerprint)
              (conflict fingerprint_mismatch)
          confirm_command_internal ros command_id lease session_id operator_id plan_fingerprint)

  unfoldable pub abort_or_raise : String → Action (Unit {0})
  abort_or_raise command_id = do
    refusal ← ask (λ n. ros.abort_command n command_id)
    abort_answer refusal

  unfoldable pub cancel_command :
      String → String → Option String → String → Option String → Action Response
  cancel_command session_id operator_id lease_token command_id reason = do
    expire_pending_confirmations
    assert_controller ros session_id operator_id lease_token
    c ← require_owned_command command_id session_id operator_id
    require (is_unset c.parent_sequence_id) (conflict sequence_controlled)
    if is_terminal_command_state c.lifecycle_state then pure already_terminal else (do
      when_action
          (state_eq c.lifecycle_state execution_requested || state_eq c.lifecycle_state executing)
          (abort_or_raise command_id)
      assign command_id (set_final (some cancelled) reason)
      transition_command command_id cancelled
      pure (done_with reason))
