-- ===== src/Supervisor/Keeping.antt =====
-- Invariants of the command table, method by method, from its basic writes.
pub mod Whole
use gp4_ws.Common.{
  ℕ, String, Bool, true, false, Option, none, some, List, [], ◌∷◌, ◌≡◌, refl, if◌then◌else◌, lookup,
}
use gp4_ws.Common.Outcome.{
  Outcome, ok, raised, pure, raise, gets, require, ◌>>=◌, ◌>>◌, Keeps, Keeps-pure, Keeps-if,
  Keeps-raise, Keeps-bind, keeps_rules,
}
use gp4_ws.Lifecycle.{CommandLifecycleState}
use gp4_ws.Session.{LeaseRecord, SessionLockService, LeaseError}
use gp4_ws.Supervisor.Records.{
  CommandKind, sequence, command, ExecutionResult, ExecutionStatus, status_succeeded, CommandRecord,
  Dispatch, SupervisorError, Supervisor,
}
use gp4_ws.Supervisor.Store.{
  Action, RosAdapter, Patch, ask, fetch, assign, set_active, transition_command, each,
  require_owned_command, require_owned_sequence, a_sequence, assert_controller,
  assert_controller_at, with_lock,
}
use gp4_ws.Supervisor.Execution.{
  Response, hand_over, when_action, settle, settle_query, query_with, conclude, pose_result,
  execute_get_pose_query, conclude_answer, dispatch_to_adapter, execute_confirmed_command,
  confirm_gate, confirm_command_internal,
}

-- `P` is kept by each write but the hand-over to the adapter.
pub record Steady (P : Supervisor → Type 0) : Type 0 where
  pub at_tick : (s : Supervisor) (n : ℕ) → P s → P (record s { tick = n })
  pub at_active :
      (s : Supervisor) (a : Option String) → P s → P (record s { active_command_id = a })
  pub at_lock : (s : Supervisor) (l : SessionLockService) → P s → P (record s { session_lock = l })
  pub at_assign : (command_id : String) (p : Patch) → Keeps P (assign command_id p)
  pub at_transition :
      (command_id : String) (st : CommandLifecycleState)
      → Keeps P (transition_command command_id st)

module _ {P : Supervisor → Type 0} (steady : Steady P) where
  pub ask-Keeps : {A : Type 0} (answer : ℕ → A) → Keeps P (ask answer)
  unfolding ask
  ask-Keeps answer = record { at = λ s h. steady.at_tick s _ h }

  pub set_active-Keeps : (command_id : String) → Keeps P (set_active command_id)
  unfolding set_active
  set_active-Keeps command_id = record { at = λ s h. steady.at_active s _ h }

  assert_controller_at-Keeps :
      (session_id operator_id : String) (lease_token : Option String) (now : ℕ)
      → Keeps P (assert_controller_at session_id operator_id lease_token now)
  assert_controller_at-Keeps session_id operator_id lease_token now = record {
    at = λ s h. steady.at_lock s _ h;
  }

  pub assert_controller-Keeps :
      (ros : RosAdapter) (session_id operator_id : String) (lease_token : Option String)
      → Keeps P (assert_controller ros session_id operator_id lease_token)
  unfolding assert_controller
  assert_controller-Keeps ros session_id operator_id lease_token =
      Keeps-bind _ _ (ask-Keeps ros.utcnow)
        (assert_controller_at-Keeps session_id operator_id lease_token)

pub fetch-Keeps : {P : Supervisor → Type 0} (command_id : String) → Keeps P (fetch command_id)
unfolding fetch
fetch-Keeps command_id = record { at = λ s h. h }

pub require_owned_command-Keeps :
    {P : Supervisor → Type 0} (command_id session_id operator_id : String)
    → Keeps P (require_owned_command command_id session_id operator_id)
unfolding require_owned_command
require_owned_command-Keeps command_id session_id operator_id = record { at = λ s h. h }

a_sequence-Keeps :
    {P : Supervisor → Type 0} (k : CommandKind) (c : CommandRecord) → Keeps P (a_sequence k c)
a_sequence-Keeps sequence c = search keeps_rules
a_sequence-Keeps command c = search keeps_rules

pub require_owned_sequence-Keeps :
    {P : Supervisor → Type 0} (sequence_id session_id operator_id : String)
    → Keeps P (require_owned_sequence sequence_id session_id operator_id)
unfolding require_owned_sequence
require_owned_sequence-Keeps sequence_id session_id operator_id =
    Keeps-bind _ _ (require_owned_command-Keeps sequence_id session_id operator_id)
      (λ c. a_sequence-Keeps c.command_kind c)

pub each-Keeps :
    {P : Supervisor → Type 0} {A : Type 0} (xs : List A) (f : A → Action (Unit {0}))
    → ((x : A) → Keeps P (f x))
    → Keeps P (each xs f)
unfolding each
each-Keeps [] f k = Keeps-pure tt
each-Keeps (x ∷ xs) f k = Keeps-bind _ _ (k x) (λ _. each-Keeps xs f k)

pub when_action-Keeps :
    {P : Supervisor → Type 0} (b : Bool) (m : Action (Unit {0}))
    → Keeps P m
    → Keeps P (when_action b m)
when_action-Keeps true m k = k
when_action-Keeps false m k = Keeps-pure tt

pub ruleset reads = (keeps_rules, ask-Keeps, fetch-Keeps, when_action-Keeps)

module _ {P : Supervisor → Type 0} (steady : Steady P) where
  settle-Keeps :
      (command_id : String) (r : ExecutionResult) (st : ExecutionStatus)
      → Keeps P (settle command_id r st)
  unfolding settle
  settle-Keeps command_id r status_succeeded =
      search (reads, steady.at_assign, steady.at_transition)
  settle-Keeps command_id r _ = search (reads, steady.at_assign, steady.at_transition)

  settle_query-Keeps :
      (r : ExecutionResult) (command_id : String) (st : ExecutionStatus)
      → Keeps P (settle_query r command_id st)
  unfolding settle_query
  settle_query-Keeps r command_id status_succeeded =
      search (reads, steady.at_assign, steady.at_transition)
  settle_query-Keeps r command_id _ = search (reads, steady.at_assign, steady.at_transition)

  query_with-Keeps : (command_id : String) (r : ExecutionResult) → Keeps P (query_with command_id r)
  query_with-Keeps command_id r =
      search (reads, steady.at_assign, steady.at_transition, settle_query-Keeps) depth 14

  pub conclude-Keeps : (command_id : String) (r : ExecutionResult) → Keeps P (conclude command_id r)
  conclude-Keeps command_id r =
      search (reads, steady.at_assign, steady.at_transition, settle-Keeps) depth 14

  pub conclude_answer-Keeps :
      (command_id : String) (answer : Outcome String ExecutionResult)
      → Keeps P (conclude_answer command_id answer)
  conclude_answer-Keeps command_id (raised text) = Keeps-raise _
  conclude_answer-Keeps command_id (ok r) = conclude-Keeps command_id r

  pub execute_get_pose_query-Keeps :
      (ros : RosAdapter) (command_id : String) → Keeps P (execute_get_pose_query ros command_id)
  unfolding execute_get_pose_query
  execute_get_pose_query-Keeps ros command_id =
      Keeps-bind _ _ (ask-Keeps steady ros.get_current_pose)
        (λ pose. query_with-Keeps command_id (pose_result pose))

  module _ (ros : RosAdapter) (command_id : String)
      (handing : (d : Dispatch) → d.command_id ≡ command_id → Keeps P (hand_over d)) where
    dispatch_to_adapter-Keeps :
        (d : Dispatch) → d.command_id ≡ command_id → Keeps P (dispatch_to_adapter ros d)
    unfolding dispatch_to_adapter
    dispatch_to_adapter-Keeps d e =
        Keeps-bind _ _ (handing d e)
          λ _. Keeps-bind _ _ (ask-Keeps steady _) (conclude_answer-Keeps d.command_id)

    -- What every write and the hand-over keep, the execution of a confirmed command keeps.
    pub execute_confirmed_command-Keeps :
        (lease : LeaseRecord) (session_id operator_id plan_fingerprint : String)
        → Keeps P
            (execute_confirmed_command ros command_id lease session_id operator_id plan_fingerprint)
    unfolding execute_confirmed_command
    execute_confirmed_command-Keeps lease session_id operator_id plan_fingerprint =
        Keeps-bind _ _ (steady.at_transition command_id _) λ _.
          Keeps-bind _ _ (ask-Keeps steady _) λ now.
            Keeps-bind _ _ (steady.at_assign command_id _) λ _.
              Keeps-bind _ _ (steady.at_transition command_id _) λ _.
                Keeps-bind _ _ (ask-Keeps steady _) λ later.
                  Keeps-bind _ _ (steady.at_assign command_id _) λ _.
                    Keeps-bind _ _ (fetch-Keeps command_id) λ c.
                      Keeps-if _ _ _ (execute_get_pose_query-Keeps ros command_id)
                        (dispatch_to_adapter-Keeps _ refl)
