-- ===== src/Supervisor/Store.antt =====
-- What the methods read and write: the command table, the clock and the ROS adapter.
use gp4_ws.Common.{
  ℕ, ◌+◌, String, Bool, Option, none, some, List, [], ◌∷◌, ◌++◌, ◌==◌, not, ◌||◌, lookup, modify,
  if◌then◌else◌,
}
use gp4_ws.Common.Outcome.{Outcome, ok, raised, Exec, pure, raise, ◌>>=◌, ◌>>◌}
use gp4_ws.Lifecycle.{CommandLifecycleState, TransitionError, ensure_command_transition}
use gp4_ws.Session
use gp4_ws.Session.{LeaseRecord, LeaseError, SessionLockService}
use gp4_ws.Supervisor.Records.{
  RuntimeMode, RuntimeSnapshot, ExecutionResult, CommandKind, sequence, CommandRecord, Dispatch,
  SupervisorError, forbidden, other_session, not_found, invalid, key_error, Supervisor,
}

abbrev pub Action : Type 0 → Type 0
Action A = Exec Supervisor SupervisorError A

pub data Freshness : Type 0 where
  fresh stale unavailable : Freshness

pub record SourceStatus : Type 0 where
  pub name : String
  pub active : Bool
  pub freshness : Freshness
  pub preferred : Bool

pub record Preflight : Type 0 where
  pub accepted : Bool
  pub reasons : List String

-- The adapter of hmi/backend/ros/adapter.py and the clock, as the supervisor sees them: what each
-- call answers, by the number of answers given before it.
pub record RosAdapter : Type 0 where
  pub utcnow : ℕ → ℕ
  pub read_runtime_snapshot : ℕ → RuntimeSnapshot
  pub read_source_statuses : ℕ → List SourceStatus
  pub evaluate_execution_preflight : ℕ → RuntimeMode → Preflight
  -- an exception, by its text, or the result
  pub confirm_command : ℕ → Dispatch → Outcome String ExecutionResult
  -- the pose that was read, as the text of its summary; `none` if there is none
  pub get_current_pose : ℕ → Option String
  -- `none` if the abort was accepted, else the adapter's reason
  pub abort_command : ℕ → String → Option String

unfoldable pub ask : {A : Type 0} → (ℕ → A) → Action A
ask answer s = (ok (answer s.tick), record s { tick = s.tick + 1 })

-- `self._commands[command_id]`
abbrev pub found : String → Option CommandRecord → Outcome SupervisorError CommandRecord
found command_id none = raised (key_error command_id)
found command_id (some c) = ok c

unfoldable pub fetch : String → Action CommandRecord
fetch command_id s = (found command_id (lookup command_id s.commands), s)

-- An assignment to fields of a record other than its lifecycle state
pub data Patch : Type 0 where
  set_final : Option CommandLifecycleState → Option String → Patch
  set_final_state : Option CommandLifecycleState → Patch
  set_confirm_at set_execute_at : ℕ → Patch
  set_execution_result : ExecutionResult → Patch
  set_current_step : Option ℕ → Patch
  set_manual_recovery : Bool → Patch

abbrev pub patch : Patch → CommandRecord → CommandRecord
patch (set_final st reason) c = record c { final_state = st; reject_reason = reason }
patch (set_final_state st) c = record c { final_state = st }
patch (set_confirm_at now) c = record c { confirm_at = some now }
patch (set_execute_at now) c = record c { execute_at = some now }
patch (set_execution_result r) c = record c { execution_result = some r }
patch (set_current_step i) c = record c { current_step_index = i }
patch (set_manual_recovery b) c = record c { manual_recovery_required = b }

unfoldable pub assign : String → Patch → Action (Unit {0})
assign command_id p s = (ok tt, record s { commands = modify command_id (patch p) s.commands })

unfoldable pub set_active : String → Action (Unit {0})
set_active command_id s = (ok tt, record s { active_command_id = some command_id })

abbrev pub enter_state : CommandLifecycleState → CommandRecord → CommandRecord
enter_state next_state c = record c { lifecycle_state = next_state }

abbrev pub log_transition :
    String → CommandLifecycleState → CommandLifecycleState → Supervisor → Supervisor
log_transition command_id previous next_state s = record s {
  commands = modify command_id (enter_state next_state) s.commands;
  transitions =
      s.transitions
      ++ record { command_id = command_id; from_state = previous; to_state = next_state } ∷ [];
}

abbrev pub transition_checked :
    String
    → CommandLifecycleState
    → CommandLifecycleState
    → Outcome TransitionError (Unit {0})
    → Action (Unit {0})
transition_checked command_id previous next_state (ok _) s =
    (ok tt, log_transition command_id previous next_state s)
transition_checked command_id previous next_state (raised e) s = (raised (invalid e), s)

abbrev pub transition_found :
    String → CommandLifecycleState → Option CommandRecord → Action (Unit {0})
transition_found command_id next_state none s = (raised (key_error command_id), s)
transition_found command_id next_state (some c) s =
    transition_checked command_id c.lifecycle_state next_state
      (ensure_command_transition c.lifecycle_state next_state) s

-- `_transition_command` and `_transition_top_level_record`: they differ in the event that they emit
unfoldable pub transition_command : String → CommandLifecycleState → Action (Unit {0})
transition_command command_id next_state s =
    transition_found command_id next_state (lookup command_id s.commands) s

abbrev pub lease_outcome : Outcome LeaseError LeaseRecord → Outcome SupervisorError LeaseRecord
lease_outcome (ok lease) = ok lease
lease_outcome (raised e) = raised (forbidden e)

abbrev pub with_lock :
    Supervisor
    → Outcome LeaseError LeaseRecord × SessionLockService
    → Outcome SupervisorError LeaseRecord × Supervisor
with_lock s (r, lock) = (lease_outcome r, record s { session_lock = lock })

abbrev pub assert_controller_at : String → String → Option String → ℕ → Action LeaseRecord
assert_controller_at session_id operator_id lease_token now s =
    with_lock s (Session.assert_controller now session_id operator_id lease_token s.session_lock)

-- a loop over a list that ends early only by a raise
unfoldable pub each : {A : Type 0} → List A → (A → Action (Unit {0})) → Action (Unit {0})
each [] f = pure tt
each (x ∷ xs) f = do f x; each xs f

abbrev pub owned_by : String → String → Option CommandRecord → Outcome SupervisorError CommandRecord
owned_by session_id operator_id none = raised not_found
owned_by session_id operator_id (some c) =
    if not (c.session_id == session_id) || not (c.operator_id == operator_id)
    then raised other_session
    else ok c

unfoldable pub require_owned_command : String → String → String → Action CommandRecord
require_owned_command command_id session_id operator_id s =
    (owned_by session_id operator_id (lookup command_id s.commands), s)

abbrev pub a_sequence : CommandKind → CommandRecord → Action CommandRecord
a_sequence sequence c = pure c
a_sequence _ c = raise not_found

unfoldable pub require_owned_sequence : String → String → String → Action CommandRecord
unfolding require_owned_command
require_owned_sequence sequence_id session_id operator_id = do
  c ← require_owned_command sequence_id session_id operator_id
  a_sequence c.command_kind c

module _ (ros : RosAdapter) where
  -- `_assert_controller`, with the reading of the clock that the lease service makes
  unfoldable pub assert_controller : String → String → Option String → Action LeaseRecord
  unfolding ask
  assert_controller session_id operator_id lease_token = do
    now ← ask ros.utcnow
    assert_controller_at session_id operator_id lease_token now
