-- ===== src/Supervisor/Effects.antt =====
-- What the two writes of a record do to the table, by cases.
use gp4_ws.Common.{String, Option, none, some, ◌≡◌, refl, arith, lookup}
use gp4_ws.Common.Outcome.{Outcome, ok, raised}
use gp4_ws.Lifecycle.{CommandLifecycleState, TransitionError, ensure_command_transition}
use gp4_ws.Supervisor.Records.{CommandRecord, SupervisorError, invalid, key_error, Supervisor}
use gp4_ws.Supervisor.Store.{
  Patch, patch, log_transition, transition_checked, transition_found, transition_command,
}

-- A transition that is refused changes nothing; one that is accepted is written and logged.
pub data Transitioned (command_id : String) (st : CommandLifecycleState) (s : Supervisor)
    : Outcome SupervisorError (Unit {0}) × Supervisor → Type 0 where
  unchanged : (e : SupervisorError) → Transitioned command_id st s (raised e, s)
  entered :
      (c : CommandRecord)
      → lookup command_id s.commands ≡ some c
      → ensure_command_transition c.lifecycle_state st ≡ ok tt
      → Transitioned command_id st s (ok tt, log_transition command_id c.lifecycle_state st s)

pub transition_cases :
    (command_id : String) (st : CommandLifecycleState) (s : Supervisor)
    → Transitioned command_id st s (transition_command command_id st s)
unfolding transition_command
transition_cases command_id st s = by_record (lookup command_id s.commands) refl
  where
    by_check :
        (c : CommandRecord) (r : Outcome TransitionError (Unit {0}))
        → lookup command_id s.commands ≡ some c
        → ensure_command_transition c.lifecycle_state st ≡ r
        → Transitioned command_id st s (transition_checked command_id c.lifecycle_state st r s)
    by_check c (ok tt) e f = entered c e f
    by_check c (raised x) e f = unchanged (invalid x)

    by_record :
        (o : Option CommandRecord)
        → lookup command_id s.commands ≡ o
        → Transitioned command_id st s (transition_found command_id st o s)
    by_record none e = unchanged (key_error command_id)
    by_record (some c) e = by_check c _ e refl

pub lifecycle-patch :
    (p : Patch) (c : CommandRecord) → (patch p c).lifecycle_state ≡ c.lifecycle_state
lifecycle-patch p c = ground arith
