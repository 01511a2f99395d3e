-- ===== src/Dispatch/Supervised.antt =====
-- The responses of the adapter, as hmi/backend/services/supervisor_execution.py takes them.
use gp4_ws.Common.{
  String, Bool, true, false, Option, some, List, ◌≡◌, refl, ◌==◌, lookup, if◌then◌else◌,
}
use gp4_ws.Common.Outcome.{Outcome, ok, raised}
use gp4_ws.Python.{PyLib}
use gp4_ws.Lifecycle.{execution_requested, succeeded, state_eq, is_terminal_command_state}
use gp4_ws.Supervisor.Records.{
  ExecutionStatus, status_succeeded, status_cancelled, status_other, ExecutionResult, CommandRecord,
  SupervisorError, Supervisor,
}
use gp4_ws.Supervisor.Execution.{conclude}
use gp4_ws.Dispatch.Joints.{TextLib}
use gp4_ws.Dispatch.Adapter.{Order, Confirmation, Adapter, Response, Summary, RosClients}
use gp4_ws.Dispatch.Confirm.{confirm_command}
use gp4_ws.Dispatch.Reports.{
  Reported, is_blocked, is_failed, is_cancelled, is_succeeded, confirm_command-Reported,
}
use gp4_ws.Dispatch.Conclusion.{At, Leaves, settled, dispatched-Leaves, undispatched-Leaves}

-- the two tests on the lower-cased status
abbrev pub status_of : String → ExecutionStatus
status_of text =
    if text == "succeeded"
    then status_succeeded
    else (if text == "cancelled" then status_cancelled else status_other)

-- What the supervisor reads of a response; `describe` puts its summary into words
unfoldable pub execution_result :
    (String → String) → (Summary → String) → Response → ExecutionResult
execution_result lower describe r = record {
  status = status_of (lower r.status);
  dispatched_to_ros = r.dispatched_to_ros;
  summary = some (describe r.summary);
}

-- The command has ended, in the state that the supervisor shows as final, and this is SUCCEEDED exactly
-- if `accepted`.
pub record Concluded (command_id : String) (accepted : Bool) (s : Supervisor) : Type 0 where
  pub command : CommandRecord
  pub held : lookup command_id s.commands ≡ some command
  pub terminal : is_terminal_command_state command.lifecycle_state ≡ true
  pub final : command.final_state ≡ some command.lifecycle_state
  pub success : state_eq command.lifecycle_state succeeded ≡ accepted

module _ (command_id : String) where
  concluded :
      {A : Type 0} (accepted : Bool) (c : CommandRecord)
      (answer : Outcome SupervisorError A × Supervisor)
      → Leaves command_id c answer
      → is_terminal_command_state c.lifecycle_state ≡ true
      → c.final_state ≡ some c.lifecycle_state
      → state_eq c.lifecycle_state succeeded ≡ accepted
      → Concluded command_id accepted answer.1
  concluded accepted c (ok a, s) held terminal final success = record {
    command = c;
    held = held;
    terminal = terminal;
    final = final;
    success = success;
  }
  concluded accepted c (raised e, s) never terminal final success = elim never [ ]

  conclude-dispatched :
      (status : ExecutionStatus) (accepted : Bool) (summary : Option String) (c : CommandRecord)
      (s : Supervisor)
      → c.lifecycle_state ≡ execution_requested
      → At command_id c s
      → state_eq (settled command_id status) succeeded ≡ accepted
      → Concluded command_id accepted
          (conclude command_id
            (record { status = status; dispatched_to_ros = true; summary = summary })
            s).1
  unfolding settled is_terminal_command_state
  conclude-dispatched status accepted summary c s at held success =
      concluded accepted _ _ (dispatched-Leaves command_id status summary c s at held)
        (settled_terminal status) refl success
    where
      settled_terminal :
          (st : ExecutionStatus) → is_terminal_command_state (settled command_id st) ≡ true
      settled_terminal status_succeeded = refl
      settled_terminal status_cancelled = refl
      settled_terminal status_other = refl

  conclude-undispatched :
      (summary : Option String) (c : CommandRecord) (s : Supervisor)
      → c.lifecycle_state ≡ execution_requested
      → At command_id c s
      → Concluded command_id false
          (conclude command_id
            (record { status = status_other; dispatched_to_ros = false; summary = summary })
            s).1
  unfolding is_terminal_command_state
  conclude-undispatched summary c s at held =
      concluded false _ _ (undispatched-Leaves command_id summary c s at held) refl refl refl

-- Lower case leaves the texts of the four statuses as they are.
pub record KeepsStatuses (lower : String → String) : Type 0 where
  pub keeps_blocked : lower "blocked" ≡ "blocked"
  pub keeps_failed : lower "failed" ≡ "failed"
  pub keeps_cancelled : lower "cancelled" ≡ "cancelled"
  pub keeps_succeeded : lower "succeeded" ≡ "succeeded"

module _ (py : PyLib) (tx : TextLib) (ros : RosClients py.Float) (lower : String → String)
    (describe : Summary → String) where
  open py use {Float}

  abbrev result : ExecutionStatus → Bool → Response → ExecutionResult
  result status dispatched r = record {
    status = status;
    dispatched_to_ros = dispatched;
    summary = some (describe r.summary);
  }

  result_of :
      (r : Response) (text : String) {dispatched : Bool}
      → r.status ≡ text
      → lower text ≡ text
      → r.dispatched_to_ros ≡ dispatched
      → execution_result lower describe r ≡ result (status_of text) dispatched r
  unfolding execution_result
  result_of r text at kept sent = rw (at, kept, sent) refl

  module _ (command_id : String) (c : CommandRecord) (s : Supervisor) (r : Response) where
    ConcludedAs : ExecutionResult → Bool → Type 0
    ConcludedAs e accepted = Concluded command_id accepted (conclude command_id e s).1

    conclude-Reported :
        (before sent : List (Order Float))
        → KeepsStatuses lower
        → c.lifecycle_state ≡ execution_requested
        → lookup command_id s.commands ≡ some c
        → Reported py tx ros before r sent
        → ConcludedAs (execution_result lower describe r) r.accepted
    unfolding ConcludedAs settled
    conclude-Reported before sent keeps at held (is_blocked status accepted dispatched) =
        rw (result_of r "blocked" status keeps.keeps_blocked dispatched, accepted)
          (conclude-undispatched command_id (some (describe r.summary)) c s at held)
    conclude-Reported before sent keeps at held (is_failed status accepted) =
        rw (result_of r "failed" status keeps.keeps_failed refl, accepted)
          (either r.dispatched_to_ros)
      where
        either : (b : Bool) → ConcludedAs (result status_other b r) false
        either true =
            conclude-dispatched command_id status_other false (some (describe r.summary)) c s at
              held refl
        either false = conclude-undispatched command_id (some (describe r.summary)) c s at held
    conclude-Reported before sent keeps at held (is_cancelled status accepted dispatched more) =
        rw (result_of r "cancelled" status keeps.keeps_cancelled dispatched, accepted)
          (conclude-dispatched command_id status_cancelled false (some (describe r.summary)) c s at
            held refl)
    conclude-Reported before sent keeps at held (is_succeeded status accepted dispatched more) =
        rw (result_of r "succeeded" status keeps.keeps_succeeded dispatched, accepted)
          (conclude-dispatched command_id status_succeeded true (some (describe r.summary)) c s at
            held refl)

module _ (py : PyLib) (tx : TextLib) (ros : RosClients py.Float) where
  open py use {Float}

  -- Whatever the adapter answers for a command in EXECUTION_REQUESTED, where lower case leaves its
  -- statuses as they are, the supervisor ends the command: with this answer as its result, it comes to a
  -- terminal state that is also its final state, and this is SUCCEEDED exactly if the adapter accepted.
  pub conclude-confirm_command :
      (describe : Summary → String) (call : Confirmation Float) (a : Adapter Float) (s : Supervisor)
      (c : CommandRecord) {r : Response}
      → KeepsStatuses tx.lower
      → (confirm_command py tx ros call a).0 ≡ ok r
      → lookup call.command_id s.commands ≡ some c
      → c.lifecycle_state ≡ execution_requested
      → Concluded call.command_id r.accepted
          (conclude call.command_id (execution_result tx.lower describe r) s).1
  unfolding ConcludedAs
  conclude-confirm_command describe call a s c {r} keeps e held at =
      conclude-Reported py tx ros tx.lower describe call.command_id c s r _ _ keeps at held
        (confirm_command-Reported py tx ros call a e)
