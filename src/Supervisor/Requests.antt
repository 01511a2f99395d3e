-- ===== src/Supervisor/Requests.antt =====
-- The operator's requests of hmi/backend/api/app.py that reach the methods of the lifecycle, and
-- whole runs of them.
use gp4_ws.Common.{String, Option, List, [], ◌∷◌}
use gp4_ws.Common.Outcome.{Keeps}
use gp4_ws.Session.{LeaseRecord}
use gp4_ws.Supervisor.Records.{Supervisor, Dispatch}
use gp4_ws.Supervisor.Store.{Action, RosAdapter}
use gp4_ws.Supervisor.Execution.{Response, hand_over, execute_confirmed_command}
use gp4_ws.Supervisor.Control.{confirm_command, cancel_command}
use gp4_ws.Supervisor.Sequences.{confirm_sequence, cancel_sequence}
use gp4_ws.Supervisor.Keeping.{Steady, execute_confirmed_command-Keeps}
use gp4_ws.Supervisor.Keeping.Whole.{
  confirm_command-Keeps, cancel_command-Keeps, confirm_sequence-Keeps, cancel_sequence-Keeps,
}

pub record Caller : Type 0 where
  pub session_id : String
  pub operator_id : String
  pub lease_token : Option String

pub data Request : Type 0 where
  confirm confirm_all : Caller → String → String → Request
  cancel cancel_all : Caller → String → Option String → Request

module _ (ros : RosAdapter) where
  unfoldable pub handle : Request → Action Response
  handle (confirm who command_id plan_fingerprint) =
      confirm_command ros who.session_id who.operator_id who.lease_token command_id plan_fingerprint
  handle (confirm_all who sequence_id plan_fingerprint) =
      confirm_sequence ros who.session_id who.operator_id who.lease_token sequence_id
        plan_fingerprint
  handle (cancel who command_id reason) =
      cancel_command ros who.session_id who.operator_id who.lease_token command_id reason
  handle (cancel_all who sequence_id reason) =
      cancel_sequence ros who.session_id who.operator_id who.lease_token sequence_id reason

  -- A request that raises leaves the state that it had reached.
  unfoldable pub serve : List Request → Supervisor → Supervisor
  unfolding handle
  serve [] s = s
  serve (r ∷ rs) s = serve rs (handle r s).1

  module _ {P : Supervisor → Type 0} (steady : Steady P)
      (execution : (command_id : String) (lease : LeaseRecord)
          (session_id operator_id plan_fingerprint : String)
        → Keeps P (
            execute_confirmed_command ros command_id lease session_id operator_id
              plan_fingerprint)) where
    pub handle-Keeps : (r : Request) → Keeps P (handle r)
    unfolding handle
    handle-Keeps (confirm who command_id plan_fingerprint) =
        confirm_command-Keeps steady ros execution _ _ _ _ _
    handle-Keeps (confirm_all who sequence_id plan_fingerprint) =
        confirm_sequence-Keeps steady ros execution _ _ _ _ _
    handle-Keeps (cancel who command_id reason) = cancel_command-Keeps steady ros _ _ _ _ _
    handle-Keeps (cancel_all who sequence_id reason) = cancel_sequence-Keeps steady ros _ _ _ _ _

    pub serve_induction : (rs : List Request) (s : Supervisor) → P s → P (serve rs s)
    unfolding serve
    serve_induction [] s h = h
    serve_induction (r ∷ rs) s h = serve_induction rs (handle r s).1 ((handle-Keeps r).at s h)

  -- The rule for what the hand-over keeps too.
  pub serve_steady :
      {P : Supervisor → Type 0}
      → Steady P
      → ((d : Dispatch) → Keeps P (hand_over d))
      → (rs : List Request) (s : Supervisor) → P s
      → P (serve rs s)
  serve_steady steady handing =
      serve_induction steady
        λ command_id. execute_confirmed_command-Keeps steady ros command_id (λ d _. handing d)
