-- ===== src/Supervisor/Keeping/Whole.antt =====
-- The rule for the methods that an operator calls, from the one for a confirmed execution.
use gp4_ws.Common.{String, Option, none, some, List, [], ◌∷◌}
use gp4_ws.Common.Outcome.{
  Keeps, Keeps-pure, Keeps-raise, Keeps-gets, Keeps-if, Keeps-require, Keeps-bind,
}
use gp4_ws.Session.{LeaseRecord}
use gp4_ws.Supervisor.Records.{CommandRecord, Supervisor}
use gp4_ws.Supervisor.Store.{RosAdapter}
use gp4_ws.Supervisor.Gate.{is_nil}
use gp4_ws.Supervisor.Execution.{execute_confirmed_command, confirm_gate, confirm_command_internal}
use gp4_ws.Supervisor.Control.{
  expire_command, expire_pending_confirmations, confirm_command, abort_answer, abort_or_raise,
  cancel_command,
}
use gp4_ws.Supervisor.Sequences.{
  any_io_set, stop_sequence, finish_sequence, run_steps, confirm_sequence, cancel_child,
  cancel_sequence,
}
use gp4_ws.Supervisor.Keeping.{
  Steady, ask-Keeps, set_active-Keeps, assert_controller-Keeps, fetch-Keeps,
  require_owned_command-Keeps, require_owned_sequence-Keeps, each-Keeps, when_action-Keeps,
}

abort_answer-Keeps :
    {P : Supervisor → Type 0} (refusal : Option String) → Keeps P (abort_answer refusal)
abort_answer-Keeps none = Keeps-pure tt
abort_answer-Keeps (some reason) = Keeps-raise _

module _ {P : Supervisor → Type 0} (steady : Steady P) where
  pub expire_command-Keeps :
      (command_id reason : String) → Keeps P (expire_command command_id reason)
  unfolding expire_command
  expire_command-Keeps command_id reason =
      Keeps-bind _ _ (steady.at_assign command_id _) (λ _. steady.at_transition command_id _)

  pub expire_pending_confirmations-Keeps :
      (ros : RosAdapter) → Keeps P (expire_pending_confirmations ros)
  unfolding expire_pending_confirmations
  expire_pending_confirmations-Keeps ros = Keeps-bind _ _ (ask-Keeps steady _) λ now.
      Keeps-bind _ _ (Keeps-gets _)
        λ ids. each-Keeps ids _ (λ command_id. expire_command-Keeps command_id _)

  abort_or_raise-Keeps :
      (ros : RosAdapter) (command_id : String) → Keeps P (abort_or_raise ros command_id)
  unfolding abort_or_raise
  abort_or_raise-Keeps ros command_id = Keeps-bind _ _ (ask-Keeps steady _) abort_answer-Keeps

  pub cancel_command-Keeps :
      (ros : RosAdapter) (session_id operator_id : String) (lease_token : Option String)
      (command_id : String) (reason : Option String)
      → Keeps P (cancel_command ros session_id operator_id lease_token command_id reason)
  unfolding cancel_command
  cancel_command-Keeps ros session_id operator_id lease_token command_id reason =
      Keeps-bind _ _ (expire_pending_confirmations-Keeps ros) λ _.
        Keeps-bind _ _ (assert_controller-Keeps steady ros session_id operator_id lease_token) λ _.
          Keeps-bind _ _ (require_owned_command-Keeps command_id session_id operator_id) λ c.
            Keeps-bind _ _ (Keeps-require _ _) λ _. Keeps-if _ _ _ (Keeps-pure _) (
              Keeps-bind _ _ (when_action-Keeps _ _ (abort_or_raise-Keeps ros command_id)) λ _.
                Keeps-bind _ _ (steady.at_assign command_id _)
                  λ _. Keeps-bind _ _ (steady.at_transition command_id _) λ _. Keeps-pure _)

  cancel_child-Keeps :
      (reason : Option String) (child_id : String) → Keeps P (cancel_child reason child_id)
  unfolding cancel_child
  cancel_child-Keeps reason child_id = Keeps-bind _ _ (fetch-Keeps child_id) λ child.
      when_action-Keeps _ _
        (Keeps-bind _ _ (steady.at_assign child_id _) (λ _. steady.at_transition child_id _))

  pub cancel_sequence-Keeps :
      (ros : RosAdapter) (session_id operator_id : String) (lease_token : Option String)
      (sequence_id : String) (reason : Option String)
      → Keeps P (cancel_sequence ros session_id operator_id lease_token sequence_id reason)
  unfolding cancel_sequence
  cancel_sequence-Keeps ros session_id operator_id lease_token sequence_id reason =
      Keeps-bind _ _ (expire_pending_confirmations-Keeps ros) λ _.
        Keeps-bind _ _ (assert_controller-Keeps steady ros session_id operator_id lease_token) λ _.
          Keeps-bind _ _ (require_owned_sequence-Keeps sequence_id session_id operator_id)
            λ sequence. Keeps-if _ _ _ (Keeps-pure _) (
              Keeps-bind _ _ (Keeps-gets _) λ current. Keeps-bind _ _ (Keeps-gets _) λ child.
                Keeps-bind _ _ (when_action-Keeps _ _ (abort_or_raise-Keeps ros _)) λ _.
                  Keeps-bind _ _
                    (each-Keeps sequence.child_command_ids _ (cancel_child-Keeps reason))
                    λ _.
                      Keeps-bind _ _ (steady.at_assign sequence_id _)
                        λ _. Keeps-bind _ _ (steady.at_transition sequence_id _) λ _. Keeps-pure _)

  any_io_set-Keeps : (ids : List String) → Keeps P (any_io_set ids)
  unfolding any_io_set
  any_io_set-Keeps [] = Keeps-pure _
  any_io_set-Keeps (x ∷ xs) =
      Keeps-bind _ _ (fetch-Keeps x) λ c. Keeps-if _ _ _ (Keeps-pure _) (any_io_set-Keeps xs)

  stop_sequence-Keeps :
      (sequence_id : String) (children : List String) (child : CommandRecord)
      → Keeps P (stop_sequence sequence_id children child)
  stop_sequence-Keeps sequence_id children child =
      Keeps-bind _ _ (steady.at_assign sequence_id _) λ _.
        Keeps-bind _ _ (any_io_set-Keeps _) λ recovery.
          Keeps-bind _ _ (steady.at_assign sequence_id _) λ _.
            Keeps-bind _ _ (steady.at_assign sequence_id _) λ _. steady.at_transition sequence_id _

  finish_sequence-Keeps :
      (sequence_id : String) (c : CommandRecord) → Keeps P (finish_sequence sequence_id c)
  finish_sequence-Keeps sequence_id c = Keeps-bind _ _ (steady.at_assign sequence_id _) λ _.
      Keeps-bind _ _ (steady.at_assign sequence_id _) λ _.
        Keeps-bind _ _ (steady.at_assign sequence_id _)
          λ _. Keeps-bind _ _ (steady.at_transition sequence_id _) λ _. Keeps-pure _

  pub confirm_gate-Keeps :
      (ros : RosAdapter) (command_id : String) → Keeps P (confirm_gate ros command_id)
  unfolding confirm_gate
  confirm_gate-Keeps ros command_id = Keeps-bind _ _ (fetch-Keeps command_id) λ c.
      Keeps-bind _ _ (ask-Keeps steady _) λ runtime.
        Keeps-bind _ _ (ask-Keeps steady _)
          λ sources. Keeps-bind _ _ (ask-Keeps steady _) λ preflight. Keeps-pure _

  module _ (ros : RosAdapter)
      (execution : (command_id : String) (lease : LeaseRecord)
          (session_id operator_id plan_fingerprint : String)
        → Keeps P (
            execute_confirmed_command ros command_id lease session_id operator_id
              plan_fingerprint)) where
    pub confirm_command_internal-Keeps :
        (command_id : String) (lease : LeaseRecord)
        (session_id operator_id plan_fingerprint : String)
        → Keeps P
            (confirm_command_internal ros command_id lease session_id operator_id plan_fingerprint)
    unfolding confirm_command_internal
    confirm_command_internal-Keeps command_id lease session_id operator_id plan_fingerprint =
        Keeps-bind _ _ (confirm_gate-Keeps ros command_id) λ reasons.
          Keeps-if (is_nil reasons) _ _
            (execution command_id lease session_id operator_id plan_fingerprint) (Keeps-pure _)

    pub confirm_command-Keeps :
        (session_id operator_id : String) (lease_token : Option String)
        (command_id plan_fingerprint : String)
        → Keeps P
            (confirm_command ros session_id operator_id lease_token command_id plan_fingerprint)
    unfolding confirm_command
    confirm_command-Keeps session_id operator_id lease_token command_id plan_fingerprint =
        Keeps-bind _ _ (expire_pending_confirmations-Keeps ros) λ _.
          Keeps-bind _ _ (assert_controller-Keeps steady ros session_id operator_id lease_token)
            λ lease.
              Keeps-bind _ _ (require_owned_command-Keeps command_id session_id operator_id) λ c.
                Keeps-bind _ _ (Keeps-require _ _) λ _. Keeps-bind _ _ (Keeps-require _ _) λ _.
                  Keeps-bind _ _ (ask-Keeps steady _) λ now.
                    Keeps-if _ _ _
                      (Keeps-bind _ _ (expire_command-Keeps command_id _) λ _. Keeps-raise _)
                      (Keeps-bind _ _ (Keeps-require _ _) λ _.
                        confirm_command_internal-Keeps command_id lease session_id operator_id
                          plan_fingerprint)

    run_steps-Keeps :
        (sequence_id : String) (lease : LeaseRecord) (session_id operator_id : String)
        (children ids : List String)
        → Keeps P (run_steps ros sequence_id lease session_id operator_id children ids)
    unfolding run_steps
    run_steps-Keeps sequence_id lease session_id operator_id children [] =
        Keeps-bind _ _ (fetch-Keeps sequence_id) (finish_sequence-Keeps sequence_id)
    run_steps-Keeps sequence_id lease session_id operator_id children (child_id ∷ rest) =
        Keeps-bind _ _ (fetch-Keeps child_id) λ child.
          Keeps-bind _ _ (steady.at_assign sequence_id _) λ _.
            Keeps-bind _ _ (set_active-Keeps steady child_id) λ _.
              Keeps-bind _ _
                (confirm_command_internal-Keeps child_id lease session_id operator_id _)
                λ _. Keeps-bind _ _ (fetch-Keeps child_id) λ done.
                  Keeps-if _ _ _
                    (run_steps-Keeps sequence_id lease session_id operator_id children rest)
                    (Keeps-bind _ _ (stop_sequence-Keeps sequence_id children done)
                      λ _. Keeps-pure _)

    pub confirm_sequence-Keeps :
        (session_id operator_id : String) (lease_token : Option String)
        (sequence_id plan_fingerprint : String)
        → Keeps P
            (confirm_sequence ros session_id operator_id lease_token sequence_id plan_fingerprint)
    unfolding confirm_sequence
    confirm_sequence-Keeps session_id operator_id lease_token sequence_id plan_fingerprint =
        Keeps-bind _ _ (expire_pending_confirmations-Keeps ros) λ _.
          Keeps-bind _ _ (assert_controller-Keeps steady ros session_id operator_id lease_token)
            λ lease.
              Keeps-bind _ _ (require_owned_sequence-Keeps sequence_id session_id operator_id)
                λ sequence. Keeps-bind _ _ (Keeps-require _ _) λ _.
                  Keeps-bind _ _ (ask-Keeps steady _) λ now.
                    Keeps-if _ _ _
                      (Keeps-bind _ _ (expire_command-Keeps sequence_id _) λ _. Keeps-raise _)
                      (Keeps-bind _ _ (Keeps-require _ _) λ _.
                        Keeps-bind _ _ (steady.at_transition sequence_id _) λ _.
                          Keeps-bind _ _ (ask-Keeps steady _) λ confirmed_at.
                            Keeps-bind _ _ (steady.at_assign sequence_id _) λ _.
                              Keeps-bind _ _ (steady.at_transition sequence_id _) λ _.
                                Keeps-bind _ _ (ask-Keeps steady _) λ executed_at.
                                  Keeps-bind _ _ (steady.at_assign sequence_id _) λ _.
                                    Keeps-bind _ _ (steady.at_transition sequence_id _) λ _.
                                      run_steps-Keeps sequence_id lease session_id operator_id
                                        sequence.child_command_ids sequence.child_command_ids)
