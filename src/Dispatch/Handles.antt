-- ===== src/Dispatch/Handles.antt =====
-- The goal handles that the adapter keeps.
use gp4_ws.Common.{
  ℕ, String, not, ◌||◌, Option, none, some, Dict, lookup, insert, remove, lookup-insert,
  lookup-remove, ◌≡◌, refl, eq_iff, arith,
}
use gp4_ws.Common.Outcome.{
  Outcome, ok, raised, pure, ◌>>=◌, Keeps, Keeps-bind, Keeps-if, Keeps-pure, Keeps-lift,
}
use gp4_ws.Python.{PyLib, PyError, value_error, Fields, get_or_null, is_text}
use gp4_ws.Dispatch.Joints.{TextLib}
use gp4_ws.Dispatch.Adapter.{
  GoalHandle, Confirmation, TaskRequest, Order, motion, task, Adapter, RosClients, Validation,
  accepted_as, rejected, ask, order, register, unregister, call_validate, validate_motion_request,
  await_result, after_send, send, dispatch_execute_motion,
}
use gp4_ws.Dispatch.Confirm.{
  mismatches, task_request, confirm_execution, hand_over, with_payload, with_intent, read_preflight,
  confirm_command,
}

module _ (py : PyLib) (tx : TextLib) (ros : RosClients py.Float) where
  open py use {Float}

  module _ (handles : Dict GoalHandle) where
    -- every command has the handle that it has in `handles`
    abbrev Same : Adapter Float → Type 0
    Same t = (key : String) → lookup key t.goal_handles ≡ lookup key handles

    ask-Same : {A : Type 0} (answer : ℕ → A) → Keeps Same (ask py tx ros answer)
    unfolding ask
    ask-Same answer = record { at = λ s h. h }

    order-Same : (o : Order Float) → Keeps Same (order py tx ros o)
    unfolding order
    order-Same o = record { at = λ s h. h }

    module _ (command_id : String) (absent : lookup command_id handles ≡ none) where
      removed :
          (h : GoalHandle) (d : Dict GoalHandle) (key : String)
          → lookup key d ≡ lookup key handles
          → lookup key (remove command_id (insert command_id h d)) ≡ lookup key handles
      removed h d key e = ground (
        arith,
        eq_iff command_id key,
        lookup-remove command_id key (insert command_id h d),
        lookup-insert command_id key h d,
        e,
        absent,
      )

      await_result-Same : (h : GoalHandle) → Keeps Same (await_result py tx ros command_id h)
      unfolding register ask unregister pure ◌>>=◌
      await_result-Same h = record { at = λ s held key. removed h s.goal_handles key (held key) }

      after_send-Same :
          (answer : Outcome String (Option GoalHandle))
          → Keeps Same (after_send py tx ros command_id answer)
      after_send-Same (raised text) = Keeps-pure _
      after_send-Same (ok none) = Keeps-pure _
      after_send-Same (ok (some h)) = Keeps-if h.accepted _ _ (await_result-Same h) (Keeps-pure _)

      send-Same : (executed : Fields Float) → Keeps Same (send py tx ros command_id executed)
      send-Same executed = Keeps-bind _ _ (Keeps-lift _) (λ goal.
          Keeps-bind _ _ (order-Same (motion goal))
            (λ _. Keeps-bind _ _ (ask-Same _) after_send-Same))

      dispatch-Same :
          (executed : Fields Float)
          → Keeps Same (dispatch_execute_motion py tx ros command_id executed)
      unfolding dispatch_execute_motion
      dispatch-Same executed =
          Keeps-if (not ros.has_node || not ros.has_messages) _ _ (Keeps-pure _) (
            Keeps-if (not ros.has_execute_client) _ _ (Keeps-pure _) (
              Keeps-bind _ _ (ask-Same _)
                (λ available. Keeps-if available _ _ (send-Same executed) (Keeps-pure _))))

    call_validate-Same : (payload : Fields Float) → Keeps Same (call_validate py tx ros payload)
    call_validate-Same payload =
        Keeps-bind _ _ (Keeps-lift _)
          (λ request. Keeps-bind _ _ (ask-Same _) (λ answer. Keeps-pure _))

    validate_motion_request-Same :
        (payload : Fields Float) → Keeps Same (validate_motion_request py tx ros payload)
    unfolding validate_motion_request
    validate_motion_request-Same payload =
        Keeps-if (not ros.has_node || not ros.has_messages) _ _ (Keeps-pure _) (
          Keeps-if (not ros.has_validate_client) _ _ (Keeps-pure _) (
            Keeps-bind _ _ (ask-Same _)
              (λ available. Keeps-if available _ _ (call_validate-Same payload) (Keeps-pure _))))

    confirm_execution-Same :
        (request : TaskRequest) → Keeps Same (confirm_execution py tx ros request)
    unfolding confirm_execution
    confirm_execution-Same request =
        Keeps-if (not ros.has_node || not ros.has_confirm_execution) _ _ (Keeps-pure _) (
          Keeps-bind _ _ (ask-Same _) (λ available.
            Keeps-if available _ _
              (Keeps-bind _ _ (order-Same (task request))
                (λ _. Keeps-bind _ _ (ask-Same _) (λ answer. Keeps-pure _)))
              (Keeps-pure _)))

    module _ (c : Confirmation Float) (absent : lookup c.command_id handles ≡ none) where
      hand_over-Same :
          (parsed_intent : Fields Float) (v : Validation Float)
          → Keeps Same (hand_over py tx ros c parsed_intent v)
      hand_over-Same parsed_intent (rejected why) = Keeps-pure _
      hand_over-Same parsed_intent (accepted_as executed) =
          Keeps-if (is_text "FACTORY_TASK_RUNTIME" (get_or_null "primitive_type" executed)) _ _
            (confirm_execution-Same (task_request py tx ros c parsed_intent))
            (dispatch-Same c.command_id absent executed)

      with_payload-Same :
          (parsed_intent : Fields Float) (outcome : Outcome PyError (Fields Float))
          → Keeps Same (with_payload py tx ros c parsed_intent outcome)
      with_payload-Same parsed_intent (ok payload) =
          Keeps-bind _ _ (validate_motion_request-Same payload) (hand_over-Same parsed_intent)
      with_payload-Same parsed_intent (raised value_error) = Keeps-pure _
      with_payload-Same parsed_intent (raised e) = Keeps-lift _

      with_intent-Same : (o : Option (Fields Float)) → Keeps Same (with_intent py tx ros c o)
      with_intent-Same none = Keeps-pure _
      with_intent-Same (some parsed_intent) =
          Keeps-bind _ _ (ask-Same _) (λ positions. with_payload-Same parsed_intent _)

      confirm_command-Same : Keeps Same (confirm_command py tx ros c)
      unfolding confirm_command
      confirm_command-Same = Keeps-bind _ _ (ask-Same _) (λ runtime.
          Keeps-if (mismatches c.requested_mode runtime.mode) _ _ (Keeps-pure _) (
            Keeps-bind (read_preflight py tx ros runtime.mode) _
              (Keeps-bind _ _ (ask-Same _)
                (λ now. Keeps-bind _ _ (ask-Same _) (λ sources. Keeps-pure _)))
              (λ preflight.
                Keeps-if preflight.accepted _ _ (with_intent-Same c.parsed_intent) (Keeps-pure _))))

  -- A call of confirm_command for a command without a goal handle ends, whether it returns or raises,
  -- with the handles of all commands as they were: the handle of its own goal is not left behind.
  pub confirm_command-handles :
      (c : Confirmation Float) (s : Adapter Float) (key : String)
      → lookup c.command_id s.goal_handles ≡ none
      → lookup key (confirm_command py tx ros c s).1.goal_handles ≡ lookup key s.goal_handles
  confirm_command-handles c s key absent =
      (confirm_command-Same s.goal_handles c absent).at s (λ k. refl) key
