-- ===== src/Dispatch/Cleared.antt =====
-- What stands before an order to ROS.
use gp4_ws.Common.{
  ℕ, ◌+◌, true, false, Option, none, some, List, [], ◌∷◌, ◌++◌, ◌≡◌, refl, subst, ◌⊎◌, inl, inr,
}
use gp4_ws.Common.Outcome.{
  Outcome, ok, raised, pure, lift, ◌>>=◌, After-bind, After-state, After-weaken, After-of,
}
use gp4_ws.Python.{PyLib, PyError, value_error, Fields, get_or_null, is_text}
use gp4_ws.Supervisor.Records.{RuntimeSnapshot}
use gp4_ws.Supervisor.Store.{Preflight}
use gp4_ws.Dispatch.Joints.{TextLib}
use gp4_ws.Dispatch.Preflight.{mode_value, evaluate_execution_preflight}
use gp4_ws.Dispatch.Payload.{build_command_payload}
use gp4_ws.Dispatch.Goal.{MotionGoal, build_execute_motion_goal}
use gp4_ws.Dispatch.Adapter.{
  Confirmation, Order, motion, task, Adapter, RosClients, Validation, accepted_as, rejected, ask,
  validate_motion_request,
}
use gp4_ws.Dispatch.Confirm.{
  mismatches, task_request, hand_over, with_payload, with_intent, confirm_command,
}
use gp4_ws.Dispatch.Orders.{
  AtMostOne, if_AtMostOne, ValidatedAs, Checked, Quietly, validate_motion_request-Checked,
  dispatch_execute_motion-AtMostOne, confirm_execution-AtMostOne,
}

module _ (py : PyLib) (tx : TextLib) (ros : RosClients py.Float) where
  open py use {Float}

  -- What is known of an order that `confirm_command` gives from a state with `tick` answers
  pub record Cleared (c : Confirmation Float) (tick : ℕ) (o : Order Float) : Type 0 where
    pub in_mode : mismatches c.requested_mode (ros.read_runtime_snapshot tick).mode ≡ false
    pub preflight :
        (evaluate_execution_preflight ros.clean
          (ros.read_runtime_snapshot (tick + 1))
          (ros.read_source_statuses (tick + 1 + 1))
          (some (mode_value (ros.read_runtime_snapshot tick).mode))).accepted
        ≡ true
    pub parsed_intent : Fields Float
    pub given : c.parsed_intent ≡ some parsed_intent
    pub payload : Fields Float
    pub built :
        build_command_payload py tx
          (ros.read_joint_positions (tick + 1 + 1 + 1))
          ros.to_dict
          parsed_intent
        ≡ ok payload
    pub executed : Fields Float
    pub validated : ValidatedAs py tx ros (tick + 1 + 1 + 1 + 1 + 1) payload executed
    pub carried :
        ((is_text "FACTORY_TASK_RUNTIME" (get_or_null "primitive_type" executed) ≡ true)
          × (o ≡ task (task_request py tx ros c parsed_intent)))
        ⊎ ((goal : MotionGoal Float) × (build_execute_motion_goal py tx executed ≡ ok goal)
            × (o ≡ motion goal))

  -- From here on the steps of `confirm_command`, from the last to the first, for orders with `P`
  module _ (c : Confirmation Float) (P : Order Float → Type 0) where
    abbrev Carries : Fields Float → Fields Float → Fields Float → Order Float → Type 0
    Carries parsed_intent payload executed o =
        ((is_text "FACTORY_TASK_RUNTIME" (get_or_null "primitive_type" executed) ≡ true)
          × (o ≡ task (task_request py tx ros c parsed_intent)))
        ⊎ ((goal : MotionGoal Float) × (build_execute_motion_goal py tx executed ≡ ok goal)
            × (o ≡ motion goal))

    hand_over-AtMostOne :
        (tick : ℕ) (parsed_intent payload : Fields Float) (before : List (Order Float))
        (v : Validation Float) (s : Adapter Float)
        → ((executed : Fields Float) (o : Order Float)
            → ValidatedAs py tx ros tick payload executed
            → Carries parsed_intent payload executed o
            → P o)
        → Checked py tx ros tick payload v
        → s.sent ≡ before
        → AtMostOne py tx ros P before (hand_over py tx ros c parsed_intent v s).1
    unfolding pure
    hand_over-AtMostOne tick parsed_intent payload before (rejected why) s fit checked quiet =
        inl quiet
    hand_over-AtMostOne tick parsed_intent payload before (accepted_as executed) s fit checked
          quiet =
        if_AtMostOne py tx ros
          (is_text "FACTORY_TASK_RUNTIME" (get_or_null "primitive_type" executed)) _ _ s
          (λ e. subst_before _ (
            confirm_execution-AtMostOne py tx ros P (task_request py tx ros c parsed_intent) s
              (fit executed _ checked (inl (e, refl)))))
          (λ _. subst_before _ (
            dispatch_execute_motion-AtMostOne py tx ros P c.command_id executed s
              (λ goal e. fit executed _ checked (inr (goal, e, refl)))))
      where
        subst_before :
            (sent : List (Order Float))
            → (sent ≡ s.sent) ⊎ ((o : Order Float) × (sent ≡ s.sent ++ o ∷ []) × P o)
            → (sent ≡ before) ⊎ ((o : Order Float) × (sent ≡ before ++ o ∷ []) × P o)
        subst_before sent h =
            subst (λ l. (sent ≡ l) ⊎ ((o : Order Float) × (sent ≡ l ++ o ∷ []) × P o)) quiet h

    with_payload-AtMostOne :
        (parsed_intent : Fields Float) (outcome : Outcome PyError (Fields Float))
        (s : Adapter Float)
        → ((payload executed : Fields Float) (o : Order Float)
            → outcome ≡ ok payload
            → ValidatedAs py tx ros (s.tick + 1) payload executed
            → Carries parsed_intent payload executed o
            → P o)
        → AtMostOne py tx ros P s.sent (with_payload py tx ros c parsed_intent outcome s).1
    unfolding lift pure
    with_payload-AtMostOne parsed_intent (ok payload) s fit =
        After-state (AtMostOne py tx ros P s.sent) _ (
          After-bind (validate_motion_request py tx ros payload)
            (hand_over py tx ros c parsed_intent) (Quietly py tx ros payload s)
            (λ _. AtMostOne py tx ros P s.sent) (AtMostOne py tx ros P s.sent) s
            (After-weaken (AtMostOne py tx ros P s.sent) (Quietly py tx ros payload s)
              (λ t. t.sent ≡ s.sent) _ (validate_motion_request-Checked py tx ros payload s)
              (λ t quiet. inl quiet))
            (λ v t held. After-of (AtMostOne py tx ros P s.sent) _ (
              hand_over-AtMostOne (s.tick + 1) parsed_intent payload s.sent v t
                (λ executed o. fit payload executed o refl) held.1 held.0)))
    with_payload-AtMostOne parsed_intent (raised value_error) s fit = inl refl
    with_payload-AtMostOne parsed_intent (raised e) s fit = inl refl

  -- A call of confirm_command, whether it returns or raises, orders nothing, or exactly one motion or
  -- task; and before that order the requested mode was that of the runtime, the preflight for this mode
  -- accepted, the intent was there and its command could be built, and ValidateCommand found it valid;
  -- the motion is built from the command as ValidateCommand returned it.
  pub confirm_command-Cleared :
      (c : Confirmation Float) (s : Adapter Float)
      → AtMostOne py tx ros (Cleared c s.tick) s.sent (confirm_command py tx ros c s).1
  unfolding confirm_command ask pure ◌>>=◌
  confirm_command-Cleared c s =
      if_AtMostOne py tx ros (mismatches c.requested_mode runtime.mode) _ _
        (record s { tick = s.tick + 1 }) (λ _. inl refl)
        (λ in_mode.
          if_AtMostOne py tx ros preflight.accepted _ _ (record s { tick = s.tick + 1 + 1 + 1 })
            (λ accepted. intended c.parsed_intent refl in_mode accepted) (λ _. inl refl))
    where
      runtime : RuntimeSnapshot
      runtime = ros.read_runtime_snapshot s.tick

      preflight : Preflight
      preflight =
          evaluate_execution_preflight ros.clean (ros.read_runtime_snapshot (s.tick + 1))
            (ros.read_source_statuses (s.tick + 1 + 1)) (some (mode_value runtime.mode))

      intended :
          (o : Option (Fields Float))
          → c.parsed_intent ≡ o
          → mismatches c.requested_mode runtime.mode ≡ false
          → preflight.accepted ≡ true
          → AtMostOne py tx ros
              (Cleared c s.tick)
              s.sent
              (with_intent py tx ros c o (record s { tick = s.tick + 1 + 1 + 1 })).1
      intended none given in_mode accepted = inl refl
      intended (some parsed_intent) given in_mode accepted =
          with_payload-AtMostOne c (Cleared c s.tick) parsed_intent _
            (record s { tick = s.tick + 1 + 1 + 1 + 1 })
            (λ payload executed o built validated carried. record {
              in_mode = in_mode;
              preflight = accepted;
              parsed_intent = parsed_intent;
              given = given;
              payload = payload;
              built = built;
              executed = executed;
              validated = validated;
              carried = carried;
            })
