-- ===== src/Dispatch/Reports.antt =====
-- What the adapter reports of a confirmed command.
use gp4_ws.Common.{
  ◌+◌, String, Bool, true, false, not, ◌||◌, Option, none, some, List, [], ◌∷◌, ◌++◌, ◌≡◌, refl, ap,
  subst, if◌then◌else◌,
}
use gp4_ws.Common.Outcome.{
  Outcome, ok, raised, pure, lift, ◌>>=◌, ◌>>◌, After, After-bind, After-weaken,
}
use gp4_ws.Python.{PyLib, PyError, value_error, Fields, get_or_null, is_text}
use gp4_ws.Supervisor.Records.{RuntimeSnapshot}
use gp4_ws.Supervisor.Store.{Preflight}
use gp4_ws.Dispatch.Joints.{TextLib}
use gp4_ws.Dispatch.Preflight.{mode_value, evaluate_execution_preflight}
use gp4_ws.Dispatch.Goal.{MotionGoal, build_execute_motion_goal}
use gp4_ws.Dispatch.Adapter.{
  GoalHandle, MotionResult, Confirmation, TaskRequest, TaskAnswer, Order, motion, task, Adapter,
  Response, Summary, RosClients, Validation, accepted_as, rejected, Act, ask, order, register,
  unregister, validate_motion_request, result_response, after_send, send, dispatch_execute_motion,
}
use gp4_ws.Dispatch.Confirm.{
  mismatches, task_request, succeeded_or_failed, task_response, confirm_execution, hand_over,
  with_payload, with_intent, confirm_command,
}
use gp4_ws.Dispatch.Orders.{if_After, Quietly, validate_motion_request-Checked}

module _ (py : PyLib) (tx : TextLib) (ros : RosClients py.Float) where
  open py use {Float}

  -- `sent` has one order more than `before`.
  abbrev pub OneMore : List (Order Float) → List (Order Float) → Type 0
  OneMore before sent = (o : Order Float) × (sent ≡ before ++ o ∷ [])

  -- The responses, with the orders before the call and after it
  pub data Reported (before : List (Order Float)) (r : Response) (sent : List (Order Float))
      : Type 0 where
    is_blocked :
        r.status ≡ "blocked"
        → r.accepted ≡ false
        → r.dispatched_to_ros ≡ false
        → Reported before r sent
    is_failed : r.status ≡ "failed" → r.accepted ≡ false → Reported before r sent
    is_cancelled :
        r.status ≡ "cancelled"
        → r.accepted ≡ false
        → r.dispatched_to_ros ≡ true
        → OneMore before sent
        → Reported before r sent
    is_succeeded :
        r.status ≡ "succeeded"
        → r.accepted ≡ true
        → r.dispatched_to_ros ≡ true
        → OneMore before sent
        → Reported before r sent

  abbrev ReportedAt : List (Order Float) → Response → Adapter Float → Type 0
  ReportedAt before r t = Reported before r t.sent

  abbrev Anything : Adapter Float → Type 0
  Anything t = Unit

  module _ (before : List (Order Float)) where
    abbrev Reports : Outcome PyError Response × Adapter Float → Type 0
    Reports = After (ReportedAt before) Anything

    if_Reports :
        (test : Bool) (m n : Act py tx ros Response) (s : Adapter Float)
        → Reports (m s)
        → Reports (n s)
        → Reports ((if test then m else n) s)
    if_Reports = if_After py tx ros (ReportedAt before) Anything

    pick :
        (test : Bool) (r q : Response) (sent : List (Order Float))
        → Reported before r sent
        → Reported before q sent
        → Reported before (if test then r else q) sent
    pick true r q sent h k = h
    pick false r q sent h k = k

    result_response-Reported :
        (answer : Outcome String (Option MotionResult)) (sent : List (Order Float))
        → OneMore before sent
        → Reported before (result_response py tx ros answer) sent
    result_response-Reported (raised text) sent more = is_failed refl refl
    result_response-Reported (ok none) sent more = is_failed refl refl
    result_response-Reported (ok (some r)) sent more =
        pick r.success _ _ sent (is_succeeded refl refl refl more)
          (pick (tx.has_cancel _) _ _ sent (is_cancelled refl refl refl more) (is_failed refl refl))

    after_send-Reports :
        (command_id : String) (answer : Outcome String (Option GoalHandle)) (s : Adapter Float)
        → OneMore before s.sent
        → Reports (after_send py tx ros command_id answer s)
    unfolding register ask unregister pure ◌>>=◌
    after_send-Reports command_id (raised text) s more = is_failed refl refl
    after_send-Reports command_id (ok none) s more = is_blocked refl refl refl
    after_send-Reports command_id (ok (some h)) s more =
        if_Reports h.accepted _ _ s (result_response-Reported (ros.get_result s.tick h) s.sent more)
          (is_blocked refl refl refl)

    send-Reports :
        (command_id : String) (executed : Fields Float) (s : Adapter Float)
        → s.sent ≡ before
        → Reports (send py tx ros command_id executed s)
    unfolding lift order ask ◌>>=◌
    send-Reports command_id executed s quiet = built (build_execute_motion_goal py tx executed)
      where
        built :
            (outcome : Outcome PyError (MotionGoal Float))
            → Reports (
                (lift outcome >>= λ goal.
                order py tx ros (motion goal)
                >> (ask py tx ros (λ n. ros.send_goal n goal) >>= after_send py tx ros command_id))
                  s)
        built (raised e) = tt
        built (ok goal) =
            after_send-Reports command_id (ros.send_goal s.tick goal) _
              (motion goal, ap (λ l. l ++ motion goal ∷ []) quiet)

    dispatch_execute_motion-Reports :
        (command_id : String) (executed : Fields Float) (s : Adapter Float)
        → s.sent ≡ before
        → Reports (dispatch_execute_motion py tx ros command_id executed s)
    unfolding dispatch_execute_motion ask pure ◌>>=◌
    dispatch_execute_motion-Reports command_id executed s quiet =
        if_Reports (not ros.has_node || not ros.has_messages) _ _ s (is_blocked refl refl refl) (
          if_Reports (not ros.has_execute_client) _ _ s (is_blocked refl refl refl) (
            if_Reports (ros.wait_for_server s.tick) _ _ (record s { tick = s.tick + 1 })
              (send-Reports command_id executed (record s { tick = s.tick + 1 }) quiet)
              (is_blocked refl refl refl)))

    task_response-Reported :
        (answer : Outcome String (Option TaskAnswer)) (sent : List (Order Float))
        → OneMore before sent
        → Reported before (task_response answer) sent
    task_response-Reported (raised text) sent more = is_failed refl refl
    task_response-Reported (ok none) sent more = is_failed refl refl
    task_response-Reported (ok (some a)) sent more = by_accepted a.accepted _
      where
        by_accepted : (b : Bool) (why : Summary) → Reported before (succeeded_or_failed b why) sent
        by_accepted true why = is_succeeded refl refl refl more
        by_accepted false why = is_failed refl refl

    confirm_execution-Reports :
        (request : TaskRequest) (s : Adapter Float)
        → s.sent ≡ before
        → Reports (confirm_execution py tx ros request s)
    unfolding confirm_execution order ask pure ◌>>=◌
    confirm_execution-Reports request s quiet =
        if_Reports (not ros.has_node || not ros.has_confirm_execution) _ _ s (is_failed refl refl) (
          if_Reports (ros.wait_for_confirm s.tick) _ _ (record s { tick = s.tick + 1 })
            (task_response-Reported (ros.confirm_execution (s.tick + 1) request) _
              (task request, ap (λ l. l ++ task request ∷ []) quiet))
            (is_failed refl refl))

    hand_over-Reports :
        (c : Confirmation Float) (parsed_intent : Fields Float) (v : Validation Float)
        (s : Adapter Float)
        → s.sent ≡ before
        → Reports (hand_over py tx ros c parsed_intent v s)
    unfolding pure
    hand_over-Reports c parsed_intent (rejected why) s quiet = is_blocked refl refl refl
    hand_over-Reports c parsed_intent (accepted_as executed) s quiet =
        if_Reports (is_text "FACTORY_TASK_RUNTIME" (get_or_null "primitive_type" executed)) _ _ s
          (confirm_execution-Reports (task_request py tx ros c parsed_intent) s quiet)
          (dispatch_execute_motion-Reports c.command_id executed s quiet)

  with_payload-Reports :
      (c : Confirmation Float) (parsed_intent : Fields Float)
      (outcome : Outcome PyError (Fields Float)) (s : Adapter Float)
      → Reports s.sent (with_payload py tx ros c parsed_intent outcome s)
  unfolding lift pure
  with_payload-Reports c parsed_intent (ok payload) s =
      After-bind (validate_motion_request py tx ros payload) (hand_over py tx ros c parsed_intent)
        (Quietly py tx ros payload s) (ReportedAt s.sent) Anything s
        (After-weaken Anything (Quietly py tx ros payload s) (λ t. t.sent ≡ s.sent) _
          (validate_motion_request-Checked py tx ros payload s) (λ t quiet. tt))
        (λ v t held. hand_over-Reports s.sent c parsed_intent v t held.0)
  with_payload-Reports c parsed_intent (raised value_error) s = is_blocked refl refl refl
  with_payload-Reports c parsed_intent (raised e) s = tt

  confirm_command-Reports :
      (c : Confirmation Float) (s : Adapter Float) → Reports s.sent (confirm_command py tx ros c s)
  unfolding confirm_command ask pure ◌>>=◌
  confirm_command-Reports c s =
      if_Reports s.sent (mismatches c.requested_mode runtime.mode) _ _
        (record s { tick = s.tick + 1 }) (is_blocked refl refl refl)
        (if_Reports s.sent preflight.accepted _ _ (record s { tick = s.tick + 1 + 1 + 1 })
          (intended c.parsed_intent) (is_blocked refl refl refl))
    where
      runtime : RuntimeSnapshot
      runtime = ros.read_runtime_snapshot s.tick

      preflight : Preflight
      preflight =
          evaluate_execution_preflight ros.clean (ros.read_runtime_snapshot (s.tick + 1))
            (ros.read_source_statuses (s.tick + 1 + 1)) (some (mode_value runtime.mode))

      intended :
          (o : Option (Fields Float))
          → Reports s.sent (with_intent py tx ros c o (record s { tick = s.tick + 1 + 1 + 1 }))
      intended none = is_blocked refl refl refl
      intended (some parsed_intent) =
          with_payload-Reports c parsed_intent _ (record s { tick = s.tick + 1 + 1 + 1 + 1 })

  answered_with :
      (before : List (Order Float)) (answer : Outcome PyError Response × Adapter Float)
      {r : Response}
      → Reports before answer
      → answer.0 ≡ ok r
      → Reported before r answer.1.sent
  answered_with before (ok q, t) h e = subst (λ x. Reported before x t.sent) (same_ok e) h
    where
      same_ok : {a b : Response} → ◌≡◌ {A = Outcome PyError Response} (ok a) (ok b) → a ≡ b
      same_ok e = cc
  answered_with before (raised error, t) h e = cc

  -- Every response of confirm_command is one of four: blocked, not accepted and not dispatched; failed and
  -- not accepted; cancelled, not accepted but dispatched; or succeeded, accepted and dispatched; and in
  -- the last two the call gave one order to ROS.
  pub confirm_command-Reported :
      (c : Confirmation Float) (s : Adapter Float) {r : Response}
      → (confirm_command py tx ros c s).0 ≡ ok r
      → Reported s.sent r (confirm_command py tx ros c s).1.sent
  confirm_command-Reported c s e =
      answered_with s.sent (confirm_command py tx ros c s) (confirm_command-Reports c s) e
