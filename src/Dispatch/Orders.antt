-- ===== src/Dispatch/Orders.antt =====
-- The steps that may give an order to ROS, each at most one.
use gp4_ws.Common.{
  ℕ, ◌+◌, String, Bool, true, false, not, ◌||◌, Option, none, some, List, [], ◌∷◌, ◌++◌, ◌≡◌, refl,
  sym, ap, ◌⊎◌, inl, inr, if◌then◌else◌,
}
use gp4_ws.Common.Outcome.{Outcome, ok, raised, pure, lift, ◌>>=◌, ◌>>◌, After, After-bind}
use gp4_ws.Python.{PyLib, PyError, Fields}
use gp4_ws.Dispatch.Joints.{TextLib}
use gp4_ws.Dispatch.Goal.{MotionGoal, ValidateRequest, validate_request, build_execute_motion_goal}
use gp4_ws.Dispatch.Adapter.{
  GoalHandle, ValidateResponse, TaskRequest, Order, motion, task, Adapter, RosClients, Validation,
  accepted_as, rejected, Act, ask, order, register, unregister, sanitized_by, validation,
  call_validate, validate_motion_request, await_result, after_send, send, dispatch_execute_motion,
}
use gp4_ws.Dispatch.Confirm.{confirm_execution}

module _ (py : PyLib) (tx : TextLib) (ros : RosClients py.Float) where
  open py use {Float}

  -- No order, or one with `P` at the end
  abbrev pub AtMostOne : (Order Float → Type 0) → List (Order Float) → Adapter Float → Type 0
  AtMostOne P before t = (t.sent ≡ before) ⊎ ((o : Order Float) × (t.sent ≡ before ++ o ∷ []) × P o)

  pub if_AtMostOne :
      {P : Order Float → Type 0} {before : List (Order Float)} {A : Type 0} (test : Bool)
      (m n : Act py tx ros A) (s : Adapter Float)
      → (test ≡ true → AtMostOne P before (m s).1)
      → (test ≡ false → AtMostOne P before (n s).1)
      → AtMostOne P before ((if test then m else n) s).1
  if_AtMostOne true m n s h k = h refl
  if_AtMostOne false m n s h k = k refl

  -- The answer of ValidateCommand, number `tick`, that lets `payload` be executed as `executed`
  pub record ValidatedAs (tick : ℕ) (payload executed : Fields Float) : Type 0 where
    pub request : ValidateRequest Float
    pub response : ValidateResponse
    pub requested : validate_request py tx payload ≡ ok request
    pub answered : ros.validate tick request ≡ ok response
    pub valid : response.valid ≡ true
    pub executed_is : executed ≡ sanitized_by py tx ros payload response

  abbrev pub Checked : ℕ → Fields Float → Validation Float → Type 0
  Checked tick payload (accepted_as executed) = ValidatedAs tick payload executed
  Checked tick payload (rejected why) = Unit

  validation-Checked :
      (payload : Fields Float) (n : ℕ) (request : ValidateRequest Float)
      (answer : Outcome String ValidateResponse)
      → validate_request py tx payload ≡ ok request
      → ros.validate n request ≡ answer
      → Checked n payload (validation py tx ros payload answer)
  validation-Checked payload n request (raised text) e h = tt
  validation-Checked payload n request (ok r) e h = by_valid r.valid refl
    where
      by_valid : (b : Bool) → r.valid ≡ b → Checked n payload (validation py tx ros payload (ok r))
      by_valid true v = rw v (record {
        request = request;
        response = r;
        requested = e;
        answered = h;
        valid = v;
        executed_is = refl;
      })
      by_valid false v = rw v tt

  pub if_After :
      {A : Type 0} (Q : A → Adapter Float → Type 0) (R : Adapter Float → Type 0) (test : Bool)
      (m n : Act py tx ros A) (s : Adapter Float)
      → After Q R (m s)
      → After Q R (n s)
      → After Q R ((if test then m else n) s)
  if_After Q R true m n s h k = h
  if_After Q R false m n s h k = k

  module _ (payload : Fields Float) (s : Adapter Float) where
    abbrev pub Quietly : Validation Float → Adapter Float → Type 0
    Quietly v t = (t.sent ≡ s.sent) × Checked (s.tick + 1) payload v

    call_validate-Checked :
        (from : Adapter Float)
        → from.sent ≡ s.sent
        → from.tick ≡ s.tick + 1
        → After Quietly (λ t. t.sent ≡ s.sent) (call_validate py tx ros payload from)
    unfolding lift ask pure ◌>>=◌
    call_validate-Checked from quiet now =
        After-bind (lift (validate_request py tx payload)) _
          (λ request t.
            (t.sent ≡ s.sent)
            × (t.tick ≡ s.tick + 1)
            × (validate_request py tx payload ≡ ok request))
          Quietly (λ t. t.sent ≡ s.sent) from (lifted (validate_request py tx payload)) rest
      where
        lifted :
            (outcome : Outcome PyError (ValidateRequest Float))
            → After
                (λ request t. (t.sent ≡ s.sent) × (t.tick ≡ s.tick + 1) × (outcome ≡ ok request))
                (λ t. t.sent ≡ s.sent)
                (lift outcome from)
        lifted (ok request) = (quiet, now, refl)
        lifted (raised e) = quiet

        rest :
            (request : ValidateRequest Float) (t : Adapter Float)
            → (t.sent ≡ s.sent)
              × (t.tick ≡ s.tick + 1)
              × (validate_request py tx payload ≡ ok request)
            → After Quietly
                (λ t. t.sent ≡ s.sent)
                ((ask py tx ros (λ n. ros.validate n request) >>= λ answer.
                    pure (validation py tx ros payload answer))
                  t)
        rest request t held = (
          held.0,
          validation-Checked payload (s.tick + 1) request (ros.validate t.tick request) held.2
              (ap (λ n. ros.validate n request) (sym held.1)),
        )

    pub validate_motion_request-Checked :
        After Quietly (λ t. t.sent ≡ s.sent) (validate_motion_request py tx ros payload s)
    unfolding validate_motion_request ask pure ◌>>=◌
    validate_motion_request-Checked =
        if_After Quietly (λ t. t.sent ≡ s.sent) (not ros.has_node || not ros.has_messages) _ _ s
          (refl, tt)
          (if_After Quietly (λ t. t.sent ≡ s.sent) (not ros.has_validate_client) _ _ s (refl, tt)
            (if_After Quietly (λ t. t.sent ≡ s.sent) (ros.wait_for_validate s.tick) _ _
              (record s { tick = s.tick + 1 })
              (call_validate-Checked (record s { tick = s.tick + 1 }) refl refl) (refl, tt)))

  -- the steps that order nothing more
  await_result-sent :
      (command_id : String) (h : GoalHandle) (s : Adapter Float)
      → (await_result py tx ros command_id h s).1.sent ≡ s.sent
  unfolding register ask unregister pure ◌>>=◌
  await_result-sent command_id h s = refl

  if_sent :
      {A : Type 0} {before : List (Order Float)} (test : Bool) (m n : Act py tx ros A)
      (s : Adapter Float)
      → (m s).1.sent ≡ before
      → (n s).1.sent ≡ before
      → ((if test then m else n) s).1.sent ≡ before
  if_sent true m n s h k = h
  if_sent false m n s h k = k

  after_send-sent :
      (command_id : String) (answer : Outcome String (Option GoalHandle)) (s : Adapter Float)
      → (after_send py tx ros command_id answer s).1.sent ≡ s.sent
  unfolding pure
  after_send-sent command_id (raised text) s = refl
  after_send-sent command_id (ok none) s = refl
  after_send-sent command_id (ok (some h)) s =
      if_sent h.accepted _ _ s (await_result-sent command_id h s) refl

  module _ (P : Order Float → Type 0) (command_id : String) (executed : Fields Float) where
    abbrev Orders : Type 0
    Orders =
        (goal : MotionGoal Float)
        → build_execute_motion_goal py tx executed ≡ ok goal
        → P (motion goal)

    send-AtMostOne :
        (s : Adapter Float) → Orders → AtMostOne P s.sent (send py tx ros command_id executed s).1
    unfolding lift order ask ◌>>=◌
    send-AtMostOne s orders = built (build_execute_motion_goal py tx executed) refl
      where
        built :
            (outcome : Outcome PyError (MotionGoal Float))
            → build_execute_motion_goal py tx executed ≡ outcome
            → AtMostOne P s.sent
                ((lift outcome >>= λ goal.
                    order py tx ros (motion goal)
                    >> (ask py tx ros (λ n. ros.send_goal n goal)
                        >>= after_send py tx ros command_id))
                  s).1
        built (raised e) same = inl refl
        built (ok goal) same = inr (motion goal, after_send-sent command_id _ _, orders goal same)

    pub dispatch_execute_motion-AtMostOne :
        (s : Adapter Float)
        → Orders
        → AtMostOne P s.sent (dispatch_execute_motion py tx ros command_id executed s).1
    unfolding dispatch_execute_motion ask pure ◌>>=◌
    dispatch_execute_motion-AtMostOne s orders =
        if_AtMostOne (not ros.has_node || not ros.has_messages) _ _ s (λ _. inl refl)
          (λ _.
            if_AtMostOne (not ros.has_execute_client) _ _ s (λ _. inl refl)
              (λ _.
                if_AtMostOne (ros.wait_for_server s.tick) _ _ (record s { tick = s.tick + 1 })
                  (λ _. send-AtMostOne (record s { tick = s.tick + 1 }) orders) (λ _. inl refl)))

  pub confirm_execution-AtMostOne :
      (P : Order Float → Type 0) (request : TaskRequest) (s : Adapter Float)
      → P (task request)
      → AtMostOne P s.sent (confirm_execution py tx ros request s).1
  unfolding confirm_execution order ask pure ◌>>=◌
  confirm_execution-AtMostOne P request s fit =
      if_AtMostOne (not ros.has_node || not ros.has_confirm_execution) _ _ s (λ _. inl refl)
        (λ _.
          if_AtMostOne (ros.wait_for_confirm s.tick) _ _ (record s { tick = s.tick + 1 })
            (λ _. inr (task request, refl, fit)) (λ _. inl refl))
