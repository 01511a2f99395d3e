-- ===== src/Gripper/Guarded.antt =====
-- What stands before a call of the gripper's IO services.
use gp4_ws.Common.{
  ℕ, ◌+◌, Bool, true, false, not, Option, none, some, [], ◌∷◌, ◌++◌, ◌==◌, ◌≡◌, refl, ◌⊎◌, inl, inr,
  eq_iff, true_of, if◌then◌else◌, if_cases,
}
use gp4_ws.Common.Int.{ℤ, int_eq}
use gp4_ws.Common.Outcome.{Outcome, ok, raised}
use gp4_ws.Common.Fallible.{>>=-eq-ok}
use gp4_ws.Python.{PyLib, PyError, Json, to_int}
use gp4_ws.Gripper.{
  write_single_io, read_single_io, write, read, compare_value, io_failed, GripperConfig,
  GripperResult, is_ok, IoCall, IoResponse, IoNode, Io, Service, Operation, opening, closing,
  verifying_grasp, from_rules, verified, write_request, judge, judge_write, judge_read, perform,
  perform_if, guarded, operate,
}
use gp4_ws.Gripper.Configured.{Configured, from_rules-Configured}

module _ (py : PyLib) where
  open py use {Float}

  -- The service that an operation needs
  abbrev pub service_of : Operation → Service
  service_of opening = write_single_io
  service_of closing = write_single_io
  service_of verifying_grasp = read_single_io

  abbrev WritesOf : Json Float → Json Float → IoCall → Type 0
  WritesOf address value call =
      (a v : ℤ) × (to_int py address ≡ ok a) × (to_int py value ≡ ok v) × (call ≡ write a v)

  -- The call that an operation makes, from the addresses and values of the configuration
  abbrev pub Requests : GripperConfig Float → Operation → IoCall → Type 0
  Requests c opening call = WritesOf c.open_output_address c.open_output_value call
  Requests c closing call = WritesOf c.close_output_address c.close_output_value call
  Requests c verifying_grasp call =
      (a : ℤ) × (to_int py c.closed_input_address ≡ ok a) × (call ≡ read a)

  -- A response of success, for a grasp one with the value of a closed gripper
  abbrev pub Confirms : GripperConfig Float → Operation → IoResponse → Type 0
  Confirms c verifying_grasp r =
      (r.success ≡ true)
      × (expected : ℤ) × (to_int py c.closed_input_active_value ≡ ok expected)
      × (int_eq r.value expected ≡ true)
  Confirms c _ r = r.success ≡ true

  writes_of :
      (node : IoNode) (address value : Json Float) {call : IoCall}
      → write_request py node address value ≡ ok call
      → WritesOf address value call
  writes_of node address value {call} h =
      let (a, ea, h1) = >>=-eq-ok (to_int py address) _ h in
      let (v, ev, h2) = >>=-eq-ok (to_int py value) _ h1 in (a, v, ea, ev, cc)

  module _ (node : IoNode) where
    -- A call that is under way, from a state with `tick` answers
    pub record Cleared (rules : Json Float) (c : GripperConfig Float) (op : Operation) (tick : ℕ)
        (outcome : GripperResult) (call : IoCall) : Type 0 where
      pub configured : Configured py rules
      pub idle : node.robot_mode tick ≡ "IDLE"
      pub ready : node.is_ready (tick + 1) (service_of op) ≡ true
      pub requested : Requests c op call
      -- an operation that reports no error had a response, of success
      pub answered :
          is_ok outcome ≡ true
          → (r : IoResponse) × (node.answer (tick + 1 + 1) call ≡ ok (some r)) × Confirms c op r

    -- Either no call, and an error; or one call, cleared
    abbrev pub AtMostOneCall :
        Json Float → GripperConfig Float → Operation → Io → GripperResult × Io → Type 0
    AtMostOneCall rules c op s (outcome, t) =
        ((t.calls ≡ s.calls) × (is_ok outcome ≡ false))
        ⊎ ((call : IoCall) × (t.calls ≡ s.calls ++ call ∷ [])
            × Cleared rules c op s.tick outcome call)

    -- A judgement that is good only of a response with `Q`
    Fair : (IoResponse → Type 0) → (IoResponse → GripperResult) → Type 0
    Fair Q accept = (r : IoResponse) → is_ok (accept r) ≡ true → Q r

    judged :
        (Q : IoResponse → Type 0) (accept : IoResponse → GripperResult) (call : IoCall)
        (answer : Outcome (Unit {0}) (Option IoResponse))
        → Fair Q accept
        → is_ok (judge py node accept answer) ≡ true
        → (r : IoResponse) × (answer ≡ ok (some r)) × Q r
    unfolding Fair
    judged Q accept call (raised e) fair h = cc
    judged Q accept call (ok none) fair h = cc
    judged Q accept call (ok (some r)) fair h = (r, refl, fair r h)

    waited :
        (test : Bool) (good : GripperResult)
        → is_ok (if test then good else GripperResult.runtime_unavailable) ≡ true
        → is_ok good ≡ true
    waited true good h = h
    waited false good h = cc

    if_success :
        (test : Bool) (good bad : GripperResult)
        → is_ok bad ≡ false
        → is_ok (if test then good else bad) ≡ true
        → test ≡ true
    if_success true good bad b h = refl
    if_success false good bad b h = cc

    guarded-AtMostOneCall :
        (rules : Json Float) (c : GripperConfig Float) (op : Operation)
        (request : Outcome PyError IoCall) (accept : IoResponse → GripperResult) (s : Io)
        → from_rules py rules ≡ ok c
        → ((call : IoCall) → request ≡ ok call → Requests c op call)
        → Fair (Confirms c op) accept
        → AtMostOneCall rules c op s (guarded py node c (service_of op) request accept s)
    guarded-AtMostOneCall rules c op request accept s e asked fair =
        if_cases (AtMostOneCall rules c op s) (not (verified py c)) _ _ (λ _. inl (refl, refl))
          (λ v.
            if_cases (AtMostOneCall rules c op s) (not (node.robot_mode s.tick == "IDLE")) _ _
              (λ _. inl (refl, refl))
              (λ m.
                if_cases (AtMostOneCall rules c op s)
                  (not (node.is_ready (s.tick + 1) (service_of op))) _ _ (λ _. inl (refl, refl))
                  (λ r.
                    performed (from_rules-Configured py rules e (true_of _ v))
                      ((eq_iff (node.robot_mode s.tick) "IDLE").0 (true_of _ m)) (true_of _ r)
                      request refl)))
      where
        performed :
            Configured py rules
            → node.robot_mode s.tick ≡ "IDLE"
            → node.is_ready (s.tick + 1) (service_of op) ≡ true
            → (outcome : Outcome PyError IoCall) → request ≡ outcome
            → AtMostOneCall rules c op s (perform_if py node outcome accept s)
        performed configured idle ready (raised error) same = inl (refl, refl)
        performed configured idle ready (ok call) same =
            if_cases (AtMostOneCall rules c op s) node.has_messages (perform py node call accept s)
              (GripperResult.io_exception, s)
              (λ _. inr (
                call,
                refl,
                record {
                  configured = configured;
                  idle = idle;
                  ready = ready;
                  requested = asked call same;
                  answered = answered;
                },
              ))
              (λ _. inl (refl, refl))
          where
            answered :
                is_ok (
                    if node.can_wait
                    then judge py node accept (node.answer (s.tick + 1 + 1) call)
                    else GripperResult.runtime_unavailable)
                  ≡ true
                → (r : IoResponse) × (node.answer (s.tick + 1 + 1) call ≡ ok (some r))
                  × Confirms c op r
            answered h = judged (Confirms c op) accept call _ fair (waited node.can_wait _ h)

    -- what a read accepts: success, and the value of a closed gripper
    compared :
        (value : ℤ) (outcome : Outcome PyError ℤ)
        → is_ok (compare_value py node value outcome) ≡ true
        → (expected : ℤ) × (outcome ≡ ok expected) × (int_eq value expected ≡ true)
    compared value (raised e) h = cc
    compared value (ok expected) h = (expected, refl, if_success (int_eq value expected) _ _ refl h)

    judge_read-Fair :
        (c : GripperConfig Float)
        → Fair (Confirms c verifying_grasp) (judge_read py node c.closed_input_active_value)
    unfolding Fair
    judge_read-Fair c r h = by_success r.success refl h
      where
        by_success :
            (b : Bool)
            → r.success ≡ b
            → is_ok (
                if b
                then compare_value py node r.value (to_int py c.closed_input_active_value)
                else io_failed r.message)
              ≡ true
            → Confirms c verifying_grasp r
        by_success true e k =
            let (expected, read_as, same) =
              compared r.value (to_int py c.closed_input_active_value) k in
            (e, expected, read_as, same)
        by_success false e k = cc

  -- Opening, closing and verifying the grasp, with a configuration made from the rules: an operation makes
  -- no call and reports an error, or it makes one call, and then the rules set all six addresses and values
  -- of the gripper's section to something other than the placeholder, the robot was IDLE, and the service
  -- that the operation needs was ready. An open or a close writes the address and the value of its
  -- configuration, a verification reads the configured input. The operation reports no error only
  -- if the service answered in time with success, a verification only with the value of a closed gripper.
  pub operate-AtMostOneCall :
      (node : IoNode) (rules : Json Float) {c : GripperConfig Float} (op : Operation) (s : Io)
      → from_rules py rules ≡ ok c
      → AtMostOneCall node rules c op s (operate py node op c s)
  unfolding operate Fair
  operate-AtMostOneCall node rules {c} opening s e =
      guarded-AtMostOneCall node rules c opening _ (judge_write py node) s e
        (λ call h. writes_of node c.open_output_address c.open_output_value h)
        (λ r. if_success node r.success _ _ refl)
  operate-AtMostOneCall node rules {c} closing s e =
      guarded-AtMostOneCall node rules c closing _ (judge_write py node) s e
        (λ call h. writes_of node c.close_output_address c.close_output_value h)
        (λ r. if_success node r.success _ _ refl)
  operate-AtMostOneCall node rules {c} verifying_grasp s e =
      guarded-AtMostOneCall node rules c verifying_grasp _
        (judge_read py node c.closed_input_active_value) s e
        (λ call h.
          let (a, ea, h1) = >>=-eq-ok (to_int py c.closed_input_address) _ h in (a, ea, cc))
        (judge_read-Fair node c)
