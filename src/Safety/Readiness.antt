-- ===== src/Safety/Readiness.antt =====
-- When the robot counts as ready: src/safety/safety/safety_manager.py.
use gp4_ws.Common.{
  String, Bool, true, false, not, ◌&&◌, List, [], ◌∷◌, ◌==◌, ◌≡◌, refl, sym, arith, Bool-cases, inl,
  inr, if◌then◌else◌,
}
use gp4_ws.Safety.Manager.{
  RobotStatus, RobotReadiness, SafetyManager, is_true, init, block, allow, classify, adapter_reason,
  blocked_text, classify_adapter, Message, receive, receive_all, robot_status, adapter_ready,
}

-- The message that the mode listens to reports a robot that may move.
abbrev pub reports_ready : Bool → Message → Bool
reports_ready sim_mode (robot_status msg) =
    not sim_mode
    && (not (is_true msg.in_error)
        && (not (is_true msg.e_stopped)
            && (is_true msg.drives_powered && is_true msg.motion_possible)))
reports_ready sim_mode (adapter_ready msg) = sim_mode && msg.ready

abbrev pub listens : Bool → Message → Bool
listens sim_mode (robot_status msg) = not sim_mode
listens sim_mode (adapter_ready msg) = sim_mode

-- What the readiness should be: that of the last message that the mode listens to, and false before
-- the first.
abbrev pub expected_ready : Bool → Bool → List Message → Bool
expected_ready sim_mode ready [] = ready
expected_ready sim_mode ready (msg ∷ msgs) =
    expected_ready sim_mode (if listens sim_mode msg then reports_ready sim_mode msg else ready)
      msgs

receive_ready :
    (msg : Message) (m : SafetyManager)
    → ((receive msg m).sim_mode ≡ m.sim_mode)
      × ((receive msg m).robot_ready
          ≡ (if listens m.sim_mode msg then reports_ready m.sim_mode msg else m.robot_ready))
unfolding receive
receive_ready (robot_status msg) m = ground arith
receive_ready (adapter_ready msg) m = ground arith

receive_all_ready :
    (msgs : List Message) (m : SafetyManager)
    → (receive_all msgs m).robot_ready ≡ expected_ready m.sim_mode m.robot_ready msgs
unfolding receive_all
receive_all_ready [] m = refl
receive_all_ready (msg ∷ msgs) m =
    let (mode, ready) = receive_ready msg m in
    rw (receive_all_ready msgs (receive msg m), mode, ready)

-- From its start the manager is ready exactly if the last message that its mode listens to reports
-- a robot without error and emergency stop, with powered drives and possible motion (in simulation:
-- a ready adapter); with no such message it is blocked.
pub ready_from_last_message :
    (sim_mode : Bool) (msgs : List Message)
    → (receive_all msgs (init sim_mode)).robot_ready ≡ expected_ready sim_mode false msgs
unfolding init
ready_from_last_message sim_mode msgs = receive_all_ready msgs (init sim_mode)

abbrev Fits : SafetyManager → Type 0
Fits m = m.robot_ready ≡ (m.last_error_reason == "")

Fits-if :
    (b : Bool) (m n : SafetyManager)
    → (b ≡ true → Fits m)
    → (b ≡ false → Fits n)
    → Fits (if b then m else n)
Fits-if true m n k l = k refl
Fits-if false m n k l = l refl

classify-Fits : (msg : RobotStatus) (m : SafetyManager) → Fits (classify msg m)
classify-Fits msg m = elim (Bool-cases (is_true msg.in_error)) [
  | inl e ↦ rw e refl
  | inr e ↦ rw e (elim (Bool-cases (is_true msg.e_stopped)) [
    | inl f ↦ rw f refl
    | inr f ↦ rw f (powered (is_true msg.drives_powered) (is_true msg.motion_possible))
  ])
]
  where
    powered :
        (drives motion : Bool)
        → Fits (
            if not drives
            then block "drives not powered" "BLOCKED: drives not powered" m
            else if not motion
            then block "motion not possible" "BLOCKED: motion not possible" m
            else allow m)
    powered true true = refl
    powered true false = refl
    powered false motion = refl

adapter_reason-ne : (message : String) → (adapter_reason message == "") ≡ false
adapter_reason-ne message = elim (Bool-cases (message == "")) [
  | inl e ↦ rw e refl
  | inr e ↦ rw (e, e)
]

classify_adapter-Fits : (msg : RobotReadiness) (m : SafetyManager) → Fits (classify_adapter msg m)
classify_adapter-Fits msg m =
    Fits-if (not msg.ready) (block (adapter_reason msg.status_message) (blocked_text msg) m)
      (allow m) (λ _. sym (adapter_reason-ne msg.status_message)) (λ _. refl)

receive_reason : (msg : Message) (m : SafetyManager) → Fits m → Fits (receive msg m)
unfolding receive
receive_reason (robot_status msg) m h =
    Fits-if m.sim_mode m (classify msg (record m { status_received = true })) (λ _. h)
      (λ _. classify-Fits msg (record m { status_received = true }))
receive_reason (adapter_ready msg) m h =
    Fits-if (not m.sim_mode) m (classify_adapter msg (record m { adapter_ready_received = true }))
      (λ _. h) (λ _. classify_adapter-Fits msg (record m { adapter_ready_received = true }))

receive_all_reason :
    (msgs : List Message) (m : SafetyManager)
    → m.robot_ready ≡ (m.last_error_reason == "")
    → (receive_all msgs m).robot_ready ≡ ((receive_all msgs m).last_error_reason == "")
unfolding receive_all
receive_all_reason [] m h = h
receive_all_reason (msg ∷ msgs) m h =
    receive_all_reason msgs (receive msg m) (receive_reason msg m h)

start : (sim_mode : Bool) → Fits (init sim_mode)
unfolding init
start true = refl
start false = refl

-- Whatever messages arrive, a blocked manager has a reason that is not empty, and a ready one none.
pub reason_when_blocked :
    (sim_mode : Bool) (msgs : List Message)
    → (receive_all msgs (init sim_mode)).robot_ready
      ≡ ((receive_all msgs (init sim_mode)).last_error_reason == "")
reason_when_blocked sim_mode msgs = receive_all_reason msgs (init sim_mode) (start sim_mode)
