-- ===== src/Jog/Tests.antt =====
-- The jog service at a concrete status.
use gp4_ws.Common.{ℕ, true, [], ◌∷◌, ◌≡◌}
use gp4_ws.Common.Int.{pos}
use gp4_ws.Jog.{ServoBridgeStatus, JogCommand, parse_state, started, send_jog_command}
use gp4_ws.Jog.Guard.{receive_all, published_exactly}

abbrev ready_status : ServoBridgeStatus ℕ 0
ready_status = record {
  state = "READY";
  points_queued = pos 0;
  effective_hz = 50;
  robot_ready = true;
  servo_active = true;
  bridge_active = true;
  last_error = "";
  rejection_reason = "";
}

abbrev nudge : JogCommand ℕ 0
nudge = record {
  joint_index = pos 5;
  direction = pos 1;
  mode = "step";
  velocity_scale = 1;
  step_degrees = 2;
}

published_exactly_example :
    (send_jog_command ℕ 0
      (λ c. true)
      nudge
      (receive_all ℕ 0 (ready_status ∷ []) (started ℕ 0 true true true))).1.published
    ≡ nudge ∷ []
unfolding parse_state
published_exactly_example =
    published_exactly ℕ 0 true true true (ready_status ∷ []) (λ c. true) nudge
