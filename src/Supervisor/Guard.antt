-- ===== src/Supervisor/Guard.antt =====
-- What must hold for a confirmation to reach the ROS adapter.
use gp4_ws.Common.{
  ℕ, ◌+◌, ◌<◌, String, Bool, true, Option, none, some, [], ◌≡◌, refl, sym, ap, subst, arith, lookup,
  ◌&&◌,
}
use gp4_ws.Common.Outcome.{ok, require, ◌>>=◌, ◌>>◌, Keeps-require}
use gp4_ws.Lifecycle.{CommandLifecycleState, needs_confirmation, state_eq}
use gp4_ws.Session.{LeaseRecord}
use gp4_ws.Supervisor.Records.{
  CommandKind, command, sequence, CommandRecord, sequence_controlled, not_waiting, conflict,
  Supervisor,
}
use gp4_ws.Supervisor.Store.{RosAdapter, ask, require_owned_command, assert_controller}
use gp4_ws.Supervisor.Gate.{blocking_reasons}
use gp4_ws.Supervisor.Control.{is_command, is_unset, expire_pending_confirmations, confirm_command}
use gp4_ws.Supervisor.Keeping.{ask-Keeps, assert_controller-Keeps, require_owned_command-Keeps}
use gp4_ws.Supervisor.Keeping.Whole.{expire_pending_confirmations-Keeps}
use gp4_ws.Supervisor.Sending.{
  Sent-Steady, Sends, Sends-bind, Sends-require, state-require, ask-value,
}
use gp4_ws.Supervisor.Confirming.{owned_by_inv, Unblocked, window_open, timed, timed_in_time}

-- What `confirm_command` has found when it hands command `command_id` to the adapter: `s` is the
-- state after the expired confirmations have been swept. From there the lease service reads the
-- clock first, then the test of the window does, and then the gate makes its three readings.
pub record Permitted (ros : RosAdapter) (session_id operator_id : String)
    (lease_token : Option String) (command_id plan_fingerprint : String) (s : Supervisor)
    : Type 0 where
  pub lease : LeaseRecord
  pub c : CommandRecord
  pub expires_at : ℕ
  pub holds_lease : (assert_controller ros session_id operator_id lease_token s).0 ≡ ok lease
  pub stored : lookup command_id s.commands ≡ some c
  pub own_session : c.session_id ≡ session_id
  pub own_operator : c.operator_id ≡ operator_id
  pub single : c.command_kind ≡ command
  pub top_level : c.parent_sequence_id ≡ none
  pub waiting : c.lifecycle_state ≡ needs_confirmation
  pub same_plan : c.plan_fingerprint ≡ some plan_fingerprint
  pub window : c.confirmation_expires_at ≡ some expires_at
  pub in_time : ros.utcnow (s.tick + 1) < expires_at
  pub unblocked :
      blocking_reasons
        (ros.read_runtime_snapshot (s.tick + 1 + 1))
        (ros.read_source_statuses (s.tick + 1 + 1 + 1))
        (ros.evaluate_execution_preflight (s.tick + 1 + 1 + 1 + 1) c.mode)
        c.parsed_intent
        c.mode
        true
      ≡ []

kind_inv : (k : CommandKind) → is_command k ≡ true → k ≡ command
kind_inv command h = refl
kind_inv sequence h = cc

unset_inv : (o : Option String) → is_unset o ≡ true → o ≡ none
unset_inv none h = refl
unset_inv (some p) h = cc

and_inv : (a b : Bool) → (a && b) ≡ true → (a ≡ true) × (b ≡ true)
and_inv a b h = ground arith

waiting_inv :
    (st : CommandLifecycleState) → state_eq st needs_confirmation ≡ true → st ≡ needs_confirmation
waiting_inv st h = ground arith

ask-tick :
    (ros : RosAdapter) (s : Supervisor) {n : ℕ} → s.tick ≡ n → (ask ros.utcnow s).1.tick ≡ n + 1
unfolding ask
ask-tick ros s e = ap (λ n. n + 1) e

module _ (ros : RosAdapter) (session_id operator_id : String) (lease_token : Option String)
    (command_id plan_fingerprint : String) where
  checked_Permitted :
      (s : Supervisor) (lease : LeaseRecord) (c : CommandRecord) (s' : Supervisor)
      → (assert_controller ros session_id operator_id lease_token s).0 ≡ ok lease
      → s'.commands ≡ s.commands
      → s'.tick ≡ s.tick + 1
      → (lookup command_id s.commands ≡ some c)
        × (c.session_id ≡ session_id)
        × (c.operator_id ≡ operator_id)
      → Sends
          (do
            require
                (is_command c.command_kind && is_unset c.parent_sequence_id)
                (conflict sequence_controlled)
            require (state_eq c.lifecycle_state needs_confirmation) (conflict not_waiting)
            now ← ask ros.utcnow
            timed ros session_id operator_id lease_token command_id plan_fingerprint c lease now)
          s'
      → Permitted ros session_id operator_id lease_token command_id plan_fingerprint s
  checked_Permitted s lease c s' held same ticked found h =
      let (u1, e1, h1) = Sends-bind _ _ s' (λ d. Keeps-require _ _) h in
      let (u2, e2, h2) = Sends-bind _ _ s' (λ d. Keeps-require _ _) (rw state-require at h1) in
      let (now, e3, h3) =
        Sends-bind _ _ s' (λ d. ask-Keeps (Sent-Steady d) ros.utcnow) (rw state-require at h2) in
      let (open_window, plan, free) =
        timed_in_time ros session_id operator_id lease_token command_id plan_fingerprint c lease now
          (ask ros.utcnow s').1 (unfold ask in rw same found.0) h3 in
      let (t, w, in_time) = window_open now c.confirmation_expires_at open_window in
      let both = and_inv _ _ (Sends-require _ _ s' e1) in
      record {
        lease = lease;
        c = c;
        expires_at = t;
        holds_lease = held;
        stored = found.0;
        own_session = found.1;
        own_operator = found.2;
        single = kind_inv c.command_kind both.0;
        top_level = unset_inv c.parent_sequence_id both.1;
        waiting = waiting_inv c.lifecycle_state (Sends-require _ _ s' e2);
        same_plan = plan;
        window = w;
        in_time = rw (sym ticked) (rw (ask-value ros.utcnow s' e3) in_time);
        unblocked = subst (Unblocked ros c) (ask-tick ros s' ticked) free;
      }

  found_owned :
      (s : Supervisor) (c : CommandRecord)
      → (require_owned_command command_id session_id operator_id
          (assert_controller ros session_id operator_id lease_token s).1).0
        ≡ ok c
      → (lookup command_id s.commands ≡ some c)
        × (c.session_id ≡ session_id)
        × (c.operator_id ≡ operator_id)
  unfolding require_owned_command assert_controller ◌>>=◌
  found_owned s c e = owned_by_inv session_id operator_id (lookup command_id s.commands) e

  same_commands :
      (s : Supervisor)
      → (require_owned_command command_id session_id operator_id
          (assert_controller ros session_id operator_id lease_token s).1).1.commands
        ≡ s.commands
  unfolding require_owned_command assert_controller ◌>>=◌
  same_commands s = refl

  next_tick :
      (s : Supervisor)
      → (require_owned_command command_id session_id operator_id
          (assert_controller ros session_id operator_id lease_token s).1).1.tick
        ≡ s.tick + 1
  unfolding require_owned_command assert_controller ask ◌>>=◌
  next_tick s = refl

  -- A call of `confirm_command` hands something to the adapter only if, after the sweep of expired
  -- confirmations, the caller's session holds the lease, owns the command, which is a single one
  -- that waits for confirmation with this plan's fingerprint, its window is open at the clock reading
  -- after the lease service's, and the readings of the runtime, the telemetry and the preflight that
  -- follow block nothing.
  pub confirm_command-Permitted :
      (s : Supervisor)
      → Sends (confirm_command ros session_id operator_id lease_token command_id plan_fingerprint) s
      → Permitted ros session_id operator_id lease_token command_id plan_fingerprint
          (expire_pending_confirmations ros s).1
  unfolding confirm_command
  confirm_command-Permitted s h =
      let s1 : Supervisor = (expire_pending_confirmations ros s).1 in
      let (_, _, h1) =
        Sends-bind _ _ s (λ d. expire_pending_confirmations-Keeps (Sent-Steady d) ros) h in
      let (lease, e2, h2) =
        Sends-bind _ _ s1
          (λ d. assert_controller-Keeps (Sent-Steady d) ros session_id operator_id lease_token)
          h1 in
      let (c, e3, h3) =
        Sends-bind _ _ _ (λ d. require_owned_command-Keeps command_id session_id operator_id) h2 in
      checked_Permitted s1 lease c _ e2 (same_commands s1) (next_tick s1) (found_owned s1 c e3) h3
