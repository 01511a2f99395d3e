-- ===== src/Supervisor/Confirming.antt =====
-- The end of a confirmation, from the reading of the clock on:
-- hmi/backend/services/supervisor_lifecycle.py.
use gp4_ws.Common.{
  ℕ, ◌+◌, ◌<◌, String, true, false, Option, none, some, List, [], ◌∷◌, ◌≡◌, refl, eq_iff, arith,
  lookup, if◌then◌else◌, Bool-cases, inl, inr,
}
use gp4_ws.Common.Outcome.{
  ok, require, ◌>>=◌, ◌>>◌, Keeps, Keeps-pure, Keeps-bind, Keeps-require, Keeps-raise, pure, raise,
}
use gp4_ws.Session.{LeaseRecord}
use gp4_ws.Supervisor.Records.{
  CommandRecord, Dispatch, window_expired, fingerprint_mismatch, conflict, Supervisor,
}
use gp4_ws.Supervisor.Store.{Action, RosAdapter, ask, fetch, owned_by}
use gp4_ws.Supervisor.Gate.{BlockingReason, blocking_reasons, is_nil}
use gp4_ws.Supervisor.Execution.{
  Response, refused_by_gate, confirm_gate, confirm_command_internal, execute_confirmed_command,
}
use gp4_ws.Supervisor.Control.{window_closed, fingerprint_eq, expire_command}
use gp4_ws.Supervisor.Keeping.Whole.{expire_command-Keeps, confirm_gate-Keeps}
use gp4_ws.Supervisor.Sending.{
  Sent, Sent-Steady, Sends, Sends-bind, not-Sends, Sends-require, state-require,
}

pub owned_by_inv :
    (session_id operator_id : String) (o : Option CommandRecord) {c : CommandRecord}
    → owned_by session_id operator_id o ≡ ok c
    → (o ≡ some c) × (c.session_id ≡ session_id) × (c.operator_id ≡ operator_id)
owned_by_inv session_id operator_id none h = cc
owned_by_inv session_id operator_id (some held) h =
    ground (arith, eq_iff held.session_id session_id, eq_iff held.operator_id operator_id)

-- the part of `Permitted` that the gate has seen
abbrev pub Unblocked : RosAdapter → CommandRecord → ℕ → Type 0
Unblocked ros c n =
    blocking_reasons (ros.read_runtime_snapshot n) (ros.read_source_statuses (n + 1))
      (ros.evaluate_execution_preflight (n + 1 + 1) c.mode) c.parsed_intent c.mode true
    ≡ []

confirm_gate-value :
    (ros : RosAdapter) (command_id : String) (s : Supervisor) (c : CommandRecord)
    {reasons : List BlockingReason}
    → lookup command_id s.commands ≡ some c
    → (confirm_gate ros command_id s).0 ≡ ok reasons
    → blocking_reasons
        (ros.read_runtime_snapshot s.tick)
        (ros.read_source_statuses (s.tick + 1))
        (ros.evaluate_execution_preflight (s.tick + 1 + 1) c.mode)
        c.parsed_intent
        c.mode
        true
      ≡ reasons
unfolding confirm_gate fetch ask ◌>>=◌
confirm_gate-value ros command_id s c e h = ground arith

module _ (ros : RosAdapter) (command_id : String) (c : CommandRecord) where
  internal-Unblocked :
      (lease : LeaseRecord) (session_id operator_id plan_fingerprint : String) (s : Supervisor)
      → lookup command_id s.commands ≡ some c
      → Sends
          (confirm_command_internal ros command_id lease session_id operator_id plan_fingerprint)
          s
      → Unblocked ros c s.tick
  unfolding confirm_command_internal
  internal-Unblocked lease session_id operator_id plan_fingerprint s e h =
      let (reasons, r, h1) =
        Sends-bind _ _ s (λ d. confirm_gate-Keeps (Sent-Steady d) ros command_id) h in
      none_left reasons (confirm_gate-value ros command_id s c e r) h1
    where
      none_left :
          (reasons : List BlockingReason)
          → blocking_reasons
              (ros.read_runtime_snapshot s.tick)
              (ros.read_source_statuses (s.tick + 1))
              (ros.evaluate_execution_preflight (s.tick + 1 + 1) c.mode)
              c.parsed_intent
              c.mode
              true
            ≡ reasons
          → Sends
              (if is_nil reasons
                then execute_confirmed_command ros command_id lease session_id operator_id
                    plan_fingerprint
                else pure (refused_by_gate reasons))
              (confirm_gate ros command_id s).1
          → Unblocked ros c s.tick
      none_left [] b k = b
      none_left (x ∷ xs) b k = absurd (
          not-Sends (pure (refused_by_gate (x ∷ xs))) (confirm_gate ros command_id s).1
            (λ d. Keeps-pure _) k)

pub window_open :
    (now : ℕ) (o : Option ℕ) → window_closed now o ≡ false → (t : ℕ) × (o ≡ some t) × (now < t)
window_open now none h = cc
window_open now (some t) h = (t, refl, ground arith)

fingerprint_inv :
    (given : String) (o : Option String) → fingerprint_eq given o ≡ true → o ≡ some given
fingerprint_inv given none h = cc
fingerprint_inv given (some f) h = ground (arith, eq_iff given f)

module _ (ros : RosAdapter) (session_id operator_id : String) (lease_token : Option String)
    (command_id plan_fingerprint : String) (c : CommandRecord) (lease : LeaseRecord) where
  -- the statement of `confirm_command` from the reading of the clock on
  abbrev pub timed : ℕ → Action Response
  timed now =
      if window_closed now c.confirmation_expires_at
      then (do
        expire_command command_id "confirmation window expired before operator confirmation"
        raise (conflict window_expired))
      else (do
        require (fingerprint_eq plan_fingerprint c.plan_fingerprint) (conflict fingerprint_mismatch)
        confirm_command_internal ros command_id lease session_id operator_id plan_fingerprint)

  pub timed_in_time :
      (now : ℕ) (s : Supervisor)
      → lookup command_id s.commands ≡ some c
      → Sends (timed now) s
      → (window_closed now c.confirmation_expires_at ≡ false)
        × (c.plan_fingerprint ≡ some plan_fingerprint)
        × Unblocked ros c s.tick
  timed_in_time now s e h = elim (Bool-cases (window_closed now c.confirmation_expires_at)) [
    | inl closed ↦ absurd (not-Sends _ s (λ d. late d) (rw closed at h))
    | inr still_open ↦
        let (u, r, h1) = Sends-bind _ _ s (λ d. Keeps-require _ _) (rw still_open at h) in
        (
          still_open,
          fingerprint_inv plan_fingerprint c.plan_fingerprint (Sends-require _ _ s r),
          internal-Unblocked ros command_id c lease session_id operator_id plan_fingerprint s e
              (rw state-require at h1),
        )
  ]
    where
      late :
          (d : List Dispatch)
          → Keeps (Sent d) (do
            expire_command command_id "confirmation window expired before operator confirmation"
            raise {A = Response} (conflict window_expired))
      late d =
          Keeps-bind _ _ (expire_command-Keeps (Sent-Steady d) command_id _) (λ _. Keeps-raise _)
