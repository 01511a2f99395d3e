-- ===== src/Supervisor/Dispatches.antt =====
-- How often, and when, a command is handed to the ROS adapter.
use gp4_ws.Common.{
  ℕ, suc, ◌≤◌, String, false, Option, none, some, List, [], ◌∷◌, ◌++◌, ◌≡◌, refl, sym, ap, subst,
  inl, inr, ◌==◌, eq_iff, eq_refl, arith, leb, lookup, lookup-modify, map_some, if◌then◌else◌,
  Bool-cases,
}
use gp4_ws.Common.Outcome.{
  Outcome, ok, Keeps, After, Keeps-After, After-bind, After-weaken, After-state, Keeps-bind,
}
use gp4_ws.Lifecycle.{
  CommandLifecycleState, confirmed, execution_requested, ensure_command_transition,
}
use gp4_ws.Lifecycle.Paths.{rank, rank-lt}
use gp4_ws.Session.{LeaseRecord}
use gp4_ws.Supervisor.Records.{CommandRecord, Dispatch, SupervisorError, Supervisor}
use gp4_ws.Supervisor.Store.{RosAdapter, Patch, patch, ask, fetch, assign, transition_command}
use gp4_ws.Supervisor.Effects.{Transitioned, unchanged, entered, transition_cases, lifecycle-patch}
use gp4_ws.Supervisor.Execution.{
  hand_over, execute_confirmed_command, dispatch_to_adapter, is_get_pose_command,
}
use gp4_ws.Supervisor.Settled.{Is, Is-patch}
use gp4_ws.Supervisor.Keeping.{
  Steady, ask-Keeps, fetch-Keeps, conclude_answer-Keeps, execute_get_pose_query-Keeps,
  execute_confirmed_command-Keeps,
}
use gp4_ws.Supervisor.Requests.{Request, serve, serve_induction}

-- how often `j` was handed over
unfoldable pub times : String → List Dispatch → ℕ
times j [] = 0
times j (d ∷ ds) = let rest = times j ds in if d.command_id == j then suc rest else rest

times-append :
    (j : String) (ds : List Dispatch) (d : Dispatch)
    → times j (ds ++ d ∷ []) ≡ (if d.command_id == j then suc (times j ds) else times j ds)
unfolding times
times-append j [] d = ground arith
times-append j (e ∷ ds) d = ground (arith, times-append j ds d)

-- 1 from EXECUTION_REQUESTED on
abbrev pub spent : Option CommandRecord → ℕ
spent none = 0
spent (some c) = if leb 5 (rank c.lifecycle_state) then 1 else 0

abbrev pub OnceSpent : String → Supervisor → Type 0
OnceSpent j s = times j s.dispatched ≤ spent (lookup j s.commands)

spent-patch : (p : Patch) (o : Option CommandRecord) → spent (map_some (patch p) o) ≡ spent o
spent-patch p none = refl
spent-patch p (some c) = rw lifecycle-patch

assign-OnceSpent : (j command_id : String) (p : Patch) → Keeps (OnceSpent j) (assign command_id p)
unfolding assign
assign-OnceSpent j command_id p = record {
  at = λ s h.
      rw lookup-modify
        (elim (Bool-cases (command_id == j)) [ inl e ↦ rw (e, spent-patch) h | inr e ↦ rw e h ]);
}

module _ (j : String) (command_id : String) (st : CommandLifecycleState) (s : Supervisor) where
  entered-OnceSpent :
      {r : Outcome SupervisorError (Unit {0}) × Supervisor}
      → OnceSpent j s
      → Transitioned command_id st s r
      → OnceSpent j r.1
  entered-OnceSpent h (unchanged e) = h
  entered-OnceSpent h (entered c e ok_next) =
      rw lookup-modify (elim (Bool-cases (command_id == j)) [
        | inl same ↦
            let e' : lookup j s.commands ≡ some c = ground (arith, eq_iff command_id j) in
            rw (same, e') (ground (arith, rank-lt c.lifecycle_state st ok_next, ap spent e'))
        | inr other ↦ rw other h
      ])

OnceSpent-Steady : (j : String) → Steady (OnceSpent j)
OnceSpent-Steady j = record {
  at_tick = λ s n h. h;
  at_active = λ s x h. h;
  at_lock = λ s l h. h;
  at_assign = assign-OnceSpent j;
  at_transition = λ command_id st. record {
    at = λ s h. entered-OnceSpent j command_id st s h (transition_cases command_id st s);
  };
}

-- Not yet handed over, and in the state `st`
abbrev Ready : String → CommandLifecycleState → Supervisor → Type 0
Ready j st s = (times j s.dispatched ≡ 0) × Is st (lookup j s.commands)

Ready-OnceSpent :
    (j : String) (st : CommandLifecycleState) (s : Supervisor) → Ready j st s → OnceSpent j s
Ready-OnceSpent j st s h = omega (arith, h.0)

module _ (j : String) (st : CommandLifecycleState) (s : Supervisor) where
  -- a transition from a state in which the command cannot have been handed over
  advance :
      (fresh : (c : CommandRecord)
        → lookup j s.commands ≡ some c
        → ensure_command_transition c.lifecycle_state st ≡ ok tt
        → times j s.dispatched ≡ 0)
      {r : Outcome SupervisorError (Unit {0}) × Supervisor}
      → OnceSpent j s
      → Transitioned j st s r
      → After (λ _. Ready j st) (OnceSpent j) r
  advance fresh h (unchanged e) = h
  advance fresh h (entered c e ok_next) = (fresh c e ok_next, rw (lookup-modify, eq_refl, e) refl)

  ask-Ready :
      {A : Type 0} (f : ℕ → A) → Ready j st s → After (λ _. Ready j st) (OnceSpent j) (ask f s)
  unfolding ask
  ask-Ready f h = h

  assign-Ready : (p : Patch) → Ready j st s → After (λ _. Ready j st) (OnceSpent j) (assign j p s)
  unfolding assign
  assign-Ready p h = (h.0, rw (lookup-modify, eq_refl) (Is-patch st p (lookup j s.commands) h.1))

  fetch-Ready : Ready j st s → After (λ _. Ready j st) (OnceSpent j) (fetch j s)
  fetch-Ready h =
      After-weaken (OnceSpent j) (λ _. Ready j st) (Ready j st) (fetch j s)
        (Keeps-After (Ready j st) (fetch j) s (fetch-Keeps j) h) (Ready-OnceSpent j st)

requested-spent : (o : Option CommandRecord) → Is execution_requested o → spent o ≡ 1
requested-spent none h = elim h [ ]
requested-spent (some c) h = ground arith

hand_over-Ready :
    (j : String) (s : Supervisor) (d : Dispatch)
    → d.command_id ≡ j
    → Ready j execution_requested s
    → After (λ _. OnceSpent j) (OnceSpent j) (hand_over d s)
unfolding hand_over
hand_over-Ready j s d e h =
    rw (times-append, h.0) (ground (arith, requested-spent (lookup j s.commands) h.1))

first_confirmed :
    (j : String) (s : Supervisor)
    → OnceSpent j s
    → After (λ _. Ready j confirmed) (OnceSpent j) (transition_command j confirmed s)
first_confirmed j s h =
    advance j confirmed s
      (λ c e ok_next. ground (arith, rank-lt c.lifecycle_state confirmed ok_next, ap spent e)) h
      (transition_cases j confirmed s)

then_requested :
    (j : String) (s : Supervisor)
    → Ready j confirmed s
    → After
        (λ _. Ready j execution_requested)
        (OnceSpent j)
        (transition_command j execution_requested s)
then_requested j s h =
    advance j execution_requested s (λ c e ok_next. h.0) (Ready-OnceSpent j confirmed s h)
      (transition_cases j execution_requested s)

module _ (ros : RosAdapter) (j : String) where
  dispatch-Ready :
      (d : Dispatch) (s : Supervisor)
      → d.command_id ≡ j
      → Ready j execution_requested s
      → After (λ _. OnceSpent j) (OnceSpent j) (dispatch_to_adapter ros d s)
  unfolding dispatch_to_adapter
  dispatch-Ready d s e h = After-bind _ _ _ _ _ s (hand_over-Ready j s d e h) λ _ t g.
      Keeps-After (OnceSpent j) _ t
        (Keeps-bind _ _ (ask-Keeps (OnceSpent-Steady j) _)
          (conclude_answer-Keeps (OnceSpent-Steady j) d.command_id))
        g

  execution_of_self :
      (lease : LeaseRecord) (session_id operator_id plan_fingerprint : String) (s : Supervisor)
      → OnceSpent j s
      → After
          (λ _. OnceSpent j)
          (OnceSpent j)
          (execute_confirmed_command ros j lease session_id operator_id plan_fingerprint s)
  unfolding execute_confirmed_command
  execution_of_self lease session_id operator_id plan_fingerprint s h =
      After-bind _ _ _ _ _ s (first_confirmed j s h) λ _ s1 h1.
        After-bind _ _ _ _ _ s1 (ask-Ready j confirmed s1 _ h1) λ now s2 h2.
          After-bind _ _ _ _ _ s2 (assign-Ready j confirmed s2 _ h2) λ _ s3 h3.
            After-bind _ _ _ _ _ s3 (then_requested j s3 h3) λ _ s4 h4.
              After-bind _ _ _ _ _ s4 (ask-Ready j execution_requested s4 _ h4) λ later s5 h5.
                After-bind _ _ _ _ _ s5 (assign-Ready j execution_requested s5 _ h5) λ _ s6 h6.
                  After-bind _ _ _ _ _ s6 (fetch-Ready j execution_requested s6 h6) λ c s7 h7.
                    elim (Bool-cases (is_get_pose_command c)) [
                      | inl pose ↦ rw pose (
                          Keeps-After (OnceSpent j) _ s7
                            (execute_get_pose_query-Keeps (OnceSpent-Steady j) ros j)
                            (Ready-OnceSpent j execution_requested s7 h7))
                      | inr motion ↦ rw motion (dispatch-Ready _ s7 refl h7)
                    ]

  hand_over_other :
      (command_id : String) (d : Dispatch)
      → (command_id == j) ≡ false
      → d.command_id ≡ command_id
      → Keeps (OnceSpent j) (hand_over d)
  unfolding hand_over
  hand_over_other command_id d other e = record { at = λ s h. rw (times-append, e, other) h }

  execution-OnceSpent :
      (command_id : String) (lease : LeaseRecord) (session_id operator_id plan_fingerprint : String)
      → Keeps
          (OnceSpent j)
          (execute_confirmed_command ros command_id lease session_id operator_id plan_fingerprint)
  execution-OnceSpent command_id lease session_id operator_id plan_fingerprint =
      elim (Bool-cases (command_id == j)) [
        | inl same ↦
            subst
              (λ k.
                Keeps (OnceSpent j)
                  (execute_confirmed_command ros k lease session_id operator_id plan_fingerprint))
              (sym ((eq_iff command_id j).0 same))
              (record {
                at = λ s h.
                    After-state (OnceSpent j) _
                      (execution_of_self lease session_id operator_id plan_fingerprint s h);
              })
        | inr other ↦
            execute_confirmed_command-Keeps (OnceSpent-Steady j) ros command_id
              (λ d. hand_over_other command_id d other) lease session_id operator_id
              plan_fingerprint
      ]

  spent-le_one : (o : Option CommandRecord) → spent o ≤ 1
  spent-le_one o = ground arith

  -- A command that was not yet handed to the adapter is handed to it at most once, whatever is
  -- requested and in whatever order, and whatever the adapter and the clock answer.
  pub dispatched_at_most_once :
      (rs : List Request) (s : Supervisor)
      → times j s.dispatched ≡ 0
      → times j (serve ros rs s).dispatched ≤ 1
  dispatched_at_most_once rs s h =
      let kept : OnceSpent j (serve ros rs s) =
        serve_induction ros (OnceSpent-Steady j) execution-OnceSpent rs s (omega (arith, h)) in
      omega (arith, kept, spent-le_one (lookup j (serve ros rs s).commands))
