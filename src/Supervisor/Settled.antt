-- ===== src/Supervisor/Settled.antt =====
-- Commands in a terminal state, over runs of requests.
use gp4_ws.Common.{
  String, true, Option, none, some, List, ◌≡◌, inl, inr, ◌==◌, eq_iff, arith, lookup, lookup-modify,
  map_some, Bool-cases,
}
use gp4_ws.Common.Outcome.{Outcome, Keeps}
use gp4_ws.Lifecycle.{CommandLifecycleState, is_terminal_command_state}
use gp4_ws.Lifecycle.Paths.{is_terminal_iff_stuck}
use gp4_ws.Supervisor.Records.{CommandRecord, Dispatch, SupervisorError, Supervisor}
use gp4_ws.Supervisor.Store.{RosAdapter, Patch, patch, assign}
use gp4_ws.Supervisor.Effects.{Transitioned, unchanged, entered, transition_cases, lifecycle-patch}
use gp4_ws.Supervisor.Execution.{hand_over}
use gp4_ws.Supervisor.Keeping.{Steady}
use gp4_ws.Supervisor.Requests.{Request, serve, serve_steady}

abbrev pub Is : CommandLifecycleState → Option CommandRecord → Type 0
Is st none = ⊥
Is st (some c) = c.lifecycle_state ≡ st

-- Command `j` is in the table, in the state `st`.
abbrev pub InState : String → CommandLifecycleState → Supervisor → Type 0
InState j st s = Is st (lookup j s.commands)

pub Is-patch :
    (st : CommandLifecycleState) (p : Patch) (o : Option CommandRecord)
    → Is st o
    → Is st (map_some (patch p) o)
Is-patch st p none h = h
Is-patch st p (some c) h = rw lifecycle-patch h

module _ (j : String) (final : CommandLifecycleState)
    (terminal : is_terminal_command_state final ≡ true) where
  assign-InState : (command_id : String) (p : Patch) → Keeps (InState j final) (assign command_id p)
  unfolding assign
  assign-InState command_id p = record {
    at = λ s h. rw lookup-modify (elim (Bool-cases (command_id == j)) [
      | inl e ↦ rw e (Is-patch final p (lookup j s.commands) h)
      | inr e ↦ rw e h
    ]);
  }

  entered-InState :
      (command_id : String) (st : CommandLifecycleState) (s : Supervisor)
      {r : Outcome SupervisorError (Unit {0}) × Supervisor}
      → InState j final s
      → Transitioned command_id st s r
      → InState j final r.1
  entered-InState command_id st s h (unchanged e) = h
  entered-InState command_id st s h (entered c e ok_next) =
      rw lookup-modify (elim (Bool-cases (command_id == j)) [
        | inl same ↦
            let e' : lookup j s.commands ≡ some c = ground (arith, eq_iff command_id j) in
            let is_final : c.lifecycle_state ≡ final = rw e' at h in
            absurd ((is_terminal_iff_stuck final).0 terminal st (rw is_final at ok_next))
        | inr other ↦ rw other h
      ])

  InState-Steady : Steady (InState j final)
  InState-Steady = record {
    at_tick = λ s n h. h;
    at_active = λ s x h. h;
    at_lock = λ s l h. h;
    at_assign = assign-InState;
    at_transition = λ command_id st. record {
      at = λ s h. entered-InState command_id st s h (transition_cases command_id st s);
    };
  }

  hand_over-InState : (d : Dispatch) → Keeps (InState j final) (hand_over d)
  unfolding hand_over
  hand_over-InState d = record { at = λ s h. h }

  -- A command in a terminal state is in that state after any requests, whatever the adapter and the
  -- clock answer.
  pub terminal_for_good :
      (ros : RosAdapter) (rs : List Request) (s : Supervisor)
      → InState j final s
      → InState j final (serve ros rs s)
  terminal_for_good ros rs s = serve_steady ros InState-Steady hand_over-InState rs s
