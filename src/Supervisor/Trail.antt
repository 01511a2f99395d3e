-- ===== src/Supervisor/Trail.antt =====
-- The audit rows of a command, and the states that it goes through.
use mathlib.Core.List.{Memᴰ}
use gp4_ws.Common.{
  ◌≤◌, String, Option, none, some, List, [], ◌∷◌, ◌++◌, ◌≡◌, ◌⊎◌, inl, inr, ◌==◌, eq_iff, arith,
  length, lookup, lookup-modify, map_some, if◌then◌else◌, Bool-cases,
}
use gp4_ws.Common.Outcome.{Outcome, Keeps}
use gp4_ws.Lifecycle.{CommandLifecycleState, confirmed, execution_requested, executing}
use gp4_ws.Lifecycle.Paths.{
  History, History-append, History-bounded, execution_needs_confirmed, Unconfirmed,
}
use gp4_ws.Supervisor.Records.{CommandRecord, TransitionRow, Dispatch, SupervisorError, Supervisor}
use gp4_ws.Supervisor.Store.{RosAdapter, Patch, patch, assign}
use gp4_ws.Supervisor.Execution.{hand_over}
use gp4_ws.Supervisor.Effects.{Transitioned, unchanged, entered, transition_cases, lifecycle-patch}
use gp4_ws.Supervisor.Keeping.{Steady}
use gp4_ws.Supervisor.Requests.{Request, serve, serve_steady}

-- The states that the rows of one command lead to, in order.
unfoldable pub targets : String → List TransitionRow → List CommandLifecycleState
targets j [] = []
targets j (row ∷ rows) =
    let rest = targets j rows in if row.command_id == j then row.to_state ∷ rest else rest

targets-append :
    (j : String) (rows : List TransitionRow) (row : TransitionRow)
    → targets j (rows ++ row ∷ [])
      ≡ (if row.command_id == j then targets j rows ++ row.to_state ∷ [] else targets j rows)
unfolding targets
targets-append j [] row = ground arith
targets-append j (r ∷ rows) row = ground (arith, targets-append j rows row)

-- Command `j` is in the table, and its rows lead from `a` to the state that it is in.
abbrev pub TrailOf :
    CommandLifecycleState → Option CommandRecord → List CommandLifecycleState → Type 0
TrailOf a none l = ⊥
TrailOf a (some c) l = History a l c.lifecycle_state

abbrev pub Trailed : String → CommandLifecycleState → Supervisor → Type 0
Trailed j a s = TrailOf a (lookup j s.commands) (targets j s.transitions)

TrailOf-patch :
    (a : CommandLifecycleState) (p : Patch) (o : Option CommandRecord)
    (l : List CommandLifecycleState)
    → TrailOf a o l
    → TrailOf a (map_some (patch p) o) l
TrailOf-patch a p none l h = h
TrailOf-patch a p (some c) l h = rw lifecycle-patch h

module _ (j : String) (a : CommandLifecycleState) where
  assign-Trailed : (command_id : String) (p : Patch) → Keeps (Trailed j a) (assign command_id p)
  unfolding assign
  assign-Trailed command_id p = record {
    at = λ s h. rw lookup-modify (elim (Bool-cases (command_id == j)) [
      | inl e ↦ rw e (TrailOf-patch a p (lookup j s.commands) _ h)
      | inr e ↦ rw e h
    ]);
  }

  entered-Trailed :
      (command_id : String) (st : CommandLifecycleState) (s : Supervisor)
      {r : Outcome SupervisorError (Unit {0}) × Supervisor}
      → Trailed j a s
      → Transitioned command_id st s r
      → Trailed j a r.1
  entered-Trailed command_id st s h (unchanged e) = h
  entered-Trailed command_id st s h (entered c e ok_next) =
      rw (lookup-modify, targets-append)
        (elim (Bool-cases (command_id == j)) [
          | inl same ↦
              let e' : lookup j s.commands ≡ some c = ground (arith, eq_iff command_id j) in
              rw (same, e') (History-append (rw e' at h) ok_next)
          | inr other ↦ rw other h
        ])

  Trailed-Steady : Steady (Trailed j a)
  Trailed-Steady = record {
    at_tick = λ s n h. h;
    at_active = λ s x h. h;
    at_lock = λ s l h. h;
    at_assign = assign-Trailed;
    at_transition = λ command_id st. record {
      at = λ s h. entered-Trailed command_id st s h (transition_cases command_id st s);
    };
  }

  hand_over-Trailed : (d : Dispatch) → Keeps (Trailed j a) (hand_over d)
  unfolding hand_over
  hand_over-Trailed d = record { at = λ s h. h }

  -- Whatever is requested, and whatever the adapter and the clock answer, the audit rows of a command
  -- go on to be a history of accepted transitions that ends in the state that the command is in.
  pub serve-Trailed :
      (ros : RosAdapter) (rs : List Request) (s : Supervisor)
      → Trailed j a s
      → Trailed j a (serve ros rs s)
  serve-Trailed ros rs s = serve_steady ros Trailed-Steady hand_over-Trailed rs s

Trailed-bounded :
    (a : CommandLifecycleState) (o : Option CommandRecord) (l : List CommandLifecycleState)
    → TrailOf a o l
    → length l ≤ 7
Trailed-bounded a none l h = elim h [ ]
Trailed-bounded a (some c) l h = History-bounded h

-- Whatever is requested, a command leaves at most seven audit rows.
pub rows_bounded :
    (ros : RosAdapter) (rs : List Request) (j : String) (a : CommandLifecycleState) (s : Supervisor)
    → Trailed j a s
    → length (targets j (serve ros rs s).transitions) ≤ 7
rows_bounded ros rs j a s h = Trailed-bounded a _ _ (serve-Trailed j a ros rs s h)

confirmed_in :
    (a : CommandLifecycleState) (o : Option CommandRecord) (l : List CommandLifecycleState)
    {c : CommandRecord}
    → TrailOf a o l
    → o ≡ some c
    → Unconfirmed a
    → (c.lifecycle_state ≡ execution_requested) ⊎ (c.lifecycle_state ≡ executing)
    → Memᴰ confirmed l
confirmed_in a none l h e u x = cc
confirmed_in a (some d) l {c} h e u x = execution_needs_confirmed h u (ground arith)

-- If a command whose trail starts before its confirmation is found in execution after any requests,
-- its audit rows show the state CONFIRMED.
pub execution_was_confirmed :
    (ros : RosAdapter) (rs : List Request) (j : String) (a : CommandLifecycleState) (s : Supervisor)
    {c : CommandRecord}
    → Trailed j a s
    → Unconfirmed a
    → lookup j (serve ros rs s).commands ≡ some c
    → (c.lifecycle_state ≡ execution_requested) ⊎ (c.lifecycle_state ≡ executing)
    → Memᴰ confirmed (targets j (serve ros rs s).transitions)
execution_was_confirmed ros rs j a s h u e x =
    confirmed_in a _ _ (serve-Trailed j a ros rs s h) e u x
