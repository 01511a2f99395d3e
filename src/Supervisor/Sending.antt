-- ===== src/Supervisor/Sending.antt =====
-- Actions that hand something to the ROS adapter.
use gp4_ws.Common.{ℕ, String, Bool, true, false, List, ◌≡◌, ◌≢◌, refl, ◌∙◌}
use gp4_ws.Common.Outcome.{Outcome, ok, raised, continue, require, ◌>>=◌, Keeps}
use gp4_ws.Lifecycle.{CommandLifecycleState}
use gp4_ws.Supervisor.Records.{Dispatch, SupervisorError, Supervisor}
use gp4_ws.Supervisor.Store.{Action, Patch, ask, assign}
use gp4_ws.Supervisor.Effects.{Transitioned, unchanged, entered, transition_cases}
use gp4_ws.Supervisor.Keeping.{Steady}

abbrev pub Sent : List Dispatch → Supervisor → Type 0
Sent d s = s.dispatched ≡ d

entered-Sent :
    (d : List Dispatch) (command_id : String) (st : CommandLifecycleState) (s : Supervisor)
    {r : Outcome SupervisorError (Unit {0}) × Supervisor}
    → Sent d s
    → Transitioned command_id st s r
    → Sent d r.1
entered-Sent d command_id st s h (unchanged e) = h
entered-Sent d command_id st s h (entered c e n) = h

assign-Sent :
    (d : List Dispatch) (command_id : String) (p : Patch) → Keeps (Sent d) (assign command_id p)
unfolding assign
assign-Sent d command_id p = record { at = λ s h. h }

pub Sent-Steady : (d : List Dispatch) → Steady (Sent d)
Sent-Steady d = record {
  at_tick = λ s n h. h;
  at_active = λ s x h. h;
  at_lock = λ s l h. h;
  at_assign = assign-Sent d;
  at_transition = λ command_id st. record {
    at = λ s h. entered-Sent d command_id st s h (transition_cases command_id st s);
  };
}

-- `m` hands something to the adapter.
abbrev pub Sends : {A : Type 0} → Action A → Supervisor → Type 0
Sends m s = (m s).1.dispatched ≢ s.dispatched

-- If a block sends and its first statement cannot, that statement returns, and the rest sends.
pub Sends-bind :
    {A B : Type 0} (m : Action A) (f : A → Action B) (s : Supervisor)
    → ((d : List Dispatch) → Keeps (Sent d) m)
    → Sends (m >>= f) s
    → (a : A) × ((m s).0 ≡ ok a) × Sends (f a) (m s).1
unfolding ◌>>=◌
Sends-bind {A} m f s k h = by_outcome (m s).0 refl
  where
    same : (m s).1.dispatched ≡ s.dispatched
    same = (k s.dispatched).at s refl

    by_outcome :
        (r : Outcome SupervisorError A)
        → (m s).0 ≡ r
        → (a : A) × ((m s).0 ≡ ok a) × Sends (f a) (m s).1
    by_outcome (ok a) e = (a, e, λ q. h (rw (e, continue) (q ∙ same)))
    by_outcome (raised x) e = absurd (h (rw (e, continue) same))

pub not-Sends :
    {A : Type 0} (m : Action A) (s : Supervisor)
    → ((d : List Dispatch) → Keeps (Sent d) m)
    → Sends m s
    → ⊥
not-Sends m s k h = h ((k s.dispatched).at s refl)

pub Sends-require :
    (b : Bool) (e : SupervisorError) (s : Supervisor) {u : Unit {0}}
    → (require b e s).0 ≡ ok u
    → b ≡ true
unfolding require
Sends-require true e s h = refl
Sends-require false e s h = cc

pub state-require : (b : Bool) (e : SupervisorError) (s : Supervisor) → (require b e s).1 ≡ s
unfolding require
state-require true e s = refl
state-require false e s = refl

pub ask-value :
    {A : Type 0} (f : ℕ → A) (s : Supervisor) {a : A} → (ask f s).0 ≡ ok a → f s.tick ≡ a
unfolding ask
ask-value f s h = cc
