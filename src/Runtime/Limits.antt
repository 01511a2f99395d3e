-- ===== src/Runtime/Limits.antt =====
-- How often a run replans: src/llm_gateway/llm_gateway/task_runtime.py.
use gp4_ws.Common.{
  ℕ, zero, suc, ◌+◌, ◌<◌, ◌≤◌, String, Bool, true, false, Option, none, some, ◌≡◌, refl, subst,
  arith, ltb, if◌then◌else◌, Bool-cases, inl, inr,
}
use gp4_ws.Common.Outcome.{Outcome, ok, raised, pure, gets, update, ◌>>=◌, continue, After}
use gp4_ws.Python.{PyLib, end}
use gp4_ws.Runtime.Task.{RuntimeError, FactoryTask}
use gp4_ws.Runtime.State.{RuntimeStepResult, TaskRuntime, RuntimeState, start}
use gp4_ws.Runtime.Nodes.{Run, is_stopped, poll_with, count_fallback, run_node}
use gp4_ws.Runtime.Skills.{run_skill-state}
use gp4_ws.Runtime.Replans.{
  Handler, max_replans_for_task, ask, answered, note_replan, replan_loop, run,
}
use gp4_ws.Runtime.Keeping.{NodeSteps, RunSteps, Keeps-run_node, Keeps-run}

module _ (py : PyLib) (rt : TaskRuntime py) where
  open py use {Float}
  open rt use {World}

  abbrev State : Type 0
  State = RuntimeState py rt

  -- A property of the number of replans alone
  module _ (P : ℕ → Type 0) where
    abbrev Of : State → Type 0
    Of s = P s.replan_count

    polled_of :
        (s : State)
        → Of s
        → After (λ stopped t. Of t × (stopped ≡ false → Of t)) Of (is_stopped py rt s)
    unfolding poll_with pure
    polled_of s h = by_flag rt.is_stopped_fn refl
      where
        by_flag :
            (o : Option (World → Bool × World))
            → rt.is_stopped_fn ≡ o
            → After (λ stopped t. Of t × (stopped ≡ false → Of t)) Of (is_stopped py rt s)
        by_flag none e = rw e (h, λ _. h)
        by_flag (some f) e = rw e (h, λ _. h)

    node_steps : NodeSteps py rt Of Of
    node_steps = record {
      forget = λ s h. h;
      poll = polled_of;
      skill = λ name args bindings s h.
          run_skill-state py rt Of name args bindings s h λ resolved world. h;
      decided = λ reason s h. h;
      fell_back = fell_back;
    }
      where
        fell_back :
            (first : Bool) (chosen : String) (s : State)
            → Of s
            → Of (count_fallback py rt first chosen s)
        fell_back true chosen s h = h
        fell_back false chosen s h = h

  ltb-le : (m n : ℕ) → ltb m n ≡ true → m + 1 ≤ n
  ltb-le m n h = ground arith

  not_below : (m n : ℕ) → n ≤ m → ltb m n ≡ false
  not_below m n h = ground arith

  within_limit :
      (task : FactoryTask Float) (limit : ℕ)
      → max_replans_for_task py rt task ≡ ok limit
      → RunSteps py rt _ _ (node_steps (λ n. n ≤ limit)) task
  unfolding ask
  within_limit task limit e = record {
    noted = λ limit' result s e' below h. below_limit s.replan_count limit' e' below;
    asked = λ handler result s h. h;
  }
    where
      same_limit : (limit' : ℕ) → max_replans_for_task py rt task ≡ ok limit' → limit' ≡ limit
      same_limit limit' e' = cc

      below_limit :
          (n limit' : ℕ)
          → max_replans_for_task py rt task ≡ ok limit'
          → ltb n limit' ≡ true
          → n + 1 ≤ limit
      below_limit n limit' e' below =
          subst (λ l. n + 1 ≤ l) (same_limit limit' e') (ltb-le n limit' below)

  -- A run replans at most as often as the task, or the runtime for a task that does not say, allows.
  pub replan_count-bounded :
      (task : FactoryTask Float) (world : World) (limit : ℕ)
      → max_replans_for_task py rt task ≡ ok limit
      → (run py rt task (start py rt world)).1.replan_count ≤ limit
  replan_count-bounded task world limit e =
      (Keeps-run py rt _ _ (node_steps (λ n. n ≤ limit)) task (within_limit task limit e)).at
        (start py rt world) (omega arith)

  continue-eq :
      {A B : Type 0} (r : Outcome RuntimeError A × State) (f g : A → Run py rt B)
      → ((a : A) → f a r.1 ≡ g a r.1)
      → continue r.0 f r.1 ≡ continue r.0 g r.1
  continue-eq (ok a, t) f g k = k a
  continue-eq (raised e, t) f g k = refl

  if_eq :
      {A : Type 0} (b : Bool) (m n k : Run py rt A) (s : State)
      → m s ≡ n s
      → (if b then m else k) s ≡ (if b then n else k) s
  if_eq true m n k s h = h
  if_eq false m n k s h = refl

  -- One more unit of fuel changes nothing where the fuel and the replans so far exceed the limit.
  pub replan_loop-fuel :
      (fuel : ℕ) (handler : Handler py rt) (limit : ℕ) (result : RuntimeStepResult) (s : State)
      → limit < fuel + s.replan_count
      → replan_loop py rt fuel handler limit result s
        ≡ replan_loop py rt (suc fuel) handler limit result s
  unfolding replan_loop ◌>>=◌ gets update pure ask
  replan_loop-fuel zero handler limit result s h =
      rw (not_below s.replan_count limit (omega (arith, h))) refl
  replan_loop-fuel (suc fuel) handler limit result s h =
      elim (Bool-cases (ltb s.replan_count limit)) [
        | inl below ↦ rw below (
            continue-eq (ask py rt handler result (note_replan py rt result s)) _ _
              (λ next. after_answer next (replan_loop-fuel fuel handler limit)))
        | inr above ↦ rw above refl
      ]
    where
      noted : State
      noted = (ask py rt handler result (note_replan py rt result s)).1

      counted :
          (task : FactoryTask Float)
          → (run_node py rt task.root end noted).1.replan_count ≡ s.replan_count + 1
      counted task =
          (Keeps-run_node py rt _ _ (node_steps (λ n. n ≡ s.replan_count + 1)) task.root end).at
            noted refl

      by_request :
          (again : RuntimeStepResult) (t : State)
          → t.replan_count ≡ s.replan_count + 1
          → ((again : RuntimeStepResult) (t : State)
              → limit < fuel + t.replan_count
              → replan_loop py rt fuel handler limit again t
                ≡ replan_loop py rt (suc fuel) handler limit again t)
          → (if again.requests_replan
                then replan_loop py rt fuel handler limit again
                else pure again)
              t
            ≡ (if again.requests_replan
                  then replan_loop py rt (suc fuel) handler limit again
                  else pure again)
                t
      by_request again t e ih =
          if_eq again.requests_replan _ _ (pure again) t (ih again t (omega (arith, e, h)))

      after_answer :
          (next : Option (FactoryTask Float))
          → ((again : RuntimeStepResult) (t : State)
              → limit < fuel + t.replan_count
              → replan_loop py rt fuel handler limit again t
                ≡ replan_loop py rt (suc fuel) handler limit again t)
          → answered py rt (replan_loop py rt fuel handler limit) result next noted
            ≡ answered py rt (replan_loop py rt (suc fuel) handler limit) result next noted
      after_answer none ih = refl
      after_answer (some task) ih =
          continue-eq (run_node py rt task.root end noted) _ _
            λ again. by_request again _ (counted task) ih
