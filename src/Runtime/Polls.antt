-- ===== src/Runtime/Polls.antt =====
-- When a run calls a skill: src/llm_gateway/llm_gateway/task_runtime.py.
use gp4_ws.Common.{String, Bool, true, false, some, List, [], ◌∷◌, ◌≡◌}
use gp4_ws.Common.Outcome.{After}
use gp4_ws.Python.{PyLib, Json, Fields}
use gp4_ws.Runtime.Task.{FactoryTask}
use gp4_ws.Runtime.State.{Action, polled, called, TaskRuntime, RuntimeState, start}
use gp4_ws.Runtime.Nodes.{is_stopped, poll_with, run_skill, count_fallback}
use gp4_ws.Runtime.Skills.{run_skill-state}
use gp4_ws.Runtime.Replans.{ask, run}
use gp4_ws.Runtime.Keeping.{NodeSteps, RunSteps, Keeps-run}

-- Each call comes right after a reading of the stop flag that was clear; the latest action first.
abbrev pub Polled : {F : Type 0} → List (Action F) → Type 0
Polled [] = Unit
Polled (polled b ∷ rest) = Polled rest
Polled (called name args ∷ []) = ⊥
Polled (called name args ∷ called other more ∷ rest) = ⊥
Polled (called name args ∷ polled true ∷ rest) = ⊥
Polled (called name args ∷ polled false ∷ rest) = Polled rest

-- The flag was just read as clear.
abbrev pub Clear : {F : Type 0} → List (Action F) → Type 0
Clear (polled false ∷ rest) = Polled rest
Clear _ = ⊥

module _ (py : PyLib) (rt : TaskRuntime py) where
  open py use {Float}
  open rt use {World}

  abbrev State : Type 0
  State = RuntimeState py rt

  Clear-Polled : (actions : List (Action Float)) → Clear actions → Polled actions
  Clear-Polled (polled false ∷ rest) h = h
  Clear-Polled [] h = absurd h
  Clear-Polled (a ∷ rest) h = absurd h

  called-Polled :
      (name : String) (args : Json Float) (actions : List (Action Float))
      → Clear actions
      → Polled (called name args ∷ actions)
  called-Polled name args (polled false ∷ rest) h = h
  called-Polled name args [] h = absurd h
  called-Polled name args (a ∷ rest) h = absurd h

  module _ (is_stopped_fn : World → Bool × World)
      (given : rt.is_stopped_fn ≡ some is_stopped_fn) where
    poll-Clear :
        (s : State)
        → Polled s.actions
        → After
            (λ stopped t. Polled t.actions × (stopped ≡ false → Clear t.actions))
            (λ t. Polled t.actions)
            (is_stopped py rt s)
    unfolding poll_with
    poll-Clear s h = rw given (by_answer (is_stopped_fn s.world).0)
      where
        by_answer : (b : Bool) → Polled s.actions × (b ≡ false → Clear (polled b ∷ s.actions))
        by_answer true = (h, λ e. cc)
        by_answer false = (h, λ e. h)

    run_skill-Polled :
        (name : String) (args bindings : Fields Float) (s : State)
        → Clear s.actions
        → Polled (run_skill py rt name args bindings s).1.actions
    run_skill-Polled name args bindings s h =
        run_skill-state py rt (λ t. Polled t.actions) name args bindings s
          (Clear-Polled s.actions h) λ resolved world. called-Polled name resolved s.actions h

    polling : NodeSteps py rt (λ s. Polled s.actions) (λ s. Clear s.actions)
    polling = record {
      forget = λ s. Clear-Polled s.actions;
      poll = poll-Clear;
      skill = run_skill-Polled;
      decided = λ reason s h. h;
      fell_back = fell_back;
    }
      where
        fell_back :
            (first : Bool) (chosen : String) (s : State)
            → Polled s.actions
            → Polled (count_fallback py rt first chosen s).actions
        fell_back true chosen s h = h
        fell_back false chosen s h = h

    asking :
        (task : FactoryTask Float)
        → RunSteps py rt (λ s. Polled s.actions) (λ s. Clear s.actions) polling task
    unfolding ask
    asking task = record { noted = λ limit result s e below h. h; asked = λ handler result s h. h }

    -- With a stop flag, every skill that a run calls is called right after a reading of the flag that
    -- was clear: in loops, retries, fallbacks and replans too, and whether the run returns or raises.
    pub run-Polled :
        (task : FactoryTask Float) (world : World)
        → Polled (run py rt task (start py rt world)).1.actions
    run-Polled task world =
        (Keeps-run py rt _ _ polling task (asking task)).at (start py rt world) tt
