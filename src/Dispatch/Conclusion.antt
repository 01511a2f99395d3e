-- ===== src/Dispatch/Conclusion.antt =====
-- hmi/backend/services/supervisor_execution.py: what becomes of a command whose result is stored.
use gp4_ws.Common.{
  String, true, false, Option, none, some, ◌≡◌, refl, eq_refl, lookup, modify, lookup-modify,
}
use gp4_ws.Common.Outcome.{Outcome, ok, pure, ◌>>=◌, ◌>>◌, After, After-bind}
use gp4_ws.Lifecycle.{
  CommandLifecycleState, execution_requested, executing, succeeded, failed, cancelled,
  ensure_command_transition,
}
use gp4_ws.Supervisor.Records.{
  ExecutionStatus, status_succeeded, status_cancelled, status_other, ExecutionResult, CommandRecord,
  SupervisorError, Supervisor,
}
use gp4_ws.Supervisor.Store.{
  Action, Patch, set_final, set_final_state, set_execution_result, patch, assign, fetch,
  enter_state, transition_command,
}
use gp4_ws.Supervisor.Execution.{settle, conclude, response_for}

module _ (command_id : String) where
  abbrev pub At : CommandRecord → Supervisor → Type 0
  At c s = lookup command_id s.commands ≡ some c

  -- `m` returns, and leaves the command as `c`.
  abbrev pub Leaves : {A : Type 0} → CommandRecord → Outcome SupervisorError A × Supervisor → Type 0
  Leaves c = After (λ _. At c) (λ _. ⊥)

  then_Leaves :
      {A B : Type 0} (m : Action A) (n : A → Action B) (c d : CommandRecord) (s : Supervisor)
      → Leaves c (m s)
      → ((a : A) (t : Supervisor) → At c t → Leaves d (n a t))
      → Leaves d ((m >>= n) s)
  then_Leaves m n c d s = After-bind m n (λ _. At c) (λ _. At d) (λ _. ⊥) s

  modified :
      (f : CommandRecord → CommandRecord) (c : CommandRecord) (s : Supervisor)
      → At c s
      → lookup command_id (modify command_id f s.commands) ≡ some (f c)
  modified f c s held =
      rw (lookup-modify command_id command_id f s.commands, eq_refl command_id, held) refl

  assign-Leaves :
      (p : Patch) (c : CommandRecord) (s : Supervisor)
      → At c s
      → Leaves (patch p c) (assign command_id p s)
  unfolding assign
  assign-Leaves p c s held = modified (patch p) c s held

  fetch-Leaves : (c : CommandRecord) (s : Supervisor) → At c s → Leaves c (fetch command_id s)
  unfolding fetch
  fetch-Leaves c s held = rw held held

  transition-Leaves :
      (previous next : CommandLifecycleState) (c : CommandRecord) (s : Supervisor)
      → c.lifecycle_state ≡ previous
      → ensure_command_transition previous next ≡ ok tt
      → At c s
      → Leaves (enter_state next c) (transition_command command_id next s)
  unfolding transition_command
  transition-Leaves previous next c s at allowed held =
      rw (held, at, allowed) (modified (enter_state next) c s held)

  respond-Leaves :
      (summary : Option String) (c : CommandRecord) (s : Supervisor)
      → At c s
      → Leaves c ((fetch command_id >>= λ done. pure (response_for done.final_state summary)) s)
  unfolding pure
  respond-Leaves summary c s held =
      then_Leaves (fetch command_id) _ c c s (fetch-Leaves c s held) (λ done t kept. kept)

  -- the command after the result is stored, and after it entered EXECUTING
  abbrev pub stored : ExecutionResult → CommandRecord → CommandRecord
  stored r c = patch (set_execution_result r) c

  abbrev pub begun : ExecutionResult → CommandRecord → CommandRecord
  begun r c = patch (set_final_state none) (enter_state executing (stored r c))

  abbrev pub ended : CommandLifecycleState → Option String → CommandRecord → CommandRecord
  ended final reason c = enter_state final (patch (set_final (some final) reason) c)

  finish-Leaves :
      (final previous : CommandLifecycleState) (reason : Option String) (c : CommandRecord)
      (s : Supervisor)
      → c.lifecycle_state ≡ previous
      → ensure_command_transition previous final ≡ ok tt
      → At c s
      → Leaves (ended final reason c) (
          (assign command_id (set_final (some final) reason) >> transition_command command_id final)
            s)
  finish-Leaves final previous reason c s at allowed held =
      then_Leaves (assign command_id (set_final (some final) reason)) _
        (patch (set_final (some final) reason) c) _ s
        (assign-Leaves (set_final (some final) reason) c s held)
        (λ _ t kept.
          transition-Leaves previous final (patch (set_final (some final) reason) c) t at allowed
            kept)

  unfoldable pub settled : ExecutionStatus → CommandLifecycleState
  settled status_succeeded = succeeded
  settled status_cancelled = cancelled
  settled status_other = failed

  abbrev pub reason_for : ExecutionStatus → Option String → Option String
  reason_for status_succeeded summary = none
  reason_for _ summary = summary

  -- a result that was dispatched
  pub dispatched-Leaves :
      (status : ExecutionStatus) (summary : Option String) (c : CommandRecord) (s : Supervisor)
      → c.lifecycle_state ≡ execution_requested
      → At c s
      → Leaves
          (ended
            (settled status)
            (reason_for status summary)
            (begun (record { status = status; dispatched_to_ros = true; summary = summary }) c))
          (conclude command_id
            (record { status = status; dispatched_to_ros = true; summary = summary })
            s)
  unfolding settled ensure_command_transition settle pure ◌>>=◌
  dispatched-Leaves status summary c s at held =
      then_Leaves (assign command_id (set_execution_result r)) _ (stored r c) _ s
        (assign-Leaves (set_execution_result r) c s held)
        (λ _ t kept.
          then_Leaves (transition_command command_id executing) _
            (enter_state executing (stored r c)) _ t
            (transition-Leaves execution_requested executing (stored r c) t at refl kept)
            (λ _ t kept.
              then_Leaves (assign command_id (set_final_state none)) _ (begun r c) _ t
                (assign-Leaves (set_final_state none) (enter_state executing (stored r c)) t kept)
                (λ _ t kept.
                  then_Leaves (settle command_id r status) _ last _ t (settles status t kept)
                    (λ _ t kept. respond-Leaves summary last t kept))))
    where
      r : ExecutionResult
      r = record { status = status; dispatched_to_ros = true; summary = summary }

      last : CommandRecord
      last = ended (settled status) (reason_for status summary) (begun r c)

      settles :
          (st : ExecutionStatus) (t : Supervisor)
          → At (begun r c) t
          → Leaves
              (ended (settled st) (reason_for st summary) (begun r c))
              (settle command_id r st t)
      settles status_succeeded t kept =
          finish-Leaves succeeded executing none (begun r c) t refl refl kept
      settles status_cancelled t kept =
          finish-Leaves cancelled executing summary (begun r c) t refl refl kept
      settles status_other t kept =
          finish-Leaves failed executing summary (begun r c) t refl refl kept

  -- a failure that was not dispatched
  pub undispatched-Leaves :
      (summary : Option String) (c : CommandRecord) (s : Supervisor)
      → c.lifecycle_state ≡ execution_requested
      → At c s
      → Leaves
          (ended failed summary (
            stored
              (record { status = status_other; dispatched_to_ros = false; summary = summary })
              c))
          (conclude command_id
            (record { status = status_other; dispatched_to_ros = false; summary = summary })
            s)
  unfolding ensure_command_transition settle pure ◌>>=◌
  undispatched-Leaves summary c s at held =
      then_Leaves (assign command_id (set_execution_result r)) _ (stored r c) _ s
        (assign-Leaves (set_execution_result r) c s held)
        (λ _ t kept.
          then_Leaves (settle command_id r status_other) _ last _ t
            (finish-Leaves failed execution_requested summary (stored r c) t at refl kept)
            (λ _ t kept. respond-Leaves summary last t kept))
    where
      r : ExecutionResult
      r = record { status = status_other; dispatched_to_ros = false; summary = summary }

      last : CommandRecord
      last = ended failed summary (stored r c)
