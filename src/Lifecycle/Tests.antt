-- ===== src/Lifecycle/Tests.antt =====
-- The lifecycle table at concrete histories.
use mathlib.Core.List.{Memᴰ}
use gp4_ws.Common.{◌≡◌, refl, inr, ◌↔◌, true, List, [], ◌∷◌, arith}
use gp4_ws.Common.Outcome.{ok}
use gp4_ws.Lifecycle.{
  CommandLifecycleState, received, parsing, validating, needs_confirmation, confirmed,
  execution_requested, executing, succeeded, ensure_command_transition, is_terminal_command_state,
}
use gp4_ws.Lifecycle.Paths.{History, here, next, is_terminal_iff_stuck, execution_needs_confirmed}

abbrev run_to_executing : List CommandLifecycleState
run_to_executing =
    parsing ∷ validating ∷ needs_confirmation ∷ confirmed ∷ execution_requested ∷ executing ∷ []

run_to_executing-History : History received run_to_executing executing
unfolding ensure_command_transition
run_to_executing-History =
    next refl (next refl (next refl (next refl (next refl (next refl here)))))

is_terminal_iff_stuck_example :
    (is_terminal_command_state succeeded ≡ true)
    ↔ ((b : CommandLifecycleState) → ensure_command_transition succeeded b ≡ ok tt → ⊥)
is_terminal_iff_stuck_example = is_terminal_iff_stuck succeeded

execution_needs_confirmed_example : Memᴰ confirmed run_to_executing
execution_needs_confirmed_example =
    execution_needs_confirmed run_to_executing-History (omega arith) (inr refl)
