-- ===== src/Lifecycle.antt =====
-- hmi/backend/domain/state_machine.py and the enumerations of hmi/backend/domain/models.py that it
-- reads. A set of states is a list; membership compares the members' positions in the enumeration.
pub mod Paths
mod Tests
use gp4_ws.Common.{ℕ, Bool, true, false, ◌||◌, List, [], ◌∷◌, any, nat_eq, if◌then◌else◌}
use gp4_ws.Common.Outcome.{Outcome, ok, raised}

pub data CommandLifecycleState : Type 0 where
  received parsing validating needs_confirmation confirmed : CommandLifecycleState
  execution_requested executing succeeded failed rejected : CommandLifecycleState
  cancelled expired : CommandLifecycleState

pub data SystemRuntimeState : Type 0 where
  normal fault estop hold timeout lost_conn safety_blocked : SystemRuntimeState

abbrev pub ordinal : CommandLifecycleState → ℕ
ordinal received = 0
ordinal parsing = 1
ordinal validating = 2
ordinal needs_confirmation = 3
ordinal confirmed = 4
ordinal execution_requested = 5
ordinal executing = 6
ordinal succeeded = 7
ordinal failed = 8
ordinal rejected = 9
ordinal cancelled = 10
ordinal expired = 11

abbrev pub state_eq : CommandLifecycleState → CommandLifecycleState → Bool
state_eq a b = nat_eq (ordinal a) (ordinal b)

abbrev pub mem_state : CommandLifecycleState → List CommandLifecycleState → Bool
mem_state s = any (state_eq s)

abbrev pub terminal_command_states : List CommandLifecycleState
terminal_command_states = succeeded ∷ failed ∷ rejected ∷ cancelled ∷ expired ∷ []

abbrev pub allowed_command_transitions : CommandLifecycleState → List CommandLifecycleState
allowed_command_transitions received = parsing ∷ rejected ∷ cancelled ∷ []
allowed_command_transitions parsing = validating ∷ rejected ∷ cancelled ∷ []
allowed_command_transitions validating =
    needs_confirmation ∷ succeeded ∷ failed ∷ rejected ∷ cancelled ∷ expired ∷ []
allowed_command_transitions needs_confirmation = confirmed ∷ cancelled ∷ expired ∷ []
allowed_command_transitions confirmed = execution_requested ∷ failed ∷ cancelled ∷ []
allowed_command_transitions execution_requested = executing ∷ failed ∷ cancelled ∷ []
allowed_command_transitions executing = succeeded ∷ failed ∷ cancelled ∷ []
allowed_command_transitions succeeded = []
allowed_command_transitions failed = []
allowed_command_transitions rejected = []
allowed_command_transitions cancelled = []
allowed_command_transitions expired = []

-- ValueError, with the two states that its message names
pub data TransitionError : Type 0 where
  invalid_transition : CommandLifecycleState → CommandLifecycleState → TransitionError

unfoldable pub ensure_command_transition :
    CommandLifecycleState → CommandLifecycleState → Outcome TransitionError (Unit {0})
ensure_command_transition previous next_state =
    if mem_state next_state (allowed_command_transitions previous)
    then ok tt
    else raised (invalid_transition previous next_state)

unfoldable pub is_terminal_command_state : CommandLifecycleState → Bool
is_terminal_command_state state = mem_state state terminal_command_states

-- `BLOCKING_RUNTIME_STATES`
abbrev pub blocking_runtime_states : SystemRuntimeState → Bool
blocking_runtime_states fault = true
blocking_runtime_states estop = true
blocking_runtime_states lost_conn = true
blocking_runtime_states safety_blocked = true
blocking_runtime_states _ = false

unfoldable pub is_blocking_runtime_state : SystemRuntimeState → Bool
is_blocking_runtime_state state = blocking_runtime_states state
