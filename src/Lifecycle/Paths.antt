-- ===== src/Lifecycle/Paths.antt =====
-- What the table of hmi/backend/domain/state_machine.py implies for whole histories of a command.
use mathlib.Core.List.{Memᴰ}
use gp4_ws.Common.{
  ℕ, ◌+◌, ◌≤◌, ◌<◌, ◌≡◌, refl, sym, ◌↔◌, ◌⊎◌, inl, inr, true, List, [], ◌∷◌, ◌++◌, arith, length,
}
use gp4_ws.Common.Outcome.{ok}
use gp4_ws.Lifecycle.{
  CommandLifecycleState, received, parsing, validating, needs_confirmation, confirmed,
  execution_requested, executing, failed, expired, ensure_command_transition,
  is_terminal_command_state,
}

-- A history: each state is accepted after the one before it, and `b` is the last.
pub data History
    : CommandLifecycleState → List CommandLifecycleState → CommandLifecycleState → Type 0 where
  here : {a : CommandLifecycleState} → History a [] a
  next :
      {a b c : CommandLifecycleState} {l : List CommandLifecycleState}
      → ensure_command_transition a b ≡ ok tt
      → History b l c
      → History a (b ∷ l) c

pub History-append :
    {a b c : CommandLifecycleState} {l : List CommandLifecycleState}
    → History a l b
    → ensure_command_transition b c ≡ ok tt
    → History a (l ++ c ∷ []) c
History-append here h = next h here
History-append (next e r) h = next e (History-append r h)

abbrev pub rank : CommandLifecycleState → ℕ
rank received = 0
rank parsing = 1
rank validating = 2
rank needs_confirmation = 3
rank confirmed = 4
rank execution_requested = 5
rank executing = 6
rank _ = 7

pub rank-lt :
    (a b : CommandLifecycleState) → ensure_command_transition a b ≡ ok tt → rank a < rank b
unfolding ensure_command_transition
rank-lt a b h = ground arith

rank-le_seven : (a : CommandLifecycleState) → rank a ≤ 7
rank-le_seven a = ground arith

rank-History :
    {a b : CommandLifecycleState} {l : List CommandLifecycleState}
    → History a l b
    → rank a + length l ≤ rank b
rank-History here = omega arith
rank-History (next {a} {b} h r) = omega (arith, rank-lt a b h, rank-History r)

-- Every history of accepted transitions, from any state, has at most seven of them.
pub History-bounded :
    {a b : CommandLifecycleState} {l : List CommandLifecycleState} → History a l b → length l ≤ 7
History-bounded {a} {b} r = omega (arith, rank-History r, rank-le_seven b)

-- A state is terminal exactly when the table accepts no transition out of it.
pub is_terminal_iff_stuck :
    (a : CommandLifecycleState)
    → (is_terminal_command_state a ≡ true)
      ↔ ((b : CommandLifecycleState) → ensure_command_transition a b ≡ ok tt → ⊥)
unfolding is_terminal_command_state ensure_command_transition
is_terminal_iff_stuck received = (λ h. cc, λ s. absurd (s parsing refl))
is_terminal_iff_stuck parsing = (λ h. cc, λ s. absurd (s validating refl))
is_terminal_iff_stuck validating = (λ h. cc, λ s. absurd (s expired refl))
is_terminal_iff_stuck needs_confirmation = (λ h. cc, λ s. absurd (s confirmed refl))
is_terminal_iff_stuck confirmed = (λ h. cc, λ s. absurd (s failed refl))
is_terminal_iff_stuck execution_requested = (λ h. cc, λ s. absurd (s failed refl))
is_terminal_iff_stuck executing = (λ h. cc, λ s. absurd (s failed refl))
is_terminal_iff_stuck _ = (λ h b e. cc, λ s. refl)

-- The states in which a command has not yet reached its operator's confirmation.
abbrev pub Unconfirmed : CommandLifecycleState → Type 0
Unconfirmed a = rank a ≤ 3

leave_Unconfirmed :
    (a b : CommandLifecycleState)
    → ensure_command_transition a b ≡ ok tt
    → Unconfirmed a
    → (b ≡ confirmed) ⊎ (is_terminal_command_state b ≡ true) ⊎ Unconfirmed b
unfolding ensure_command_transition is_terminal_command_state
leave_Unconfirmed a b h u = ground arith

terminal_stays :
    {a b : CommandLifecycleState} {l : List CommandLifecycleState}
    → is_terminal_command_state a ≡ true
    → History a l b
    → a ≡ b
terminal_stays t here = refl
terminal_stays t (next {a} {b} h r) = absurd ((is_terminal_iff_stuck a).0 t b h)

-- A command that starts unconfirmed and reaches EXECUTION_REQUESTED or EXECUTING has the state
-- CONFIRMED in its history.
pub execution_needs_confirmed :
    {a b : CommandLifecycleState} {l : List CommandLifecycleState}
    → History a l b
    → Unconfirmed a
    → (b ≡ execution_requested) ⊎ (b ≡ executing)
    → Memᴰ confirmed l
unfolding is_terminal_command_state
execution_needs_confirmed here u e = absurd (ground arith)
execution_needs_confirmed (next {a} {b} h r) u e = elim (leave_Unconfirmed a b h u) [
  | inl c ↦ Memᴰ.head (sym c)
  | inr (inl t) ↦ absurd (ground (arith, terminal_stays t r))
  | inr (inr w) ↦ Memᴰ.tail (execution_needs_confirmed r w e)
]
