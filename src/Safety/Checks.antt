-- ===== src/Safety/Checks.antt =====
-- Checks that accept, refuse with a reason, or raise: `none` is `(True, "")`.
use gp4_ws.Common.{Bool, true, false, Option, none, some, ◌≡◌, refl, if◌then◌else◌}
use gp4_ws.Common.Outcome.{Outcome, ok, raised}
use gp4_ws.Python.{PyError, type_error, value_error, key_error}

abbrev pub Check : Type 0 → Type 0
Check R = Outcome PyError (Option R)

module _ {R : Type 0} where
  -- `if b: return False, reason`, and the statements after it
  abbrev pub refuse_if : Bool → R → Check R → Check R
  refuse_if b reason rest = if b then ok (some reason) else rest

  -- a check, and the statements that run if it accepts
  abbrev pub and_then : Check R → Check R → Check R
  and_then (ok none) rest = rest
  and_then (ok (some reason)) rest = ok (some reason)
  and_then (raised e) rest = raised e

  -- `except (TypeError, ValueError)`; other exceptions pass
  abbrev pub numeric_or : {A : Type 0} → R → Outcome PyError A → (A → Check R) → Check R
  numeric_or reason (ok a) next = next a
  numeric_or reason (raised value_error) next = ok (some reason)
  numeric_or reason (raised type_error) next = ok (some reason)
  numeric_or reason (raised e) next = raised e

  -- `except (TypeError, ValueError, KeyError)`
  abbrev pub indexed_or : {A : Type 0} → R → Outcome PyError A → (A → Check R) → Check R
  indexed_or reason (ok a) next = next a
  indexed_or reason (raised value_error) next = ok (some reason)
  indexed_or reason (raised type_error) next = ok (some reason)
  indexed_or reason (raised key_error) next = ok (some reason)
  indexed_or reason (raised e) next = raised e

  -- Inversions of a check that accepts
  pub refuse_if-accepts :
      (b : Bool) (reason : R) (rest : Check R)
      → refuse_if b reason rest ≡ ok none
      → (b ≡ false) × (rest ≡ ok none)
  refuse_if-accepts true reason rest h = cc
  refuse_if-accepts false reason rest h = (refl, h)

  pub raise_if-accepts :
      (b : Bool) (e : PyError) (rest : Check R)
      → (if b then raised e else rest) ≡ ok none
      → (b ≡ false) × (rest ≡ ok none)
  raise_if-accepts true e rest h = cc
  raise_if-accepts false e rest h = (refl, h)

  pub and_then-accepts :
      (m rest : Check R) → and_then m rest ≡ ok none → (m ≡ ok none) × (rest ≡ ok none)
  and_then-accepts (ok none) rest h = (refl, h)
  and_then-accepts (ok (some reason)) rest h = cc
  and_then-accepts (raised e) rest h = cc

  pub numeric_or-accepts :
      {A : Type 0} (reason : R) (m : Outcome PyError A) (next : A → Check R)
      → numeric_or reason m next ≡ ok none
      → (a : A) × (m ≡ ok a) × (next a ≡ ok none)
  numeric_or-accepts reason (ok a) next h = (a, refl, h)
  numeric_or-accepts reason (raised value_error) next h = cc
  numeric_or-accepts reason (raised type_error) next h = cc
  numeric_or-accepts reason (raised e) next h = cc

  pub indexed_or-accepts :
      {A : Type 0} (reason : R) (m : Outcome PyError A) (next : A → Check R)
      → indexed_or reason m next ≡ ok none
      → (a : A) × (m ≡ ok a) × (next a ≡ ok none)
  indexed_or-accepts reason (ok a) next h = (a, refl, h)
  indexed_or-accepts reason (raised value_error) next h = cc
  indexed_or-accepts reason (raised type_error) next h = cc
  indexed_or-accepts reason (raised key_error) next h = cc
  indexed_or-accepts reason (raised e) next h = cc

abbrev pub relabel : {R S : Type 0} → (R → S) → Check R → Check S
relabel f (ok none) = ok none
relabel f (ok (some r)) = ok (some (f r))
relabel f (raised e) = raised e

pub relabel-accepts : {R S : Type 0} (f : R → S) (m : Check R) → relabel f m ≡ ok none → m ≡ ok none
relabel-accepts f (ok none) h = refl
relabel-accepts f (ok (some r)) h = cc
relabel-accepts f (raised e) h = cc
