-- ===== src/Common/Outcome.antt =====
-- Methods that mutate an object and may raise: what was written before a raise stays written, so
-- the state comes back beside the exception too.
use mathlib.Core.Bool.{Bool, true, false}
use gp4_ws.Common.Tests.{if◌then◌else◌}

pub data Outcome {ℓ} (E : Type ℓ) (A : Type ℓ) : Type ℓ where
  ok : A → Outcome E A
  raised : E → Outcome E A

abbrev pub Exec : Type 0 → Type 0 → Type 0 → Type 0
Exec S E A = S → Outcome E A × S

module _ {S E A : Type 0} where
  unfoldable pub pure : A → Exec S E A
  pure a s = (ok a, s)

  unfoldable pub raise : E → Exec S E A
  raise e s = (raised e, s)

  unfoldable pub lift : Outcome E A → Exec S E A
  lift r s = (r, s)

  unfoldable pub gets : (S → A) → Exec S E A
  gets f s = (ok (f s), s)

module _ {S E : Type 0} where
  unfoldable pub update : (S → S) → Exec S E (Unit {0})
  update f s = (ok tt, f s)

  -- `if not b: raise e`
  unfoldable pub require : Bool → E → Exec S E (Unit {0})
  require b e s = if b then (ok tt, s) else (raised e, s)

module _ {S E A B : Type 0} where
  abbrev pub continue : Outcome E A → (A → Exec S E B) → Exec S E B
  continue (ok a) f s = f a s
  continue (raised e) f s = (raised e, s)

  infixl 5 ◌>>=◌ ◌>>◌
  unfoldable pub ◌>>=◌ : Exec S E A → (A → Exec S E B) → Exec S E B
  unfolding pure raise lift gets update require
  ◌>>=◌ m f s = let (r, s') = m s in continue r f s'

  abbrev pub ◌>>◌ : Exec S E A → Exec S E B → Exec S E B
  m >> n = m >>= λ _. n

-- From a state with `P` the statements end in a state with `P`, at a return and at an exception.
pub record Keeps {S E A : Type 0} (P : S → Type 0) (m : Exec S E A) : Type 0 where
  pub at : (s : S) → P s → P (m s).1

module _ {S E A : Type 0} {P : S → Type 0} where
  pub Keeps-if :
      (test : Bool) (m n : Exec S E A) → Keeps P m → Keeps P n → Keeps P (if test then m else n)
  Keeps-if false m n km kn = kn
  Keeps-if true m n km kn = km

  -- The statements that write nothing
  Keeps-still : (answer : S → Outcome E A) → Keeps P (λ s. (answer s, s))
  Keeps-still answer = record { at = λ s held. held }

  pub Keeps-gets : (read : S → A) → Keeps P (gets {E = E} read)
  unfolding gets
  Keeps-gets read = Keeps-still (λ s. ok (read s))

  pub Keeps-lift : (outcome : Outcome E A) → Keeps P (lift outcome)
  unfolding lift
  Keeps-lift outcome = Keeps-still (λ _. outcome)

  pub Keeps-pure : (value : A) → Keeps P (pure {E = E} value)
  unfolding pure
  Keeps-pure value = Keeps-still (λ _. ok value)

  pub Keeps-raise : (error : E) → Keeps P (raise {A = A} error)
  unfolding raise
  Keeps-raise error = Keeps-still (λ _. raised error)

module _ {S E : Type 0} {P : S → Type 0} where
  pub Keeps-require : (b : Bool) (e : E) → Keeps P (require {S = S} b e)
  unfolding require
  Keeps-require true e = record { at = λ s h. h }
  Keeps-require false e = record { at = λ s h. h }

module _ {S E A B : Type 0} {P : S → Type 0} where
  Keeps-continue :
      (r : Outcome E A) (f : A → Exec S E B) (s : S)
      → ((a : A) → Keeps P (f a))
      → P s
      → P (continue r f s).1
  Keeps-continue (ok a) f s kf h = (kf a).at s h
  Keeps-continue (raised e) f s kf h = h

  pub Keeps-bind :
      (m : Exec S E A) (next : A → Exec S E B)
      → Keeps P m
      → ((value : A) → Keeps P (next value))
      → Keeps P (m >>= next)
  unfolding ◌>>=◌
  Keeps-bind m next km kn = record {
    at = λ s held. let (r, t) = m s in Keeps-continue r next t kn (km.at s held);
  }

-- What holds of the value and the state after a return, and of the state after a raise.
abbrev pub After : {S E A : Type 0} → (A → S → Type 0) → (S → Type 0) → Outcome E A × S → Type 0
After Q R (ok a, s) = Q a s
After Q R (raised e, s) = R s

module _ {S E A : Type 0} (P : S → Type 0) where
  pub After-of : (r : Outcome E A × S) → P r.1 → After (λ _. P) P r
  After-of (ok a, t) g = g
  After-of (raised e, t) g = g

  pub After-state : (r : Outcome E A × S) → After (λ _. P) P r → P r.1
  After-state (ok a, t) g = g
  After-state (raised e, t) g = g

  pub Keeps-After : (m : Exec S E A) (s : S) → Keeps P m → P s → After (λ _. P) P (m s)
  Keeps-After m s k h = After-of (m s) (k.at s h)

  pub After-weaken :
      (Q : A → S → Type 0) (R : S → Type 0) (r : Outcome E A × S)
      → After Q R r
      → ((s : S) → R s → P s)
      → After Q P r
  After-weaken Q R (ok a, t) g w = g
  After-weaken Q R (raised e, t) g w = w t g

module _ {S E A B : Type 0} where
  pub After-bind :
      (m : Exec S E A) (f : A → Exec S E B) (Q : A → S → Type 0) (Q' : B → S → Type 0)
      (R : S → Type 0) (s : S)
      → After Q R (m s)
      → ((a : A) (t : S) → Q a t → After Q' R (f a t))
      → After Q' R ((m >>= f) s)
  unfolding ◌>>=◌
  After-bind m f Q Q' R s h k = by_outcome (m s) h
    where
      by_outcome : (r : Outcome E A × S) → After Q R r → After Q' R (continue r.0 f r.1)
      by_outcome (ok a, t) g = k a t g
      by_outcome (raised e, t) g = g

pub ruleset keeps_rules =
    (Keeps-bind, Keeps-if, Keeps-require, Keeps-gets, Keeps-lift, Keeps-raise, Keeps-pure)

-- The state after a statement, and the statements that follow a return
pub continue-state :
    {S E A B : Type 0} (P : S → Type 0) (r : Outcome E A) (f : A → Exec S E B) (s : S)
    → P s
    → ((a : A) → P (f a s).1)
    → P (continue r f s).1
continue-state P (ok a) f s h k = k a
continue-state P (raised e) f s h k = h
