-- ===== src/Common/Fallible.antt =====
-- Chains of statements that may raise, with no state beside them.
use mathlib.Core.Path.{◌≡◌, refl}
use gp4_ws.Common.Outcome.{Outcome, ok, raised}

infixl 5 ◌>>=◌ ◌>>◌
abbrev pub ◌>>=◌ {ℓ} : {E A B : Type ℓ} → Outcome E A → (A → Outcome E B) → Outcome E B
raised e >>= next = raised e
ok value >>= next = next value

abbrev pub ◌>>◌ {ℓ} : {E A B : Type ℓ} → Outcome E A → Outcome E B → Outcome E B
first >> second = first >>= λ _. second

-- `try: m except …: h`, for a handler that takes every exception of `E` or passes it on
abbrev pub catch {ℓ} : {E A : Type ℓ} → Outcome E A → (E → Outcome E A) → Outcome E A
catch (ok a) h = ok a
catch (raised e) h = h e

pub >>=-eq-ok {ℓ} :
    {E A B : Type ℓ} (first : Outcome E A) (next : A → Outcome E B) {answer : B}
    → (first >>= next) ≡ ok answer
    → (value : A) × (first ≡ ok value) × (next value ≡ ok answer)
>>=-eq-ok (raised e) next h = cc
>>=-eq-ok (ok value) next h = (value, refl, h)
