-- ===== src/Dispatch/Targets.antt =====
-- Which joint a command names.
use gp4_ws.Common.{
  ℕ, zero, suc, ◌-◌, ◌<◌, String, Bool, true, false, Option, none, some, List, [], ◌∷◌, length, ◌≡◌,
  subst, arith, ◌==◌, if◌then◌else◌, Option-cases, inl, inr,
}
use gp4_ws.Common.Outcome.{Outcome, ok}
use gp4_ws.Common.Fallible.{◌>>=◌, >>=-eq-ok}
use gp4_ws.Python.{PyLib, PyError, Fields, get_or_null}
use gp4_ws.Dispatch.Joints.{
  TextLib, Joint, get_elem?, name_to_index, zero_based, zero_or_one_based, joint_at, candidate,
  raw_name, by_joint_index, found_or, pattern_or, resolve_joint_target,
}

-- A position of `names` with the name that stands there
pub record IsJoint (names : List String) (joint : Joint) : Type 0 where
  pub in_range : joint.0 < length names
  pub name_there : get_elem? names joint.0 ≡ some joint.1

get_elem?-length :
    (names : List String) (i : ℕ) {name : String} → get_elem? names i ≡ some name → i < length names
get_elem?-length [] i h = cc
get_elem?-length (x ∷ xs) zero h = omega arith
get_elem?-length (x ∷ xs) (suc i) h = omega (arith, get_elem?-length xs i h)

Found : List String → Outcome PyError (Option Joint) → Type 0
Found names outcome = (joint : Joint) → outcome ≡ ok (some joint) → IsJoint names joint

joint_at-Found : (names : List String) (i : ℕ) → Found names (joint_at names i)
unfolding Found
joint_at-Found names i joint h = elim (Option-cases (get_elem? names i)) [
  | inl e ↦ cc (e, h)
  | inr (name, e) ↦
      let same : (i, name) ≡ joint = cc (e, h) in
      subst (IsJoint names) same (record { in_range = get_elem?-length names i e; name_there = e })
]

if_Found :
    (names : List String) (test : Bool) (a b : Outcome PyError (Option Joint))
    → Found names a
    → Found names b
    → Found names (if test then a else b)
if_Found names true a b h k = h
if_Found names false a b h k = k

module _ (py : PyLib) (tx : TextLib) (names : List String) where
  open py use {Float}

  found_or-Found :
      (i : Option ℕ) (next : Outcome PyError (Option Joint))
      → Found names next
      → Found names (found_or py tx names i next)
  found_or-Found none next h = h
  found_or-Found (some i) next h = joint_at-Found names i

  pattern_or-Found :
      (digit : Option ℕ) (next : Outcome PyError (Option Joint))
      → Found names next
      → Found names (pattern_or py tx names digit next)
  pattern_or-Found none next h = h
  pattern_or-Found (some digit) next h = joint_at-Found names (digit - 1)

  candidate-Found :
      (outcome : Outcome PyError (Option ℕ)) (next : Outcome PyError (Option Joint))
      → Found names next
      → Found names (outcome >>= λ i. found_or py tx names i next)
  unfolding Found
  candidate-Found outcome next h joint e =
      let (i, _, rest) = >>=-eq-ok outcome _ e in found_or-Found i next h joint rest

  none-Found : Found names (ok none)
  unfolding Found
  none-Found joint e = cc

  -- A joint that a command resolves to is a position in the list of joint names, with the name that
  -- stands at this position, whether it was read from either index or from the name.
  pub resolve_joint_target-IsJoint :
      (parameters : Fields Float) {joint : Joint}
      → resolve_joint_target py tx parameters names ≡ ok (some joint)
      → IsJoint names joint
  unfolding resolve_joint_target Found
  resolve_joint_target-IsJoint parameters {joint} e =
      candidate-Found
        (candidate py tx (zero_based (length names)) (get_or_null "jointIndexZeroBased" parameters))
        _
        (if_Found names (raw_name py tx parameters == "") _ _ last (
          found_or-Found (name_to_index names (raw_name py tx parameters)) _
            (pattern_or-Found (tx.joint_pattern (raw_name py tx parameters)) _ last)))
        joint e
    where
      last : Found names (by_joint_index py tx parameters names)
      last =
          candidate-Found
            (candidate py tx (zero_or_one_based (length names))
              (get_or_null "jointIndex" parameters))
            _ none-Found
