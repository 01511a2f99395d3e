-- ===== src/Dispatch/Joints.antt =====
-- hmi/backend/domain/joint_utils.py and constants.py: the joint that a command names.
use gp4_ws.Common.{
  ℕ, zero, suc, ◌-◌, ltb, String, Bool, Option, none, some, List, [], ◌∷◌, length, ◌==◌,
  if◌then◌else◌,
}
use gp4_ws.Common.Int.{ℤ, pos, negsuc}
use gp4_ws.Common.Outcome.{Outcome, ok, raised}
use gp4_ws.Common.Fallible.{◌>>=◌}
use gp4_ws.Python.{
  PyLib, PyError, type_error, value_error, index_error, Json, Fields, get_or_null, to_int, to_text,
  is_truthy,
}

abbrev pub gp4_joint_names : List String
gp4_joint_names =
    "joint_1_s" ∷ "joint_2_l" ∷ "joint_3_u" ∷ "joint_4_r" ∷ "joint_5_b" ∷ "joint_6_t" ∷ []

abbrev pub get_elem? : List String → ℕ → Option String
get_elem? [] i = none
get_elem? (x ∷ xs) zero = some x
get_elem? (x ∷ xs) (suc i) = get_elem? xs i

-- `{name: i for i, name in enumerate(names)}.get(name)`: the last position of a name counts
abbrev pub name_to_index : List String → String → Option ℕ
name_to_index [] name = none
name_to_index (x ∷ xs) name = elim (name_to_index xs name) [
  | some i ↦ some (suc i)
  | none ↦ if x == name then some 0 else none
]

-- `0 <= candidate < count`
abbrev pub zero_based : ℕ → ℤ → Option ℕ
zero_based count (pos n) = if ltb n count then some n else none
zero_based count (negsuc n) = none

-- the same, else `1 <= candidate <= count`
abbrev pub zero_or_one_based : ℕ → ℤ → Option ℕ
zero_or_one_based count (pos zero) = zero_based count (pos zero)
zero_or_one_based count (pos (suc n)) =
    if ltb (suc n) count then some (suc n) else (if ltb n count then some n else none)
zero_or_one_based count (negsuc n) = none

abbrev pub Joint : Type 0
Joint = ℕ × String

abbrev named : ℕ → Option String → Outcome PyError (Option Joint)
named i none = raised index_error
named i (some name) = ok (some (i, name))

-- `return i, joint_names[i]`
abbrev pub joint_at : List String → ℕ → Outcome PyError (Option Joint)
joint_at names i = named i (get_elem? names i)

-- `try: int(…) except (TypeError, ValueError): None`
abbrev pub or_none : Outcome PyError ℤ → Outcome PyError (Option ℤ)
or_none (ok i) = ok (some i)
or_none (raised type_error) = ok none
or_none (raised value_error) = ok none
or_none (raised e) = raised e

abbrev read_candidate : (ℤ → Option ℕ) → Option ℤ → Option ℕ
read_candidate read none = none
read_candidate read (some i) = read i

-- The text and pattern operations of Python that the adapter uses
pub record TextLib : Type 0 where
  -- `text.lower()` and `text.upper()`
  pub lower : String → String
  pub upper : String → String
  -- the digit in a text that `re.fullmatch` matches with joint[_\s-]*([1-6])(?:[_\s-].+)?
  pub joint_pattern : String → Option ℕ
  -- the characters of a text, as texts
  pub characters : String → List String
  -- `"cancel" in text`
  pub has_cancel : String → Bool

module _ (py : PyLib) (tx : TextLib) where
  open py use {Float, strip}

  abbrev pub or_value : Json Float → Json Float → Json Float
  or_value v w = if is_truthy py v then v else w

  abbrev pub candidate : (ℤ → Option ℕ) → Json Float → Outcome PyError (Option ℕ)
  candidate read Json.null = ok none
  candidate read v = do i ← or_none (to_int py v); ok (read_candidate read i)

  -- `raw_name`
  abbrev pub raw_name : Fields Float → String
  raw_name parameters = tx.lower (
      strip (
        to_text py (
          or_value (get_or_null "jointNameResolved" parameters) (
            or_value (get_or_null "joint" parameters)
              (or_value (get_or_null "jointName" parameters) (Json.str ""))))))

  abbrev pub found_or :
      List String → Option ℕ → Outcome PyError (Option Joint) → Outcome PyError (Option Joint)
  found_or names none next = next
  found_or names (some i) next = joint_at names i

  abbrev pub pattern_or :
      List String → Option ℕ → Outcome PyError (Option Joint) → Outcome PyError (Option Joint)
  pattern_or names none next = next
  pattern_or names (some digit) next = joint_at names (digit - 1)

  abbrev pub by_joint_index : Fields Float → List String → Outcome PyError (Option Joint)
  by_joint_index parameters names = do
    i ← candidate (zero_or_one_based (length names)) (get_or_null "jointIndex" parameters)
    found_or names i (ok none)

  abbrev pub by_name :
      String → List String → Outcome PyError (Option Joint) → Outcome PyError (Option Joint)
  by_name name names next =
      if name == ""
      then next
      else found_or names (name_to_index names name) (pattern_or names (tx.joint_pattern name) next)

  unfoldable pub resolve_joint_target : Fields Float → List String → Outcome PyError (Option Joint)
  resolve_joint_target parameters names = do
    i ← candidate (zero_based (length names)) (get_or_null "jointIndexZeroBased" parameters)
    found_or names i (by_name (raw_name parameters) names (by_joint_index parameters names))

pub record JointPosition (F : Type 0) : Type 0 where
  pub name : String
  pub position_deg : Option F

unfoldable pub read_joint_position_deg : {F : Type 0} → String → List (JointPosition F) → Option F
read_joint_position_deg joint_name [] = none
read_joint_position_deg joint_name (joint ∷ joints) =
    if joint.name == joint_name
    then joint.position_deg
    else read_joint_position_deg joint_name joints
