-- ===== src/Python.antt =====
-- What the safety package uses of Python itself: floats, the values of a JSON text, and the
-- conversions between them. Floats and the `json` module are parameters, in the record `PyLib`.
use gp4_ws.Common.{ℕ, String, Bool, true, false, not, ◌&&◌, Option, none, some, ◌==◌, if◌then◌else◌}
use gp4_ws.Common.Int.{ℤ, pos, int_eq}
use gp4_ws.Common.Outcome.{Outcome, ok, raised}

pub data PyError : Type 0 where
  type_error value_error overflow_error attribute_error key_error index_error : PyError

mutual
  pub data Json (F : Type 0) : Type 0 where
    null : Json F
    bool : Bool → Json F
    int : ℤ → Json F
    float : F → Json F
    str : String → Json F
    arr : Items F → Json F
    obj : Fields F → Json F

  pub data Items (F : Type 0) : Type 0 where
    nil : Items F
    cons : Json F → Items F → Items F

  pub data Fields (F : Type 0) : Type 0 where
    end : Fields F
    field : String → Json F → Fields F → Fields F

pub record PyLib : Type 1 where
  pub Float : Type 0
  pub lt : Float → Float → Bool
  pub le : Float → Float → Bool
  pub add : Float → Float → Float
  pub sub : Float → Float → Float
  pub mul : Float → Float → Float
  pub div : Float → Float → Float
  pub sqrt : Float → Float
  pub is_finite : Float → Bool
  -- the literal m * 10 ^ -k, and its negative
  pub decimal : ℕ → ℕ → Float
  pub negative : Float → Float
  -- `float(i)` and `float(text)`: `none` is an OverflowError and a ValueError
  pub of_int : ℤ → Option Float
  pub parse_float : String → Option Float
  -- `int(x)` of a float, which raises at a NaN and at an infinity, and of a text
  pub truncate : Float → Outcome PyError ℤ
  pub parse_int : String → Option ℤ
  -- `str(v).strip().upper()`
  pub strip_upper : Json Float → String
  -- `text.strip()`, and `str(v)` of a value that is no text
  pub strip : String → String
  pub render : Json Float → String
  -- `json.loads`, where `none` is a JSONDecodeError, and `json.dumps`
  pub loads : String → Option (Json Float)
  pub dumps : Json Float → String

-- d.get(key), of a dictionary
abbrev pub get_field : {F : Type 0} → String → Fields F → Option (Json F)
get_field key end = none
get_field key (field k v rest) = if k == key then some v else get_field key rest

-- d[key] = value
abbrev pub set_field : {F : Type 0} → String → Json F → Fields F → Fields F
set_field key value end = field key value end
set_field key value (field k v rest) =
    if k == key then field k value rest else field k v (set_field key value rest)

-- d.update(more)
abbrev pub update_fields : {F : Type 0} → Fields F → Fields F → Fields F
update_fields fields end = fields
update_fields fields (field k v rest) = update_fields (set_field k v fields) rest

-- d.get(key), where None is `null`
abbrev pub get_or_null : {F : Type 0} → String → Fields F → Json F
get_or_null key fields = elim (get_field key fields) [ none ↦ null | some v ↦ v ]

-- value.get(key): only a dictionary has the method
abbrev pub get : {F : Type 0} → String → Json F → Outcome PyError (Option (Json F))
get key (obj fields) = ok (get_field key fields)
get key _ = raised attribute_error

abbrev pub default : {F : Type 0} → Json F → Option (Json F) → Json F
default d none = d
default d (some v) = v

abbrev pub is_text : {F : Type 0} → String → Json F → Bool
is_text t (str s) = s == t
is_text t _ = false

abbrev pub is_hashable : {F : Type 0} → Json F → Bool
is_hashable (arr xs) = false
is_hashable (obj fs) = false
is_hashable _ = true

module _ (py : PyLib) where
  open py use {Float, le, lt, decimal, of_int, parse_float, truncate, parse_int}

  abbrev pub zero_float : Float
  zero_float = decimal 0 0

  abbrev pub ok_or : {A : Type 0} → PyError → Option A → Outcome PyError A
  ok_or e none = raised e
  ok_or e (some a) = ok a

  -- float(value)
  unfoldable pub to_float : Json Float → Outcome PyError Float
  to_float null = raised type_error
  to_float (bool b) = ok (if b then decimal 1 0 else decimal 0 0)
  to_float (int i) = ok_or overflow_error (of_int i)
  to_float (float f) = ok f
  to_float (str s) = ok_or value_error (parse_float s)
  to_float (arr xs) = raised type_error
  to_float (obj fs) = raised type_error

  -- int(value)
  unfoldable pub to_int : Json Float → Outcome PyError ℤ
  to_int null = raised type_error
  to_int (bool b) = ok (if b then pos 1 else pos 0)
  to_int (int i) = ok i
  to_int (float f) = truncate f
  to_int (str s) = ok_or value_error (parse_int s)
  to_int (arr xs) = raised type_error
  to_int (obj fs) = raised type_error

  -- x == 0.0, of two floats that compare
  abbrev pub is_zero : Float → Bool
  is_zero x = le x zero_float && le zero_float x

  -- bool(value)
  unfoldable pub is_truthy : Json Float → Bool
  is_truthy null = false
  is_truthy (bool b) = b
  is_truthy (int i) = not (int_eq i (pos 0))
  is_truthy (float f) = not (is_zero f)
  is_truthy (str s) = not (s == "")
  is_truthy (arr nil) = false
  is_truthy (arr (cons x xs)) = true
  is_truthy (obj end) = false
  is_truthy (obj (field k v fs)) = true

  abbrev pub is_truthy_opt : Option (Json Float) → Bool
  is_truthy_opt none = false
  is_truthy_opt (some v) = is_truthy v

  -- str(value)
  unfoldable pub to_text : Json Float → String
  to_text (str s) = s
  to_text v = py.render v

  -- str(value or default)
  abbrev pub text_or : String → Json Float → String
  text_or d v = if is_truthy v then to_text v else d
