-- ===== src/Dispatch/Primitive.antt =====
-- The primitive of a dictionary that was built.
use gp4_ws.Common.{
  String, Bool, true, false, Option, none, some, List, ◌≡◌, refl, subst, arith, ◌==◌, ◌||◌, mem_str,
  if◌then◌else◌, Bool-cases, inl, inr, eq_iff,
}
use gp4_ws.Common.Outcome.{Outcome, ok, raised}
use gp4_ws.Common.Fallible.{◌>>=◌, >>=-eq-ok}
use gp4_ws.Python.{
  PyLib, PyError, value_error, Json, null, str, obj, Fields, end, field, get_field, get_or_null,
  set_field, update_fields, is_truthy, text_or,
}
use gp4_ws.Dispatch.Joints.{TextLib, JointPosition, gp4_joint_names, resolve_joint_target}
use gp4_ws.Dispatch.Payload.{
  primitive_actions, metres, target_deg, joint_or_error, build_move_cartesian_delta_payload,
  build_move_joint_delta_payload, payload_of_action, parameters_of, normalized_command,
  payload_of_intent, build_command_payload,
}

-- The dictionary has the key.
pub record HasKey {F : Type 0} (key : String) (fields : Fields F) : Type 0 where
  pub value : Json F
  pub at : get_field key fields ≡ some value

module _ {F : Type 0} (key : String) where
  get_field-set_field :
      (k : String) (v : Json F) (fields : Fields F)
      → get_field key (set_field k v fields) ≡ (if k == key then some v else get_field key fields)
  get_field-set_field k v end = refl
  get_field-set_field k v (field j w rest) =
      ground (arith, eq_iff k key, eq_iff j k, eq_iff j key, get_field-set_field k v rest)

  set_field-HasKey :
      (k : String) (v : Json F) (fields : Fields F)
      → HasKey key fields
      → HasKey key (set_field k v fields)
  set_field-HasKey k v fields h = elim (Bool-cases (k == key)) [
    | inl e ↦ record { value = v; at = rw (get_field-set_field k v fields, e) refl }
    | inr e ↦ record { value = h.value; at = rw (get_field-set_field k v fields, e) h.at }
  ]

  update_fields-HasKey :
      (fields more : Fields F) → HasKey key fields → HasKey key (update_fields fields more)
  update_fields-HasKey fields end h = h
  update_fields-HasKey fields (field k v rest) h =
      update_fields-HasKey (set_field k v fields) rest (set_field-HasKey k v fields h)

module _ (py : PyLib) where
  open py use {Float, strip}

  truthy-HasKey :
      (key : String) (fields : Fields Float)
      → is_truthy py (get_or_null key fields) ≡ true
      → HasKey key fields
  unfolding is_truthy
  truthy-HasKey key fields h = by_field (get_field key fields) refl h
    where
      by_field :
          (o : Option (Json Float))
          → get_field key fields ≡ o
          → is_truthy py (elim o as (λ _. Json Float) [ none ↦ null | some v ↦ v ]) ≡ true
          → HasKey key fields
      by_field none e t = cc
      by_field (some v) e t = record { value = v; at = e }

  -- the dictionaries of an outcome have a primitive type
  Primitive : Outcome PyError (Fields Float) → Type 0
  Primitive outcome =
      (payload : Fields Float) → outcome ≡ ok payload → HasKey "primitive_type" payload

  if_Primitive :
      (test : Bool) (a b : Outcome PyError (Fields Float))
      → (test ≡ true → Primitive a)
      → (test ≡ false → Primitive b)
      → Primitive (if test then a else b)
  if_Primitive true a b h k = h refl
  if_Primitive false a b h k = k refl

  ok-Primitive : (fields : Fields Float) → HasKey "primitive_type" fields → Primitive (ok fields)
  unfolding Primitive
  ok-Primitive fields h payload e = subst (HasKey "primitive_type") (same_ok e) h
    where
      same_ok :
          {a b : Fields Float} → ◌≡◌ {A = Outcome PyError (Fields Float)} (ok a) (ok b) → a ≡ b
      same_ok e = cc

  first-HasKey :
      (v : Json Float) (rest : Fields Float)
      → HasKey "primitive_type" (field "primitive_type" v rest)
  first-HasKey v rest = record { value = v; at = refl }

  bind-Primitive :
      {A : Type 0} (m : Outcome PyError A) (next : A → Outcome PyError (Fields Float))
      → ((a : A) → Primitive (next a))
      → Primitive (m >>= next)
  unfolding Primitive
  bind-Primitive m next h payload e = let (a, _, rest) = >>=-eq-ok m next e in h a payload rest

  raised-Primitive : (error : PyError) → Primitive (raised error)
  unfolding Primitive
  raised-Primitive error payload e = cc

  cartesian-Primitive :
      (parameters : Fields Float) → Primitive (build_move_cartesian_delta_payload py parameters)
  unfolding build_move_cartesian_delta_payload
  cartesian-Primitive parameters =
      bind-Primitive
        (if frame == "" || frame == "base_link" then ok (tt {0}) else raised value_error) _
        (λ _. bind-Primitive (metres py "xMm" parameters) _ (λ x.
          bind-Primitive (metres py "yMm" parameters) _ (λ y.
            bind-Primitive (metres py "zMm" parameters) _
              (λ z. ok-Primitive _ (first-HasKey (str "MOVE_REL") _)))))
    where
      frame : String
      frame = text_or py "base_link" (get_or_null "frame" parameters)

  module _ (tx : TextLib) (positions : List (JointPosition Float)) where
    joint-Primitive :
        (parameters : Fields Float)
        → Primitive (build_move_joint_delta_payload py tx positions parameters)
    unfolding build_move_joint_delta_payload
    joint-Primitive parameters =
        bind-Primitive (resolve_joint_target py tx parameters gp4_joint_names) _ (λ found.
          bind-Primitive (joint_or_error py found) _ (λ joint.
            bind-Primitive
              (target_deg py positions joint.0 parameters
                (get_or_null "resolvedTargetDeg" parameters))
              _ (λ deg. ok-Primitive _ (first-HasKey (str "MOVE_JOINT") _))))

    action-Primitive :
        (action : String) (parameters : Fields Float)
        → Primitive (payload_of_action py tx positions action parameters)
    action-Primitive action parameters =
        if_Primitive (mem_str (tx.upper action) primitive_actions) _ _
          (λ _.
            ok-Primitive _
              (update_fields-HasKey "primitive_type" _ parameters (first-HasKey (str _) _)))
          (λ _.
            if_Primitive (action == "move_home") _ _ (λ _. ok-Primitive _ (first-HasKey (str _) _))
              (λ _.
                if_Primitive (action == "stop") _ _ (λ _. ok-Primitive _ (first-HasKey (str _) _))
                  (λ _.
                    if_Primitive (action == "move_cartesian_delta") _ _
                      (λ _. cartesian-Primitive parameters)
                      (λ _.
                        if_Primitive (action == "move_joint_delta") _ _
                          (λ _. joint-Primitive parameters) (λ _. raised-Primitive value_error)))))

    normalized_command-HasKey :
        (v : Json Float) {fields : Fields Float}
        → normalized_command py tx positions v ≡ some fields
        → HasKey "primitive_type" fields
    normalized_command-HasKey (obj given) {fields} e =
        elim (Bool-cases (is_truthy py (get_or_null "primitive_type" given))) [
          | inl h ↦
              subst (HasKey "primitive_type") (same_some (rw h at e))
                (truthy-HasKey "primitive_type" given h)
          | inr h ↦ cc (rw h at e)
        ]
      where
        same_some : {a b : Fields Float} → ◌≡◌ {A = Option (Fields Float)} (some a) (some b) → a ≡ b
        same_some e = cc
    normalized_command-HasKey v e = cc

    -- Every dictionary that is built for a command has a primitive type.
    pub build_command_payload-HasKey :
        (to_dict : Json Float → Outcome PyError (Fields Float)) (parsed_intent : Fields Float)
        {payload : Fields Float}
        → build_command_payload py tx positions to_dict parsed_intent ≡ ok payload
        → HasKey "primitive_type" payload
    unfolding build_command_payload Primitive
    build_command_payload-HasKey to_dict parsed_intent {payload} e =
        by_command
          (normalized_command py tx positions (get_or_null "normalizedCommand" parsed_intent)) refl
          payload e
      where
        by_command :
            (o : Option (Fields Float))
            → normalized_command py tx positions (get_or_null "normalizedCommand" parsed_intent) ≡ o
            → Primitive (payload_of_intent py tx positions to_dict parsed_intent o)
        by_command (some command) h = ok-Primitive command (normalized_command-HasKey _ h)
        by_command none h =
            bind-Primitive
              (parameters_of py tx positions to_dict (get_or_null "parameters" parsed_intent)) _
              (λ parameters.
                if_Primitive (is_truthy py (get_or_null "primitive_type" parsed_intent)) _ _
                  (λ t. ok-Primitive parsed_intent (truthy-HasKey "primitive_type" parsed_intent t))
                  (λ _. action-Primitive _ parameters))
