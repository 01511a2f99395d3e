-- ===== src/Dispatch/KeyErrors.antt =====
-- The request of ValidateCommand for a dictionary that was built.
use gp4_ws.Common.{String, Option, none, some, List, ◌≡◌, ◌≢◌}
use gp4_ws.Common.Outcome.{Outcome, ok, raised}
use gp4_ws.Common.Fallible.{◌>>=◌}
use gp4_ws.Python.{
  PyLib, PyError, key_error, Json, null, bool, int, float, str, arr, obj, Fields, end, get_field,
  to_float, ok_or,
}
use gp4_ws.Dispatch.Joints.{TextLib, JointPosition}
use gp4_ws.Dispatch.Payload.{float_field, build_command_payload}
use gp4_ws.Dispatch.Goal.{
  dict_to_pose, member, coordinate, pose_of, primitive_or_error, cartesian_path_target_pose,
  validate_request,
}
use gp4_ws.Dispatch.Primitive.{HasKey, build_command_payload-HasKey}

-- The outcome is no KeyError.
KeyFree : {A : Type 0} → Outcome PyError A → Type 0
KeyFree m = m ≢ raised key_error

KeyFree-bind :
    {A B : Type 0} (m : Outcome PyError A) (next : A → Outcome PyError B)
    → KeyFree m
    → ((a : A) → KeyFree (next a))
    → KeyFree (m >>= next)
unfolding KeyFree
KeyFree-bind (ok a) next h k = k a
KeyFree-bind (raised e) next h k = λ r. h (cc r)

KeyFree-ok : {A : Type 0} (a : A) → KeyFree {A = A} (ok a)
unfolding KeyFree
KeyFree-ok a = λ r. cc

KeyFree-raised : (A : Type 0) (e : PyError) → e ≢ key_error → KeyFree {A = A} (raised e)
unfolding KeyFree
KeyFree-raised A e h = λ r. h (cc r)

module _ (py : PyLib) (tx : TextLib) where
  open py use {Float, decimal}

  ok_or-KeyFree : {A : Type 0} (e : PyError) (o : Option A) → e ≢ key_error → KeyFree (ok_or py e o)
  ok_or-KeyFree e none h = KeyFree-raised _ e h
  ok_or-KeyFree e (some a) h = KeyFree-ok a

  to_float-KeyFree : (v : Json Float) → KeyFree (to_float py v)
  unfolding to_float
  to_float-KeyFree null = KeyFree-raised _ _ (λ h. cc)
  to_float-KeyFree (bool b) = KeyFree-ok _
  to_float-KeyFree (int i) = ok_or-KeyFree _ (py.of_int i) (λ h. cc)
  to_float-KeyFree (float f) = KeyFree-ok f
  to_float-KeyFree (str s) = ok_or-KeyFree _ (py.parse_float s) (λ h. cc)
  to_float-KeyFree (arr xs) = KeyFree-raised _ _ (λ h. cc)
  to_float-KeyFree (obj fs) = KeyFree-raised _ _ (λ h. cc)

  member-KeyFree : (key : String) (other v : Json Float) → KeyFree (member py tx key other v)
  member-KeyFree key other (obj fields) = KeyFree-ok _
  member-KeyFree key other v = KeyFree-raised _ _ (λ h. cc)

  coordinate-KeyFree :
      (key : String) (other : Float) (v : Json Float) → KeyFree (coordinate py tx key other v)
  coordinate-KeyFree key other v =
      KeyFree-bind (member py tx key (float other) v) (to_float py)
        (member-KeyFree key (float other) v) to_float-KeyFree

  -- a coordinate, and what follows it
  with_coordinate :
      {B : Type 0} (key : String) (other : Float) (v : Json Float)
      (next : Float → Outcome PyError B)
      → ((x : Float) → KeyFree (next x))
      → KeyFree (coordinate py tx key other v >>= next)
  with_coordinate key other v next =
      KeyFree-bind (coordinate py tx key other v) next (coordinate-KeyFree key other v)

  dict_to_pose-KeyFree : (v : Json Float) → KeyFree (dict_to_pose py tx v)
  unfolding dict_to_pose
  dict_to_pose-KeyFree v =
      KeyFree-bind (member py tx "position" (obj end) v) _ (member-KeyFree "position" (obj end) v)
        (λ p.
          KeyFree-bind (member py tx "orientation" (obj end) v) _
            (member-KeyFree "orientation" (obj end) v)
            (λ q. with_coordinate "x" (decimal 0 0) p _ (λ x.
              with_coordinate "y" (decimal 0 0) p _ (λ y.
                with_coordinate "z" (decimal 0 0) p _ (λ z.
                  with_coordinate "x" (decimal 0 0) q _ (λ qx.
                    with_coordinate "y" (decimal 0 0) q _ (λ qy.
                      with_coordinate "z" (decimal 0 0) q _
                        (λ qz. with_coordinate "w" (decimal 1 0) q _ (λ qw. KeyFree-ok _)))))))))

  pose_of-KeyFree : (o : Option (Fields Float)) → KeyFree (pose_of py tx o)
  pose_of-KeyFree none = KeyFree-ok none
  pose_of-KeyFree (some pose) =
      KeyFree-bind (dict_to_pose py tx (obj pose)) _ (dict_to_pose-KeyFree (obj pose))
        (λ p. KeyFree-ok _)

  primitive_or_error-KeyFree :
      (payload : Fields Float)
      → HasKey "primitive_type" payload
      → KeyFree (primitive_or_error py tx (get_field "primitive_type" payload))
  unfolding KeyFree
  primitive_or_error-KeyFree payload h = rw (h.at) (λ r. cc)

  validate_request-KeyFree :
      (payload : Fields Float)
      → HasKey "primitive_type" payload
      → KeyFree (validate_request py tx payload)
  unfolding validate_request
  validate_request-KeyFree payload h =
      KeyFree-bind (primitive_or_error py tx (get_field "primitive_type" payload)) _
        (primitive_or_error-KeyFree payload h)
        (λ name.
          KeyFree-bind (float_field py "velocity_scale" payload) _ (to_float-KeyFree _) (λ scale.
            KeyFree-bind (pose_of py tx (cartesian_path_target_pose py tx payload)) _
              (pose_of-KeyFree (cartesian_path_target_pose py tx payload)) (λ pose. KeyFree-ok _)))

  -- A dictionary that is built for a command, on any of the ways to build it, has a primitive type, and
  -- the request of ValidateCommand that is made of it raises no KeyError.
  pub validate_request-build_command_payload :
      (positions : List (JointPosition Float))
      (to_dict : Json Float → Outcome PyError (Fields Float)) (parsed_intent : Fields Float)
      {payload : Fields Float}
      → build_command_payload py tx positions to_dict parsed_intent ≡ ok payload
      → HasKey "primitive_type" payload × (validate_request py tx payload ≢ raised key_error)
  unfolding KeyFree
  validate_request-build_command_payload positions to_dict parsed_intent {payload} e =
      let has = build_command_payload-HasKey py tx positions to_dict parsed_intent e in
      (has, validate_request-KeyFree payload has)
