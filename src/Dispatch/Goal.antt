-- ===== src/Dispatch/Goal.antt =====
-- hmi/backend/ros/command_dispatch.py: the goal of ExecuteMotion and the request of
-- ValidateCommand, from a dictionary. A field that stays at the message's default is `none`; the
-- range checks of the messages' own setters are not modelled.
use gp4_ws.Common.{
  String, Bool, true, false, Option, none, some, List, [], ◌∷◌, map, ◌==◌, if◌then◌else◌,
}
use gp4_ws.Common.Int.{ℤ, pos}
use gp4_ws.Common.Outcome.{Outcome, ok, raised}
use gp4_ws.Common.Fallible.{◌>>=◌}
use gp4_ws.Python.{
  PyLib, PyError, type_error, attribute_error, key_error, Json, str, int, float, arr, obj, Items,
  nil, cons, Fields, end, field, get_field, default, get_or_null, to_float, to_int, to_text,
  text_or,
}
use gp4_ws.Dispatch.Joints.{TextLib}
use gp4_ws.Dispatch.Payload.{float_field}

pub record Pose (F : Type 0) : Type 0 where
  pub x : F
  pub y : F
  pub z : F
  pub qx : F
  pub qy : F
  pub qz : F
  pub qw : F

pub record SequenceStep (F : Type 0) : Type 0 where
  pub primitive_type : String
  pub target_pose : Option (Pose F)
  pub joint_target : Option (List F)
  pub blend_radius_m : F
  pub planner_id : String
  pub velocity_scale : F
  pub acceleration_scale : F

pub record MotionGoal (F : Type 0) : Type 0 where
  pub primitive_type : String
  pub velocity_scale : F
  pub acceleration_scale : F
  pub planner_id : String
  pub reference_frame : String
  pub delta_x : F
  pub delta_y : F
  pub delta_z : F
  pub wait_duration_sec : F
  pub joint_index : ℤ
  pub joint_angle : F
  pub io_address : ℤ
  pub io_value : ℤ
  pub joint_target : List F
  pub target_pose : Option (Pose F)
  pub waypoints : Option (List (Pose F))
  pub sequence_steps : Option (List (SequenceStep F))

pub record ValidateRequest (F : Type 0) : Type 0 where
  pub command_json : String
  pub primitive_type : String
  pub velocity_scale : F
  pub target_pose : Option (Pose F)

-- `[f(x) for x in xs]`
abbrev pub for_list : {A B : Type 0} → (A → Outcome PyError B) → List A → Outcome PyError (List B)
for_list f [] = ok []
for_list f (x ∷ xs) = let later = for_list f xs in (do y ← f x; ys ← later; ok (y ∷ ys))

-- `if b: f()`, else the default of the message
abbrev pub when_some : {A : Type 0} → Bool → Outcome PyError A → Outcome PyError (Option A)
when_some false m = ok none
when_some true m = do a ← m; ok (some a)

module _ {F : Type 0} where
  abbrev pub items : Items F → List (Json F)
  items nil = []
  items (cons v vs) = v ∷ items vs

  abbrev pub keys : Fields F → List (Json F)
  keys end = []
  keys (field k v rest) = str k ∷ keys rest

  abbrev pub has_key : String → Fields F → Bool
  has_key key fields = elim (get_field key fields) [ none ↦ false | some _ ↦ true ]

  -- `waypoints[-1]`, of a list
  abbrev pub last_item : Json F → Items F → Json F
  last_item v nil = v
  last_item v (cons w ws) = last_item w ws

  abbrev pub dict_or_none : Json F → Option (Fields F)
  dict_or_none (obj fields) = some fields
  dict_or_none v = none

  abbrev pub final_waypoint : Json F → Option (Fields F)
  final_waypoint (arr (cons v vs)) = dict_or_none (last_item v vs)
  final_waypoint v = none

module _ (py : PyLib) (tx : TextLib) where
  open py use {Float, decimal}

  -- `for x in value`: a dictionary gives its keys, a text its characters
  abbrev pub iterate : Json Float → Outcome PyError (List (Json Float))
  iterate (arr vs) = ok (items vs)
  iterate (obj fields) = ok (keys fields)
  iterate (str text) = ok (map str (tx.characters text))
  iterate v = raised type_error

  -- `str(fields.get(key, other))`
  abbrev pub text_field : String → String → Fields Float → String
  text_field key other fields = to_text py (default (str other) (get_field key fields))

  abbrev pub int_field : String → Fields Float → Outcome PyError ℤ
  int_field key fields = to_int py (default (int (pos 0)) (get_field key fields))

  -- `value.get(key, other)`: only a dictionary has the method
  abbrev pub member : String → Json Float → Json Float → Outcome PyError (Json Float)
  member key other (obj fields) = ok (default other (get_field key fields))
  member key other v = raised attribute_error

  abbrev pub coordinate : String → Float → Json Float → Outcome PyError Float
  coordinate key other value = do v ← member key (float other) value; to_float py v

  unfoldable pub dict_to_pose : Json Float → Outcome PyError (Pose Float)
  dict_to_pose payload = do
    position ← member "position" (obj end) payload
    orientation ← member "orientation" (obj end) payload
    x ← coordinate "x" (decimal 0 0) position
    y ← coordinate "y" (decimal 0 0) position
    z ← coordinate "z" (decimal 0 0) position
    qx ← coordinate "x" (decimal 0 0) orientation
    qy ← coordinate "y" (decimal 0 0) orientation
    qz ← coordinate "z" (decimal 0 0) orientation
    qw ← coordinate "w" (decimal 1 0) orientation
    ok (record { x = x; y = y; z = z; qx = qx; qy = qy; qz = qz; qw = qw })

  abbrev path_pose : Fields Float → Option (Fields Float)
  path_pose payload =
      if tx.upper (text_or py "" (get_or_null "primitive_type" payload)) == "CARTESIAN_PATH"
      then final_waypoint (get_or_null "waypoints" payload)
      else none

  abbrev pub pose_or_path : Option (Fields Float) → Fields Float → Option (Fields Float)
  pose_or_path (some pose) payload = some pose
  pose_or_path none payload = path_pose payload

  unfoldable pub cartesian_path_target_pose : Fields Float → Option (Fields Float)
  cartesian_path_target_pose payload =
      pose_or_path (dict_or_none (get_or_null "target_pose" payload)) payload

  abbrev pub floats : Json Float → Outcome PyError (List Float)
  floats v = do vs ← iterate v; for_list (to_float py) vs

  -- `if pose is not None: self._dict_to_pose(pose)`
  abbrev pub pose_of : Option (Fields Float) → Outcome PyError (Option (Pose Float))
  pose_of none = ok none
  pose_of (some pose) = when_some true (dict_to_pose (obj pose))

  abbrev pub dict_to_step_fields : Fields Float → Outcome PyError (SequenceStep Float)
  dict_to_step_fields payload = do
    pose ←
        when_some (has_key "target_pose" payload) (dict_to_pose (get_or_null "target_pose" payload))
    joint_target ←
        when_some (has_key "joint_target" payload) (floats (get_or_null "joint_target" payload))
    blend_radius_m ← float_field py "blend_radius_m" payload
    velocity_scale ← float_field py "velocity_scale" payload
    acceleration_scale ← float_field py "acceleration_scale" payload
    ok (record {
      primitive_type = text_field "primitive_type" "LIN" payload;
      target_pose = pose;
      joint_target = joint_target;
      blend_radius_m = blend_radius_m;
      planner_id = text_field "planner_id" "PILZ_LIN" payload;
      velocity_scale = velocity_scale;
      acceleration_scale = acceleration_scale;
    })

  unfoldable pub dict_to_sequence_step : Json Float → Outcome PyError (SequenceStep Float)
  dict_to_sequence_step (obj payload) = dict_to_step_fields payload
  dict_to_sequence_step v = raised attribute_error

  abbrev pub each_of :
      {A : Type 0} → (Json Float → Outcome PyError A) → Json Float → Outcome PyError (List A)
  each_of f v = do vs ← iterate v; for_list f vs

  -- `command_payload["primitive_type"]`
  abbrev pub primitive_or_error : Option (Json Float) → Outcome PyError String
  primitive_or_error none = raised key_error
  primitive_or_error (some v) = ok (to_text py v)

  unfoldable pub build_execute_motion_goal : Fields Float → Outcome PyError (MotionGoal Float)
  build_execute_motion_goal payload = do
    primitive_type ← primitive_or_error (get_field "primitive_type" payload)
    velocity_scale ← float_field py "velocity_scale" payload
    acceleration_scale ← float_field py "acceleration_scale" payload
    delta_x ← float_field py "delta_x" payload
    delta_y ← float_field py "delta_y" payload
    delta_z ← float_field py "delta_z" payload
    wait_duration_sec ← float_field py "wait_duration_sec" payload
    joint_index ← int_field "joint_index" payload
    joint_angle ← float_field py "joint_angle" payload
    io_address ← int_field "io_address" payload
    io_value ← int_field "io_value" payload
    joint_target ← floats (default (arr nil) (get_field "joint_target" payload))
    target_pose ← pose_of (cartesian_path_target_pose payload)
    waypoints ←
        when_some (has_key "waypoints" payload)
          (each_of dict_to_pose (get_or_null "waypoints" payload))
    steps ←
        when_some (has_key "sequence_steps" payload)
          (each_of dict_to_sequence_step (get_or_null "sequence_steps" payload))
    ok (record {
      primitive_type = primitive_type;
      velocity_scale = velocity_scale;
      acceleration_scale = acceleration_scale;
      planner_id = text_field "planner_id" "" payload;
      reference_frame = text_field "reference_frame" "" payload;
      delta_x = delta_x;
      delta_y = delta_y;
      delta_z = delta_z;
      wait_duration_sec = wait_duration_sec;
      joint_index = joint_index;
      joint_angle = joint_angle;
      io_address = io_address;
      io_value = io_value;
      joint_target = joint_target;
      target_pose = target_pose;
      waypoints = waypoints;
      sequence_steps = steps;
    })

  -- the request of `_validate_motion_request`
  unfoldable pub validate_request : Fields Float → Outcome PyError (ValidateRequest Float)
  validate_request payload = do
    primitive_type ← primitive_or_error (get_field "primitive_type" payload)
    velocity_scale ← float_field py "velocity_scale" payload
    target_pose ← pose_of (cartesian_path_target_pose payload)
    ok (record {
      command_json = py.dumps (obj payload);
      primitive_type = primitive_type;
      velocity_scale = velocity_scale;
      target_pose = target_pose;
    })
