-- ===== src/Safety/SafePoints.antt =====
-- What an accepted CIRC, CARTESIAN_PATH, BLENDED_SEQUENCE or MOVE_REL says of its points.
use gp4_ws.Common.{Bool, true, false, not, Option, none, some, ◌≡◌, refl}
use gp4_ws.Common.Outcome.{Outcome, ok, raised}
use gp4_ws.Python.{PyError, PyLib, Json, arr, obj, Items, nil, cons, get_field, type_error}
use gp4_ws.Safety.Checks.{
  Check, numeric_or, indexed_or, refuse_if-accepts, and_then-accepts, numeric_or-accepts,
  indexed_or-accepts,
}
use gp4_ws.Safety.Rules.{SafetyRules}
use gp4_ws.Safety.Workspace.{PoseReason, Position, check_pose, IsSafe, check_pose_exact}
use gp4_ws.Safety.Points.{
  PointReason, three_floats, axis_or_zero, axis_of, finite, in_workspace, check_point,
  check_path_position, check_waypoint, check_waypoints, validate_cartesian_path, check_auxiliary,
  check_auxiliary_position, validate_circ,
}
use gp4_ws.Safety.Blended.{StepReason, check_target, step_position}

-- Every item of a JSON array
abbrev pub AllItems : {F : Type 0} → (Json F → Type 0) → Items F → Type 0
AllItems P nil = Unit
AllItems P (cons x xs) = P x × AllItems P xs

module _ (py : PyLib) where
  open py use {Float}

  abbrev JsonValue : Type 0
  JsonValue = Json Float

  -- The position that a CIRC waypoint, a path waypoint and a blended step name
  abbrev pub circ_fields : Option JsonValue → Outcome PyError (Position py)
  circ_fields (some (obj p)) =
      three_floats py (axis_or_zero py "x" p) (axis_or_zero py "y" p) (axis_or_zero py "z" p)
  circ_fields _ = raised type_error

  abbrev pub circ_point : JsonValue → Outcome PyError (Position py)
  circ_point (obj w) = circ_fields (get_field "position" w)
  circ_point _ = raised type_error

  abbrev pub path_fields : Option JsonValue → Outcome PyError (Position py)
  path_fields (some (obj p)) =
      three_floats py (axis_of py "x" p) (axis_of py "y" p) (axis_of py "z" p)
  path_fields _ = raised type_error

  abbrev pub path_point : JsonValue → Outcome PyError (Position py)
  path_point (obj w) = path_fields (get_field "position" w)
  path_point _ = raised type_error

  abbrev pub target_fields : Option JsonValue → Outcome PyError (Position py)
  target_fields (some p) = step_position py p
  target_fields none = raised type_error

  abbrev pub target_point : Option JsonValue → Outcome PyError (Position py)
  target_point (some (obj t)) = target_fields (get_field "position" t)
  target_point _ = raised type_error

  abbrev pub step_point : JsonValue → Outcome PyError (Position py)
  step_point (obj step) = target_point (get_field "target_pose" step)
  step_point _ = raised type_error

module _ (py : PyLib) (rules : SafetyRules py) where
  open py use {Float, lt}

  -- `m` reads a position that the workspace guard accepts.
  abbrev pub ReadsSafe : Outcome PyError (Position py) → Type 0
  ReadsSafe m = (p : Position py) × (m ≡ ok p) × IsSafe py rules p

  abbrev pub ReadsFiniteSafe : Outcome PyError (Position py) → Type 0
  ReadsFiniteSafe m = (p : Position py) × (m ≡ ok p) × (finite py p ≡ true) × IsSafe py rules p

  accepted_pose :
      {R : Type 0} (f : PoseReason → R) (o : Option PoseReason)
      → ◌≡◌ {A = Check R} (elim o [ none ↦ ok none | some r ↦ ok (some (f r)) ]) (ok none)
      → o ≡ none
  accepted_pose f none h = refl
  accepted_pose f (some r) h = cc

  pub in_workspace-IsSafe :
      {R : Type 0} (f : PoseReason → R) (p : Position py)
      → in_workspace py rules f p ≡ ok none
      → IsSafe py rules p
  in_workspace-IsSafe f p h =
      (check_pose_exact py rules p).0 (accepted_pose f (check_pose py rules p) h)

  pub true_of : (b : Bool) → not b ≡ false → b ≡ true
  true_of true h = refl
  true_of false h = cc

  point-IsSafe :
      (p : Position py)
      → check_point py rules p ≡ ok none
      → (finite py p ≡ true) × IsSafe py rules p
  point-IsSafe p h =
      let (f, g) = refuse_if-accepts _ _ _ h in
      (true_of (finite py p) f, in_workspace-IsSafe PointReason.outside p g)

  numeric_point :
      (m : Outcome PyError (Position py))
      → numeric_or PointReason.not_numeric m (check_point py rules) ≡ ok none
      → ReadsFiniteSafe m
  numeric_point m h =
      let (p, e, g) = numeric_or-accepts PointReason.not_numeric m (check_point py rules) h in
      let (f, s) = point-IsSafe p g in (p, e, f, s)

  circ_fields_safe :
      (o : Option (Json Float))
      → check_auxiliary_position py rules o ≡ ok none
      → ReadsFiniteSafe (circ_fields py o)
  circ_fields_safe (some (obj p)) h = numeric_point _ h
  circ_fields_safe none h = cc
  circ_fields_safe (some v) h = cc

  circ_point_safe :
      (w : Json Float) → check_auxiliary py rules w ≡ ok none → ReadsFiniteSafe (circ_point py w)
  circ_point_safe (obj w) h = circ_fields_safe (get_field "position" w) h
  circ_point_safe v h = cc

  -- One waypoint, which is safe
  abbrev pub OneWaypoint : Option (Json Float) → Type 0
  OneWaypoint o =
      (w : Json Float) × (o ≡ some (arr (cons w nil))) × ReadsFiniteSafe (circ_point py w)

  pub validate_circ-OneWaypoint :
      (o : Option (Json Float)) → validate_circ py rules o ≡ ok none → OneWaypoint o
  unfolding validate_circ
  validate_circ-OneWaypoint (some (arr (cons w nil))) h = (w, refl, circ_point_safe w h)
  validate_circ-OneWaypoint none h = cc
  validate_circ-OneWaypoint (some v) h = cc

  path_fields_safe :
      (o : Option (Json Float))
      → check_path_position py rules o ≡ ok none
      → ReadsFiniteSafe (path_fields py o)
  path_fields_safe (some (obj p)) h = numeric_point _ (refuse_if-accepts _ _ _ h).1
  path_fields_safe none h = cc
  path_fields_safe (some v) h = cc

  path_point_safe :
      (w : Json Float) → check_waypoint py rules w ≡ ok none → ReadsFiniteSafe (path_point py w)
  path_point_safe (obj w) h = path_fields_safe (get_field "position" w) h
  path_point_safe v h = cc

  abbrev pub SafeWaypoint : Json Float → Type 0
  SafeWaypoint w = ReadsFiniteSafe (path_point py w)

  waypoints_safe :
      (ws : Items Float) → check_waypoints py rules ws ≡ ok none → AllItems SafeWaypoint ws
  unfolding check_waypoints
  waypoints_safe nil h = tt
  waypoints_safe (cons w ws) h =
      let (first, later) = and_then-accepts _ _ h in
      (path_point_safe w first, waypoints_safe ws later)

  -- A list of safe waypoints that is not empty
  abbrev pub SafePath : Option (Json Float) → Type 0
  SafePath o =
      (w : Json Float) × (ws : Items Float) × (o ≡ some (arr (cons w ws)))
      × AllItems SafeWaypoint (cons w ws)

  pub validate_cartesian_path-SafePath :
      (o : Option (Json Float)) → validate_cartesian_path py rules o ≡ ok none → SafePath o
  unfolding validate_cartesian_path
  validate_cartesian_path-SafePath (some (arr (cons w ws))) h =
      (w, ws, refl, waypoints_safe (cons w ws) h)
  validate_cartesian_path-SafePath none h = cc
  validate_cartesian_path-SafePath (some v) h = cc

  pub target_safe :
      (o : Option (Json Float)) → check_target py rules o ≡ ok none → ReadsSafe (target_point py o)
  target_safe (some (obj t)) h = by_position (get_field "position" t) h
    where
      by_position :
          (o : Option (Json Float))
          → ◌≡◌ {A = Check StepReason}
              (elim o [
                | none ↦ ok (some StepReason.missing_target)
                | some p ↦
                    indexed_or StepReason.position_invalid
                      (step_position py p)
                      (in_workspace py rules StepReason.outside)
              ])
              (ok none)
          → ReadsSafe (target_fields py o)
      by_position none h = cc
      by_position (some p) h =
          let (q, e, g) = indexed_or-accepts _ (step_position py p) _ h in
          (q, e, in_workspace-IsSafe StepReason.outside q g)
  target_safe none h = cc
  target_safe (some v) h = cc
