-- ===== src/Safety/Workspace.antt =====
-- src/safety/safety/workspace_guard.py
use gp4_ws.Common.{
  String, Bool, true, false, not, ◌&&◌, Option, none, some, List, [], ◌∷◌, All, ◌≡◌, ◌↔◌, refl,
  arith, if◌then◌else◌, Bool-cases, inl, inr,
}
use gp4_ws.Python.{PyLib}
use gp4_ws.Safety.Rules.{Zone, Bounds, SafetyRules, or_default}

pub data Axis : Type 0 where
  x_axis y_axis z_axis : Axis

pub data PoseReason : Type 0 where
  out_of_bounds : Axis → PoseReason
  collision_with : String → PoseReason

module _ (py : PyLib) where
  open py use {Float, le, add, sub, div, decimal, negative}

  pub record Position : Type 0 where
    pub x : Float
    pub y : Float
    pub z : Float

  -- low <= v <= high
  abbrev pub within : Float → Float → Float → Bool
  within low v high = le low v && le v high

  abbrev pub low_end : Float → Float → Float
  low_end center size = sub center (div size (decimal 2 0))

  abbrev pub high_end : Float → Float → Float
  high_end center size = add center (div size (decimal 2 0))

  abbrev pub in_zone : Position → Zone py → Bool
  in_zone p zone =
      within (low_end zone.x zone.size_x) p.x (high_end zone.x zone.size_x)
      && (within (low_end zone.y zone.size_y) p.y (high_end zone.y zone.size_y)
          && within (low_end zone.z zone.size_z) p.z (high_end zone.z zone.size_z))

  -- the loop over `forbidden_zones`
  unfoldable pub check_zones : List (Zone py) → Position → Option PoseReason
  check_zones [] p = none
  check_zones (zone ∷ zones) p =
      let rest = check_zones zones p in
      if in_zone p zone then some (collision_with zone.name) else rest

  abbrev pub lower : Option Float → Float
  lower b = or_default py b (negative (decimal 10 0))

  abbrev pub upper : Option Float → Float
  upper b = or_default py b (decimal 10 0)

  -- `none` is `(True, "")`
  unfoldable pub check_pose : SafetyRules py → Position → Option PoseReason
  unfolding check_zones
  check_pose rules p =
      let b = rules.bounds in
      if not (within (lower b.x_min) p.x (upper b.x_max))
      then some (out_of_bounds x_axis)
      else if not (within (lower b.y_min) p.y (upper b.y_max))
      then some (out_of_bounds y_axis)
      else if not (within (lower b.z_min) p.z (upper b.z_max))
      then some (out_of_bounds z_axis)
      else check_zones rules.forbidden_zones p

  -- Inside the box, and in no forbidden zone
  pub record IsSafe (rules : SafetyRules py) (p : Position) : Type 0 where
    pub above_x : le (lower rules.bounds.x_min) p.x ≡ true
    pub below_x : le p.x (upper rules.bounds.x_max) ≡ true
    pub above_y : le (lower rules.bounds.y_min) p.y ≡ true
    pub below_y : le p.y (upper rules.bounds.y_max) ≡ true
    pub above_z : le (lower rules.bounds.z_min) p.z ≡ true
    pub below_z : le p.z (upper rules.bounds.z_max) ≡ true
    pub clear : All (λ zone. in_zone p zone ≡ false) rules.forbidden_zones

  zones_clear :
      (zones : List (Zone py)) (p : Position)
      → check_zones zones p ≡ none
      → All (λ zone. in_zone p zone ≡ false) zones
  unfolding check_zones
  zones_clear [] p h = tt
  zones_clear (zone ∷ zones) p h = elim (Bool-cases (in_zone p zone)) [
    | inl hit ↦ absurd (none-ne-some (rw hit at h))
    | inr free ↦ (free, zones_clear zones p (rw free at h))
  ]
    where
      none-ne-some : some (collision_with zone.name) ≡ none → ⊥
      none-ne-some e = cc

  clear_zones :
      (zones : List (Zone py)) (p : Position)
      → All (λ zone. in_zone p zone ≡ false) zones
      → check_zones zones p ≡ none
  unfolding check_zones
  clear_zones [] p h = refl
  clear_zones (zone ∷ zones) p h = rw h.0 (clear_zones zones p h.1)

  in_range :
      (low v high : Float) → within low v high ≡ true → (le low v ≡ true) × (le v high ≡ true)
  in_range low v high h = ground arith

  accepted_branch :
      (b : Bool) (reason : PoseReason) (rest : Option PoseReason)
      → (if not b then some reason else rest) ≡ none
      → (b ≡ true) × (rest ≡ none)
  accepted_branch true reason rest h = (refl, h)
  accepted_branch false reason rest h = cc

  -- The guard accepts exactly the positions that lie in the closed box, with ±10 m for a bound that
  -- the rules leave out, and in no forbidden zone.
  pub check_pose_exact :
      (rules : SafetyRules py) (p : Position) → (check_pose rules p ≡ none) ↔ IsSafe rules p
  unfolding check_pose
  check_pose_exact rules p = (accepted, safe)
    where
      b : Bounds py
      b = rules.bounds

      accepted : check_pose rules p ≡ none → IsSafe rules p
      accepted h =
          let (hx, h1) = accepted_branch _ _ _ h in
          let (hy, h2) = accepted_branch _ _ _ h1 in
          let (hz, h3) = accepted_branch _ _ _ h2 in
          let rx = in_range (lower b.x_min) p.x (upper b.x_max) hx in
          let ry = in_range (lower b.y_min) p.y (upper b.y_max) hy in
          let rz = in_range (lower b.z_min) p.z (upper b.z_max) hz in
          record {
            above_x = rx.0;
            below_x = rx.1;
            above_y = ry.0;
            below_y = ry.1;
            above_z = rz.0;
            below_z = rz.1;
            clear = zones_clear rules.forbidden_zones p h3;
          }

      safe : IsSafe rules p → check_pose rules p ≡ none
      safe s =
          rw (s.above_x, s.below_x, s.above_y, s.below_y, s.above_z, s.below_z)
            (clear_zones rules.forbidden_zones p s.clear)
