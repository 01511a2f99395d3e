-- ===== src/Gripper/Configured.antt =====
-- Where the rules set the gripper's section.
use gp4_ws.Common.{
  String, true, false, not, Option, none, some, List, [], ◌∷◌, all, All, ◌≡◌, refl, subst, arith,
}
use gp4_ws.Common.Outcome.{Outcome, ok}
use gp4_ws.Common.Fallible.{>>=-eq-ok}
use gp4_ws.Python.{
  PyLib, PyError, Json, str, float, obj, Fields, end, get_field, default, is_text, to_float,
}
use gp4_ws.Gripper.{
  GripperConfig, unset, io_keys, setting, section, built_config, of_section, from_rules, verified,
}

module _ (py : PyLib) where
  open py use {Float, decimal}

  -- The section gives the key a value that is not the placeholder.
  pub record IsGiven (raw : Fields Float) (key : String) : Type 0 where
    pub value : Json Float
    pub given : get_field key raw ≡ some value
    pub real : is_text unset value ≡ false

  setting-IsGiven :
      (raw : Fields Float) (key : String)
      → not (is_text unset (setting py key raw)) ≡ true
      → IsGiven raw key
  setting-IsGiven raw key = by_field (get_field key raw) refl
    where
      by_field :
          (o : Option (Json Float))
          → get_field key raw ≡ o
          → not (is_text unset (default (str unset) o)) ≡ true
          → IsGiven raw key
      by_field none e h = cc
      by_field (some v) e h = record { value = v; given = e; real = ground (arith, h) }

  -- Where the rules set the gripper's section
  pub record Configured (rules : Json Float) : Type 0 where
    pub sections : Fields Float
    pub dictionary : rules ≡ obj sections
    pub raw : Fields Float
    pub there : get_field "gripper" sections ≡ some (obj raw)
    pub set : All (IsGiven raw) io_keys

  all-IsGiven :
      (raw : Fields Float) (keys : List String)
      → all (λ key. not (is_text unset (setting py key raw))) keys ≡ true
      → All (IsGiven raw) keys
  all-IsGiven raw [] h = tt
  all-IsGiven raw (key ∷ keys) h =
      (setting-IsGiven raw key (ground (arith, h)), all-IsGiven raw keys (ground (arith, h)))

  verified-IsGiven :
      (raw : Fields Float) (timeout : Float)
      → verified py (built_config py raw timeout) ≡ true
      → All (IsGiven raw) io_keys
  unfolding verified
  verified-IsGiven raw timeout h = all-IsGiven raw io_keys h

  config-IsGiven :
      (raw : Fields Float) {c : GripperConfig Float}
      → of_section py (ok raw) ≡ ok c
      → verified py c ≡ true
      → All (IsGiven raw) io_keys
  config-IsGiven raw {c} e h =
      let (timeout, _, rest) =
        >>=-eq-ok
          (to_float py (default (float (decimal 10 1)) (get_field "feedback_timeout_sec" raw))) _
          e in
      verified-IsGiven raw timeout (subst (λ d. verified py d ≡ true) (same_ok rest) h)
    where
      same_ok :
          {a b : GripperConfig Float}
          → ◌≡◌ {A = Outcome PyError (GripperConfig Float)} (ok a) (ok b)
          → b ≡ a
      same_ok e = cc

  -- without a section nothing is set
  no_section :
      {A : Type 0} {c : GripperConfig Float}
      → of_section py (ok end) ≡ ok c
      → verified py c ≡ true
      → A
  no_section e h =
      let first : IsGiven end "open_output_address" = (config-IsGiven end e h).0 in cc (first.given)

  pub from_rules-Configured :
      (rules : Json Float) {c : GripperConfig Float}
      → from_rules py rules ≡ ok c
      → verified py c ≡ true
      → Configured rules
  unfolding from_rules
  from_rules-Configured (obj sections) {c} e h = by_section (get_field "gripper" sections) refl e
    where
      by_section :
          (o : Option (Json Float))
          → get_field "gripper" sections ≡ o
          → of_section py (section py o) ≡ ok c
          → Configured (obj sections)
      by_section none there e = no_section e h
      by_section (some (obj raw)) there e = record {
        sections = sections;
        dictionary = refl;
        raw = raw;
        there = there;
        set = config-IsGiven raw e h;
      }
      by_section (some v) there e = cc
  from_rules-Configured v e h = no_section e h
