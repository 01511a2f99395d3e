-- ===== src/SceneCache/Keys.antt =====
-- A dictionary whose keys are pairs of texts.
use gp4_ws.Common.{
  String, Bool, true, ◌&&◌, Option, none, some, List, [], ◌∷◌, ◌==◌, ◌≡◌, refl, arith, eq_iff,
  if◌then◌else◌,
}

abbrev pub Key : Type 0
Key = String × String

abbrev pub key_eq : Key → Key → Bool
key_eq k j = (k.0 == j.0) && (k.1 == j.1)

abbrev pub Table {ℓ} : Type ℓ → Type ℓ
Table V = List (Key × V)

module _ {ℓ} {V : Type ℓ} where
  unfoldable pub find : Key → Table V → Option V
  find key [] = none
  find key ((other, value) ∷ rest) =
      let later = find key rest in if key_eq other key then some value else later

  unfoldable pub put : Key → V → Table V → Table V
  put key value [] = (key, value) ∷ []
  put key value ((other, old) ∷ rest) =
      let later = put key value rest in
      if key_eq other key then (key, value) ∷ rest else (other, old) ∷ later

  -- d.pop(key, None)
  unfoldable pub drop : Key → Table V → Table V
  drop key [] = []
  drop key ((other, value) ∷ rest) =
      let later = drop key rest in if key_eq other key then later else (other, value) ∷ later

  pub find-put :
      (k j : Key) (v : V) (d : Table V)
      → find j (put k v d) ≡ (if key_eq k j then some v else find j d)
  unfolding find put
  find-put k j v [] = refl
  find-put k j v ((i, w) ∷ d) = ground (
    arith,
    eq_iff k.0 j.0,
    eq_iff k.1 j.1,
    eq_iff i.0 k.0,
    eq_iff i.1 k.1,
    eq_iff i.0 j.0,
    eq_iff i.1 j.1,
    find-put k j v d,
  )

  pub find-drop :
      (k j : Key) (d : Table V) → find j (drop k d) ≡ (if key_eq k j then none else find j d)
  unfolding find drop
  find-drop k j [] = ground arith
  find-drop k j ((i, w) ∷ d) = ground (
    arith,
    eq_iff k.0 j.0,
    eq_iff k.1 j.1,
    eq_iff i.0 k.0,
    eq_iff i.1 k.1,
    eq_iff i.0 j.0,
    eq_iff i.1 j.1,
    find-drop k j d,
  )

pub key_eq_sound : (k j : Key) → key_eq k j ≡ true → k ≡ j
key_eq_sound k j h =
    let first : k.0 ≡ j.0 = ground (arith, eq_iff k.0 j.0, eq_iff k.1 j.1, h) in
    let second : k.1 ≡ j.1 = ground (arith, eq_iff k.0 j.0, eq_iff k.1 j.1, h) in cc
