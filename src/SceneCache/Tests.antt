-- ===== src/SceneCache/Tests.antt =====
-- The cache with a ttl of 20: a snapshot of the bolts is stored at 100, read, and expired.
use gp4_ws.Common.{ℕ, ◌+◌, ◌-◌, ◌*◌, true, not, none, some, List, [], ◌∷◌, ◌≡◌, refl, ltb, arith}
use gp4_ws.Common.Int.{pos}
use gp4_ws.Common.Outcome.{ok}
use gp4_ws.Python.{PyLib, Json, str, Fields, end, field, is_truthy, to_text}
use gp4_ws.SceneCache.{key_of, marked, get_key, get, store}
use gp4_ws.SceneCache.Keys.{find, put, drop}
use gp4_ws.SceneCache.Recent.{
  Request, getting, storing, serve, remembered, Ordered, still_fresh, get-serve,
}

-- Floats are natural numbers here.
abbrev py : PyLib
py = record {
  Float = ℕ;
  lt = ltb;
  le = λ a b. not (ltb b a);
  add = λ a b. a + b;
  sub = λ a b. a - b;
  mul = λ a b. a * b;
  div = λ a b. a;
  sqrt = λ a. a;
  is_finite = λ a. true;
  decimal = λ m k. m;
  negative = λ a. a;
  of_int = λ i. none;
  parse_float = λ s. none;
  truncate = λ f. ok (pos f);
  parse_int = λ s. none;
  strip_upper = λ v. "";
  strip = λ s. s;
  render = λ v. "?";
  loads = λ s. none;
  dumps = λ v. "";
}

abbrev bolts : Fields ℕ
bolts = field "class_filter" (str "bolt") end

abbrev scene : Fields ℕ
scene = field "count" (Json.int (pos 2)) end

abbrev requests : List (Request py)
requests = storing 100 bolts scene ∷ getting 110 bolts ∷ []

hit : (get py 20 120 bolts (serve py 20 requests [])).0 ≡ some (marked py true scene)
unfolding serve get get_key store find put drop is_truthy to_text
hit = refl

expired : (get py 20 121 bolts (serve py 20 requests [])).0 ≡ none
unfolding serve get get_key store find put drop is_truthy to_text
expired = refl

in_order : Ordered py 0 requests 120
unfolding Ordered
in_order = (omega arith, (omega arith, omega arith))

get-serve_example :
    (get py 20 120 bolts (serve py 20 requests [])).0
    ≡ still_fresh py 20 120 (remembered py requests (λ key. none) (key_of py bolts))
get-serve_example = get-serve py 20 120 requests bolts in_order
