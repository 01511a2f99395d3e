-- ===== src/SceneCache.antt =====
-- src/llm_gateway/llm_gateway/scene_cache.py: the cache of scene snapshots. Each method takes the
-- reading of the clock that it makes; instants and the ttl are natural numbers of one unit.
pub mod Keys
pub mod Recent
mod Tests
use gp4_ws.Common.{
  ℕ, ◌-◌, ltb, String, Bool, true, false, Option, none, some, List, [], ◌∷◌, if◌then◌else◌,
}
use gp4_ws.SceneCache.Keys.{Key, Table, find, put, drop}
use gp4_ws.Python.{PyLib, Json, str, Fields, end, field, get_or_null, set_field, text_or}

module _ (py : PyLib) where
  open py use {Float}

  -- A stamp and a payload
  abbrev pub Entry : Type 0
  Entry = ℕ × Fields Float

  abbrev pub Entries : Type 0
  Entries = Table Entry

  -- `_key`
  abbrev pub key_of : Fields Float → Key
  key_of args = (
    text_or py "" (get_or_null "class_filter" args),
    text_or py "base_link" (get_or_null "frame" args),
  )

  abbrev pub marked : Bool → Fields Float → Fields Float
  marked hit payload = set_field "cache_hit" (Json.bool hit) payload

  abbrev pub is_expired : ℕ → ℕ → ℕ → Bool
  is_expired ttl now stamp = ltb ttl (now - stamp)

  abbrev pub get_entry : ℕ → ℕ → Key → Option Entry → Entries → Option (Fields Float) × Entries
  get_entry ttl now key none entries = (none, entries)
  get_entry ttl now key (some (stamp, payload)) entries =
      if is_expired ttl now stamp
      then (none, drop key entries)
      else (some (marked true payload), entries)

  -- `get`, by the key of its arguments
  unfoldable pub get_key : ℕ → ℕ → Key → Entries → Option (Fields Float) × Entries
  get_key ttl now key entries = get_entry ttl now key (find key entries) entries

  unfoldable pub get : ℕ → ℕ → Fields Float → Entries → Option (Fields Float) × Entries
  unfolding get_key
  get ttl now args entries = get_key ttl now (key_of args) entries

  unfoldable pub store : ℕ → Fields Float → Fields Float → Entries → Entries
  store now args payload entries = put (key_of args) (now, marked false payload) entries

  -- the keys when `snapshots` starts, and its loop, with a reading of the clock for each key
  abbrev pub keys_of : Entries → List Key
  keys_of [] = []
  keys_of ((key, entry) ∷ entries) = key ∷ keys_of entries

  abbrev pub filter_of : Key → Fields Float
  filter_of key = field "class_filter" (str key.0) (field "frame" (str key.1) end)

  abbrev pub keep_payload : Option (Fields Float) → List (Fields Float) → List (Fields Float)
  keep_payload none rest = rest
  keep_payload (some payload) rest = payload ∷ rest

  unfoldable pub snapshots_of : ℕ → (Key → ℕ) → List Key → Entries → List (Fields Float) × Entries
  unfolding get
  snapshots_of ttl now_at [] entries = ([], entries)
  snapshots_of ttl now_at (key ∷ keys) entries =
      let (found, left) = get ttl (now_at key) (filter_of key) entries in
      let (rest, last) = snapshots_of ttl now_at keys left in (keep_payload found rest, last)

  unfoldable pub snapshots : ℕ → (Key → ℕ) → Entries → List (Fields Float) × Entries
  unfolding snapshots_of
  snapshots ttl now_at entries = snapshots_of ttl now_at (keys_of entries) entries

  abbrev pub invalidate : Entries → Entries
  invalidate entries = []
