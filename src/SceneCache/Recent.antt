-- ===== src/SceneCache/Recent.antt =====
-- What the cache answers, by the requests before.
use gp4_ws.Common.{
  ℕ, ◌-◌, ◌≤◌, ◌<◌, ltb→lt, Bool, true, false, Option, none, some, List, [], ◌∷◌, ◌≡◌, refl, subst,
  sym, ◌⊎◌, inl, inr, arith, if◌then◌else◌, if_cases,
}
use gp4_ws.Python.{PyLib, Fields}
use gp4_ws.SceneCache.{
  Entry, Entries, key_of, marked, is_expired, get_entry, get_key, get, store, invalidate,
}
use gp4_ws.SceneCache.Keys.{Key, key_eq, find, put, drop, find-put, find-drop, key_eq_sound}

module _ (py : PyLib) where
  open py use {Float}

  -- With the reading of the clock, the arguments and the payload
  pub data Request : Type 0 where
    getting : ℕ → Fields Float → Request
    storing : ℕ → Fields Float → Fields Float → Request
    invalidating : Request

  unfoldable pub serve : ℕ → List Request → Entries py → Entries py
  unfolding get store
  serve ttl [] entries = entries
  serve ttl (getting now args ∷ requests) entries =
      serve ttl requests (get py ttl now args entries).1
  serve ttl (storing now args payload ∷ requests) entries =
      serve ttl requests (store py now args payload entries)
  serve ttl (invalidating ∷ requests) entries = serve ttl requests (invalidate py entries)

  abbrev pub Memory : Type 0
  Memory = Key → Option (Entry py)

  -- The last entry that was stored for a key since the last invalidation
  unfoldable pub remembered : List Request → Memory → Memory
  remembered [] memory = memory
  remembered (getting now args ∷ requests) memory = remembered requests memory
  remembered (storing now args payload ∷ requests) memory = remembered requests (λ key.
      if key_eq (key_of py args) key then some (now, marked py false payload) else memory key)
  remembered (invalidating ∷ requests) memory = remembered requests (λ key. none)

  -- The clock does not go back, from `start` over the requests to `now`.
  unfoldable pub Ordered : ℕ → List Request → ℕ → Type 0
  Ordered start [] now = start ≤ now
  Ordered start (getting at args ∷ requests) now = (start ≤ at) × Ordered at requests now
  Ordered start (storing at args payload ∷ requests) now = (start ≤ at) × Ordered at requests now
  Ordered start (invalidating ∷ requests) now = Ordered start requests now

  -- What an entry is worth at an instant: the payload, marked as a hit, if it is not older than the ttl
  abbrev pub still_fresh : ℕ → ℕ → Option (Entry py) → Option (Fields Float)
  still_fresh ttl now none = none
  still_fresh ttl now (some (stamp, payload)) =
      if is_expired py ttl now stamp then none else some (marked py true payload)

  Gone : ℕ → ℕ → Option (Entry py) → Type 0
  Gone ttl now none = Unit
  Gone ttl now (some (stamp, payload)) = ttl < now - stamp

  Gone-later :
      (ttl start now : ℕ) (o : Option (Entry py)) → start ≤ now → Gone ttl start o → Gone ttl now o
  unfolding Gone
  Gone-later ttl start now none h g = tt
  Gone-later ttl start now (some (stamp, payload)) h g = omega (arith, h, g)

  still_fresh-Gone :
      (ttl now : ℕ) (o : Option (Entry py)) → Gone ttl now o → still_fresh ttl now o ≡ none
  unfolding Gone
  still_fresh-Gone ttl now none g = refl
  still_fresh-Gone ttl now (some (stamp, payload)) g =
      let late : is_expired py ttl now stamp ≡ true = ground (arith, g) in rw late refl

  -- The cache has the entry that is remembered, or none where that one is expired.
  Agrees : ℕ → ℕ → Option (Entry py) → Option (Entry py) → Type 0
  Agrees ttl now held o = (held ≡ o) ⊎ ((held ≡ none) × Gone ttl now o)

  Follows : ℕ → ℕ → Entries py → Memory → Type 0
  Follows ttl now entries memory = (key : Key) → Agrees ttl now (find key entries) (memory key)

  Agrees-later :
      (ttl start now : ℕ) (held o : Option (Entry py))
      → start ≤ now
      → Agrees ttl start held o
      → Agrees ttl now held o
  unfolding Agrees
  Agrees-later ttl start now held o h (inl e) = inl e
  Agrees-later ttl start now held o h (inr (e, gone)) = inr (e, Gone-later ttl start now o h gone)

  get_entry-Follows :
      (ttl now : ℕ) (key : Key) (held : Option (Entry py)) (entries : Entries py) (memory : Memory)
      → find key entries ≡ held
      → Follows ttl now entries memory
      → Follows ttl now (get_entry py ttl now key held entries).1 memory
  unfolding Follows Agrees Gone
  get_entry-Follows ttl now key none entries memory e follows = follows
  get_entry-Follows ttl now key (some (stamp, payload)) entries memory e follows =
      if_cases (λ (answer : Option (Fields Float) × Entries py). Follows ttl now answer.1 memory)
        (is_expired py ttl now stamp) (none, drop key entries)
        (some (marked py true payload), entries) (λ late j. dropped late j) (λ _. follows)
    where
      dropped :
          is_expired py ttl now stamp ≡ true
          → (j : Key) → Agrees ttl now (find j (drop key entries)) (memory j)
      dropped late j = by_key (key_eq key j) refl
        where
          gone : (o : Option (Entry py)) → Agrees ttl now (some (stamp, payload)) o → Gone ttl now o
          gone o (inl same) = subst (Gone ttl now) same (ltb→lt _ _ late)
          gone o (inr (never, g)) = g

          by_key :
              (b : Bool) → key_eq key j ≡ b → Agrees ttl now (find j (drop key entries)) (memory j)
          by_key true h =
              let same : key ≡ j = key_eq_sound key j h in
              inr (
                rw (find-drop key j entries, h) refl,
                subst (λ i. Gone ttl now (memory i)) same
                    (gone (memory key)
                      (subst (λ held. Agrees ttl now held (memory key)) e (follows key))),
              )
          by_key false h =
              let same : find j (drop key entries) ≡ find j entries =
                rw (find-drop key j entries, h) refl in
              subst (λ held. Agrees ttl now held (memory j)) (sym same) (follows j)

  Follows-later :
      (ttl start now : ℕ) (entries : Entries py) (memory : Memory)
      → start ≤ now
      → Follows ttl start entries memory
      → Follows ttl now entries memory
  unfolding Follows
  Follows-later ttl start now entries memory h follows key =
      Agrees-later ttl start now (find key entries) (memory key) h (follows key)

  put-Follows :
      (ttl now : ℕ) (key : Key) (entry : Entry py) (entries : Entries py) (memory : Memory)
      → Follows ttl now entries memory
      → Follows ttl now (put key entry entries) (λ j. if key_eq key j then some entry else memory j)
  unfolding Follows Agrees
  put-Follows ttl now key entry entries memory follows j = by_key (key_eq key j) refl
    where
      by_key :
          (b : Bool)
          → key_eq key j ≡ b
          → Agrees ttl now
              (find j (put key entry entries))
              (if key_eq key j then some entry else memory j)
      by_key true h = rw (find-put key j entry entries, h) (inl refl)
      by_key false h = rw (find-put key j entry entries, h) (follows j)

  none_kept : (ttl now : ℕ) → Follows ttl now [] (λ key. none)
  unfolding Follows Agrees find
  none_kept ttl now key = inl refl

  serve-Follows :
      (ttl start now : ℕ) (requests : List Request) (entries : Entries py) (memory : Memory)
      → Ordered start requests now
      → Follows ttl start entries memory
      → Follows ttl now (serve ttl requests entries) (remembered requests memory)
  unfolding serve remembered Ordered get get_key store
  serve-Follows ttl start now [] entries memory h follows =
      Follows-later ttl start now entries memory h follows
  serve-Follows ttl start now (getting at args ∷ requests) entries memory (h, rest) follows =
      serve-Follows ttl at now requests _ memory rest (
        get_entry-Follows ttl at (key_of py args) (find (key_of py args) entries) entries memory
          refl (Follows-later ttl start at entries memory h follows))
  serve-Follows ttl start now (storing at args payload ∷ requests) entries memory (h, rest)
        follows =
      serve-Follows ttl at now requests _ _ rest (
        put-Follows ttl at (key_of py args) (at, marked py false payload) entries memory
          (Follows-later ttl start at entries memory h follows))
  serve-Follows ttl start now (invalidating ∷ requests) entries memory rest follows =
      serve-Follows ttl start now requests [] (λ key. none) rest (none_kept ttl start)

  answer_of :
      (ttl now : ℕ) (key : Key) (held o : Option (Entry py)) (entries : Entries py)
      → Agrees ttl now held o
      → (get_entry py ttl now key held entries).0 ≡ still_fresh ttl now o
  unfolding Agrees
  answer_of ttl now key none o entries (inl e) = subst (λ p. none ≡ still_fresh ttl now p) e refl
  answer_of ttl now key (some (stamp, payload)) o entries (inl e) =
      subst
        (λ p. (get_entry py ttl now key (some (stamp, payload)) entries).0 ≡ still_fresh ttl now p)
        e (by_age (is_expired py ttl now stamp))
    where
      answer : Option (Fields Float) × Entries py → Option (Fields Float)
      answer r = r.0

      by_age :
          (b : Bool)
          → answer
              (if b then (none, drop key entries) else (some (marked py true payload), entries))
            ≡ (if b then none else some (marked py true payload))
      by_age true = refl
      by_age false = refl
  answer_of ttl now key none o entries (inr (e, gone)) = sym (still_fresh-Gone ttl now o gone)
  answer_of ttl now key (some entry) o entries (inr (e, gone)) = cc

  -- After any requests to an empty cache, with a clock that does not go back, `get` answers exactly what
  -- the last payload that was stored for its key since the last invalidation is worth: nothing if there
  -- is none or if it is older than the ttl, else this payload, marked as a hit.
  pub get-serve :
      (ttl now : ℕ) (requests : List Request) (args : Fields Float)
      → Ordered 0 requests now
      → (get py ttl now args (serve ttl requests [])).0
        ≡ still_fresh ttl now (remembered requests (λ key. none) (key_of py args))
  unfolding get get_key Follows
  get-serve ttl now requests args ordered =
      answer_of ttl now (key_of py args) _ _ (serve ttl requests []) (
        serve-Follows ttl 0 now requests [] (λ key. none) ordered (none_kept ttl 0)
          (key_of py args))
