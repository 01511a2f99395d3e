-- ===== src/Perception/Entries.antt =====
-- What a frame adds to the hits of the tracks.
use gp4_ws.Common.{
  ℕ, zero, suc, ◌+◌, ◌<◌, Bool, true, false, not, ◌||◌, Option, none, some, List, [], ◌∷◌, ◌++◌,
  length, nat_eq, ◌≡◌, refl, sym, ap, ◌⊎◌, inl, inr, arith, All, if◌then◌else◌, ◌==◌,
}
use gp4_ws.Perception.Tracker.{
  Geometry, Detection, Track, is_among, Best, closer, match_from, match, touch, new_track,
  modify_at, Frame, place, associate, miss, record_misses,
}

module _ (geo : Geometry) where
  open geo use {Float}

  -- an old track, at a position: matched with one hit more, or not matched and as it was
  abbrev MarkedOld : ℕ → List ℕ → Track geo → Track geo → Type 0
  MarkedOld i matched old track =
      ((is_among geo i matched ≡ true) × (track.hits ≡ old.hits ++ true ∷ []))
      ⊎ ((is_among geo i matched ≡ false) × (track.hits ≡ old.hits))

  abbrev MarkedNew : ℕ → List ℕ → Track geo → Type 0
  MarkedNew i matched track = (is_among geo i matched ≡ true) × (track.hits ≡ true ∷ [])

  Marked : ℕ → List ℕ → List (Track geo) → List (Track geo) → Type 0
  Marked i matched [] [] = Unit
  Marked i matched [] (track ∷ tracks) =
      MarkedNew i matched track × Marked (i + 1) matched [] tracks
  Marked i matched (old ∷ olds) [] = ⊥
  Marked i matched (old ∷ olds) (track ∷ tracks) =
      MarkedOld i matched old track × Marked (i + 1) matched olds tracks

  other_old :
      (i k : ℕ) (matched : List ℕ) (old track : Track geo)
      → nat_eq i k ≡ false
      → MarkedOld i matched old track
      → MarkedOld i (k ∷ matched) old track
  other_old i k matched old track h (inl (e, hits)) = inl (rw (h, e) refl, hits)
  other_old i k matched old track h (inr (e, hits)) = inr (rw (h, e) refl, hits)

  other_new :
      (i k : ℕ) (matched : List ℕ) (track : Track geo)
      → MarkedNew i matched track
      → MarkedNew i (k ∷ matched) track
  other_new i k matched track (e, hits) = (ground (arith, e), hits)

  -- a mark on a position before all of these
  Marked-later :
      (i k : ℕ) (matched : List ℕ) (olds tracks : List (Track geo))
      → k < i
      → Marked i matched olds tracks
      → Marked i (k ∷ matched) olds tracks
  unfolding Marked
  Marked-later i k matched [] [] h m = tt
  Marked-later i k matched [] (track ∷ tracks) h m =
      (other_new i k matched track m.0, Marked-later (i + 1) k matched [] tracks (omega arith) m.1)
  Marked-later i k matched (old ∷ olds) (track ∷ tracks) h m = (
    other_old i k matched old track (ground arith) m.0,
    Marked-later (i + 1) k matched olds tracks (omega arith) m.1,
  )
  Marked-later i k matched (old ∷ olds) [] h m = m

  touched :
      (i : ℕ) (matched : List ℕ) (det : Detection geo) (old track : Track geo)
      → is_among geo i matched ≡ false
      → MarkedOld i matched old track
      → MarkedOld i (i ∷ matched) old (touch geo det track)
  touched i matched det old track free (inl (e, hits)) = cc (free, e)
  touched i matched det old track free (inr (e, hits)) =
      inl (ground arith, ap (λ l. l ++ true ∷ []) hits)

  Marked-touch :
      (i j k : ℕ) (matched : List ℕ) (det : Detection geo) (olds tracks : List (Track geo))
      → k ≡ i + j
      → is_among geo k matched ≡ false
      → Marked i matched olds tracks
      → Marked i (k ∷ matched) olds (modify_at geo j (touch geo det) tracks)
  unfolding Marked
  Marked-touch i j k matched det [] [] e free m = tt
  Marked-touch i j k matched det (old ∷ olds) [] e free m = m
  Marked-touch i zero k matched det [] (track ∷ tracks) e free m =
      let same : k ≡ i = omega (arith, e) in cc (same, free, m.0.0)
  Marked-touch i zero k matched det (old ∷ olds) (track ∷ tracks) e free m =
      let same : i ≡ k = omega (arith, e) in
      (
        rw (sym same) (touched i matched det old track (rw same free) m.0),
        Marked-later (i + 1) k matched olds tracks (omega (arith, e)) m.1,
      )
  Marked-touch i (suc j) k matched det [] (track ∷ tracks) e free m = (
    other_new i k matched track m.0,
    Marked-touch (i + 1) j k matched det [] tracks (omega (arith, e)) free m.1,
  )
  Marked-touch i (suc j) k matched det (old ∷ olds) (track ∷ tracks) e free m = (
    other_old i k matched old track (ground (arith, e)) m.0,
    Marked-touch (i + 1) j k matched det olds tracks (omega (arith, e)) free m.1,
  )

  Marked-append :
      (i k : ℕ) (matched : List ℕ) (track : Track geo) (olds tracks : List (Track geo))
      → k ≡ i + length tracks
      → track.hits ≡ true ∷ []
      → Marked i matched olds tracks
      → Marked i (k ∷ matched) olds (tracks ++ track ∷ [])
  unfolding Marked
  Marked-append i k matched track [] [] e hits m = ((ground (arith, e), hits), tt)
  Marked-append i k matched track (old ∷ olds) [] e hits m = elim m [ ]
  Marked-append i k matched track [] (t ∷ tracks) e hits m = (
    other_new i k matched t m.0,
    Marked-append (i + 1) k matched track [] tracks (omega (arith, e)) hits m.1,
  )
  Marked-append i k matched track (old ∷ olds) (t ∷ tracks) e hits m = (
    other_old i k matched old t (ground (arith, e)) m.0,
    Marked-append (i + 1) k matched track olds tracks (omega (arith, e)) hits m.1,
  )

  -- the position that `_match` answers was not matched before
  IsFree : List ℕ → Option ℕ → Type 0
  IsFree matched best = (k : ℕ) → best ≡ some k → is_among geo k matched ≡ false

  turn-IsFree :
      (matched : List ℕ) (i : ℕ) (best : Best geo) (dist : Float) (same_class among near : Bool)
      → is_among geo i matched ≡ among
      → IsFree matched best.0
      → IsFree matched
          (if not same_class || among then best else (if near then (some i, dist) else best)).0
  unfolding IsFree
  turn-IsFree matched i best dist true false true e free k h =
      let same : i ≡ k = cc h in rw (sym same) e
  turn-IsFree matched i best dist true false false e free k h = free k h
  turn-IsFree matched i best dist true true near e free k h = free k h
  turn-IsFree matched i best dist false among near e free k h = free k h

  match_from-IsFree :
      (det : Detection geo) (matched : List ℕ) (i : ℕ) (tracks : List (Track geo)) (best : Best geo)
      → IsFree matched best.0
      → IsFree matched (match_from geo det matched i tracks best)
  unfolding match_from
  match_from-IsFree det matched i [] best free = free
  match_from-IsFree det matched i (track ∷ tracks) best free =
      match_from-IsFree det matched (i + 1) tracks (closer geo det matched i track best) (
        turn-IsFree matched i best (geo.distance track.centroid det.centroid)
          (track.class_id == det.class_id) (is_among geo i matched)
          (geo.le (geo.distance track.centroid det.centroid) best.1) refl free)

  place-Marked :
      (det : Detection geo) (o : Option ℕ) (olds tracks : List (Track geo)) (matched : List ℕ)
      → IsFree matched o
      → Marked 0 matched olds tracks
      → Marked 0 (place geo det o (tracks, matched)).1 olds (place geo det o (tracks, matched)).0
  unfolding IsFree
  place-Marked det none olds tracks matched free m =
      Marked-append 0 (length tracks) matched (touch geo det (new_track geo det)) olds tracks
        (omega arith) refl m
  place-Marked det (some k) olds tracks matched free m =
      Marked-touch 0 k k matched det olds tracks (omega arith) (free k refl) m

  associate-Marked :
      (jitter_max_m : Float) (dets : List (Detection geo)) (olds : List (Track geo))
      (frame : Frame geo)
      → Marked 0 frame.1 olds frame.0
      → Marked 0
          (associate geo jitter_max_m dets frame).1
          olds
          (associate geo jitter_max_m dets frame).0
  unfolding associate IsFree
  associate-Marked jitter_max_m [] olds frame m = m
  associate-Marked jitter_max_m (det ∷ dets) olds (tracks, matched) m =
      associate-Marked jitter_max_m dets olds _ (
        place-Marked det (match geo jitter_max_m det matched tracks) olds tracks matched
          (match_from-IsFree det matched 0 tracks (none, jitter_max_m) (λ k h. cc h)) m)

  unmarked : (i : ℕ) (olds : List (Track geo)) → Marked i [] olds olds
  unfolding Marked
  unmarked i [] = tt
  unmarked i (old ∷ olds) = (inr (refl, refl), unmarked (i + 1) olds)

  -- Every old track has one entry more, and every new track has the one hit.
  unfoldable pub Grown : List (Track geo) → List (Track geo) → Type 0
  Grown [] tracks = All (λ track. track.hits ≡ true ∷ []) tracks
  Grown (old ∷ olds) [] = ⊥
  Grown (old ∷ olds) (track ∷ tracks) =
      ((hit : Bool) × (track.hits ≡ old.hits ++ hit ∷ [])) × Grown olds tracks

  record_misses-Grown :
      (i : ℕ) (matched : List ℕ) (olds tracks : List (Track geo))
      → Marked i matched olds tracks
      → Grown olds (record_misses geo matched i tracks)
  unfolding record_misses Marked Grown
  record_misses-Grown i matched [] [] m = tt
  record_misses-Grown i matched (old ∷ olds) [] m = m
  record_misses-Grown i matched [] (track ∷ tracks) m =
      (rw (m.0.0) (m.0.1), record_misses-Grown (i + 1) matched [] tracks m.1)
  record_misses-Grown i matched (old ∷ olds) (track ∷ tracks) m =
      (entry m.0, record_misses-Grown (i + 1) matched olds tracks m.1)
    where
      entry :
          MarkedOld i matched old track
          → (hit : Bool) × ((if is_among geo i matched then track else miss geo track).hits
              ≡ old.hits ++ hit ∷ [])
      entry (inl (e, hits)) = (true, rw e hits)
      entry (inr (e, hits)) = (false, rw e (ap (λ l. l ++ false ∷ []) hits))

  -- However many detections a frame has, before the windows are trimmed every track that was there has
  -- exactly one entry more, a hit or a miss, and every track that is new has one hit.
  pub associate-Grown :
      (jitter_max_m : Float) (dets : List (Detection geo)) (tracks : List (Track geo))
      → Grown tracks (
          record_misses geo
            (associate geo jitter_max_m dets (tracks, [])).1
            0
            (associate geo jitter_max_m dets (tracks, [])).0)
  associate-Grown jitter_max_m dets tracks =
      record_misses-Grown 0 _ tracks _
        (associate-Marked jitter_max_m dets tracks (tracks, []) (unmarked 0 tracks))
