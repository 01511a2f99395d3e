-- ===== src/Perception/Retained.antt =====
-- The tracks that a frame leaves.
use gp4_ws.Common.{
  ℕ, suc, ◌≤◌, ◌<◌, ltb, leb, ltb→lt, leb→le, Bool, true, false, not, ◌&&◌, ◌||◌, List, [], ◌∷◌,
  length, ◌≡◌, refl, ◌⊎◌, inl, inr, arith, All, if◌then◌else◌, if_cases,
}
use gp4_ws.Perception.Tracker.{
  Geometry, Detection, Track, TemporalTracker, hit_count, trim, settle_track, survives, settle_all,
  next_tracks,
}

module _ (geo : Geometry) where
  -- Confirmed and seen within the tolerance, or on the way to it
  abbrev pub Status : ℕ → ℕ → Track geo → Type 0
  Status min_hits miss_tolerance track =
      ((track.confirmed ≡ true) × (track.missed_frames ≤ miss_tolerance))
      ⊎ ((track.confirmed ≡ false)
          × (0 < hit_count geo track.hits)
          × (hit_count geo track.hits < min_hits))

  pub record IsRetained (window min_hits miss_tolerance : ℕ) (track : Track geo) : Type 0 where
    pub in_window : length track.hits ≤ window
    pub status : Status min_hits miss_tolerance track

  trim-length : (window : ℕ) (hits : List Bool) → length (trim geo window hits) ≤ window
  unfolding trim
  trim-length window [] = omega arith
  trim-length window (hit ∷ hits) =
      if_cases (λ kept. length kept ≤ window) (leb (suc (length hits)) window) (hit ∷ hits)
        (trim geo window hits) (λ e. leb→le _ _ e) (λ _. trim-length window hits)

  settle_track-Status :
      (window min_hits miss_tolerance : ℕ) (track : Track geo)
      → survives geo miss_tolerance (settle_track geo window min_hits track) ≡ true
      → Status min_hits miss_tolerance (settle_track geo window min_hits track)
  unfolding settle_track
  settle_track-Status window min_hits miss_tolerance track =
      by_tests (leb min_hits count) track.confirmed (leb track.missed_frames miss_tolerance)
        (ltb 0 count) refl refl refl
    where
      count : ℕ
      count = hit_count geo (trim geo window track.hits)

      by_tests :
          (reached was recent seen : Bool)
          → leb min_hits count ≡ reached
          → leb track.missed_frames miss_tolerance ≡ recent
          → ltb 0 count ≡ seen
          → ((if reached then true else was) && recent)
              || (not (if reached then true else was) && seen)
            ≡ true
          → (((if reached then true else was) ≡ true) × (track.missed_frames ≤ miss_tolerance))
            ⊎ (((if reached then true else was) ≡ false) × (0 < count) × (count < min_hits))
      by_tests true was true seen r n s h = inl (refl, leb→le _ _ n)
      by_tests true was false seen r n s h = cc
      by_tests false true true seen r n s h = inl (refl, leb→le _ _ n)
      by_tests false true false seen r n s h = cc
      by_tests false false recent true r n s h = inr (refl, ltb→lt _ _ s, ground (arith, r))
      by_tests false false recent false r n s h = cc

  settle_track-length :
      (window min_hits : ℕ) (track : Track geo)
      → length (settle_track geo window min_hits track).hits ≤ window
  unfolding settle_track
  settle_track-length window min_hits track = trim-length window track.hits

  settle_all-IsRetained :
      (window min_hits miss_tolerance : ℕ) (tracks : List (Track geo))
      → All
          (IsRetained window min_hits miss_tolerance)
          (settle_all geo window min_hits miss_tolerance tracks)
  unfolding settle_all
  settle_all-IsRetained window min_hits miss_tolerance [] = tt
  settle_all-IsRetained window min_hits miss_tolerance (track ∷ tracks) =
      let settled = settle_track geo window min_hits track in
      let rest = settle_all geo window min_hits miss_tolerance tracks in
      let retained = settle_all-IsRetained window min_hits miss_tolerance tracks in
      if_cases (All (IsRetained window min_hits miss_tolerance))
        (survives geo miss_tolerance settled) (settled ∷ rest) rest
        (λ h. (
          record {
            in_window = settle_track-length window min_hits track;
            status = settle_track-Status window min_hits miss_tolerance track h;
          },
          retained,
        ))
        (λ _. retained)

  -- After every frame, whatever its detections, each track has at most `window_frames` entries, and it is
  -- either confirmed and missed in at most `miss_tolerance_frames` frames, or unconfirmed with at least
  -- one hit in its window and fewer than `min_hits`.
  pub next_tracks-IsRetained :
      (t : TemporalTracker geo) (dets : List (Detection geo))
      → All (IsRetained t.window t.min_hits t.miss_tolerance) (next_tracks geo t dets)
  unfolding next_tracks
  next_tracks-IsRetained t dets = settle_all-IsRetained t.window t.min_hits t.miss_tolerance _
