-- ===== src/Perception/Fading.antt =====
-- What becomes of the tracks when nothing is detected.
use gp4_ws.Common.{
  ℕ, zero, suc, ◌+◌, ◌≤◌, ◌<◌, leb, Bool, true, false, List, [], ◌∷◌, ◌++◌, length, length-append,
  ◌≡◌, refl, ◌⊎◌, inl, inr, arith, All, if_cases,
}
use gp4_ws.Perception.Retained.{IsRetained, next_tracks-IsRetained}
use gp4_ws.Perception.Tracker.{
  Geometry, Track, TemporalTracker, hit_count, miss, record_misses, associate, trim, settle_track,
  survives, settle_all, next_tracks, update,
}

module _ (geo : Geometry) where
  -- Every hit has at least `k` entries after it.
  Old : ℕ → List Bool → Type 0
  Old k [] = Unit
  Old k (hit ∷ hits) = ((hit ≡ false) ⊎ (k ≤ length hits)) × Old k hits

  Old-miss : (k : ℕ) (hits : List Bool) → Old k hits → Old (k + 1) (hits ++ false ∷ [])
  unfolding Old
  Old-miss k [] h = (inl refl, tt)
  Old-miss k (hit ∷ hits) (first, rest) = (later first, Old-miss k hits rest)
    where
      later :
          (hit ≡ false) ⊎ (k ≤ length hits) → (hit ≡ false) ⊎ (k + 1 ≤ length (hits ++ false ∷ []))
      later (inl e) = inl e
      later (inr h) = inr (omega (arith, h, length-append hits (false ∷ [])))

  Old-trim : (k window : ℕ) (hits : List Bool) → Old k hits → Old k (trim geo window hits)
  unfolding Old trim
  Old-trim k window [] h = tt
  Old-trim k window (hit ∷ hits) h =
      if_cases (Old k) (leb (suc (length hits)) window) (hit ∷ hits) (trim geo window hits) (λ _. h)
        (λ _. Old-trim k window hits h.1)

  -- a window that is shorter than the age of its last hit has none
  Old-hit_count : (k : ℕ) (hits : List Bool) → length hits ≤ k → Old k hits → hit_count geo hits ≡ 0
  unfolding Old
  Old-hit_count k [] h old = refl
  Old-hit_count k (false ∷ hits) h old = Old-hit_count k hits (omega (arith, h)) old.1
  Old-hit_count k (true ∷ hits) h (inl e, rest) = cc
  Old-hit_count k (true ∷ hits) h (inr later, rest) = omega (arith, h, later)

  -- A track that was missed in the last `k` frames
  record Unseen (k : ℕ) (track : Track geo) : Type 0 where
    pub missed : k ≤ track.missed_frames
    pub hits : Old k track.hits

  settled-Unseen :
      (k window min_hits : ℕ) (track : Track geo)
      → Unseen k track
      → Unseen (k + 1) (settle_track geo window min_hits (miss geo track))
  unfolding settle_track
  settled-Unseen k window min_hits track unseen = record {
    missed = omega (arith, unseen.missed);
    hits = Old-trim (k + 1) window _ (Old-miss k track.hits unseen.hits);
  }

  frame-Unseen :
      (k i window min_hits miss_tolerance : ℕ) (tracks : List (Track geo))
      → All (Unseen k) tracks
      → All
          (Unseen (k + 1))
          (settle_all geo window min_hits miss_tolerance (record_misses geo [] i tracks))
  unfolding settle_all record_misses
  frame-Unseen k i window min_hits miss_tolerance [] h = tt
  frame-Unseen k i window min_hits miss_tolerance (track ∷ tracks) h =
      let settled = settle_track geo window min_hits (miss geo track) in
      let rest =
        settle_all geo window min_hits miss_tolerance (record_misses geo [] (i + 1) tracks) in
      let later = frame-Unseen k (i + 1) window min_hits miss_tolerance tracks h.1 in
      if_cases (All (Unseen (k + 1))) (survives geo miss_tolerance settled) (settled ∷ rest) rest
        (λ _. (settled-Unseen k window min_hits track h.0, later)) (λ _. later)

  -- `n` frames without a detection
  unfoldable pub quiet_frames : ℕ → TemporalTracker geo → TemporalTracker geo
  quiet_frames zero t = t
  quiet_frames (suc n) t = quiet_frames n (update geo t []).1

  all_young : (tracks : List (Track geo)) → All (Unseen 0) tracks
  unfolding Old
  all_young [] = tt
  all_young (track ∷ tracks) =
      (record { missed = omega arith; hits = young track.hits }, all_young tracks)
    where
      young : (hits : List Bool) → Old 0 hits
      young [] = tt
      young (hit ∷ hits) = (inr (omega arith), young hits)

  module _ (window min_hits miss_tolerance : ℕ) where
    abbrev Retained : List (Track geo) → Type 0
    Retained = All (IsRetained geo window min_hits miss_tolerance)

    none_left :
        (k : ℕ) (tracks : List (Track geo))
        → window ≤ k
        → miss_tolerance < k
        → All (Unseen k) tracks
        → Retained tracks
        → tracks ≡ []
    none_left k [] w tolerance unseen retained = refl
    none_left k (track ∷ tracks) w tolerance unseen retained = elim (retained.0.status) [
      | inl (confirmed, recent) ↦
          let never : ⊥ = omega (arith, recent, unseen.0.missed, tolerance) in elim never [ ]
      | inr (unconfirmed, seen, few) ↦
          let gone : hit_count geo track.hits ≡ 0 =
            Old-hit_count k track.hits (omega (arith, retained.0.in_window, w)) unseen.0.hits in
          let never : ⊥ = omega (arith, seen, gone) in elim never [ ]
    ]

  faded :
      (n k : ℕ) (t : TemporalTracker geo)
      → t.window ≤ k + n
      → t.miss_tolerance < k + n
      → All (Unseen k) t.tracks
      → Retained t.window t.min_hits t.miss_tolerance t.tracks
      → (quiet_frames n t).tracks ≡ []
  unfolding quiet_frames update next_tracks associate
  faded zero k t w tolerance unseen retained =
      none_left t.window t.min_hits t.miss_tolerance k t.tracks (omega (arith, w))
        (omega (arith, tolerance)) unseen retained
  faded (suc n) k t w tolerance unseen retained =
      faded n (k + 1) (update geo t []).1 (omega (arith, w)) (omega (arith, tolerance))
        (frame-Unseen k 0 t.window t.min_hits t.miss_tolerance t.tracks unseen)
        (next_tracks-IsRetained geo t [])

  -- Whatever tracks there are, after as many frames without a detection as the window has, and more than
  -- are tolerated to be missed, no track is left.
  pub quiet_frames-tracks :
      (n : ℕ) (t : TemporalTracker geo)
      → t.window ≤ n
      → t.miss_tolerance < n
      → (quiet_frames n t).tracks ≡ []
  unfolding quiet_frames update next_tracks associate
  quiet_frames-tracks zero t w tolerance =
      let never : ⊥ = omega (arith, tolerance) in elim never [ ]
  quiet_frames-tracks (suc n) t w tolerance =
      faded n 1 (update geo t []).1 (omega (arith, w)) (omega (arith, tolerance))
        (frame-Unseen 0 0 t.window t.min_hits t.miss_tolerance t.tracks (all_young t.tracks))
        (next_tracks-IsRetained geo t [])
