-- ===== src/Perception/Tests.antt =====
-- The tracker over a line of natural numbers, with a window of three frames: a bolt at 10 is seen, and
-- in the next frame seen twice.
use gp4_ws.Common.{ℕ, ◌+◌, ◌-◌, leb, true, false, some, [], ◌∷◌, ◌≡◌, refl, All, arith}
use gp4_ws.Common.Outcome.{ok}
use gp4_ws.Perception.Tracker.{
  Geometry, Detection, TemporalTracker, associate, match_from, record_misses, settle_all,
  settle_track, trim, emit, next_tracks, update,
}
use gp4_ws.Perception.Entries.{Grown, associate-Grown}
use gp4_ws.Perception.Retained.{IsRetained, next_tracks-IsRetained}
use gp4_ws.Perception.Fading.{quiet_frames, quiet_frames-tracks}

abbrev line : Geometry
line = record {
  Point = ℕ;
  Float = ℕ;
  Payload = ℕ;
  distance = λ a b. (a - b) + (b - a);
  le = leb;
  ratio = λ a b. a;
}

abbrev bolt : ℕ → Detection line
bolt at = record { class_id = "bolt"; centroid = at; payload = at }

abbrev fresh : TemporalTracker line
fresh = record { window = 3; min_hits = 2; jitter_max_m = 5; miss_tolerance = 1; tracks = [] }

abbrev seen : TemporalTracker line
seen = record fresh {
  tracks =
      (record {
        class_id = "bolt";
        centroid = 10;
        hits = true ∷ [];
        last_detection = some (bolt 10);
        missed_frames = 0;
        confirmed = false;
      })
      ∷ [];
}

sees : (update line fresh (bolt 10 ∷ [])).1 ≡ seen
unfolding update next_tracks associate match_from record_misses settle_all settle_track trim emit
sees = refl

-- The second bolt of the frame is a track of its own, since the first took the track.
emits :
    (update line seen (bolt 12 ∷ bolt 11 ∷ [])).0
    ≡ ok (record { detection = bolt 12; temporal_score = 2 } ∷ [])
unfolding update next_tracks associate match_from record_misses settle_all settle_track trim emit
emits = refl

associate-Grown_example : Grown line seen.tracks (
    record_misses line
      (associate line 5 (bolt 12 ∷ bolt 11 ∷ []) (seen.tracks, [])).1
      0
      (associate line 5 (bolt 12 ∷ bolt 11 ∷ []) (seen.tracks, [])).0)
associate-Grown_example = associate-Grown line 5 (bolt 12 ∷ bolt 11 ∷ []) seen.tracks

next_tracks-IsRetained_example :
    All (IsRetained line 3 2 1) (next_tracks line seen (bolt 12 ∷ bolt 11 ∷ []))
next_tracks-IsRetained_example = next_tracks-IsRetained line seen (bolt 12 ∷ bolt 11 ∷ [])

quiet_frames-tracks_example : (quiet_frames line 3 seen).tracks ≡ []
quiet_frames-tracks_example = quiet_frames-tracks line 3 seen (omega arith) (omega arith)
