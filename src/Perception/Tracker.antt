-- ===== src/Perception/Tracker.antt =====
-- src/gp4_perception/gp4_perception/temporal_tracker.py: the tracks of detections. A track is named
-- by its position in the list, which only grows while a frame is matched. The settings are natural
-- numbers; points, distances and quotients (numpy, floats) are parameters.
use gp4_ws.Common.{
  ℕ, zero, suc, ◌+◌, ltb, leb, String, Bool, true, false, not, ◌&&◌, ◌||◌, Option, none, some, List,
  [], ◌∷◌, ◌++◌, length, nat_eq, any, ◌==◌, if◌then◌else◌,
}
use gp4_ws.Common.Outcome.{Outcome, ok, raised}
use gp4_ws.Common.Fallible.{◌>>=◌}

pub record Geometry : Type 1 where
  pub Point : Type 0
  pub Float : Type 0
  -- a detection's other fields, with its user data
  pub Payload : Type 0
  -- `float(np.linalg.norm(a - b))`
  pub distance : Point → Point → Float
  pub le : Float → Float → Bool
  -- `a / b` of two ints, for b that is not 0
  pub ratio : ℕ → ℕ → Float

pub data TrackerError : Type 0 where
  zero_division : TrackerError

module _ (geo : Geometry) where
  open geo use {Point, Float, Payload, distance, le, ratio}

  -- A detection with its user data
  pub record Detection : Type 0 where
    pub class_id : String
    pub centroid : Point
    pub payload : Payload

  pub record Track : Type 0 where
    pub class_id : String
    pub centroid : Point
    -- the oldest first
    pub hits : List Bool
    pub last_detection : Option Detection
    pub missed_frames : ℕ
    pub confirmed : Bool

  pub record TemporalTracker : Type 0 where
    pub window : ℕ
    pub min_hits : ℕ
    pub jitter_max_m : Float
    pub miss_tolerance : ℕ
    pub tracks : List Track

  -- `sum(hits)`
  abbrev pub hit_count : List Bool → ℕ
  hit_count [] = 0
  hit_count (true ∷ hits) = suc (hit_count hits)
  hit_count (false ∷ hits) = hit_count hits

  abbrev pub is_among : ℕ → List ℕ → Bool
  is_among i = any (nat_eq i)

  -- `best` and `best_dist`
  abbrev pub Best : Type 0
  Best = Option ℕ × Float

  -- one turn of the loop of `_match`
  abbrev pub closer : Detection → List ℕ → ℕ → Track → Best → Best
  closer det matched i track best =
      if not (track.class_id == det.class_id) || is_among i matched
      then best
      else (if le (distance track.centroid det.centroid) best.1
          then (some i, distance track.centroid det.centroid)
          else best)

  unfoldable pub match_from : Detection → List ℕ → ℕ → List Track → Best → Option ℕ
  match_from det matched i [] best = best.0
  match_from det matched i (track ∷ tracks) best =
      match_from det matched (i + 1) tracks (closer det matched i track best)

  abbrev pub match : Float → Detection → List ℕ → List Track → Option ℕ
  match jitter_max_m det matched tracks = match_from det matched 0 tracks (none, jitter_max_m)

  -- the assignments to the track of a detection
  abbrev pub touch : Detection → Track → Track
  touch det track = record track {
    centroid = det.centroid;
    last_detection = some det;
    missed_frames = 0;
    hits = track.hits ++ true ∷ [];
  }

  abbrev pub new_track : Detection → Track
  new_track det = record {
    class_id = det.class_id;
    centroid = det.centroid;
    hits = [];
    last_detection = none;
    missed_frames = 0;
    confirmed = false;
  }

  abbrev pub modify_at : ℕ → (Track → Track) → List Track → List Track
  modify_at i f [] = []
  modify_at zero f (track ∷ tracks) = f track ∷ tracks
  modify_at (suc i) f (track ∷ tracks) = track ∷ modify_at i f tracks

  -- the tracks of a frame so far, with the positions of those that were matched
  abbrev pub Frame : Type 0
  Frame = List Track × List ℕ

  abbrev pub place : Detection → Option ℕ → Frame → Frame
  place det none (tracks, matched) =
      (tracks ++ touch det (new_track det) ∷ [], length tracks ∷ matched)
  place det (some i) (tracks, matched) = (modify_at i (touch det) tracks, i ∷ matched)

  -- the loop over the detections
  unfoldable pub associate : Float → List Detection → Frame → Frame
  unfolding match_from
  associate jitter_max_m [] frame = frame
  associate jitter_max_m (det ∷ dets) frame =
      associate jitter_max_m dets (place det (match jitter_max_m det frame.1 frame.0) frame)

  abbrev pub miss : Track → Track
  miss track = record track {
    hits = track.hits ++ false ∷ [];
    missed_frames = track.missed_frames + 1;
  }

  unfoldable pub record_misses : List ℕ → ℕ → List Track → List Track
  record_misses matched i [] = []
  record_misses matched i (track ∷ tracks) =
      (if is_among i matched then track else miss track) ∷ record_misses matched (i + 1) tracks

  -- `while len(hits) > window: hits.popleft()`
  unfoldable pub trim : ℕ → List Bool → List Bool
  trim window [] = []
  trim window (hit ∷ hits) =
      let shorter = trim window hits in
      if leb (suc (length hits)) window then hit ∷ hits else shorter

  -- the window and the status of a track at the end of the frame
  unfoldable pub settle_track : ℕ → ℕ → Track → Track
  unfolding trim
  settle_track window min_hits track = record track {
    hits = trim window track.hits;
    confirmed = if leb min_hits (hit_count (trim window track.hits)) then true else track.confirmed;
  }

  abbrev pub survives : ℕ → Track → Bool
  survives miss_tolerance track =
      (track.confirmed && leb track.missed_frames miss_tolerance)
      || (not track.confirmed && ltb 0 (hit_count track.hits))

  -- the loops over the windows and the statuses, and the eviction, track by track
  unfoldable pub settle_all : ℕ → ℕ → ℕ → List Track → List Track
  unfolding settle_track
  settle_all window min_hits miss_tolerance [] = []
  settle_all window min_hits miss_tolerance (track ∷ tracks) =
      let settled = settle_track window min_hits track in
      let rest = settle_all window min_hits miss_tolerance tracks in
      if survives miss_tolerance settled then settled ∷ rest else rest

  -- `track.score(self._window)`
  abbrev pub score : ℕ → Track → Outcome TrackerError Float
  score zero track = raised zero_division
  score (suc n) track = ok (ratio (hit_count track.hits) (suc n))

  pub record Emitted : Type 0 where
    pub detection : Detection
    pub temporal_score : Float

  abbrev pub emit_track :
      ℕ
      → Track
      → Option Detection
      → Bool
      → Outcome TrackerError (List Emitted)
      → Outcome TrackerError (List Emitted)
  emit_track window track (some det) true later = do
    value ← score window track
    rest ← later
    ok (record { detection = det; temporal_score = value } ∷ rest)
  emit_track window track _ _ later = later

  unfoldable pub emit : ℕ → List Track → Outcome TrackerError (List Emitted)
  emit window [] = ok []
  emit window (track ∷ tracks) =
      emit_track window track track.last_detection track.confirmed (emit window tracks)

  -- the tracks after a frame
  unfoldable pub next_tracks : TemporalTracker → List Detection → List Track
  unfolding associate record_misses settle_all
  next_tracks t dets =
      let frame = associate t.jitter_max_m dets (t.tracks, []) in
      settle_all t.window t.min_hits t.miss_tolerance (record_misses frame.1 0 frame.0)

  unfoldable pub update :
      TemporalTracker → List Detection → Outcome TrackerError (List Emitted) × TemporalTracker
  unfolding next_tracks emit
  update t dets =
      let tracks = next_tracks t dets in (emit t.window tracks, record t { tracks = tracks })
