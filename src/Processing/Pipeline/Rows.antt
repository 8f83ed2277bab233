-- ===== src/Processing/Pipeline/Rows.antt =====
-- The rows that the parsed segments of a transcript become (internal/processing/pipeline_zoom.go,
-- pipeline_teams.go, the stage "parsing").
use talkback.Prelude.{ℕ, suc, List, [], ◌∷◌, ◌≡◌, refl, All, map}
use talkback.Processing.Media.{SegmentRow}
use talkback.Processing.Pipeline.Save.{rows_from}
use talkback.Transcript.Normalize.{Segment}

-- The segment that a row holds.
abbrev pub segment_of : SegmentRow → Segment
segment_of r = record {
  start_ms = r.start_ms;
  end_ms = r.end_ms;
  text = r.text;
  speaker_label = r.speaker_label;
  source_ref = r.source_ref;
}

-- The rows are numbered one after the other.
unfoldable pub IsNumbered : ℕ → List SegmentRow → Type 0
IsNumbered i [] = Unit
IsNumbered i (r ∷ rs) = (r.idx ≡ i) × IsNumbered (suc i) rs

abbrev pub IsRowOf : ℕ → ℕ → SegmentRow → Type 0
IsRowOf id session_id r = (r.transcript_id ≡ id) × (r.session_id ≡ session_id)

-- The rows of a transcript of a session that hold these segments in their order.
pub record Holds (id session_id : ℕ) (segs : List Segment) (rows : List SegmentRow) : Type 0 where
  pub segments : map segment_of rows ≡ segs
  pub numbered : IsNumbered 0 rows
  pub owned : All (IsRowOf id session_id) rows

pub rows_from-IsRowOf :
    (id session_id i : ℕ) (segs : List Segment)
    → All (IsRowOf id session_id) (rows_from id session_id i segs)
unfolding rows_from
rows_from-IsRowOf id session_id i [] = tt
rows_from-IsRowOf id session_id i (s ∷ segs) =
    ((refl, refl), rows_from-IsRowOf id session_id (suc i) segs)

rows_from-IsNumbered :
    (id session_id i : ℕ) (segs : List Segment) → IsNumbered i (rows_from id session_id i segs)
unfolding rows_from IsNumbered
rows_from-IsNumbered id session_id i [] = tt
rows_from-IsNumbered id session_id i (s ∷ segs) =
    (refl, rows_from-IsNumbered id session_id (suc i) segs)

map-rows_from :
    (id session_id i : ℕ) (segs : List Segment)
    → map segment_of (rows_from id session_id i segs) ≡ segs
unfolding rows_from
map-rows_from id session_id i [] = refl
map-rows_from id session_id i (s ∷ segs) = rw (map-rows_from id session_id (suc i) segs)

pub rows_from-Holds :
    (id session_id : ℕ) (segs : List Segment)
    → Holds id session_id segs (rows_from id session_id 0 segs)
rows_from-Holds id session_id segs = record {
  segments = map-rows_from id session_id 0 segs;
  numbered = rows_from-IsNumbered id session_id 0 segs;
  owned = rows_from-IsRowOf id session_id 0 segs;
}
