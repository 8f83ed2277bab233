-- ===== src/Processing/Job.antt =====
-- A row of `session_processing_jobs` (SessionProcessingJob of internal/models/models.go). An
-- identifier is a number that is only compared, a time is a number of seconds.
use talkback.Prelude.{ℕ, String, Bool, Option, List}
use talkback.Processing.State.{State, Stage}

-- The values of `source`.
abbrev pub source_zoom : String
source_zoom = "zoom"

abbrev pub source_teams : String
source_teams = "teams"

abbrev pub source_google_meet : String
source_google_meet = "google_meet"

pub record Job : Type 0 where
  pub id : ℕ
  pub session_id : ℕ
  pub source : String
  pub state : State
  pub stage : Stage
  pub attempt_count : ℕ
  pub next_retry_at : Option ℕ
  pub last_error_code : Option String
  pub last_error_message : Option String
  pub locked_at : Option ℕ
  pub lock_owner : Option String
  pub meeting_uuid : Option String
  pub instance_uuid : Option String
  pub creator_identity : Option String
  pub set_as_primary : Bool
  pub created_at : ℕ
  pub updated_at : ℕ

-- A row of `sessions`, as far as the worker reads and writes it.
pub record Session : Type 0 where
  pub id : ℕ
  pub processing_state : State
  pub processing_updated_at : Option ℕ
  pub primary_video_artifact_id : Option ℕ

pub record Db : Type 0 where
  pub jobs : List Job
  pub sessions : List Session
