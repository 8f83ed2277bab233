-- ===== src/Processing/Pipeline/Dedupe.antt =====
-- shouldSkipMP4Ingest and setPrimaryIfNotSet (internal/processing/recording_dedupe.go).
use talkback.Prelude.{
  ℕ, String, Bool, false, Option, none, some, str_eq, ◌==◌, if◌then◌else◌, update_where,
}
use talkback.Processing.Job.{Db}
use talkback.Processing.Store.{get_session}
use talkback.Processing.Media.{
  is_ready_file, get_file_artifact_by_id, get_video_source_by_external_recording_id,
}
use talkback.Processing.Pipeline.{World, on_db}

-- A pointer that is nil counts as the empty text.
abbrev pub text_or_empty : Option String → String
text_or_empty none = ""
text_or_empty (some s) = s

-- The instance, or else the meeting.
abbrev pub external_id_of : Option String → Option String → String
external_id_of meeting_uuid instance_uuid =
    if str_eq (text_or_empty instance_uuid) ""
    then text_or_empty meeting_uuid
    else text_or_empty instance_uuid

abbrev pub is_ready_id : ℕ → World → Bool
is_ready_id id w = elim (get_file_artifact_by_id id w.media) [
  | none ↦ false
  | some fa ↦ is_ready_file fa.status
]

unfoldable pub should_skip_mp4_ingest : ℕ → String → Option String → Option String → World → Bool
should_skip_mp4_ingest session_id provider meeting_uuid instance_uuid w =
    if str_eq (external_id_of meeting_uuid instance_uuid) ""
    then false
    else elim (get_video_source_by_external_recording_id session_id provider
        (external_id_of meeting_uuid instance_uuid) w.media) [
          | none ↦ false
          | some vs ↦ elim vs.file_artifact_id [ none ↦ false | some id ↦ is_ready_id id w ]
        ]

-- Whether the session has a primary video that is ready.
abbrev pub has_ready_primary : ℕ → World → Bool
has_ready_primary session_id w = elim (get_session session_id w.db) [
  | none ↦ false
  | some s ↦ elim s.primary_video_artifact_id [ none ↦ false | some id ↦ is_ready_id id w ]
]

-- SetSessionPrimaryVideoArtifact
abbrev pub set_session_primary_video_artifact : ℕ → ℕ → Db → Db
set_session_primary_video_artifact session_id artifact_id db = record db {
  sessions =
      update_where (λ s. s.id == session_id)
        (λ s. record s { primary_video_artifact_id = some artifact_id }) db.sessions;
}

-- `fails` says that the statement fails, which is only logged.
unfoldable pub set_primary_if_not_set : Bool → ℕ → ℕ → Bool → World → World
set_primary_if_not_set fails session_id artifact_id should_promote w =
    if should_promote
    then if has_ready_primary session_id w
      then w
      else if fails
      then w
      else on_db (set_session_primary_video_artifact session_id artifact_id) w
    else w
