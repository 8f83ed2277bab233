-- ===== src/Processing/Zoom.antt =====
-- Errors of the Zoom API and what the Zoom pipeline makes of them: ZoomAPIError
-- (internal/utils/zoom_client.go), handleZoomError and meetingUUIDForJob
-- (internal/processing/pipeline_zoom.go).
pub mod Errors
use talkback.Prelude.{
  ℕ, ◌+◌, String, Bool, true, false, ◌&&◌, ◌||◌, Option, none, some, ltb, leb, ◌==◌, str_eq,
  if◌then◌else◌,
}
use talkback.Processing.State.{State, waiting, failed_transient, failed_permanent}
use talkback.Processing.Job.{Job, Db}
use talkback.Processing.Store.{update_mirror}
use talkback.Processing.Backoff.{
  backoff_transient, backoff_waiting, set_job_failed_transient, set_job_failed_permanent,
  set_job_waiting,
}

pub record ZoomApiError : Type 0 where
  pub status_code : ℕ
  pub message : String
  pub code : String
  pub not_ready : Bool

abbrev pub retryable : ZoomApiError → Bool
retryable e = e.status_code == 429 || (leb 500 e.status_code && ltb e.status_code 600)

abbrev pub permanent : ZoomApiError → Bool
permanent e = e.status_code == 401 || (e.status_code == 403 || str_eq e.code "recording_not_found")

-- An error of a call: one of Zoom's, or another one with its text.
pub data Error : Type 0 where
  zoom_api : ZoomApiError → Error
  network : String → Error

-- The transient failure of each of the three branches: the job, then the session's mirror.
unfoldable pub fail_transient : ℕ → Job → ℕ → String → String → Db → Db
fail_transient now job attempt code msg db =
    update_mirror job.session_id failed_transient now
      (set_job_failed_transient job.id attempt code msg (now + backoff_transient attempt) now db)

unfoldable pub handle_zoom_error : ℕ → Job → ℕ → Error → Db → Db
handle_zoom_error now job attempt (network text) db =
    fail_transient now job attempt "network_error" text db
handle_zoom_error now job attempt (zoom_api e) db =
    if e.not_ready
    then update_mirror job.session_id waiting now (
        set_job_waiting job.id attempt (if str_eq e.code "" then "transcript_not_ready" else e.code)
          e.message (now + backoff_waiting attempt) now db)
    else if retryable e
    then fail_transient now job attempt e.code e.message db
    else if permanent e
    then update_mirror job.session_id failed_permanent now
        (set_job_failed_permanent job.id attempt e.code e.message now db)
    else fail_transient now job attempt e.code e.message db

abbrev text_or_empty : Option String → String
text_or_empty none = ""
text_or_empty (some s) = s

-- The instance of a recurring meeting, if the job has one.
unfoldable pub meeting_uuid_for_job : Job → String
meeting_uuid_for_job job =
    if str_eq (text_or_empty job.instance_uuid) ""
    then text_or_empty job.meeting_uuid
    else text_or_empty job.instance_uuid
