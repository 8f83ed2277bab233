-- ===== src/Processing/Enqueue.antt =====
-- CreateOrGetSessionProcessingJob (internal/database/session_processing_jobs.go) and
-- GetSessionProcessingJobByRecordingKey (session_processing_jobs_aggregate.go).
pub mod Keys
pub mod Row
use talkback.Prelude.{
  ℕ, String, Bool, true, false, ◌&&◌, Option, none, some, [], ◌∷◌, ◌++◌, ◌==◌, str_eq,
  if◌then◌else◌, update_where, find,
}
use talkback.Processing.State.{
  State, queued, fetching, downloading, parsing, chunking, embedding, awaiting_whisper, fetch,
}
use talkback.Processing.Job.{Job, Db}
use talkback.Processing.Store.{has_id, get_job_by_id}

-- COALESCE(s, '')
abbrev pub coalesce : Option String → String
coalesce none = ""
coalesce (some s) = s

-- The unique index on (session_id, source, COALESCE(meeting_uuid, ''), COALESCE(instance_uuid, '')).
abbrev pub has_key : ℕ → String → Option String → Option String → Job → Bool
has_key session_id source meeting_uuid instance_uuid r =
    r.session_id == session_id
    && (str_eq r.source source
        && (str_eq (coalesce r.meeting_uuid) (coalesce meeting_uuid)
            && str_eq (coalesce r.instance_uuid) (coalesce instance_uuid)))

abbrev pub same_key : Job → Job → Bool
same_key job = has_key job.session_id job.source job.meeting_uuid job.instance_uuid

-- GetSessionProcessingJobByRecordingKey
unfoldable pub get_job_by_recording_key :
    ℕ → String → Option String → Option String → Db → Option Job
get_job_by_recording_key session_id source meeting_uuid instance_uuid db =
    find (has_key session_id source meeting_uuid instance_uuid) db.jobs

-- state IN ('fetching', …, 'embedding', 'awaiting_whisper')
abbrev pub is_in_flight : State → Bool
is_in_flight fetching = true
is_in_flight downloading = true
is_in_flight parsing = true
is_in_flight chunking = true
is_in_flight embedding = true
is_in_flight awaiting_whisper = true
is_in_flight _ = false

-- DO UPDATE SET …: the row `old` after the insertion of `new` met it.
unfoldable pub merge_row : ℕ → Job → Job → Job
merge_row now new old =
    let keep = is_in_flight old.state in
    record old {
      state = if keep then old.state else queued;
      stage = if keep then old.stage else fetch;
      next_retry_at = if keep then old.next_retry_at else some now;
      meeting_uuid = new.meeting_uuid;
      instance_uuid = new.instance_uuid;
      creator_identity = new.creator_identity;
      last_error_code = if keep then old.last_error_code else none;
      last_error_message = if keep then old.last_error_message else none;
      locked_at = if keep then old.locked_at else none;
      lock_owner = if keep then old.lock_owner else none;
      updated_at = now;
    }

-- INSERT … VALUES: the columns that are not listed have their defaults.
unfoldable pub insert_row : ℕ → Job → Job
insert_row now new = record new {
  attempt_count = 0;
  next_retry_at = some now;
  last_error_code = none;
  last_error_message = none;
  locked_at = none;
  lock_owner = none;
  created_at = now;
  updated_at = now;
}

-- `none` is the error of a second row with one primary key. The row is returned into the job.
unfoldable pub create_or_get_job : ℕ → Job → Db → Option (Db × Job)
create_or_get_job now new db =
    elim (get_job_by_recording_key new.session_id new.source new.meeting_uuid new.instance_uuid
      db) [
        | some old ↦ some (
          record db { jobs = update_where (same_key new) (merge_row now new) db.jobs },
          merge_row now new old,
        )
        | none ↦ elim (get_job_by_id new.id db) [
          | some clash ↦ none
          | none ↦
              some (record db { jobs = db.jobs ++ insert_row now new ∷ [] }, insert_row now new)
        ]
      ]
