-- ===== src/Processing/Store.antt =====
-- The statements on `session_processing_jobs` and on the mirror in `sessions`
-- (internal/database/session_processing_jobs.go). A statement is a function on the two tables; the
-- time of the statement, SQL's `now()`, is its last argument but one. A lost connection to the
-- database is not modelled.
pub mod Rows
use talkback.Prelude.{
  ℕ, ◌+◌, String, Bool, true, false, ◌&&◌, Option, none, some, ltb, ◌==◌, str_eq, if◌then◌else◌,
  update_where, find, is_some,
}
use talkback.Processing.State.{
  State, queued, waiting, failed_transient, failed_permanent, canceled, Stage, fetch,
}
use talkback.Processing.Job.{Job, Session, Db, source_zoom}

-- WHERE id = $1
abbrev pub has_id : ℕ → Job → Bool
has_id id r = r.id == id

-- GetSessionProcessingJobByID
unfoldable pub get_job_by_id : ℕ → Db → Option Job
get_job_by_id id db = find (has_id id) db.jobs

-- Every row that passes the test is rewritten.
abbrev pub update_jobs : (Job → Bool) → (Job → Job) → Db → Db
update_jobs p f db = record db { jobs = update_where p f db.jobs }

-- GetSession
abbrev pub get_session : ℕ → Db → Option Session
get_session id db = find (λ s. s.id == id) db.sessions

-- The default for callers that give no source.
abbrev pub or_zoom : String → String
or_zoom source = if str_eq source "" then source_zoom else source

-- WHERE session_id = $1 AND source = $2
abbrev pub is_of : ℕ → String → Job → Bool
is_of session_id source r = r.session_id == session_id && str_eq r.source source

-- GetSessionProcessingJobBySessionID
unfoldable pub get_job_by_session_id : ℕ → String → Db → Option Job
get_job_by_session_id session_id source db = find (is_of session_id (or_zoom source)) db.jobs

-- UpdateSessionProcessingJobState
unfoldable pub update_job_state :
    ℕ → State → Stage → ℕ → Option ℕ → Option String → Option String → ℕ → Db → Db
update_job_state id state stage attempt next_retry_at code msg now = update_jobs (has_id id) (λ r.
    record r {
      state = state;
      stage = stage;
      attempt_count = attempt;
      next_retry_at = next_retry_at;
      last_error_code = code;
      last_error_message = msg;
      updated_at = now;
    })

-- locked_at IS NULL OR locked_at < now - lock_duration
abbrev pub lock_is_free : Option ℕ → ℕ → ℕ → Bool
lock_is_free none lock_duration now = true
lock_is_free (some t) lock_duration now = ltb (t + lock_duration) now

-- LockSessionProcessingJob; the result says whether a row was locked.
unfoldable pub lock_job : ℕ → String → ℕ → ℕ → Db → Db × Bool
lock_job id owner lock_duration now db =
    let p = λ (r : Job). has_id id r && lock_is_free r.locked_at lock_duration now in
    (
      update_jobs p
          (λ r. record r { locked_at = some now; lock_owner = some owner; updated_at = now }) db,
      is_some (find p db.jobs),
    )

-- UnlockSessionProcessingJob
unfoldable pub unlock_job : ℕ → ℕ → Db → Db
unlock_job id now =
    update_jobs (has_id id)
      (λ r. record r { locked_at = none; lock_owner = none; updated_at = now })

-- UpdateSessionProcessingMirror
unfoldable pub update_mirror : ℕ → State → ℕ → Db → Db
update_mirror session_id state now db = record db {
  sessions =
      update_where (λ s. s.id == session_id)
        (λ s. record s { processing_state = state; processing_updated_at = some now }) db.sessions;
}

-- state IN ('failed_transient', 'failed_permanent', 'waiting')
abbrev pub is_retriable : State → Bool
is_retriable failed_transient = true
is_retriable failed_permanent = true
is_retriable waiting = true
is_retriable _ = false

-- RetrySessionProcessingJob
unfoldable pub retry_job : ℕ → String → ℕ → Db → Db
retry_job session_id source now =
    update_jobs (λ r. is_of session_id (or_zoom source) r && is_retriable r.state)
      (λ r. record r {
        state = queued;
        stage = fetch;
        next_retry_at = some now;
        last_error_code = none;
        last_error_message = none;
        locked_at = none;
        lock_owner = none;
        updated_at = now;
      })

-- CancelSessionProcessingJob
unfoldable pub cancel_job : ℕ → String → ℕ → Db → Db
cancel_job session_id source now =
    update_jobs (is_of session_id (or_zoom source))
      (λ r. record r { state = canceled; updated_at = now })

-- ResetSessionProcessingJobRetry
unfoldable pub reset_job_retry : ℕ → ℕ → Db → Db
reset_job_retry id now = update_jobs (has_id id) (λ r. record r {
  next_retry_at = some now;
  locked_at = none;
  lock_owner = none;
  updated_at = now;
})
