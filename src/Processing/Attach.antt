-- ===== src/Processing/Attach.antt =====
-- dedupeExistingAttach (internal/handlers/session_import_dedupe.go): a recording that is attached
-- to a session again. `none` stands for an error of the database.
pub mod Again
use talkback.Prelude.{ℕ, String, Bool, true, false, Option, none, some, if◌then◌else◌}
use talkback.Processing.State.{State, queued, failed_permanent, canceled, fetch}
use talkback.Processing.Job.{Job, Db}
use talkback.Processing.Store.{update_mirror}
use talkback.Processing.Enqueue.{get_job_by_recording_key, create_or_get_job}

-- terminalFailedStates
abbrev pub is_failed_terminal : State → Bool
is_failed_terminal failed_permanent = true
is_failed_terminal canceled = true
is_failed_terminal _ = false

-- SessionImportResponse
pub record Response : Type 0 where
  pub job_id : ℕ
  pub state : State
  pub already_imported : Bool
  pub retried : Bool

-- dedupeAttachResult with an existing row; without one it is empty.
pub record Existing : Type 0 where
  pub existing : Job
  pub response : Response
  pub status : ℕ

abbrev pub status_ok : ℕ
status_ok = 200

abbrev pub status_accepted : ℕ
status_accepted = 202

unfoldable pub retry_of : Job → ℕ → String → Option String → Option String → Option String → Job
retry_of existing session_id source meeting_uuid instance_uuid creator_identity = record {
  id = existing.id;
  session_id = session_id;
  source = source;
  state = queued;
  stage = fetch;
  attempt_count = 0;
  next_retry_at = none;
  last_error_code = none;
  last_error_message = none;
  locked_at = none;
  lock_owner = none;
  meeting_uuid = meeting_uuid;
  instance_uuid = instance_uuid;
  creator_identity = creator_identity;
  set_as_primary = false;
  created_at = 0;
  updated_at = 0;
}

-- The re-queueing of a failed row in its place.
unfoldable pub requeue_existing : ℕ → Job → Job → Db → Option (Db × Option Existing)
requeue_existing now existing retry db = elim (create_or_get_job now retry db) [
  | none ↦ none
  | some (db', row) ↦ some (
    update_mirror retry.session_id row.state now db',
    some (record {
      existing = existing;
      response = record {
        job_id = row.id;
        state = row.state;
        already_imported = false;
        retried = true;
      };
      status = status_accepted;
    }),
  )
]

-- The answer to an attach of a recording that needs no work.
abbrev pub already_imported_of : Job → Existing
already_imported_of existing = record {
  existing = existing;
  response = record {
    job_id = existing.id;
    state = existing.state;
    already_imported = true;
    retried = false;
  };
  status = status_ok;
}

unfoldable pub dedupe_existing_attach :
    ℕ
    → ℕ
    → String
    → Option String
    → Option String
    → Option String
    → Db
    → Option (Db × Option Existing)
dedupe_existing_attach now session_id source meeting_uuid instance_uuid creator_identity db =
    elim (get_job_by_recording_key session_id source meeting_uuid instance_uuid db) [
      | none ↦ some (db, none)
      | some existing ↦
          if is_failed_terminal existing.state
          then requeue_existing now existing
              (retry_of existing session_id source meeting_uuid instance_uuid creator_identity) db
          else some (db, some (already_imported_of existing))
    ]
