-- ===== src/Processing/Attach/Again.antt =====
-- What an attach of a known recording does.
use talkback.Prelude.{ℕ, String, true, false, Option, some, ◌≡◌, arith}
use talkback.Processing.State.{queued}
use talkback.Processing.Job.{Job, Db}
use talkback.Processing.Store.{update_mirror}
use talkback.Processing.Enqueue.{get_job_by_recording_key, create_or_get_job}
use talkback.Processing.Enqueue.Row.{create_or_get_job-again, IsRequeued}
use talkback.Processing.Claim.{is_candidate}
use talkback.Processing.Attach.{
  is_failed_terminal, Existing, retry_of, requeue_existing, already_imported_of,
  dedupe_existing_attach, status_accepted,
}

requeued-is_candidate :
    (lock_duration now : ℕ) (row old : Job)
    → IsRequeued now row old
    → is_candidate lock_duration now row ≡ true
requeued-is_candidate d now row old r = ground arith

abbrev pub answer : Job → Job → Existing
answer old row = record {
  existing = old;
  response = record {
    job_id = row.id;
    state = row.state;
    already_imported = false;
    retried = true;
  };
  status = status_accepted;
}

requeue_existing_lem :
    (now : ℕ) (old retry row : Job) (db db' : Db)
    → create_or_get_job now retry db ≡ some (db', row)
    → requeue_existing now old retry db
      ≡ some (update_mirror retry.session_id row.state now db', some (answer old row))
unfolding requeue_existing
requeue_existing_lem now old retry row db db' e = rw (e, requeue_existing)

-- The row of a recording whose ingestion has failed for good or was canceled is queued again in
-- its place: the answer is 202 with `retried` and the row's own id, and the row of the recording
-- can be claimed at once.
dedupe_existing_attach_failed :
    (now session_id : ℕ) (source : String) (mu iu creator : Option String) (db : Db) (old : Job)
    → get_job_by_recording_key session_id source mu iu db ≡ some old
    → is_failed_terminal old.state ≡ true
    → (db' : Db) × (row : Job) × (dedupe_existing_attach now session_id source mu iu creator db
        ≡ some (db', some (answer old row)))
      × (row.id ≡ old.id)
      × (row.state ≡ queued)
      × (get_job_by_recording_key session_id source mu iu db' ≡ some row)
      × ((lock_duration : ℕ) → is_candidate lock_duration now row ≡ true)
unfolding dedupe_existing_attach retry_of
dedupe_existing_attach_failed now session_id source mu iu creator db old h failed =
    let retry = retry_of old session_id source mu iu creator in
    let (db', row, made, held, count, others, same, keeps, again) =
      create_or_get_job-again now retry old db h in
    let requeued = again (ground arith) in
    (
      update_mirror session_id row.state now db',
      row,
      rw (h, dedupe_existing_attach, failed) (requeue_existing_lem now old retry row db db' made),
      same,
      requeued.state,
      unfold update_mirror get_job_by_recording_key in held,
      λ d. requeued-is_candidate d now row old requeued,
    )

-- An attach of a recording in any other state, ready or still in progress, changes nothing: the
-- answer is 200 with `already_imported` and the state of the row.
dedupe_existing_attach_known :
    (now session_id : ℕ) (source : String) (mu iu creator : Option String) (db : Db) (old : Job)
    → get_job_by_recording_key session_id source mu iu db ≡ some old
    → is_failed_terminal old.state ≡ false
    → dedupe_existing_attach now session_id source mu iu creator db
      ≡ some (db, some (already_imported_of old))
unfolding dedupe_existing_attach
dedupe_existing_attach_known now session_id source mu iu creator db old h failed =
    rw (h, dedupe_existing_attach, failed)
