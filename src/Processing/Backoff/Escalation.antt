-- ===== src/Processing/Backoff/Escalation.antt =====
-- What a failure does to the job: the delays grow to a cap, and failures end.
use talkback.Prelude.{
  ℕ, ◌+◌, ◌≤◌, ◌<◌, String, true, Option, none, some, ◌≡◌, refl, ◌∙◌, arith, ltb, Bool-cases, inl,
  inr,
}
use talkback.Processing.State.{
  State, queued, waiting, failed_transient, failed_permanent, Stage, fetch, download,
}
use talkback.Processing.Job.{Job, Db}
use talkback.Processing.Store.{
  get_job_by_id, update_job_state, unlock_job, retry_job, is_of, is_retriable, or_zoom,
}
use talkback.Processing.Store.Rows.{get_job_by_id-update_jobs, get_job_by_id-update_self}
use talkback.Processing.Backoff.{
  backoff_transient, backoff_waiting, max_transient_attempts, max_waiting_attempts, escalated,
  set_job_failed_transient, set_job_waiting, set_job_failed_permanent,
}

-- Both delays grow with the attempt, from at least a minute to at most two hours, and the delay
-- for a transcript that is not ready is never the shorter one.
backoff_bounds :
    (a b : ℕ)
    → a ≤ b
    → (60 ≤ backoff_transient a)
      × (backoff_transient a ≤ backoff_transient b)
      × (backoff_transient b ≤ 7200)
      × (backoff_waiting a ≤ backoff_waiting b)
      × (backoff_waiting b ≤ 7200)
      × (backoff_transient a ≤ backoff_waiting a)
unfolding backoff_transient backoff_waiting
backoff_bounds a b h = ground arith

-- The row after a failure: the state, and the lock released.
abbrev pub failed_row : Job → State → Stage → ℕ → Option ℕ → Option String → Option String → ℕ → Job
failed_row j state stage attempt next code msg now = record j {
  state = state;
  stage = stage;
  attempt_count = attempt;
  next_retry_at = next;
  last_error_code = code;
  last_error_message = msg;
  locked_at = none;
  lock_owner = none;
  updated_at = now;
}

pub get_job_by_id_failed :
    (id now attempt : ℕ) (state : State) (stage : Stage) (next : Option ℕ)
    (code msg : Option String) (db : Db) (j : Job)
    → get_job_by_id id db ≡ some j
    → get_job_by_id id
        (unlock_job id now (update_job_state id state stage attempt next code msg now db))
      ≡ some (failed_row j state stage attempt next code msg now)
unfolding unlock_job update_job_state
get_job_by_id_failed id now attempt state stage next code msg db j h =
    get_job_by_id-update_self id _ _ _ (λ r. refl)
      (get_job_by_id-update_self id _ db j (λ r. refl) h)

-- What a transient failure leaves of the row.
pub record AfterTransient (attempt next : ℕ) (code : String) (row : Job) : Type 0 where
  pub unlocked : row.locked_at ≡ none
  pub attempts : row.attempt_count ≡ attempt
  pub reason : row.last_error_code ≡ some code
  pub again : attempt ≤ 5 → (row.state ≡ failed_transient) × (row.next_retry_at ≡ some next)
  pub given_up : 5 < attempt → (row.state ≡ failed_permanent) × (row.next_retry_at ≡ none)

-- A transient failure of the job `id` unlocks its row and counts the attempt. Up to five attempts
-- the job is to be tried again at the given time; beyond, it has failed for good.
pub set_job_failed_transient_lem :
    (id attempt : ℕ) (code msg : String) (next now : ℕ) (db : Db) (j : Job)
    → get_job_by_id id db ≡ some j
    → (row : Job) × (get_job_by_id id (set_job_failed_transient id attempt code msg next now db)
        ≡ some row)
      × AfterTransient attempt next code row
unfolding set_job_failed_transient
set_job_failed_transient_lem id attempt code msg next now db j h =
    elim (Bool-cases (ltb max_transient_attempts attempt)) [
      | inl e ↦ (
        failed_row j failed_permanent fetch attempt none (some code) (some (escalated msg)) now,
        rw e (get_job_by_id_failed id now attempt _ _ _ _ _ db j h),
        ground arith,
      )
      | inr e ↦ (
        failed_row j failed_transient fetch attempt (some next) (some code) (some msg) now,
        rw e (get_job_by_id_failed id now attempt _ _ _ _ _ db j h),
        ground arith,
      )
    ]

-- What a wait for the transcript leaves of the row.
pub record AfterWaiting (attempt next : ℕ) (code : String) (row : Job) : Type 0 where
  pub unlocked : row.locked_at ≡ none
  pub attempts : row.attempt_count ≡ attempt
  pub reason : row.last_error_code ≡ some code
  pub again : attempt ≤ 5 → (row.state ≡ waiting) × (row.next_retry_at ≡ some next)
  pub given_up : 5 < attempt → (row.state ≡ failed_permanent) × (row.next_retry_at ≡ none)

-- A transcript that is not ready leaves the job waiting up to five attempts, and failed for good
-- beyond; the row is unlocked either way.
pub set_job_waiting_lem :
    (id attempt : ℕ) (code msg : String) (next now : ℕ) (db : Db) (j : Job)
    → get_job_by_id id db ≡ some j
    → (row : Job) × (get_job_by_id id (set_job_waiting id attempt code msg next now db) ≡ some row)
      × AfterWaiting attempt next code row
unfolding set_job_waiting
set_job_waiting_lem id attempt code msg next now db j h =
    elim (Bool-cases (ltb max_waiting_attempts attempt)) [
      | inl e ↦ (
        failed_row j failed_permanent download attempt none (some code) (some (escalated msg)) now,
        rw e (get_job_by_id_failed id now attempt _ _ _ _ _ db j h),
        ground arith,
      )
      | inr e ↦ (
        failed_row j waiting download attempt (some next) (some code) (some msg) now,
        rw e (get_job_by_id_failed id now attempt _ _ _ _ _ db j h),
        ground arith,
      )
    ]

abbrev pub requeued_row : ℕ → Job → Job
requeued_row now j = record j {
  state = queued;
  stage = fetch;
  next_retry_at = some now;
  last_error_code = none;
  last_error_message = none;
  locked_at = none;
  lock_owner = none;
  updated_at = now;
}

get_job_by_id-retry_job :
    (id : ℕ) (source : String) (now : ℕ) (db : Db) (j : Job)
    → get_job_by_id id db ≡ some j
    → is_of j.session_id (or_zoom source) j ≡ true
    → is_retriable j.state ≡ true
    → get_job_by_id id (retry_job j.session_id source now db) ≡ some (requeued_row now j)
unfolding retry_job
get_job_by_id-retry_job id source now db j h o r =
    get_job_by_id-update_jobs id _ _ db j (λ x. refl) h ∙ rw (o, r)

-- A retry by hand does not reset the attempts: a job that a retry queues again with five attempts
-- or more behind it fails for good at its first transient failure after the retry.
pub retry_job_keeps_attempts :
    (id : ℕ) (source code msg : String) (now next later : ℕ) (db : Db) (j : Job)
    → get_job_by_id id db ≡ some j
    → is_of j.session_id (or_zoom source) j ≡ true
    → is_retriable j.state ≡ true
    → 5 ≤ j.attempt_count
    → let retried = retry_job j.session_id source now db in
      (get_job_by_id id retried ≡ some (requeued_row now j))
      × (row : Job) × (get_job_by_id id
            (set_job_failed_transient id (j.attempt_count + 1) code msg next later retried)
          ≡ some row)
      × (row.state ≡ failed_permanent)
retry_job_keeps_attempts id source code msg now next later db j h o r many =
    let queued_again = get_job_by_id-retry_job id source now db j h o r in
    let (row, found, after) =
      set_job_failed_transient_lem id (j.attempt_count + 1) code msg next later _ _ queued_again in
    (queued_again, row, found, (after.given_up (omega arith)).0)

-- A permanent failure unlocks the row, and the job is not tried again.
pub set_job_failed_permanent_lem :
    (id attempt : ℕ) (code msg : String) (now : ℕ) (db : Db) (j : Job)
    → get_job_by_id id db ≡ some j
    → get_job_by_id id (set_job_failed_permanent id attempt code msg now db)
      ≡ some (failed_row j failed_permanent fetch attempt none (some code) (some msg) now)
unfolding set_job_failed_permanent
set_job_failed_permanent_lem id attempt code msg now db j h =
    get_job_by_id_failed id now attempt failed_permanent fetch none (some code) (some msg) db j h
