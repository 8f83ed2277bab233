-- ===== src/Processing/Backoff.antt =====
-- The delays before a job is tried again (internal/processing/backoff.go), and the escalation of
-- failures (internal/processing/pipeline.go). A duration is a number of seconds; an attempt count
-- is a count from the table, so it is not negative.
pub mod Escalation
use talkback.Prelude.{ℕ, ◌*◌, ◌+◌, String, Option, none, some, leb, ltb, ◌==◌, if◌then◌else◌}
use Prim.Native.String.{◌++◌}
use talkback.Processing.State.{
  State, waiting, failed_transient, failed_permanent, Stage, fetch, download,
}
use talkback.Processing.Job.{Db}
use talkback.Processing.Store.{update_job_state, unlock_job}

abbrev minute : ℕ
minute = 60

abbrev hour : ℕ
hour = 3600

unfoldable pub backoff_transient : ℕ → ℕ
backoff_transient attempt =
    if leb attempt 1
    then 1 * minute
    else if attempt == 2
    then 3 * minute
    else if attempt == 3
    then 10 * minute
    else if attempt == 4
    then 30 * minute
    else 2 * hour

unfoldable pub backoff_waiting : ℕ → ℕ
backoff_waiting attempt =
    if leb attempt 1 then 10 * minute else if attempt == 2 then 30 * minute else 2 * hour

abbrev pub max_transient_attempts : ℕ
max_transient_attempts = 5

abbrev pub max_waiting_attempts : ℕ
max_waiting_attempts = 5

-- fmt.Sprintf("permanent failure after %d retries: %s", …) at the constant 5 of both limits.
abbrev pub escalated : String → String
escalated msg = "permanent failure after 5 retries: " ++ msg

unfoldable pub set_job_failed_transient : ℕ → ℕ → String → String → ℕ → ℕ → Db → Db
set_job_failed_transient id attempt code msg next_retry_at now db = unlock_job id now (
    if ltb max_transient_attempts attempt
    then update_job_state id failed_permanent fetch attempt none (some code) (some (escalated msg))
        now db
    else update_job_state id failed_transient fetch attempt (some next_retry_at) (some code)
        (some msg) now db)

unfoldable pub set_job_failed_permanent : ℕ → ℕ → String → String → ℕ → Db → Db
set_job_failed_permanent id attempt code msg now db =
    unlock_job id now
      (update_job_state id failed_permanent fetch attempt none (some code) (some msg) now db)

unfoldable pub set_job_waiting : ℕ → ℕ → String → String → ℕ → ℕ → Db → Db
set_job_waiting id attempt code msg next_retry_at now db = unlock_job id now (
    if ltb max_waiting_attempts attempt
    then update_job_state id failed_permanent download attempt none (some code)
        (some (escalated msg)) now db
    else update_job_state id waiting download attempt (some next_retry_at) (some code) (some msg)
        now db)
