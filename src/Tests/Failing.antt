-- ===== src/Tests/Failing.antt =====
-- Failures, retries and the flip of jobs that wait for Whisper.
use talkback.Prelude.{Bool, true, false, some, [], ◌∷◌, ◌≡◌, ◌⊎◌, refl, arith, find, All}
use talkback.Processing.State.{failed_permanent, waiting, failed_transient, awaiting_whisper}
use talkback.Processing.Job.{Job, Session, Db, source_zoom}
use talkback.Processing.Store.{get_job_by_id, get_session, retry_job}
use talkback.Processing.Backoff.{set_job_failed_transient}
use talkback.Processing.Backoff.Escalation.{
  AfterTransient, requeued_row, set_job_failed_transient_lem, retry_job_keeps_attempts,
}
use talkback.Processing.Zoom.{network, handle_zoom_error}
use talkback.Processing.Zoom.Errors.{handle_zoom_error_mirror_lags}
use talkback.Processing.Reconcile.{flip_awaiting_whisper_jobs_to_ready}
use talkback.Processing.Reconcile.Flip.{Awaits, flip_awaiting_whisper_jobs_to_ready_lem}
use talkback.Tests.Claiming.{zoom_job, in_state, session, db_of}

abbrev failed_job : Job
failed_job = record zoom_job { state = failed_permanent; attempt_count = 6 }

abbrev one_failed : Db
one_failed = db_of (failed_job ∷ [])

abbrev one_job : Db
one_job = db_of (zoom_job ∷ [])

set_job_failed_transient_lem_example :
    (row : Job) × (get_job_by_id 1 (set_job_failed_transient 1 6 "zoom_429" "slow" 300 120 one_job)
      ≡ some row)
    × AfterTransient 6 300 "zoom_429" row
unfolding get_job_by_id find
set_job_failed_transient_lem_example =
    set_job_failed_transient_lem 1 6 "zoom_429" "slow" 300 120 one_job zoom_job refl

retry_job_keeps_attempts_example :
    (get_job_by_id 1 (retry_job 7 "zoom" 120 one_failed) ≡ some (requeued_row 120 failed_job))
    × (row : Job) × (get_job_by_id 1 (
          set_job_failed_transient 1 7 "zoom_429" "slow" 300 130
            (retry_job 7 "zoom" 120 one_failed))
        ≡ some row)
    × (row.state ≡ failed_permanent)
unfolding get_job_by_id find
retry_job_keeps_attempts_example =
    retry_job_keeps_attempts 1 "zoom" "zoom_429" "slow" 120 300 130 one_failed failed_job refl refl
      refl (omega arith)

handle_zoom_error_mirror_lags_example :
    (row : Job) × (s' : Session) × (get_job_by_id 1
        (handle_zoom_error 120 zoom_job 6 (network "reset") one_job)
      ≡ some row)
    × (get_session 7 (handle_zoom_error 120 zoom_job 6 (network "reset") one_job) ≡ some s')
    × (row.state ≡ failed_permanent)
    × ((s'.processing_state ≡ waiting) ⊎ (s'.processing_state ≡ failed_transient))
unfolding get_job_by_id find
handle_zoom_error_mirror_lags_example =
    handle_zoom_error_mirror_lags 120 6 one_job zoom_job session (network "reset") refl refl
      (omega arith) refl

flip_awaiting_whisper_jobs_to_ready_lem_example :
    All
      (λ r. Awaits 7 r → ◌≡◌ {A = Bool} false true)
      (flip_awaiting_whisper_jobs_to_ready
        (λ _. false)
        7
        120
        (db_of (in_state 1 source_zoom awaiting_whisper ∷ []))).0.jobs
flip_awaiting_whisper_jobs_to_ready_lem_example =
    flip_awaiting_whisper_jobs_to_ready_lem (λ _. false) 7 120
      (db_of (in_state 1 source_zoom awaiting_whisper ∷ []))
