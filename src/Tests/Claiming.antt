-- ===== src/Tests/Claiming.antt =====
-- Enqueueing, claiming, reconciling and attaching recordings.
use mathlib.Core.List.{Memᴰ}
use talkback.Prelude.{
  ℕ, String, true, false, Option, none, some, List, [], ◌∷◌, ◌≡◌, ◌≢◌, refl, arith, find, select,
  length,
}
use talkback.Processing.State.{State, queued, fetching, failed_transient, fetch}
use talkback.Processing.Job.{Job, Session, Db, source_zoom, source_teams}
use talkback.Processing.Store.{get_job_by_id, has_id, update_jobs}
use talkback.Processing.Aggregate.{aggregate_processing_state}
use talkback.Processing.Aggregate.Worst.{IsWorst, aggregate_processing_state-IsWorst}
use talkback.Processing.Enqueue.{
  create_or_get_job, same_key, insert_row, is_in_flight, get_job_by_recording_key,
}
use talkback.Processing.Enqueue.Row.{SameWork, IsRequeued, row_of, create_or_get_job-again}
use talkback.Processing.Enqueue.Keys.{UniqueKeys, create_or_get_job-UniqueKeys}
use talkback.Processing.Claim.{claim_next_job, is_candidate, first_of_order}
use talkback.Processing.Claim.Exclusion.{Claimed, locked, claim_next_job-Claimed}
use talkback.Processing.Reconcile.{reconcile}
use talkback.Processing.Reconcile.Lock.{reconcile-is_candidate}
use talkback.Processing.Reconcile.Stuck.{IsIn, here, next, reconciles, mid_stage_stuck}

-- A Zoom recording, just attached.
abbrev pub zoom_job : Job
zoom_job = record {
  id = 1;
  session_id = 7;
  source = source_zoom;
  state = queued;
  stage = fetch;
  attempt_count = 0;
  next_retry_at = some 100;
  last_error_code = none;
  last_error_message = none;
  locked_at = none;
  lock_owner = none;
  meeting_uuid = some "m1";
  instance_uuid = none;
  creator_identity = some "a@b.c";
  set_as_primary = false;
  created_at = 100;
  updated_at = 100;
}

abbrev pub in_state : ℕ → String → State → Job
in_state id source state = record zoom_job { id = id; source = source; state = state }

abbrev fetching_job : Job
fetching_job = record zoom_job {
  state = fetching;
  locked_at = some 110;
  lock_owner = some "worker";
}

abbrev pub teams_job : Job
teams_job = in_state 2 source_teams failed_transient

-- A job that a worker has just claimed, in the state that the claim leaves.
abbrev held_job : Job
held_job = record teams_job { locked_at = some 119; lock_owner = some "worker" }

abbrev pub session : Session
session = record {
  id = 7;
  processing_state = queued;
  processing_updated_at = none;
  primary_video_artifact_id = none;
}

abbrev pub db_of : List Job → Db
db_of jobs = record { jobs = jobs; sessions = session ∷ [] }

abbrev two_jobs : Db
two_jobs = db_of (zoom_job ∷ teams_job ∷ [])

abbrev stuck_db : Db
stuck_db = db_of (fetching_job ∷ teams_job ∷ [])

aggregate_two :
    aggregate_processing_state (some zoom_job ∷ none ∷ some teams_job ∷ []) ≡ failed_transient
unfolding aggregate_processing_state
aggregate_two = refl

aggregate_processing_state-IsWorst_example :
    IsWorst (none ∷ some zoom_job ∷ []) (aggregate_processing_state (none ∷ some zoom_job ∷ []))
aggregate_processing_state-IsWorst_example =
    aggregate_processing_state-IsWorst (none ∷ some zoom_job ∷ []) zoom_job
      (Memᴰ.tail (Memᴰ.head refl))

create_or_get_job-UniqueKeys_example :
    UniqueKeys (db_of (teams_job ∷ insert_row 120 zoom_job ∷ [])).jobs
unfolding create_or_get_job get_job_by_recording_key get_job_by_id find
create_or_get_job-UniqueKeys_example =
    create_or_get_job-UniqueKeys 120 zoom_job (db_of (teams_job ∷ []))
      (db_of (teams_job ∷ insert_row 120 zoom_job ∷ [])) (insert_row 120 zoom_job) refl (tt, tt)

create_or_get_job-again_example :
    (db' : Db) × (row : Job) × (create_or_get_job 120 zoom_job stuck_db ≡ some (db', row))
    × (row_of zoom_job db' ≡ some row)
    × (length db'.jobs ≡ length stuck_db.jobs)
    × ((other : Job)
        → get_job_by_id other.id stuck_db ≡ some other
        → same_key zoom_job other ≡ false
        → get_job_by_id other.id db' ≡ some other)
    × (row.id ≡ fetching_job.id)
    × (is_in_flight fetching_job.state ≡ true → SameWork row fetching_job)
    × (is_in_flight fetching_job.state ≡ false → IsRequeued 120 row fetching_job)
unfolding get_job_by_recording_key find
create_or_get_job-again_example = create_or_get_job-again 120 zoom_job fetching_job stuck_db refl

claim_next_job-Claimed_example :
    (c : Job) × Claimed 900 110 two_jobs.jobs c
    × (locked "worker" 110 111 zoom_job ≡ locked "worker" 110 111 c)
    × ((claim_next_job "worker" 900 110 111 two_jobs).0
        ≡ update_jobs (has_id c.id) (locked "worker" 110 111) two_jobs)
unfolding claim_next_job first_of_order select
claim_next_job-Claimed_example =
    claim_next_job-Claimed "worker" 900 110 111 two_jobs (locked "worker" 110 111 zoom_job) refl

swap_mem : {x y z : Option Job} → Memᴰ z (x ∷ y ∷ []) → Memᴰ z (y ∷ x ∷ [])
swap_mem (Memᴰ.head e) = Memᴰ.tail (Memᴰ.head e)
swap_mem (Memᴰ.tail (Memᴰ.head e)) = Memᴰ.head e
swap_mem (Memᴰ.tail (Memᴰ.tail m)) = elim m [ ]

reconcile-is_candidate_example :
    (row : Job) × (get_job_by_id 2 (reconcile (λ _. false) 1200 120 (db_of (held_job ∷ [])))
      ≡ some row)
    × (row.lock_owner ≡ none)
    × (is_candidate 900 120 row ≡ true)
unfolding get_job_by_id find select
reconcile-is_candidate_example =
    reconcile-is_candidate (λ _. false) 1200 900 120 (db_of (held_job ∷ [])) held_job refl refl refl
      (omega arith)

mid_stage_stuck_example :
    IsIn 1 fetching (reconcile (λ _. false) 1200 90000 stuck_db)
    × ((owner : String) (lock_duration now db_now : ℕ) (j : Job)
        → (claim_next_job owner lock_duration now db_now
            (reconcile (λ _. false) 1200 90000 stuck_db)).1
          ≡ some j
        → j.id ≢ 1)
unfolding get_job_by_id find
mid_stage_stuck_example =
    mid_stage_stuck 1 fetching stuck_db (reconcile (λ _. false) 1200 90000 stuck_db) refl
      (record {
        present = (fetching_job, refl);
        state = (λ _. refl, (λ e. absurd (omega arith), tt));
      })
      (next here (reconciles (λ _. false) 1200 90000))
