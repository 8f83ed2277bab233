-- ===== src/Processing/Reconcile.antt =====
-- ListSessionProcessingJobsForReconciler (internal/database/session_processing_jobs.go), one round
-- of RunReconciler (internal/processing/worker.go), FlipAwaitingWhisperJobsToReady
-- (internal/processing/awaiting_whisper.go) and MirrorAggregateProcessingState
-- (internal/database/session_processing_jobs_aggregate.go).
pub mod Lock
pub mod Stuck
pub mod Flip
use talkback.Prelude.{
  ℕ, suc, Bool, true, false, ◌&&◌, ◌||◌, ◌-◌, not, Option, none, some, List, [], ◌∷◌, map, ltb,
  ◌==◌, if◌then◌else◌, select, take,
}
use talkback.Processing.State.{
  State, queued, fetching, downloading, parsing, chunking, embedding, waiting, awaiting_whisper,
  ready, failed_transient, Stage, done, is_no_state,
}
use talkback.Processing.Job.{Job, Db}
use talkback.Processing.Aggregate.{aggregate_processing_state}
use talkback.Processing.Store.{reset_job_retry, update_mirror, update_job_state, unlock_job}

-- state IN ('waiting', 'failed_transient')
abbrev pub is_waiting : State → Bool
is_waiting waiting = true
is_waiting failed_transient = true
is_waiting _ = false

-- state IN ('queued', 'fetching', 'downloading', 'parsing', 'chunking', 'embedding')
abbrev pub is_in_progress : State → Bool
is_in_progress queued = true
is_in_progress fetching = true
is_in_progress downloading = true
is_in_progress parsing = true
is_in_progress chunking = true
is_in_progress embedding = true
is_in_progress _ = false

abbrev pub is_stalled : ℕ → Job → Bool
is_stalled in_progress_older_than r =
    is_waiting r.state || (is_in_progress r.state && ltb r.updated_at in_progress_older_than)

-- ORDER BY updated_at ASC; rows of one time stay in the order of the table.
insert_by_updated_at : Job → List Job → List Job
insert_by_updated_at r [] = r ∷ []
insert_by_updated_at r (x ∷ xs) =
    let rest = insert_by_updated_at r xs in
    if ltb x.updated_at r.updated_at then x ∷ rest else r ∷ x ∷ xs

sort_by_updated_at : List Job → List Job
sort_by_updated_at [] = []
sort_by_updated_at (r ∷ rs) = insert_by_updated_at r (sort_by_updated_at rs)

-- LIMIT 100
unfoldable pub list_jobs_for_reconciler : ℕ → Db → List Job
unfolding insert_by_updated_at sort_by_updated_at
list_jobs_for_reconciler in_progress_older_than db =
    take 100 (sort_by_updated_at (select (is_stalled in_progress_older_than) db.jobs))

-- The body of the loop; a reset that fails is logged and the mirror is left.
unfoldable pub reconcile_one : (ℕ → Bool) → ℕ → Job → Db → Db
reconcile_one reset_fails now j db =
    if reset_fails j.id
    then db
    else update_mirror j.session_id j.state now (reset_job_retry j.id now db)

unfoldable pub reconcile_all : (ℕ → Bool) → ℕ → List Job → Db → Db
unfolding reconcile_one
reconcile_all reset_fails now [] db = db
reconcile_all reset_fails now (j ∷ js) db =
    reconcile_all reset_fails now js (reconcile_one reset_fails now j db)

-- One tick: `time.Now().Add(-stuckThreshold)` may lie before the first of times, where no row is.
unfoldable pub reconcile : (ℕ → Bool) → ℕ → ℕ → Db → Db
unfolding reconcile_all list_jobs_for_reconciler
reconcile reset_fails stuck_threshold now db =
    reconcile_all reset_fails now (list_jobs_for_reconciler (now - stuck_threshold) db) db

abbrev pub is_awaiting_whisper : State → Bool
is_awaiting_whisper awaiting_whisper = true
is_awaiting_whisper _ = false

-- The loop over the session's jobs: the tables, and how many jobs were flipped. An update that
-- fails is logged and the job skipped.
unfoldable pub flip_all : (ℕ → Bool) → ℕ → List Job → Db → ℕ → Db × ℕ
flip_all update_fails now [] db flipped = (db, flipped)
flip_all update_fails now (j ∷ js) db flipped =
    let skip = not (is_awaiting_whisper j.state) || update_fails j.id in
    flip_all update_fails now js
      (if skip
        then db
        else unlock_job j.id now
            (update_job_state j.id ready done j.attempt_count none none none now db))
      (if skip then flipped else suc flipped)

-- SELECT … WHERE session_id = $1; the order of the rows does not matter to its callers.
abbrev pub list_jobs_by_session_id : ℕ → Db → List Job
list_jobs_by_session_id session_id db = select (λ r. r.session_id == session_id) db.jobs

unfoldable pub flip_awaiting_whisper_jobs_to_ready : (ℕ → Bool) → ℕ → ℕ → Db → Db × ℕ
unfolding flip_all
flip_awaiting_whisper_jobs_to_ready update_fails session_id now db =
    flip_all update_fails now (list_jobs_by_session_id session_id db) db 0

-- A session without jobs keeps its mirror.
unfoldable pub mirror_aggregate_processing_state : ℕ → ℕ → Db → Db
mirror_aggregate_processing_state session_id now db = elim (list_jobs_by_session_id session_id db) [
  | [] ↦ db
  | j ∷ js ↦
      let state = aggregate_processing_state (map some (j ∷ js)) in
      if is_no_state state then db else update_mirror session_id state now db
]
