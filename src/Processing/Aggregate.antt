-- ===== src/Processing/Aggregate.antt =====
-- The session's state from the states of its jobs
-- (internal/database/session_processing_jobs_aggregate.go).
pub mod Worst
use talkback.Prelude.{ℕ, List, [], ◌∷◌, Option, none, some, if◌then◌else◌}
use talkback.Prelude.Int.{ℤ, pos, negsuc, ltb_ℤ}
use talkback.Processing.State.{
  State, queued, fetching, downloading, parsing, chunking, embedding, waiting, awaiting_whisper,
  waiting_native_transcript, ready, failed_transient, failed_permanent, canceled, other, no_state,
}
use talkback.Processing.Job.{Job}

abbrev pub state_priority : State → ℕ
state_priority failed_transient = 290
state_priority waiting = 280
state_priority waiting_native_transcript = 275
state_priority awaiting_whisper = 270
state_priority queued = 260
state_priority fetching = 250
state_priority downloading = 240
state_priority parsing = 230
state_priority chunking = 220
state_priority embedding = 210
state_priority failed_permanent = 120
state_priority canceled = 110
state_priority ready = 100
state_priority (other s) = 1

-- The loop: `best` and `best_priority`. A job pointer may be nil.
aggregate_from : State → ℤ → List (Option Job) → State
aggregate_from best best_priority [] = best
aggregate_from best best_priority (none ∷ jobs) = aggregate_from best best_priority jobs
aggregate_from best best_priority (some j ∷ jobs) =
    let p = pos (state_priority j.state) in
    aggregate_from (if ltb_ℤ best_priority p then j.state else best)
      (if ltb_ℤ best_priority p then p else best_priority) jobs

-- `bestPriority` starts at -1.
unfoldable pub aggregate_processing_state : List (Option Job) → State
unfolding aggregate_from
aggregate_processing_state jobs = aggregate_from no_state (negsuc 0) jobs
