-- ===== src/Processing/Claim.antt =====
-- ClaimNextSessionProcessingJob (internal/database/session_processing_jobs.go): the worker takes
-- the next runnable job and locks it. One statement is one step: `FOR UPDATE SKIP LOCKED` lets
-- concurrent claims pass each other's row, so their effects are those of claims in some order.
pub mod Exclusion
use talkback.Prelude.{
  ℕ, ◌+◌, String, Bool, true, false, ◌&&◌, ◌||◌, Option, none, some, List, [], ◌∷◌, ltb, leb, ◌==◌,
  if◌then◌else◌, select, update_where,
}
use talkback.Processing.State.{State, queued, failed_transient, waiting, waiting_native_transcript}
use talkback.Processing.Job.{Job, Db}
use talkback.Processing.Store.{has_id, lock_is_free, update_jobs}

-- state IN ('queued', 'failed_transient', 'waiting', 'waiting_native_transcript')
abbrev pub is_claimable : State → Bool
is_claimable queued = true
is_claimable failed_transient = true
is_claimable waiting = true
is_claimable waiting_native_transcript = true
is_claimable _ = false

-- next_retry_at IS NULL OR next_retry_at <= now
abbrev pub is_due : Option ℕ → ℕ → Bool
is_due none now = true
is_due (some t) now = leb t now

abbrev pub is_candidate : ℕ → ℕ → Job → Bool
is_candidate lock_duration now r =
    is_claimable r.state
    && (is_due r.next_retry_at now && lock_is_free r.locked_at lock_duration now)

-- Two columns in lexicographic order, NULLS FIRST.
abbrev pub comes_before : Option ℕ → ℕ → Option ℕ → ℕ → Bool
comes_before none c none d = ltb c d
comes_before none c (some u) d = true
comes_before (some t) c none d = false
comes_before (some t) c (some u) d = ltb t u || (t == u && ltb c d)

-- ORDER BY next_retry_at ASC NULLS FIRST, created_at ASC
abbrev pub precedes : Job → Job → Bool
precedes a b = comes_before a.next_retry_at a.created_at b.next_retry_at b.created_at

-- ORDER BY … LIMIT 1; among rows that the order does not tell apart, the first of the table.
unfoldable pub first_of_order : List Job → Option Job
first_of_order [] = none
first_of_order (r ∷ rs) = elim (first_of_order rs) [
  | none ↦ some r
  | some best ↦ some (if precedes best r then best else r)
]

-- `now` is the time that the worker passes, `db_now` the time of the statement. The columns of the
-- lock are set in the returned job by the code, to the values that the statement writes.
unfoldable pub claim_next_job : String → ℕ → ℕ → ℕ → Db → Db × Option Job
claim_next_job owner lock_duration now db_now db =
    elim (first_of_order (select (is_candidate lock_duration now) db.jobs)) [
      | none ↦ (db, none)
      | some c ↦
          let claim = λ (r : Job). record r {
            locked_at = some now;
            lock_owner = some owner;
            updated_at = db_now;
          } in
          (update_jobs (has_id c.id) claim db, some (claim c))
    ]
