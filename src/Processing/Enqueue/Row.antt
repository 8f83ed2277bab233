-- ===== src/Processing/Enqueue/Row.antt =====
-- What enqueueing does to the row of the recording, and to the other rows.
use talkback.Prelude.{
  ℕ, true, false, Option, none, some, [], List, length, ◌∷◌, ◌++◌, ◌≡◌, refl, sym, ◌∙◌, inl, inr,
  arith, find-update_where, find-true, find-append, find-append_some, update_where, eq_refl,
  ==_refl, Option-cases,
}
use talkback.Processing.State.{queued, fetch}
use talkback.Processing.Job.{Job, Db}
use talkback.Processing.Store.{has_id, get_job_by_id}
use talkback.Processing.Enqueue.{
  coalesce, same_key, get_job_by_recording_key, is_in_flight, merge_row, insert_row,
  create_or_get_job,
}

-- The row of the recording that `new` names.
abbrev pub row_of : Job → Db → Option Job
row_of new = get_job_by_recording_key new.session_id new.source new.meeting_uuid new.instance_uuid

merge_row-same_key :
    (now : ℕ) (new old : Job)
    → same_key new old ≡ true
    → same_key new (merge_row now new old) ≡ true
unfolding merge_row
merge_row-same_key now new old h =
    ground (arith, eq_refl (coalesce new.meeting_uuid), eq_refl (coalesce new.instance_uuid))

insert_row-same_key : (now : ℕ) (new : Job) → same_key new (insert_row now new) ≡ true
unfolding insert_row
insert_row-same_key now new = ground (
  arith,
  ==_refl new.session_id,
  eq_refl new.source,
  eq_refl (coalesce new.meeting_uuid),
  eq_refl (coalesce new.instance_uuid),
)

-- The three ways that the statement ends.
pub create_or_get_job_found :
    (now : ℕ) (new : Job) (db : Db) {old : Job}
    → row_of new db ≡ some old
    → create_or_get_job now new db
      ≡ some (
        record db { jobs = update_where (same_key new) (merge_row now new) db.jobs },
        merge_row now new old,
      )
unfolding create_or_get_job
create_or_get_job_found now new db e = rw (e, create_or_get_job)

pub create_or_get_job_new :
    (now : ℕ) (new : Job) (db : Db)
    → row_of new db ≡ none
    → get_job_by_id new.id db ≡ none
    → create_or_get_job now new db
      ≡ some (record db { jobs = db.jobs ++ insert_row now new ∷ [] }, insert_row now new)
unfolding create_or_get_job
create_or_get_job_new now new db e f = rw (e, f, create_or_get_job)

create_or_get_job_clash :
    (now : ℕ) (new : Job) (db : Db) {clash : Job}
    → row_of new db ≡ none
    → get_job_by_id new.id db ≡ some clash
    → create_or_get_job now new db ≡ none
unfolding create_or_get_job
create_or_get_job_clash now new db e f = rw (e, f, create_or_get_job)

-- Every success is one of the first two.
pub data Enqueued (now : ℕ) (new : Job) (db db' : Db) (row : Job) : Type 0 where
  merged :
      (old : Job)
      → row_of new db ≡ some old
      → db' ≡ record db { jobs = update_where (same_key new) (merge_row now new) db.jobs }
      → row ≡ merge_row now new old
      → Enqueued now new db db' row
  inserted :
      row_of new db ≡ none
      → get_job_by_id new.id db ≡ none
      → db' ≡ record db { jobs = db.jobs ++ insert_row now new ∷ [] }
      → row ≡ insert_row now new
      → Enqueued now new db db' row

pub create_or_get_job-Enqueued :
    (now : ℕ) (new : Job) (db db' : Db) (row : Job)
    → create_or_get_job now new db ≡ some (db', row)
    → Enqueued now new db db' row
create_or_get_job-Enqueued now new db db' row h = elim (Option-cases (row_of new db)) [
  | inl e ↦ elim (Option-cases (get_job_by_id new.id db)) [
    | inl f ↦ let g = create_or_get_job_new now new db e f in inserted e f (cc) (cc)
    | inr (clash, f) ↦ let g = create_or_get_job_clash now new db e f in absurd (cc)
  ]
  | inr (old, e) ↦ let g = create_or_get_job_found now new db e in merged old e (cc) (cc)
]

-- The row that is returned is the one that the table holds for the recording afterwards.
pub create_or_get_job-row_of :
    (now : ℕ) (new : Job) (db db' : Db) (row : Job)
    → create_or_get_job now new db ≡ some (db', row)
    → row_of new db' ≡ some row
unfolding get_job_by_recording_key
create_or_get_job-row_of now new db db' row h =
    elim (create_or_get_job-Enqueued now new db db' row h) [
      | merged old e d r ↦
          rw (d, r)
            (find-update_where (same_key new) (same_key new) (merge_row now new) db.jobs
                (λ x k. merge_row-same_key now new x k ∙ sym k)
              ∙ rw (e, find-true (same_key new) db.jobs old e))
      | inserted e f d r ↦
          rw (d, r)
            (find-append (same_key new) db.jobs (insert_row now new) e
              ∙ rw (insert_row-same_key now new))
    ]

-- The columns that tell how far the ingestion has come.
pub record SameWork (a b : Job) : Type 0 where
  pub state : a.state ≡ b.state
  pub stage : a.stage ≡ b.stage
  pub attempt_count : a.attempt_count ≡ b.attempt_count
  pub next_retry_at : a.next_retry_at ≡ b.next_retry_at
  pub last_error_code : a.last_error_code ≡ b.last_error_code
  pub last_error_message : a.last_error_message ≡ b.last_error_message
  pub locked_at : a.locked_at ≡ b.locked_at
  pub lock_owner : a.lock_owner ≡ b.lock_owner

-- The row can be claimed at once, but its attempts are counted on.
pub record IsRequeued (now : ℕ) (a b : Job) : Type 0 where
  pub state : a.state ≡ queued
  pub stage : a.stage ≡ fetch
  pub attempt_count : a.attempt_count ≡ b.attempt_count
  pub next_retry_at : a.next_retry_at ≡ some now
  pub last_error_code : a.last_error_code ≡ none
  pub locked_at : a.locked_at ≡ none
  pub lock_owner : a.lock_owner ≡ none

merge_row-in_flight :
    (now : ℕ) (new old : Job) → is_in_flight old.state ≡ true → SameWork (merge_row now new old) old
unfolding merge_row
merge_row-in_flight now new old h = record {
  state = rw h;
  stage = rw h;
  attempt_count = refl;
  next_retry_at = rw h;
  last_error_code = rw h;
  last_error_message = rw h;
  locked_at = rw h;
  lock_owner = rw h;
}

merge_row-idle :
    (now : ℕ) (new old : Job)
    → is_in_flight old.state ≡ false
    → IsRequeued now (merge_row now new old) old
unfolding merge_row
merge_row-idle now new old h = record {
  state = rw h;
  stage = rw h;
  attempt_count = refl;
  next_retry_at = rw h;
  last_error_code = rw h;
  locked_at = rw h;
  lock_owner = rw h;
}

-- A row of another recording is what it was, in a success.
create_or_get_job-other_row :
    (now : ℕ) (new other : Job) (db db' : Db) (row : Job)
    → create_or_get_job now new db ≡ some (db', row)
    → get_job_by_id other.id db ≡ some other
    → same_key new other ≡ false
    → get_job_by_id other.id db' ≡ some other
unfolding get_job_by_id
create_or_get_job-other_row now new other db db' row h e k =
    elim (create_or_get_job-Enqueued now new db db' row h) [
      | merged old g d r ↦ rw d (
          find-update_where (has_id other.id) (same_key new) (merge_row now new) db.jobs
            (λ x l. unfold merge_row in refl)
          ∙ rw (e, k))
      | inserted g f d r ↦ rw d (find-append_some (has_id other.id) db.jobs _ other e)
    ]

length-merged :
    (now : ℕ) (new : Job) (rs : List Job)
    → length (update_where (same_key new) (merge_row now new) rs) ≡ length rs
unfolding update_where
length-merged now new [] = refl
length-merged now new (r ∷ rs) = ground (arith, length-merged now new rs)

-- Attaching a recording again, whose row is `old`, succeeds on that row: the table then holds, under
-- the recording's key, the row that is returned, which has the identifier of `old`; it has as many
-- rows as before, and those of other recordings are what they were. A row in an in-flight state
-- keeps its work and its lock; a row in any other state is queued again, with its attempts counted
-- on and its lock cleared.
pub create_or_get_job-again :
    (now : ℕ) (new old : Job) (db : Db)
    → row_of new db ≡ some old
    → (db' : Db) × (row : Job) × (create_or_get_job now new db ≡ some (db', row))
      × (row_of new db' ≡ some row)
      × (length db'.jobs ≡ length db.jobs)
      × ((other : Job)
          → get_job_by_id other.id db ≡ some other
          → same_key new other ≡ false
          → get_job_by_id other.id db' ≡ some other)
      × (row.id ≡ old.id)
      × (is_in_flight old.state ≡ true → SameWork row old)
      × (is_in_flight old.state ≡ false → IsRequeued now row old)
unfolding merge_row
create_or_get_job-again now new old db e =
    let db' = record db { jobs = update_where (same_key new) (merge_row now new) db.jobs } in
    let made = create_or_get_job_found now new db e in
    (
      db',
      merge_row now new old,
      made,
      create_or_get_job-row_of now new db db' (merge_row now new old) made,
      length-merged now new db.jobs,
      λ other f k.
          create_or_get_job-other_row now new other db db' (merge_row now new old) made f k,
      refl,
      merge_row-in_flight now new old,
      merge_row-idle now new old,
    )
