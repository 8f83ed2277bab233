-- ===== src/Processing/Store/Rows.antt =====
-- The row of an identifier through a statement that keeps the identifiers.
use talkback.Prelude.{
  ℕ, Bool, true, some, ◌≡◌, refl, ◌==◌, ◌∙◌, find-update_where, find-true, if◌then◌else◌,
}
use talkback.Processing.State.{State}
use talkback.Processing.Job.{Job, Session, Db}
use talkback.Processing.Store.{get_job_by_id, get_session, has_id, update_jobs, update_mirror}

pub get_job_by_id-update_jobs :
    (id : ℕ) (p : Job → Bool) (f : Job → Job) (db : Db) (j : Job)
    → ((r : Job) → (f r).id ≡ r.id)
    → get_job_by_id id db ≡ some j
    → get_job_by_id id (update_jobs p f db) ≡ some (if p j then f j else j)
unfolding get_job_by_id
get_job_by_id-update_jobs id p f db j keeps h =
    find-update_where (has_id id) p f db.jobs (λ r _. rw (keeps r)) ∙ rw h

pub get_job_by_id-has_id :
    (id : ℕ) (db : Db) (j : Job) → get_job_by_id id db ≡ some j → has_id id j ≡ true
unfolding get_job_by_id
get_job_by_id-has_id id db j h = find-true (has_id id) db.jobs j h

-- A statement on the row itself.
pub get_job_by_id-update_self :
    (id : ℕ) (f : Job → Job) (db : Db) (j : Job)
    → ((r : Job) → (f r).id ≡ r.id)
    → get_job_by_id id db ≡ some j
    → get_job_by_id id (update_jobs (has_id id) f db) ≡ some (f j)
get_job_by_id-update_self id f db j keeps h =
    get_job_by_id-update_jobs id (has_id id) f db j keeps h ∙ rw (get_job_by_id-has_id id db j h)

-- The session's row after the mirror is written.
pub get_session-update_mirror :
    (id now : ℕ) (state : State) (db : Db) (s : Session)
    → get_session id db ≡ some s
    → get_session id (update_mirror id state now db)
      ≡ some (record s { processing_state = state; processing_updated_at = some now })
unfolding update_mirror
get_session-update_mirror id now state db s h =
    find-update_where (λ t. t.id == id) (λ t. t.id == id) _ db.sessions (λ t _. refl)
    ∙ rw (h, find-true (λ t. t.id == id) db.sessions s h)
