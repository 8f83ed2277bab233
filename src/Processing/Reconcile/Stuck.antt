-- ===== src/Processing/Reconcile/Stuck.antt =====
-- A job whose worker died in the middle of a stage.
use mathlib.Core.Path.{subst}
use talkback.Prelude.{
  ℕ, ◌-◌, String, Bool, true, false, none, some, List, [], ◌∷◌, ◌++◌, ◌≡◌, ◌≢◌, refl, sym, ap, ◌∙◌,
  arith, All, Memᴰ-All, All-append, find, find-append_some, Option-cases, update_where, Bool-cases,
  inl, inr,
}
use talkback.Processing.State.{State, fetching, downloading, parsing, chunking, embedding}
use talkback.Processing.Job.{Job, Db}
use talkback.Processing.Store.{
  has_id, get_job_by_id, update_jobs, update_mirror, lock_job, unlock_job, retry_job,
  reset_job_retry,
}
use talkback.Processing.Store.Rows.{get_job_by_id-update_jobs}
use talkback.Processing.Enqueue.{create_or_get_job, merge_row, insert_row, same_key}
use talkback.Processing.Enqueue.Row.{create_or_get_job-Enqueued, merged, inserted}
use talkback.Processing.Claim.{claim_next_job}
use talkback.Processing.Claim.Exclusion.{claim_next_job-Claimed, claim_next_job-none}
use talkback.Processing.Reconcile.{
  reconcile_one, reconcile_all, list_jobs_for_reconciler, reconcile,
}

-- The row `id` is there, and every row of that identifier is in state `s`.
pub record IsIn (id : ℕ) (s : State) (db : Db) : Type 0 where
  pub present : (j : Job) × (get_job_by_id id db ≡ some j)
  pub state : All (λ r. r.id ≡ id → r.state ≡ s) db.jobs

module _ (id : ℕ) (s : State) (p : Job → Bool) (f : Job → Job) where
  states-update_where :
      (rs : List Job)
      → ((r : Job) → (f r).id ≡ r.id)
      → ((r : Job) → p r ≡ true → r.state ≡ s → (f r).state ≡ s)
      → All (λ r. r.id ≡ id → r.state ≡ s) rs
      → All (λ r. r.id ≡ id → r.state ≡ s) (update_where p f rs)
  unfolding update_where
  states-update_where [] keeps same h = tt
  states-update_where (r ∷ rs) keeps same h = (
    elim (Bool-cases (p r)) [
      | inl e ↦ rw e (λ k. same r e (h.0 (sym (keeps r) ∙ k)))
      | inr e ↦ rw e h.0
    ],
    states-update_where rs keeps same h.1,
  )

  IsIn-update_jobs :
      (db : Db)
      → ((r : Job) → (f r).id ≡ r.id)
      → ((r : Job) → p r ≡ true → r.state ≡ s → (f r).state ≡ s)
      → IsIn id s db
      → IsIn id s (update_jobs p f db)
  IsIn-update_jobs db keeps same h =
      let (j, e) = h.present in
      record {
        present = (_, get_job_by_id-update_jobs id p f db j keeps e);
        state = states-update_where db.jobs keeps same h.state;
      }

-- What the program does to the tables on its own, and at a user's attach or retry: everything but
-- the stages of a running worker and a cancellation.
pub data Step (db : Db) : Db → Type 0 where
  claims :
      (owner : String) (lock_duration now db_now : ℕ)
      → Step db (claim_next_job owner lock_duration now db_now db).0
  locks : (id : ℕ) (owner : String) (d now : ℕ) → Step db (lock_job id owner d now db).0
  unlocks : (id now : ℕ) → Step db (unlock_job id now db)
  reconciles :
      (reset_fails : ℕ → Bool) (stuck_threshold now : ℕ)
      → Step db (reconcile reset_fails stuck_threshold now db)
  retries :
      (session_id : ℕ) (source : String) (now : ℕ) → Step db (retry_job session_id source now db)
  attaches :
      {db' : Db} (now : ℕ) (new row : Job)
      → create_or_get_job now new db ≡ some (db', row)
      → Step db db'
  mirrors :
      (session_id : ℕ) (state : State) (now : ℕ) → Step db (update_mirror session_id state now db)

pub data Steps (db : Db) : Db → Type 0 where
  here : Steps db db
  next : {db' db'' : Db} → Steps db db' → Step db' db'' → Steps db db''

-- The states of a running stage.
abbrev pub is_mid_stage : State → Bool
is_mid_stage fetching = true
is_mid_stage downloading = true
is_mid_stage parsing = true
is_mid_stage chunking = true
is_mid_stage embedding = true
is_mid_stage _ = false

module _ (id : ℕ) (s : State) (mid : is_mid_stage s ≡ true) where
  IsIn-update_mirror :
      (session_id : ℕ) (state : State) (now : ℕ) (db : Db)
      → IsIn id s db
      → IsIn id s (update_mirror session_id state now db)
  unfolding update_mirror get_job_by_id
  IsIn-update_mirror session_id state now db h = record { present = h.present; state = h.state }

  IsIn-reset : (i now : ℕ) (db : Db) → IsIn id s db → IsIn id s (reset_job_retry i now db)
  unfolding reset_job_retry
  IsIn-reset i now db h = IsIn-update_jobs id s (has_id i) _ db (λ r. refl) (λ r _ e. e) h

  IsIn-reconcile_one :
      (reset_fails : ℕ → Bool) (now : ℕ) (j : Job) (db : Db)
      → IsIn id s db
      → IsIn id s (reconcile_one reset_fails now j db)
  unfolding reconcile_one
  IsIn-reconcile_one reset_fails now j db h = elim (Bool-cases (reset_fails j.id)) [
    | inl e ↦ rw e h
    | inr e ↦ rw e (IsIn-update_mirror j.session_id j.state now _ (IsIn-reset j.id now db h))
  ]

  IsIn-reconcile_all :
      (reset_fails : ℕ → Bool) (now : ℕ) (js : List Job) (db : Db)
      → IsIn id s db
      → IsIn id s (reconcile_all reset_fails now js db)
  unfolding reconcile_all
  IsIn-reconcile_all reset_fails now [] db h = h
  IsIn-reconcile_all reset_fails now (j ∷ js) db h =
      IsIn-reconcile_all reset_fails now js _ (IsIn-reconcile_one reset_fails now j db h)

  IsIn-reconcile :
      (reset_fails : ℕ → Bool) (stuck_threshold now : ℕ) (db : Db)
      → IsIn id s db
      → IsIn id s (reconcile reset_fails stuck_threshold now db)
  unfolding reconcile
  IsIn-reconcile reset_fails stuck_threshold now db h =
      IsIn-reconcile_all reset_fails now (list_jobs_for_reconciler (now - stuck_threshold) db) db h

  IsIn-claim :
      (owner : String) (d now db_now : ℕ) (db : Db)
      → IsIn id s db
      → IsIn id s (claim_next_job owner d now db_now db).0
  IsIn-claim owner d now db_now db h =
      elim (Option-cases (claim_next_job owner d now db_now db).1) [
        | inl e ↦ rw (claim_next_job-none owner d now db_now db e).0 h
        | inr (j, e) ↦
            let (c, claimed, je, after) = claim_next_job-Claimed owner d now db_now db j e in
            rw after (IsIn-update_jobs id s (has_id c.id) _ db (λ r. refl) (λ r _ k. k) h)
      ]

  IsIn-retry :
      (session_id : ℕ) (source : String) (now : ℕ) (db : Db)
      → IsIn id s db
      → IsIn id s (retry_job session_id source now db)
  unfolding retry_job
  IsIn-retry session_id source now db h =
      IsIn-update_jobs id s _ _ db (λ r. refl) (λ r p e. absurd (ground (arith, mid))) h

  IsIn-insert :
      (now : ℕ) (new : Job) (db : Db)
      → get_job_by_id new.id db ≡ none
      → IsIn id s db
      → IsIn id s (record db { jobs = db.jobs ++ insert_row now new ∷ [] })
  unfolding get_job_by_id insert_row
  IsIn-insert now new db g h =
      let (j, e) = h.present in
      record {
        present = (j, find-append_some (has_id id) db.jobs _ j e);
        state =
            All-append _ db.jobs (insert_row now new ∷ []) h.state
              ((λ k. absurd (ground (arith, subst (λ i. find (has_id i) db.jobs ≡ none) k g))), tt);
      }

  IsIn-attach :
      (now : ℕ) (new row : Job) (db db' : Db)
      → create_or_get_job now new db ≡ some (db', row)
      → IsIn id s db
      → IsIn id s db'
  IsIn-attach now new row db db' e h = elim (create_or_get_job-Enqueued now new db db' row e) [
    | merged old f d r ↦ rw d (
        unfold merge_row in
        IsIn-update_jobs id s (same_key new) (merge_row now new) db (λ r. refl)
          (λ r p k. ground (arith, mid)) h)
    | inserted f g d r ↦ rw d (IsIn-insert now new db g h)
  ]

  Step-IsIn : {db db' : Db} → Step db db' → IsIn id s db → IsIn id s db'
  Step-IsIn {db} (claims owner d now db_now) h = IsIn-claim owner d now db_now db h
  Step-IsIn {db} (locks i owner d now) h =
      unfold lock_job in IsIn-update_jobs id s _ _ db (λ r. refl) (λ r _ k. k) h
  Step-IsIn {db} (unlocks i now) h =
      unfold unlock_job in IsIn-update_jobs id s _ _ db (λ r. refl) (λ r _ k. k) h
  Step-IsIn {db} (reconciles fails threshold now) h = IsIn-reconcile fails threshold now db h
  Step-IsIn {db} (retries session_id source now) h = IsIn-retry session_id source now db h
  Step-IsIn {db} (attaches {db'} now new row e) h = IsIn-attach now new row db db' e h
  Step-IsIn {db} (mirrors session_id state now) h = IsIn-update_mirror session_id state now db h

  Steps-IsIn : {db db' : Db} → Steps db db' → IsIn id s db → IsIn id s db'
  Steps-IsIn here h = h
  Steps-IsIn (next r st) h = Step-IsIn st (Steps-IsIn r h)

  not_claimed :
      (owner : String) (d now db_now : ℕ) (db : Db) (j : Job)
      → IsIn id s db
      → (claim_next_job owner d now db_now db).1 ≡ some j
      → j.id ≢ id
  not_claimed owner d now db_now db j h e same =
      let (c, claimed, je, after) = claim_next_job-Claimed owner d now db_now db j e in
      let k = Memᴰ-All _ h.state claimed.among (sym (ap (λ r. r.id) je) ∙ same) in
      ground (arith, mid, claimed.candidate)

-- A job that is in the state of a running stage, and that no worker runs any more, stays there:
-- after any sequence of claims, locks, unlocks, rounds of the reconciler, retries, attaches of any
-- recording and writes of the mirror, its row is there, in that state, and no claim returns it.
pub mid_stage_stuck :
    (id : ℕ) (s : State) (db db' : Db)
    → is_mid_stage s ≡ true
    → IsIn id s db
    → Steps db db'
    → IsIn id s db'
      × ((owner : String) (lock_duration now db_now : ℕ) (j : Job)
          → (claim_next_job owner lock_duration now db_now db').1 ≡ some j
          → j.id ≢ id)
mid_stage_stuck id s db db' mid h steps =
    let h' = Steps-IsIn id s mid steps h in
    (h', λ owner d now db_now j e. not_claimed id s mid owner d now db_now db' j h' e)
