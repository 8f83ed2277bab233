-- ===== src/Processing/Reconcile/Lock.antt =====
-- The reconciler against the lock of a running job.
use mathlib.Core.Path.{subst}
use mathlib.Core.List.{Memᴰ}
use talkback.Prelude.{
  ℕ, zero, suc, ◌-◌, ◌≤◌, Bool, true, false, none, some, List, [], ◌∷◌, ◌≡◌, refl, sym, ap, ◌∙◌,
  ◌⊎◌, inl, inr, Bool-cases, arith, find, select, take, length, ltb, if◌then◌else◌,
}
use talkback.Processing.Job.{Job, Db}
use talkback.Processing.Store.{has_id, get_job_by_id, update_mirror, reset_job_retry}
use talkback.Processing.Store.Rows.{get_job_by_id-update_self, get_job_by_id-update_jobs}
use talkback.Processing.Claim.{is_candidate}
use talkback.Processing.Reconcile.{
  is_waiting, is_stalled, insert_by_updated_at, sort_by_updated_at, list_jobs_for_reconciler,
  reconcile_one, reconcile_all, reconcile,
}

abbrev reset_row : ℕ → Job → Job
reset_row now j = record j {
  next_retry_at = some now;
  locked_at = none;
  lock_owner = none;
  updated_at = now;
}

get_job_by_id-reconcile_one :
    (reset_fails : ℕ → Bool) (now : ℕ) (db : Db) (j : Job)
    → get_job_by_id j.id db ≡ some j
    → reset_fails j.id ≡ false
    → get_job_by_id j.id (reconcile_one reset_fails now j db) ≡ some (reset_row now j)
unfolding reconcile_one get_job_by_id update_mirror reset_job_retry
get_job_by_id-reconcile_one reset_fails now db j h ok =
    rw ok
      (unfold get_job_by_id in get_job_by_id-update_self j.id (reset_row now) db j (λ r. refl) h)

-- What a round finds: the rows that are not reset yet, and those that are.
reconcile_one-cases :
    (reset_fails : ℕ → Bool) (now id : ℕ) (k : Job) (db : Db) (row : Job)
    → get_job_by_id id db ≡ some row
    → (get_job_by_id id (reconcile_one reset_fails now k db) ≡ some row)
      ⊎ (get_job_by_id id (reconcile_one reset_fails now k db) ≡ some (reset_row now row))
reconcile_one-cases reset_fails now id k db row h = elim (Bool-cases (reset_fails k.id)) [
  | inl e ↦ inl (unfold reconcile_one in rw e h)
  | inr e ↦
      let found : get_job_by_id id (reconcile_one reset_fails now k db)
          ≡ some (if has_id k.id row then reset_row now row else row) =
        unfold reconcile_one get_job_by_id update_mirror reset_job_retry in
        rw e (
          unfold get_job_by_id in
          get_job_by_id-update_jobs id (has_id k.id) (reset_row now) db row (λ r. refl) h) in
      elim (Bool-cases (has_id k.id row)) [
        | inl f ↦ inr (found ∙ rw f)
        | inr f ↦ inl (found ∙ rw f)
      ]
]

-- A row that is reset stays as it is.
reconcile_all-reset :
    (reset_fails : ℕ → Bool) (now : ℕ) (j : Job) (js : List Job) (db : Db)
    → get_job_by_id j.id db ≡ some (reset_row now j)
    → get_job_by_id j.id (reconcile_all reset_fails now js db) ≡ some (reset_row now j)
unfolding reconcile_all
reconcile_all-reset reset_fails now j [] db h = h
reconcile_all-reset reset_fails now j (k ∷ js) db h =
    reconcile_all-reset reset_fails now j js (reconcile_one reset_fails now k db)
      (elim (reconcile_one-cases reset_fails now j.id k db (reset_row now j) h) [
        | inl e ↦ e
        | inr e ↦ e
      ])

-- The loop resets a row of its list.
reconcile_all-listed :
    (reset_fails : ℕ → Bool) (now : ℕ) (j : Job) (js : List Job) (db : Db)
    → Memᴰ j js
    → get_job_by_id j.id db ≡ some j
    → reset_fails j.id ≡ false
    → get_job_by_id j.id (reconcile_all reset_fails now js db) ≡ some (reset_row now j)
unfolding reconcile_all
reconcile_all-listed reset_fails now j [] db m h ok = elim m [ ]
reconcile_all-listed reset_fails now j (k ∷ js) db (Memᴰ.head e) h ok =
    reconcile_all-reset reset_fails now j js (reconcile_one reset_fails now k db) (
      subst (λ k. get_job_by_id j.id (reconcile_one reset_fails now k db) ≡ some (reset_row now j))
        e (get_job_by_id-reconcile_one reset_fails now db j h ok))
reconcile_all-listed reset_fails now j (k ∷ js) db (Memᴰ.tail m) h ok =
    elim (reconcile_one-cases reset_fails now j.id k db j h) [
      | inl e ↦
          reconcile_all-listed reset_fails now j js (reconcile_one reset_fails now k db) m e ok
      | inr e ↦ reconcile_all-reset reset_fails now j js (reconcile_one reset_fails now k db) e
    ]

find-Memᴰ : (p : Job → Bool) (rs : List Job) (j : Job) → find p rs ≡ some j → Memᴰ j rs
unfolding find
find-Memᴰ p [] j h = absurd (cc)
find-Memᴰ p (r ∷ rs) j h = elim (Bool-cases (p r)) [
  | inl e ↦ let same : some r ≡ some j = rw e at h in Memᴰ.head (cc)
  | inr e ↦ Memᴰ.tail (find-Memᴰ p rs j (rw e at h))
]

Memᴰ-selected :
    (p : Job → Bool) (rs : List Job) (j : Job) → Memᴰ j rs → p j ≡ true → Memᴰ j (select p rs)
unfolding select
Memᴰ-selected p [] j m e = elim m [ ]
Memᴰ-selected p (r ∷ rs) j (Memᴰ.head h) e = rw (ap p (sym h) ∙ e) (Memᴰ.head h)
Memᴰ-selected p (r ∷ rs) j (Memᴰ.tail m) e = elim (Bool-cases (p r)) [
  | inl f ↦ rw f (Memᴰ.tail (Memᴰ-selected p rs j m e))
  | inr f ↦ rw f (Memᴰ-selected p rs j m e)
]

Memᴰ-insert_by_updated_at :
    (r j : Job) (rs : List Job) → Memᴰ j (r ∷ rs) → Memᴰ j (insert_by_updated_at r rs)
unfolding insert_by_updated_at
Memᴰ-insert_by_updated_at r j [] m = m
Memᴰ-insert_by_updated_at r j (x ∷ xs) m = elim (Bool-cases (ltb x.updated_at r.updated_at)) [
  | inl e ↦ rw e (elim m [
    | Memᴰ.head h ↦ Memᴰ.tail (Memᴰ-insert_by_updated_at r j xs (Memᴰ.head h))
    | Memᴰ.tail (Memᴰ.head h) ↦ Memᴰ.head h
    | Memᴰ.tail (Memᴰ.tail k) ↦ Memᴰ.tail (Memᴰ-insert_by_updated_at r j xs (Memᴰ.tail k))
  ])
  | inr e ↦ rw e m
]

Memᴰ-sort_by_updated_at : (j : Job) (rs : List Job) → Memᴰ j rs → Memᴰ j (sort_by_updated_at rs)
unfolding sort_by_updated_at
Memᴰ-sort_by_updated_at j [] m = m
Memᴰ-sort_by_updated_at j (r ∷ rs) (Memᴰ.head h) =
    Memᴰ-insert_by_updated_at r j (sort_by_updated_at rs) (Memᴰ.head h)
Memᴰ-sort_by_updated_at j (r ∷ rs) (Memᴰ.tail m) =
    Memᴰ-insert_by_updated_at r j (sort_by_updated_at rs)
      (Memᴰ.tail (Memᴰ-sort_by_updated_at j rs m))

length-insert_by_updated_at :
    (r : Job) (rs : List Job) → length (insert_by_updated_at r rs) ≡ suc (length rs)
unfolding insert_by_updated_at
length-insert_by_updated_at r [] = refl
length-insert_by_updated_at r (x ∷ xs) = ground (arith, length-insert_by_updated_at r xs)

length-sort_by_updated_at : (rs : List Job) → length (sort_by_updated_at rs) ≡ length rs
unfolding sort_by_updated_at
length-sort_by_updated_at [] = refl
length-sort_by_updated_at (r ∷ rs) =
    omega
      (arith, length-insert_by_updated_at r (sort_by_updated_at rs), length-sort_by_updated_at rs)

take-whole : (n : ℕ) (rs : List Job) → length rs ≤ n → take n rs ≡ rs
take-whole zero [] h = refl
take-whole (suc n) [] h = refl
take-whole zero (r ∷ rs) h = absurd (omega arith)
take-whole (suc n) (r ∷ rs) h = rw (take-whole n rs (omega arith))

list_jobs_for_reconciler-Memᴰ :
    (threshold : ℕ) (db : Db) (j : Job)
    → get_job_by_id j.id db ≡ some j
    → is_stalled threshold j ≡ true
    → length (select (is_stalled threshold) db.jobs) ≤ 100
    → Memᴰ j (list_jobs_for_reconciler threshold db)
unfolding list_jobs_for_reconciler get_job_by_id
list_jobs_for_reconciler-Memᴰ threshold db j h e few =
    let stalled = select (is_stalled threshold) db.jobs in
    let listed =
      Memᴰ-sort_by_updated_at j stalled
        (Memᴰ-selected (is_stalled threshold) db.jobs j (find-Memᴰ _ db.jobs j h) e) in
    rw
      (take-whole 100 (sort_by_updated_at stalled)
        (omega (arith, length-sort_by_updated_at stalled)))
      listed

-- If no more jobs are stalled than the reconciler lists, a round whose reset of a job does not fail
-- makes that job claimable at once if it is waiting or has failed transiently, whoever holds its
-- lock and however fresh the lock is: a job that a worker has claimed, which stays in such a state
-- until its first stage, can be claimed a second time. The row is found with its lock cleared.
pub reconcile-is_candidate :
    (reset_fails : ℕ → Bool) (stuck_threshold lock_duration now : ℕ) (db : Db) (j : Job)
    → get_job_by_id j.id db ≡ some j
    → is_waiting j.state ≡ true
    → reset_fails j.id ≡ false
    → length (select (is_stalled (now - stuck_threshold)) db.jobs) ≤ 100
    → (row : Job) × (get_job_by_id j.id (reconcile reset_fails stuck_threshold now db) ≡ some row)
      × (row.lock_owner ≡ none)
      × (is_candidate lock_duration now row ≡ true)
unfolding reconcile
reconcile-is_candidate reset_fails stuck_threshold d now db j h w ok few = (
  reset_row now j,
  reconcile_all-listed reset_fails now j (list_jobs_for_reconciler (now - stuck_threshold) db) db
      (list_jobs_for_reconciler-Memᴰ (now - stuck_threshold) db j h (ground arith) few) h ok,
  refl,
  ground arith,
)
