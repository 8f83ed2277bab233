-- ===== src/Processing/Reconcile/Flip.antt =====
-- FlipAwaitingWhisperJobsToReady leaves no job of the session waiting for Whisper, but those whose
-- update failed.
use talkback.Prelude.{
  ℕ, suc, Bool, true, false, ◌||◌, not, none, List, [], ◌∷◌, ◌≡◌, refl, ◌⊎◌, inl, inr, arith, All,
  select, ==_iff, Bool-cases, ◌==◌, All-mono, All-update_where,
}
use talkback.Processing.State.{ready, done}
use talkback.Processing.Job.{Job, Db}
use talkback.Processing.Store.{has_id, update_job_state, unlock_job}
use talkback.Processing.Reconcile.{
  is_awaiting_whisper, flip_all, list_jobs_by_session_id, flip_awaiting_whisper_jobs_to_ready,
}

-- The list holds an awaiting job of that identifier.
Pending : ℕ → List Job → Type 0
Pending id [] = ⊥
Pending id (j ∷ js) = ((j.id ≡ id) × (is_awaiting_whisper j.state ≡ true)) ⊎ Pending id js

abbrev pub Awaits : ℕ → Job → Type 0
Awaits session_id r = (r.session_id ≡ session_id) × (is_awaiting_whisper r.state ≡ true)

module _ (update_fails : ℕ → Bool) (session_id now : ℕ) where
  -- What is still to be done, with the jobs `js` left.
  abbrev Left : List Job → Job → Type 0
  Left js r = Awaits session_id r → (update_fails r.id ≡ true) ⊎ Pending r.id js

  flip_one : Job → Db → Db
  flip_one j db =
      unlock_job j.id now (update_job_state j.id ready done j.attempt_count none none none now db)

  Left-skip :
      (j : Job) (js : List Job) (r : Job)
      → (not (is_awaiting_whisper j.state) || update_fails j.id) ≡ true
      → Left (j ∷ js) r
      → Left js r
  unfolding Pending
  Left-skip j js r e l a = elim (l a) [
    | inl f ↦ inl f
    | inr (inl (same, w)) ↦ inl (ground arith)
    | inr (inr p) ↦ inr p
  ]

  All-Left-skip :
      (j : Job) (js rs : List Job)
      → (not (is_awaiting_whisper j.state) || update_fails j.id) ≡ true
      → All (Left (j ∷ js)) rs
      → All (Left js) rs
  All-Left-skip j js rs e = All-mono _ _ rs (λ r. Left-skip j js r e)

  All-Left-flip :
      (j : Job) (js : List Job) (db : Db)
      → All (Left (j ∷ js)) db.jobs
      → All (Left js) (flip_one j db).jobs
  unfolding flip_one unlock_job update_job_state Pending
  All-Left-flip j js db h =
      All-update_where (Left js) (Left js) (has_id j.id) _ _ (λ r _ l. l) (λ r _ l. l)
        (All-update_where (Left (j ∷ js)) (Left js) (has_id j.id) _ db.jobs (λ r _ l a. absurd (cc))
          (λ r e l a. elim (l a) [
            | inl fails ↦ inl fails
            | inr (inl (same, w)) ↦ absurd (ground arith)
            | inr (inr p) ↦ inr p
          ])
          h)

  flip_all_skip :
      (j : Job) (js : List Job) (db : Db) (flipped : ℕ)
      → (not (is_awaiting_whisper j.state) || update_fails j.id) ≡ true
      → flip_all update_fails now (j ∷ js) db flipped ≡ flip_all update_fails now js db flipped
  unfolding flip_all
  flip_all_skip j js db flipped e = rw e

  flip_all_flip :
      (j : Job) (js : List Job) (db : Db) (flipped : ℕ)
      → (not (is_awaiting_whisper j.state) || update_fails j.id) ≡ false
      → flip_all update_fails now (j ∷ js) db flipped
        ≡ flip_all update_fails now js (flip_one j db) (suc flipped)
  unfolding flip_all flip_one
  flip_all_flip j js db flipped e = rw e

  flip_all-Left :
      (js : List Job) (db : Db) (flipped : ℕ)
      → All (Left js) db.jobs
      → All (Left []) (flip_all update_fails now js db flipped).0.jobs
  unfolding flip_all
  flip_all-Left [] db flipped h = h
  flip_all-Left (j ∷ js) db flipped h =
      elim (Bool-cases (not (is_awaiting_whisper j.state) || update_fails j.id)) [
        | inl e ↦
            rw (flip_all_skip j js db flipped e)
              (flip_all-Left js db flipped (All-Left-skip j js db.jobs e h))
        | inr e ↦
            rw (flip_all_flip j js db flipped e)
              (flip_all-Left js (flip_one j db) (suc flipped) (All-Left-flip j js db h))
      ]

  abbrev of_session : Job → Bool
  of_session r = r.session_id == session_id

  Pending-select :
      (id : ℕ) (r : Job) (rs : List Job)
      → Pending id (select of_session rs)
      → Pending id (select of_session (r ∷ rs))
  unfolding select Pending
  Pending-select id r rs p = elim (Bool-cases (of_session r)) [
    | inl e ↦ rw e (inr p)
    | inr e ↦ rw e p
  ]

  Pending-head :
      (r : Job) (rs : List Job) → Awaits session_id r → Pending r.id (select of_session (r ∷ rs))
  unfolding select Pending
  Pending-head r rs a = rw ((==_iff r.session_id session_id).1 a.0) (inl (refl, a.1))

  Left-start : (rs : List Job) → All (Left (select of_session rs)) rs
  Left-start [] = tt
  Left-start (r ∷ rs) = (
    λ a. inr (Pending-head r rs a),
    All-mono _ _ rs
        (λ x l a. elim (l a) [ inl f ↦ inl f | inr p ↦ inr (Pending-select x.id r rs p) ])
        (Left-start rs),
  )

  -- Afterwards every job of the session that still waits for Whisper is one whose update failed.
  pub flip_awaiting_whisper_jobs_to_ready_lem :
      (db : Db)
      → All
          (λ r. Awaits session_id r → update_fails r.id ≡ true)
          (flip_awaiting_whisper_jobs_to_ready update_fails session_id now db).0.jobs
  unfolding flip_awaiting_whisper_jobs_to_ready Pending
  flip_awaiting_whisper_jobs_to_ready_lem db =
      All-mono _ _ _ (λ r l a. elim (l a) [ inl f ↦ f | inr p ↦ elim p [ ] ])
        (flip_all-Left (list_jobs_by_session_id session_id db) db 0 (Left-start db.jobs))
