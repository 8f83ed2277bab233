-- ===== src/Processing/Worker/Tick.antt =====
-- What a tick of the worker leaves (internal/processing/worker.go).
use mathlib.Core.List.{Memᴰ}
use talkback.Prelude.{
  ℕ, ◌+◌, true, false, Option, none, some, List, [], ◌∷◌, ◌≡◌, refl, ◌⊎◌, inl, inr, arith, All,
  Memᴰ-All, find, is_some, Option-cases, Bool-cases,
}
use talkback.Processing.Job.{Job, Session, Db}
use talkback.Processing.Store.{get_job_by_id, get_session, has_id, update_jobs}
use talkback.Processing.Store.Rows.{get_job_by_id-update_self}
use talkback.Processing.Claim.{is_candidate, claim_next_job}
use talkback.Processing.Claim.Exclusion.{
  Claimed, locked, claim_next_job-Claimed, claim_next_job-none,
}
use talkback.Processing.Pipeline.{World, Answers}
use talkback.Processing.Pipeline.Dispatch.{ProviderAnswers}
use talkback.Processing.Pipeline.Finished.{Finished, Finished-unlock}
use talkback.Processing.Pipeline.Total.{run_job-Finished}
use talkback.Processing.Worker.{run_one, tick}

-- Each job's session is there, as the foreign key of the table says.
abbrev pub HasSessions : Db → Type 0
HasSessions db = All (λ r. is_some (get_session r.session_id db) ≡ true) db.jobs

find-of_Memᴰ : (c : Job) (rs : List Job) → Memᴰ c rs → (r : Job) × (find (has_id c.id) rs ≡ some r)
unfolding find
find-of_Memᴰ c [] m = elim m [ ]
find-of_Memᴰ c (r ∷ rs) (Memᴰ.head e) = (r, ground (arith, e))
find-of_Memᴰ c (r ∷ rs) (Memᴰ.tail m) = elim (Bool-cases (has_id c.id r)) [
  | inl e ↦ (r, rw e)
  | inr e ↦ let (s, k) = find-of_Memᴰ c rs m in (s, rw e k)
]

session_of_some : (o : Option Session) → is_some o ≡ true → (s : Session) × (o ≡ some s)
session_of_some none h = absurd (cc)
session_of_some (some s) h = (s, refl)

-- The row is there after the claim.
get_job_by_id-claimed :
    (c : Job) (db : Db) (f : Job → Job)
    → ((r : Job) → (f r).id ≡ r.id)
    → Memᴰ c db.jobs
    → (r : Job) × (get_job_by_id c.id (update_jobs (has_id c.id) f db) ≡ some r)
get_job_by_id-claimed c db f keeps m =
    let (r, found) = find-of_Memᴰ c db.jobs m in
    (f r, get_job_by_id-update_self c.id f db r keeps (unfold get_job_by_id in found))

module _ (lock_duration now run_now : ℕ) (ans : Job → Answers) (provider : Job → ProviderAnswers)
    (w : World) where
  -- The job that the tick claims, as the run gets it.
  abbrev pub taken : Job → Job
  taken c = locked "worker" now now c

  tick_idle :
      (claim_next_job "worker" lock_duration now now w.db).1 ≡ none
      → tick lock_duration now run_now ans provider w ≡ w
  unfolding tick
  tick_idle e = rw (tick, e)

  tick_run :
      (c : Job)
      → (claim_next_job "worker" lock_duration now now w.db).1 ≡ some (taken c)
      → tick lock_duration now run_now ans provider w
        ≡ run_one run_now
            (taken c)
            (ans (taken c))
            (provider (taken c))
            (record w { db = (claim_next_job "worker" lock_duration now now w.db).0 })
  unfolding tick
  tick_run c e = rw (tick, e)

  run_one-Finished :
      (c : Job)
      → Memᴰ c w.db.jobs
      → HasSessions w.db
      → Finished
          (taken c)
          (c.attempt_count + 1)
          (run_one run_now
            (taken c)
            (ans (taken c))
            (provider (taken c))
            (record w { db = update_jobs (has_id c.id) (locked "worker" now now) w.db })).db
  unfolding run_one
  run_one-Finished c m sessions =
      let db = update_jobs (has_id c.id) (locked "worker" now now) w.db in
      let (row, found) = get_job_by_id-claimed c w.db (locked "worker" now now) (λ r. refl) m in
      let (session, k) =
        session_of_some (get_session c.session_id w.db)
          (Memᴰ-All (λ r. is_some (get_session r.session_id w.db) ≡ true) sessions m) in
      Finished-unlock (taken c) _ run_now _
        (run_job-Finished run_now (taken c) (ans (taken c)) (provider (taken c))
          (record w { db = db }) row session found k).1

  -- Where each job has its session, a tick of the worker either changes nothing, because no row of
  -- the table can be claimed, or it takes the first row that can, and leaves it without a lock, with
  -- one more attempt counted, and at rest: ready, failed for good, awaiting Whisper, or with a time
  -- at which it is tried again.
  pub tick-Finished :
      HasSessions w.db
      → ((tick lock_duration now run_now ans provider w ≡ w)
          × All (λ r. is_candidate lock_duration now r ≡ false) w.db.jobs)
        ⊎ ((c : Job) × Claimed lock_duration now w.db.jobs c
            × Finished
                (taken c)
                (c.attempt_count + 1)
                (tick lock_duration now run_now ans provider w).db)
  tick-Finished sessions =
      elim (Option-cases (claim_next_job "worker" lock_duration now now w.db).1) [
        | inl e ↦ inl (tick_idle e, (claim_next_job-none "worker" lock_duration now now w.db e).1)
        | inr (j, e) ↦
            let (c, claimed, same, rows) =
              claim_next_job-Claimed "worker" lock_duration now now w.db j e in
            inr (
              c,
              claimed,
              rw (tick_run c (rw same at e), rows) (run_one-Finished c claimed.among sessions),
            )
      ]
