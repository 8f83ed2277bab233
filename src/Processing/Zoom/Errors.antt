-- ===== src/Processing/Zoom/Errors.antt =====
-- What handleZoomError leaves of the job and of the session's mirror.
use talkback.Prelude.{
  ℕ, ◌+◌, ◌<◌, String, Bool, true, false, not, none, some, ◌≡◌, refl, ap, ◌∙◌, ◌⊎◌, inl, inr, arith,
  find, ◌==◌, Bool-cases, ◌||◌, ltb,
}
use talkback.Processing.State.{State, waiting, failed_transient, failed_permanent, fetch}
use talkback.Processing.Job.{Job, Session, Db}
use talkback.Processing.Store.{
  get_job_by_id, get_session, update_mirror, update_job_state, unlock_job,
}
use talkback.Processing.Store.Rows.{get_session-update_mirror}
use talkback.Processing.Backoff.{
  set_job_failed_transient, set_job_failed_permanent, set_job_waiting, backoff_transient,
}
use talkback.Processing.Backoff.Escalation.{
  set_job_failed_transient_lem, set_job_waiting_lem, set_job_failed_permanent_lem, AfterTransient,
  AfterWaiting, failed_row,
}
use talkback.Processing.Zoom.{
  Error, network, zoom_api, retryable, permanent, fail_transient, handle_zoom_error,
}

-- What every branch leaves of the row: the lock released, the attempt counted, and a state that
-- is no stage of a running worker.
pub record Settled (attempt : ℕ) (row : Job) : Type 0 where
  pub unlocked : row.locked_at ≡ none
  pub attempts : row.attempt_count ≡ attempt
  pub state :
      (row.state ≡ waiting) ⊎ ((row.state ≡ failed_transient) ⊎ (row.state ≡ failed_permanent))
  pub given_up : 5 < attempt → row.state ≡ failed_permanent

-- The row after the error.
record After (id attempt : ℕ) (db : Db) : Type 0 where
  row : Job
  found : get_job_by_id id db ≡ some row
  settled : Settled attempt row

After-mirror :
    (id attempt session_id now : ℕ) (state : State) (db : Db)
    → After id attempt db
    → After id attempt (update_mirror session_id state now db)
unfolding update_mirror get_job_by_id
After-mirror id attempt session_id now state db a = record {
  row = a.row;
  found = a.found;
  settled = a.settled;
}

Settled-transient :
    (attempt next : ℕ) (code : String) (row : Job)
    → AfterTransient attempt next code row
    → Settled attempt row
Settled-transient attempt next code row a = record {
  unlocked = a.unlocked;
  attempts = a.attempts;
  state = elim (Bool-cases (ltb 5 attempt)) [
    | inl e ↦ inr (inr (a.given_up (ground arith)).0)
    | inr e ↦ inr (inl (a.again (ground arith)).0)
  ];
  given_up = λ h. (a.given_up h).0;
}

Settled-waiting :
    (attempt next : ℕ) (code : String) (row : Job)
    → AfterWaiting attempt next code row
    → Settled attempt row
Settled-waiting attempt next code row a = record {
  unlocked = a.unlocked;
  attempts = a.attempts;
  state = elim (Bool-cases (ltb 5 attempt)) [
    | inl e ↦ inr (inr (a.given_up (ground arith)).0)
    | inr e ↦ inl (a.again (ground arith)).0
  ];
  given_up = λ h. (a.given_up h).0;
}

module _ (now attempt : ℕ) (db : Db) (j : Job) (present : get_job_by_id j.id db ≡ some j) where
  After-transient :
      (code msg : String) → After j.id attempt (fail_transient now j attempt code msg db)
  unfolding fail_transient
  After-transient code msg =
      let next = now + backoff_transient attempt in
      let (row, found, a) =
        set_job_failed_transient_lem j.id attempt code msg next now db j present in
      After-mirror j.id attempt j.session_id now failed_transient _
        (record { row = row; found = found; settled = Settled-transient attempt next code row a })

  After-waiting :
      (code msg : String) (next : ℕ)
      → After j.id attempt (
          update_mirror j.session_id waiting now
            (set_job_waiting j.id attempt code msg next now db))
  After-waiting code msg next =
      let (row, found, a) = set_job_waiting_lem j.id attempt code msg next now db j present in
      After-mirror j.id attempt j.session_id now waiting _
        (record { row = row; found = found; settled = Settled-waiting attempt next code row a })

  After-permanent :
      (code msg : String)
      → After j.id attempt (
          update_mirror j.session_id failed_permanent now
            (set_job_failed_permanent j.id attempt code msg now db))
  After-permanent code msg = After-mirror j.id attempt j.session_id now failed_permanent _ (record {
    row = failed_row j failed_permanent fetch attempt none (some code) (some msg) now;
    found = set_job_failed_permanent_lem j.id attempt code msg now db j present;
    settled = record {
      unlocked = refl;
      attempts = refl;
      state = inr (inr refl);
      given_up = λ _. refl;
    };
  })

  After-error : (e : Error) → After j.id attempt (handle_zoom_error now j attempt e db)
  unfolding handle_zoom_error
  After-error (network text) = After-transient "network_error" text
  After-error (zoom_api e) = elim (Bool-cases e.not_ready) [
    | inl a ↦ rw a (After-waiting _ e.message _)
    | inr a ↦ elim (Bool-cases (retryable e)) [
      | inl b ↦ rw (a, b) (After-transient e.code e.message)
      | inr b ↦ elim (Bool-cases (permanent e)) [
        | inl c ↦ rw (a, b, c) (After-permanent e.code e.message)
        | inr c ↦ rw (a, b, c) (After-transient e.code e.message)
      ]
    ]
  ]

  -- Every error of the Zoom API, on every branch, leaves the job's row unlocked, its attempts
  -- counted, and its state waiting, failed transiently or failed for good; beyond five attempts it
  -- has failed for good whatever the error.
  handle_zoom_error-Settled :
      (e : Error)
      → (row : Job) × (get_job_by_id j.id (handle_zoom_error now j attempt e db) ≡ some row)
        × Settled attempt row
  handle_zoom_error-Settled e = let a = After-error e in (a.row, a.found, a.settled)

-- The errors that the pipeline hopes to outlast.
abbrev pub is_passing : Error → Bool
is_passing (network text) = true
is_passing (zoom_api e) = e.not_ready || (retryable e || not (permanent e))

sessions-set_job_failed_transient :
    (id attempt : ℕ) (code msg : String) (next now : ℕ) (db : Db)
    → (set_job_failed_transient id attempt code msg next now db).sessions ≡ db.sessions
unfolding set_job_failed_transient update_job_state unlock_job
sessions-set_job_failed_transient id attempt code msg next now db = ground arith

sessions-set_job_waiting :
    (id attempt : ℕ) (code msg : String) (next now : ℕ) (db : Db)
    → (set_job_waiting id attempt code msg next now db).sessions ≡ db.sessions
unfolding set_job_waiting update_job_state unlock_job
sessions-set_job_waiting id attempt code msg next now db = ground arith

-- The session's state as the mirror tells it.
record Mirrors (id : ℕ) (state : State) (db : Db) : Type 0 where
  session : Session
  found : get_session id db ≡ some session
  mirrored : session.processing_state ≡ state

module _ (now attempt : ℕ) (db : Db) (j : Job) (s : Session)
    (present : get_session j.session_id db ≡ some s) where
  Mirrors-after :
      (state : State) (db' : Db)
      → db'.sessions ≡ db.sessions
      → Mirrors j.session_id state (update_mirror j.session_id state now db')
  Mirrors-after state db' same = record {
    session = record s { processing_state = state; processing_updated_at = some now };
    found =
        get_session-update_mirror j.session_id now state db' s
          (ap (find (λ t. t.id == j.session_id)) same ∙ present);
    mirrored = refl;
  }

  Mirrors-transient :
      (code msg : String)
      → Mirrors j.session_id failed_transient (fail_transient now j attempt code msg db)
  unfolding fail_transient
  Mirrors-transient code msg = Mirrors-after failed_transient _ (
      sessions-set_job_failed_transient j.id attempt code msg (now + backoff_transient attempt) now
        db)

  Mirrors-passing :
      (e : Error)
      → is_passing e ≡ true
      → Mirrors j.session_id waiting (handle_zoom_error now j attempt e db)
        ⊎ Mirrors j.session_id failed_transient (handle_zoom_error now j attempt e db)
  unfolding handle_zoom_error
  Mirrors-passing (network text) p = inr (Mirrors-transient "network_error" text)
  Mirrors-passing (zoom_api e) p = elim (Bool-cases e.not_ready) [
    | inl a ↦
        rw a (
          inl
            (Mirrors-after waiting _ (sessions-set_job_waiting j.id attempt _ e.message _ now db)))
    | inr a ↦ elim (Bool-cases (retryable e)) [
      | inl b ↦ rw (a, b) (inr (Mirrors-transient e.code e.message))
      | inr b ↦
          let c : permanent e ≡ false = ground arith in
          rw (a, b, c) (inr (Mirrors-transient e.code e.message))
    ]
  ]

-- Beyond five attempts the mirror lags: an error that the pipeline hopes to outlast fails the job
-- for good, but the session's mirror says that it is waiting or has failed transiently.
pub handle_zoom_error_mirror_lags :
    (now attempt : ℕ) (db : Db) (j : Job) (s : Session) (e : Error)
    → get_job_by_id j.id db ≡ some j
    → get_session j.session_id db ≡ some s
    → 5 < attempt
    → is_passing e ≡ true
    → (row : Job) × (s' : Session) × (get_job_by_id j.id (handle_zoom_error now j attempt e db)
        ≡ some row)
      × (get_session j.session_id (handle_zoom_error now j attempt e db) ≡ some s')
      × (row.state ≡ failed_permanent)
      × ((s'.processing_state ≡ waiting) ⊎ (s'.processing_state ≡ failed_transient))
handle_zoom_error_mirror_lags now attempt db j s e h k many p =
    let (row, found, settled) = handle_zoom_error-Settled now attempt db j h e in
    elim (Mirrors-passing now attempt db j s k e p) [
      | inl m ↦ (row, m.session, found, m.found, settled.given_up many, inl m.mirrored)
      | inr m ↦ (row, m.session, found, m.found, settled.given_up many, inr m.mirrored)
    ]
