-- ===== src/Processing/Pipeline/Finished.antt =====
-- How the last write of each way out leaves the job (the ends of the stages in
-- internal/processing/pipeline_zoom.go, pipeline_teams.go and pipeline_google_meet.go).
use talkback.Prelude.{
  ℕ, ◌≤◌, String, Bool, true, false, Option, none, some, ◌≡◌, refl, ◌∙◌, arith, ltb, Bool-cases,
  inl, inr, is_some,
}
use talkback.Processing.State.{
  State, waiting, awaiting_whisper, waiting_native_transcript, ready, failed_transient,
  failed_permanent, Stage,
}
use talkback.Processing.Job.{Job, Session, Db}
use talkback.Processing.Store.{
  get_job_by_id, get_session, update_job_state, unlock_job, update_mirror,
}
use talkback.Processing.Store.Rows.{get_job_by_id-update_self, get_session-update_mirror}
use talkback.Processing.Backoff.{
  set_job_failed_transient, set_job_waiting, set_job_failed_permanent,
}
use talkback.Processing.Backoff.Escalation.{failed_row, get_job_by_id_failed}
use talkback.Processing.Zoom.{
  Error, network, zoom_api, retryable, permanent, fail_transient, handle_zoom_error,
}
use talkback.Processing.Pipeline.{Answers, attempt_of, enter, fail_for_good, wait_until, World}
use talkback.Processing.Pipeline.Whisper.{await_whisper}
use talkback.Processing.Pipeline.Save.{finish}
use talkback.Processing.Pipeline.Meet.{MeetAnswers, poll_again}

-- No worker is at the job: it has come to an end, it awaits Whisper, or it has a time at which it is
-- tried again.
abbrev pub rests : State → Bool → Bool
rests ready _ = true
rests failed_permanent _ = true
rests awaiting_whisper _ = true
rests waiting has_next = has_next
rests failed_transient has_next = has_next
rests waiting_native_transcript has_next = has_next
rests _ _ = false

-- The job's row and that of its session are there.
pub record Present (job : Job) (db : Db) : Type 0 where
  pub row : Job
  pub found : get_job_by_id job.id db ≡ some row
  pub session : Session
  pub session_found : get_session job.session_id db ≡ some session

-- The job's row is there, without a lock, with its attempts counted, and at rest; and up to five
-- attempts the session's mirror has the state of the row.
pub record Finished (job : Job) (attempt : ℕ) (db : Db) : Type 0 where
  pub row : Job
  pub found : get_job_by_id job.id db ≡ some row
  pub unlocked : row.locked_at ≡ none
  pub attempts : row.attempt_count ≡ attempt
  pub at_rest : rests row.state (is_some row.next_retry_at) ≡ true
  pub session : Session
  pub session_found : get_session job.session_id db ≡ some session
  pub mirrored : attempt ≤ 5 → session.processing_state ≡ row.state

-- The mirror is no part of the job's row.
get_job_by_id-update_mirror :
    (id session_id now : ℕ) (state : State) (db : Db)
    → get_job_by_id id (update_mirror session_id state now db) ≡ get_job_by_id id db
unfolding update_mirror get_job_by_id
get_job_by_id-update_mirror id session_id now state db = refl

abbrev mirrored_session : State → ℕ → Session → Session
mirrored_session state now s = record s {
  processing_state = state;
  processing_updated_at = some now;
}

-- A row that is written and unlocked, and then the mirror.
Finished-written :
    (now attempt : ℕ) (job : Job) (mirror state : State) (stage : Stage) (next : Option ℕ)
    (code msg : Option String) (db : Db)
    → rests state (is_some next) ≡ true
    → (attempt ≤ 5 → mirror ≡ state)
    → Present job db
    → Finished job attempt (
        update_mirror job.session_id mirror now (
          unlock_job job.id now (update_job_state job.id state stage attempt next code msg now db)))
unfolding unlock_job update_job_state
Finished-written now attempt job mirror state stage next code msg db rest same h = record {
  row = failed_row h.row state stage attempt next code msg now;
  found =
      get_job_by_id-update_mirror job.id job.session_id now mirror _
      ∙ get_job_by_id_failed job.id now attempt state stage next code msg db h.row h.found;
  unlocked = refl;
  attempts = refl;
  at_rest = rest;
  session = mirrored_session mirror now h.session;
  session_found = get_session-update_mirror job.session_id now mirror _ h.session h.session_found;
  mirrored = same;
}

module _ (now attempt : ℕ) (job : Job) (db : Db) (h : Present job db) where
  pub Finished-fail_transient :
      (code msg : String) → Finished job attempt (fail_transient now job attempt code msg db)
  unfolding fail_transient set_job_failed_transient
  Finished-fail_transient code msg = elim (Bool-cases (ltb 5 attempt)) [
    | inl e ↦ rw e (Finished-written now attempt job _ _ _ _ _ _ db refl (ground arith) h)
    | inr e ↦ rw e (Finished-written now attempt job _ _ _ _ _ _ db refl (λ _. refl) h)
  ]

  Finished-wait :
      (next : ℕ) (code msg : String)
      → Finished job attempt (
          update_mirror job.session_id waiting now
            (set_job_waiting job.id attempt code msg next now db))
  unfolding set_job_waiting
  Finished-wait next code msg = elim (Bool-cases (ltb 5 attempt)) [
    | inl e ↦ rw e (Finished-written now attempt job _ _ _ _ _ _ db refl (ground arith) h)
    | inr e ↦ rw e (Finished-written now attempt job _ _ _ _ _ _ db refl (λ _. refl) h)
  ]

  Finished-fail :
      (code msg : String)
      → Finished job attempt (
          update_mirror job.session_id failed_permanent now
            (set_job_failed_permanent job.id attempt code msg now db))
  unfolding set_job_failed_permanent
  Finished-fail code msg = Finished-written now attempt job _ _ _ _ _ _ db refl (λ _. refl) h

  pub Finished-handle_zoom_error :
      (e : Error) → Finished job attempt (handle_zoom_error now job attempt e db)
  unfolding handle_zoom_error
  Finished-handle_zoom_error (network text) = Finished-fail_transient "network_error" text
  Finished-handle_zoom_error (zoom_api e) = elim (Bool-cases e.not_ready) [
    | inl a ↦ rw a (Finished-wait _ _ e.message)
    | inr a ↦ elim (Bool-cases (retryable e)) [
      | inl b ↦ rw (a, b) (Finished-fail_transient e.code e.message)
      | inr b ↦ elim (Bool-cases (permanent e)) [
        | inl c ↦ rw (a, b, c) (Finished-fail e.code e.message)
        | inr c ↦ rw (a, b, c) (Finished-fail_transient e.code e.message)
      ]
    ]
  ]

module _ (now : ℕ) (job : Job) (w : World) (h : Present job w.db) where
  pub Present-enter : (state : State) (stage : Stage) → Present job (enter now job state stage w).db
  unfolding enter update_job_state
  Present-enter state stage = record {
    row = _;
    found =
        get_job_by_id-update_mirror job.id job.session_id now state _
        ∙ get_job_by_id-update_self job.id _ w.db h.row (λ r. refl) h.found;
    session = mirrored_session state now h.session;
    session_found = get_session-update_mirror job.session_id now state _ h.session h.session_found;
  }

  pub Finished-fail_for_good :
      (code msg : String) → Finished job (attempt_of job) (fail_for_good now job code msg w).db
  unfolding fail_for_good
  Finished-fail_for_good code msg = Finished-fail now (attempt_of job) job w.db h code msg

  pub Finished-wait_until :
      (next : ℕ) (code msg : String)
      → Finished job (attempt_of job) (wait_until now job next code msg w).db
  unfolding wait_until
  Finished-wait_until next code msg = Finished-wait now (attempt_of job) job w.db h next code msg

module _ (now : ℕ) (job : Job) (ans : Answers) (w : World) (h : Present job w.db) where
  pub Finished-await_whisper : Finished job (attempt_of job) (await_whisper now job ans w).db
  unfolding await_whisper
  Finished-await_whisper =
      Finished-written now (attempt_of job) job _ _ _ _ _ _ w.db refl (λ _. refl) h

  pub Finished-poll_again :
      (meet : MeetAnswers) → Finished job (attempt_of job) (poll_again now job ans meet w).db
  unfolding poll_again
  Finished-poll_again meet =
      Finished-written now (attempt_of job) job _ _ _ _ _ _ w.db refl (λ _. refl) h

  pub Finished-finish : Finished job (attempt_of job) (finish now job ans w).db
  unfolding finish update_job_state unlock_job
  Finished-finish = record {
    row = _;
    found =
        get_job_by_id-update_self job.id _ _ _ (λ r. refl)
          (get_job_by_id-update_mirror job.id job.session_id now ready _
            ∙ get_job_by_id-update_self job.id _ w.db h.row (λ r. refl) h.found);
    unlocked = refl;
    attempts = refl;
    at_rest = refl;
    session = mirrored_session ready now h.session;
    session_found = get_session-update_mirror job.session_id now ready _ h.session h.session_found;
    mirrored = λ _. refl;
  }

-- Unlocking once more changes nothing of this.
pub Finished-unlock :
    (job : Job) (attempt now : ℕ) (db : Db)
    → Finished job attempt db
    → Finished job attempt (unlock_job job.id now db)
unfolding unlock_job
Finished-unlock job attempt now db a = record {
  row = record a.row { locked_at = none; lock_owner = none; updated_at = now };
  found = get_job_by_id-update_self job.id _ db a.row (λ r. refl) a.found;
  unlocked = refl;
  attempts = a.attempts;
  at_rest = a.at_rest;
  session = a.session;
  session_found = a.session_found;
  mirrored = a.mirrored;
}
