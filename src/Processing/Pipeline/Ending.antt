-- ===== src/Processing/Pipeline/Ending.antt =====
-- The steps that the pipelines share, and how a run may end in them.
pub mod Shared
use talkback.Prelude.{
  ℕ, String, Bool, true, false, Option, List, Bool-cases, inl, inr, ap, ◌∙◌, refl, ◌==◌,
  find-update_where, if◌then◌else◌,
}
use mathlib.Core.Option
use talkback.Processing.State.{State, Stage}
use talkback.Processing.Job.{Job, Db}
use talkback.Processing.Store.{get_job_by_id}
use talkback.Processing.Media.{Media, SegmentRow, FileArtifact}
use talkback.Processing.Zoom.{Error, handle_zoom_error}
use talkback.Processing.Pipeline.{
  Answer, Answers, StoreAnswers, World, M, StoredFile, write, quit, on_media, on_disk, on_db, enter,
  fail_for_good, wait_until, attempt_of,
}
use talkback.Processing.Pipeline.Rules.{
  Safe, Inserts, Returns, Never, safe_rules, Safe-write, Safe-quit,
}
use talkback.Processing.Pipeline.Finished.{
  Present, Finished, Present-enter, Finished-fail_for_good, Finished-wait_until,
  Finished-await_whisper, Finished-poll_again, Finished-finish, Finished-fail_transient,
  Finished-handle_zoom_error,
}
use talkback.Processing.Pipeline.Dedupe.{
  set_primary_if_not_set, set_session_primary_video_artifact, has_ready_primary,
}
use talkback.Processing.Pipeline.Ingest.{mark_ingested, ingest_to_store, ingest_to_disk, ingest}
use talkback.Processing.Pipeline.Whisper.{
  await_whisper, ensure_artifact, enqueue_whisper, transcribe_file, whisper_fallback,
}
use talkback.Processing.Pipeline.Save.{
  finish, fail_index, is_rate_limit, transcript_id_for, save_segments, add_video, save_transcript,
  index_and_finish,
}
use talkback.Processing.Pipeline.Run.{fail_later}
use talkback.Processing.Pipeline.Meet.{MeetAnswers, poll_again}

abbrev pub Here : Job → World → Type 0
Here job w = Present job w.db

abbrev pub Over : Job → World → Type 0
Over job w = Finished job (attempt_of job) w.db

module _ (now : ℕ) (job : Job) where
  -- A step that ends the run only with the job finished, and otherwise keeps its row.
  abbrev pub Step : {A : Type 0} → M A → Type 0
  Step m = Safe (Here job) (Here job) (Over job) m

  -- A step that ends the run, and with the job finished.
  abbrev pub Last : {A : Type 0} → M A → Type 0
  Last m = Safe (Here job) Never (Over job) m

module _ (now : ℕ) (job : Job) where
  -- The rows of the recordings are other tables.
  pub Inserts-any : (insert : Media → Option Media) → Inserts (Here job) insert
  Inserts-any insert = record { at = λ w media e h. h }

  pub Returns-any : {A : Type 0} (f : Media → Media × A) → Returns (Here job) f
  Returns-any f = record { at = λ w h. h }

  pub Step-on_media : (f : Media → Media) → Step now job (write (on_media f))
  Step-on_media f = Safe-write (on_media f) (λ w h. h)

  pub Step-on_disk : (f : List StoredFile → List StoredFile) → Step now job (write (on_disk f))
  Step-on_disk f = Safe-write (on_disk f) (λ w h. h)

  pub Step-enter :
      (state : State) (stage : Stage) → Step now job (write (enter now job state stage))
  Step-enter state stage =
      Safe-write (enter now job state stage) (λ w h. Present-enter now job w h state stage)

  Present-if :
      (b : Bool) (w w' : World)
      → Present job w.db
      → Present job w'.db
      → Present job (if b then w else w').db
  Present-if true w w' h h' = h
  Present-if false w w' h h' = h'

  Present-set_session_primary :
      (session_id id : ℕ) (db : Db)
      → Present job db
      → Present job (set_session_primary_video_artifact session_id id db)
  unfolding get_job_by_id
  Present-set_session_primary session_id id db h = record {
    row = h.row;
    found = h.found;
    session = _;
    session_found =
        find-update_where (λ s. s.id == job.session_id) (λ s. s.id == session_id) _ db.sessions
          (λ s _. refl)
        ∙ ap (Option.map _) h.session_found;
  }

  -- The rows stay, whatever becomes of the primary video.
  Present-set_primary :
      (fails : Bool) (session_id id : ℕ) (promote : Bool) (w : World)
      → Present job w.db
      → Present job (set_primary_if_not_set fails session_id id promote w).db
  unfolding set_primary_if_not_set
  Present-set_primary fails session_id id promote w h =
      let promoted = Present-set_session_primary session_id id w.db h in
      Present-if promote _ w
        (Present-if (has_ready_primary session_id w) w _ h (Present-if fails w _ h promoted)) h

  pub Step-set_primary :
      (fails : Bool) (session_id id : ℕ) (promote : Bool)
      → Step now job (write (set_primary_if_not_set fails session_id id promote))
  Step-set_primary fails session_id id promote =
      Safe-write _ (λ w h. Present-set_primary fails session_id id promote w h)

module _ (now : ℕ) (job : Job) {G : World → Type 0} {A : Type 0} where
  -- The ways out.
  pub Out-fail :
      (code msg : String)
      → Safe (Here job) G (Over job) {A = A} (quit (fail_for_good now job code msg))
  Out-fail code msg = Safe-quit _ (λ w h. Finished-fail_for_good now job w h code msg)

  pub Out-fail_after :
      (code msg : String) (f : Media → Media)
      → Safe
          (Here job)
          G
          (Over job)
          {A = A}
          (quit (λ w. fail_for_good now job code msg (on_media f w)))
  Out-fail_after code msg f =
      Safe-quit _ (λ w h. Finished-fail_for_good now job (on_media f w) h code msg)

  pub Out-wait :
      (next : ℕ) (code msg : String)
      → Safe (Here job) G (Over job) {A = A} (quit (wait_until now job next code msg))
  Out-wait next code msg = Safe-quit _ (λ w h. Finished-wait_until now job w h next code msg)

  pub Out-later :
      (code msg : String) (ans : Answers)
      → Safe (Here job) G (Over job) {A = A} (quit (fail_later now job ans code msg))
  Out-later code msg ans =
      Safe-quit _ (λ w h. Finished-fail_transient now (attempt_of job) job w.db h code msg)

  pub Out-zoom :
      (e : Error)
      → Safe
          (Here job)
          G
          (Over job)
          {A = A}
          (quit (on_db (handle_zoom_error now job (attempt_of job) e)))
  Out-zoom e = Safe-quit _ (λ w h. Finished-handle_zoom_error now (attempt_of job) job w.db h e)

  pub Out-await :
      (ans : Answers) → Safe (Here job) G (Over job) {A = A} (quit (await_whisper now job ans))
  Out-await ans = Safe-quit _ (λ w h. Finished-await_whisper now job ans w h)

  pub Out-poll :
      (ans : Answers) (meet : MeetAnswers)
      → Safe (Here job) G (Over job) {A = A} (quit (poll_again now job ans meet))
  Out-poll ans meet = Safe-quit _ (λ w h. Finished-poll_again now job ans w h meet)

  pub Out-finish :
      (ans : Answers) → Safe (Here job) G (Over job) {A = A} (quit (finish now job ans))
  Out-finish ans = Safe-quit _ (λ w h. Finished-finish now job ans w h)

  pub Out-index :
      (ans : Answers) (msg : String)
      → Safe (Here job) G (Over job) {A = A} (quit (fail_index now job ans msg))
  Out-index ans msg = elim (Bool-cases (is_rate_limit now job ans msg)) [
    | inl e ↦
        Safe-quit _ (λ w h. rw e (Finished-fail_transient now (attempt_of job) job w.db h _ msg))
    | inr e ↦ Safe-quit _ (λ w h. rw e (Finished-fail_for_good now job w h _ msg))
  ]

pub ruleset ending_rules = (
  safe_rules, Inserts-any, Returns-any, Step-on_media, Step-on_disk, Step-enter, Step-set_primary,
  Out-fail, Out-fail_after, Out-wait, Out-later, Out-zoom, Out-await, Out-poll, Out-finish,
  Out-index,
)
