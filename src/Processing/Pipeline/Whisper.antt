-- ===== src/Processing/Pipeline/Whisper.antt =====
-- The fallback of the Zoom and the Teams pipeline when there is no transcript: the stored recording
-- goes to the Whisper queue (internal/processing/pipeline_zoom.go, pipeline_teams.go).
use talkback.Prelude.{
  ℕ, String, Bool, true, false, not, ◌&&◌, ◌||◌, Option, none, some, [], ◌∷◌, str_eq, if◌then◌else◌,
}
use Prim.Native.String.{◌++◌}
use talkback.Processing.State.{awaiting_whisper, download}
use talkback.Processing.Job.{Job}
use talkback.Processing.Store.{get_session, update_job_state, unlock_job, update_mirror}
use talkback.Processing.Media.{
  is_ready_file, FileArtifact, VideoSource, whisper_queued, is_whisper_failed, WhisperJob,
  get_file_artifact_by_id, get_artifacts_by_session_id, create_artifact, create_video_source,
  update_video_source_transcription_job, get_transcript_job_by_key, create_transcript_job,
}
use talkback.Processing.Pipeline.{
  World, Answer, is_answered, refused, answered, Answers, M, ◌>>=◌, ◌>>◌, pure, read, write, quit,
  require, when, on_some, on_media, on_db, on_insert, attempt_of, fail_for_good,
}

-- The artifact of the session that comes first, if it has one.
abbrev pub first_artifact : ℕ → World → Option ℕ
first_artifact session_id w = elim (get_artifacts_by_session_id session_id w.media) [
  | [] ↦ none
  | a ∷ rest ↦ some a.id
]

-- The session's primary video.
abbrev pub primary_of : ℕ → World → Option ℕ
primary_of session_id w = elim (get_session session_id w.db) [
  | none ↦ none
  | some s ↦ s.primary_video_artifact_id
]

-- The artifact that this run has ingested, or else the session's primary video.
abbrev pub fallback_artifact : Option ℕ → ℕ → World → Option ℕ
fallback_artifact none session_id w = primary_of session_id w
fallback_artifact (some id) session_id w = some id

-- The key of the Whisper job, which is one for all recordings of the session.
abbrev pub whisper_key : (ℕ → String) → String → ℕ → String
whisper_key show provider session_id = provider ++ "_whisper:" ++ show session_id

module _ (now : ℕ) (job : Job) (ans : Answers) where
  -- The artifact of the session, made if it has none.
  unfoldable pub ensure_artifact : String → M ℕ
  ensure_artifact title = do
    first ← read (first_artifact job.session_id)
    on_some first
        (do
          require (not ans.faults.create_artifact_fails)
              (quit (fail_for_good now job "db_error" "create artifact"))
          write (on_media (create_artifact ans.new_ids.artifact_id job.session_id title))
          pure ans.new_ids.artifact_id)
        pure

  -- Where Whisper finds the file; "" where it cannot.
  abbrev pub whisper_source : FileArtifact → String
  whisper_source fa =
      if str_eq fa.storage_provider "r2"
      then elim ans.store [
        | none ↦ ""
        | some store ↦ elim (store.presign fa.storage_key) [ refused e ↦ "" | answered url ↦ url ]
      ]
      else ans.texts.to_slash fa.storage_key

  -- A file that Whisper may take.
  abbrev pub is_usable : FileArtifact → Bool
  is_usable fa =
      is_ready_file fa.status
      && ((str_eq fa.storage_provider "local" || str_eq fa.storage_provider "r2")
          && (not (str_eq fa.storage_key "") && not (str_eq (whisper_source fa) "")))

  abbrev pub new_video : String → ℕ → Option ℕ → Bool → VideoSource
  new_video provider artifact_id file_id has_transcript = record {
    id = ans.new_ids.video_id;
    artifact_id = artifact_id;
    session_id = job.session_id;
    provider = provider;
    external_recording_id = none;
    file_artifact_id = file_id;
    has_transcript = has_transcript;
    transcription_job_id = none;
  }

  abbrev pub new_whisper_job : String → String → WhisperJob
  new_whisper_job provider source_url = record {
    id = ans.new_ids.whisper_id;
    video_source_id = ans.new_ids.video_id;
    session_id = job.session_id;
    status = whisper_queued;
    source_url = source_url;
    job_key = whisper_key ans.texts.show provider job.session_id;
  }

  -- The job awaits Whisper, unlocked.
  unfoldable pub await_whisper : World → World
  await_whisper = on_db (λ db. update_mirror job.session_id awaiting_whisper now (
      unlock_job job.id now
        (update_job_state job.id awaiting_whisper download (attempt_of job) none none none now db)))

  -- A new Whisper job, unless there is one of that key that has not failed.
  unfoldable pub enqueue_whisper : String → String → Answer (Unit {0}) → M (Unit {0})
  enqueue_whisper provider source_url enqueued = do
    existing ← read (λ w.
        get_transcript_job_by_key (whisper_key ans.texts.show provider job.session_id) w.media)
    when (elim existing [ none ↦ true | some j ↦ is_whisper_failed j.status ])
        (on_insert ans.faults.create_whisper_fails
          (create_transcript_job (new_whisper_job provider source_url)) (pure tt)
          (do
            write (
                on_media (
                  update_video_source_transcription_job ans.new_ids.video_id
                    ans.new_ids.whisper_id))
            when (is_answered enqueued) (quit await_whisper)))

  -- The fallback with a file that Whisper may take.
  unfoldable pub transcribe_file : String → String → Answer (Unit {0}) → FileArtifact → M (Unit {0})
  transcribe_file provider title enqueued fa = do
    artifact_id ← ensure_artifact title
    when (not ans.faults.create_video_fails)
        (write (on_media (create_video_source (new_video provider artifact_id (some fa.id) false))))
    enqueue_whisper provider (whisper_source fa) enqueued

  -- The fallback; where it cannot be taken the run goes on.
  unfoldable pub whisper_fallback : String → String → Option ℕ → M (Unit {0})
  whisper_fallback provider title ingested = on_some ans.job_processor (pure tt) (λ enqueued. do
    id ← read (fallback_artifact ingested job.session_id)
    on_some id (pure tt) (λ id. do
      file ← read (λ w. get_file_artifact_by_id id w.media)
      on_some file (pure tt)
          (λ fa. when (is_usable fa) (transcribe_file provider title enqueued fa))))
