-- ===== src/Processing/Queue.antt =====
-- The queue of Whisper jobs (internal/utils/job_processor.go, processJob for the job of a video) and
-- what the API does when one is completed (cmd/api/main.go, OnTranscriptCompleted). The statements
-- that only change a status do not fail. The material of a stored video is not modelled.
pub mod Failed
use talkback.Prelude.{
  ℕ, ◌+◌, String, Bool, true, false, not, ◌||◌, Option, none, some, ltb, ◌==◌, update_where,
  if◌then◌else◌,
}
use talkback.Processing.State.{ready}
use talkback.Processing.Job.{Db}
use talkback.Processing.Store.{update_mirror}
use talkback.Processing.Reconcile.{flip_awaiting_whisper_jobs_to_ready}
use talkback.Processing.Media.{
  WhisperStatus, whisper_running, whisper_completed, whisper_failed, WhisperJob, Media,
  update_video_source_transcript,
}
use talkback.Processing.Pipeline.{
  Answer, M, ◌>>=◌, ◌>>◌, pure, write, quit, got, require, when, choose, on_media, on_db, World,
}

-- The answers to a worker of the queue.
pub record QueueAnswers : Type 0 where
  pub has_prefix : String → String → Bool
  pub stat : Answer (Unit {0})
  pub download : Answer (Unit {0})
  pub can_transcribe : Bool
  pub transcribe : Answer (Unit {0})
  pub start_fails : Bool
  pub save_fails : Bool
  pub complete_fails : Bool
  pub flip_fails : ℕ → Bool

-- UpdateTranscriptJobStarted, UpdateTranscriptJobProgress, CompleteTranscriptJob, FailTranscriptJob
unfoldable pub update_transcript_job_status : ℕ → WhisperStatus → Media → Media
update_transcript_job_status id status media = record media {
  transcript_jobs =
      update_where (λ j. j.id == id) (λ j. record j { status = status }) media.transcript_jobs;
}

-- UpdateVideoSourceTranscriptStatus and UpdateVideoSourceIngestionStatus, to a status but ready
unfoldable pub update_video_source_not_ready : ℕ → Media → Media
update_video_source_not_ready id media = record media {
  video_sources =
      update_where (λ vs. vs.id == id) (λ vs. record vs { has_transcript = false })
        media.video_sources;
}

module _ (now : ℕ) (job : WhisperJob) (q : QueueAnswers) where
  abbrev pub fail_job : World → World
  fail_job = on_media (update_transcript_job_status job.id whisper_failed)

  abbrev pub fail_job_and_video : World → World
  fail_job_and_video = on_media (λ media.
      update_video_source_not_ready job.video_source_id
        (update_transcript_job_status job.id whisper_failed media))

  abbrev pub is_local : Bool
  is_local =
      q.has_prefix job.source_url "sessions/"
      || (q.has_prefix job.source_url "./sessions/"
          || (q.has_prefix job.source_url "data/" || q.has_prefix job.source_url "./data/"))

  abbrev pub is_web : Bool
  is_web = q.has_prefix job.source_url "http://" || q.has_prefix job.source_url "https://"

  -- The recording's file: on the disk, or downloaded.
  unfoldable pub get_source : M (Unit {0})
  get_source =
      choose is_local (got q.stat (λ e. quit fail_job_and_video))
        (choose is_web (got q.download (λ e. quit fail_job_and_video)) (quit fail_job_and_video))

  -- Every job of the session that awaits Whisper becomes ready, and the mirror if there is one.
  unfoldable pub on_transcript_completed : World → World
  on_transcript_completed = on_db (λ db.
      let flipped = flip_awaiting_whisper_jobs_to_ready q.flip_fails job.session_id now db in
      if ltb 0 flipped.1 then update_mirror job.session_id ready now flipped.0 else flipped.0)

  unfoldable pub process_job : M (Unit {0})
  process_job = do
    require (not q.start_fails) (quit fail_job)
    write (on_media (update_transcript_job_status job.id whisper_running))
    write (on_media (update_video_source_not_ready job.video_source_id))
    get_source
    require q.can_transcribe (quit fail_job)
    got q.transcribe (λ e. quit fail_job_and_video)
    require (not q.save_fails) (quit fail_job_and_video)
    write (on_media (update_video_source_transcript job.video_source_id))
    require (not q.complete_fails) (quit (λ w. w))
    write (on_media (update_transcript_job_status job.id whisper_completed))
    quit on_transcript_completed
