-- ===== src/Processing/Pipeline/Again.antt =====
-- A second recording of a session, in the fallback to Whisper (internal/processing/pipeline_zoom.go,
-- pipeline_teams.go): the key of a Whisper job is one for the session.
use talkback.Prelude.{ℕ, String, Option, none, some, ◌≡◌, ap, ◌∙◌, ◌⊎◌, inl, inr, find}
use talkback.Processing.Job.{Job}
use talkback.Processing.Media.{
  WhisperJob, has_job_key, get_transcript_job_by_key, create_transcript_job, create_artifact,
  create_video_source, VideoSource,
}
use talkback.Processing.Pipeline.{
  World, Answer, Answers, M, ◌>>◌, write, quit, on_media, fail_for_good, wait_until,
}
use talkback.Processing.Pipeline.Rules.{
  Safe, Never, safe_rules, Safe-write, Safe-quit, Safe-pure, Safe-when, Safe-read,
  Safe-on_insert_clash, Safe-bind,
}
use talkback.Processing.Pipeline.Whisper.{
  whisper_key, new_whisper_job, enqueue_whisper, whisper_fallback,
}

-- The branch of a run that finds no transcript: the fallback, and then the wait.
abbrev pub fallback_and_wait :
    ℕ → Job → Answers → String → String → Option ℕ → ℕ → String → String → M (Unit {0})
fallback_and_wait now job ans provider title ingested next code msg =
    whisper_fallback now job ans provider title ingested >> quit (wait_until now job next code msg)

module _ (now : ℕ) (job : Job) (ans : Answers) (provider : String) (known : WhisperJob)
    (start : World) where
  abbrev key : String
  key = whisper_key ans.texts.show provider job.session_id

  -- The Whisper jobs and the job's own tables are as they were at the start.
  record AsBefore (w : World) : Type 0 where
    jobs : w.media.transcript_jobs ≡ start.media.transcript_jobs
    db : w.db ≡ start.db

  -- The Whisper jobs are as they were, and the job waits or has failed.
  record Refused (next : ℕ) (code msg : String) (w : World) : Type 0 where
    jobs : w.media.transcript_jobs ≡ start.media.transcript_jobs
    db :
        (w.db ≡ (wait_until now job next code msg start).db)
        ⊎ (w.db ≡ (fail_for_good now job "db_error" "create artifact" start).db)

  module _ (h : get_transcript_job_by_key key start.media ≡ some known) where
    get_transcript_job-AsBefore :
        (w : World) → AsBefore w → get_transcript_job_by_key key w.media ≡ some known
    unfolding get_transcript_job_by_key
    get_transcript_job-AsBefore w b = ap (find (has_job_key key)) b.jobs ∙ h

    create_transcript_job-clash :
        (source_url : String) (w : World)
        → AsBefore w
        → create_transcript_job (new_whisper_job now job ans provider source_url) w.media ≡ none
    unfolding create_transcript_job
    create_transcript_job-clash source_url w b =
        rw (create_transcript_job, get_transcript_job-AsBefore w b)

    -- There is no second Whisper job of the key.
    Safe-enqueue_whisper :
        {Q : World → Type 0} (source_url : String) (enqueued : Answer (Unit {0}))
        → Safe AsBefore AsBefore Q (enqueue_whisper now job ans provider source_url enqueued)
    unfolding enqueue_whisper
    Safe-enqueue_whisper source_url enqueued = Safe-bind _ _ (Safe-read _) (λ existing.
        Safe-when _ _
          (Safe-on_insert_clash _ _ _ _ (create_transcript_job-clash source_url) (Safe-pure tt)))

    Safe-artifact :
        {Q : World → Type 0} (id session_id : ℕ) (title : String)
        → Safe AsBefore AsBefore Q (write (on_media (create_artifact id session_id title)))
    unfolding create_artifact
    Safe-artifact id session_id title = Safe-write _ (λ w b. record { jobs = b.jobs; db = b.db })

    Safe-video :
        {Q : World → Type 0} (vs : VideoSource)
        → Safe AsBefore AsBefore Q (write (on_media (create_video_source vs)))
    unfolding create_video_source
    Safe-video vs = Safe-write _ (λ w b. record { jobs = b.jobs; db = b.db })

    module _ (next : ℕ) (code msg : String) where
      Safe-no_artifact :
          {A : Type 0}
          → Safe AsBefore AsBefore
              (Refused next code msg)
              {A = A}
              (quit (fail_for_good now job "db_error" "create artifact"))
      unfolding fail_for_good
      Safe-no_artifact = Safe-quit _ (λ w b. record { jobs = b.jobs; db = inr (rw b.db) })

      Safe-wait :
          Safe AsBefore Never
            (Refused next code msg)
            {A = Unit {0}}
            (quit (wait_until now job next code msg))
      unfolding wait_until
      Safe-wait = Safe-quit _ (λ w b. record { jobs = b.jobs; db = inl (rw b.db) })

      ruleset again_rules =
          (safe_rules, Safe-enqueue_whisper, Safe-artifact, Safe-video, Safe-no_artifact, Safe-wait)
