-- ===== src/Processing/Pipeline/Dispatch.antt =====
-- RunJob (internal/processing/pipeline.go): the pipeline of the job's source.
use talkback.Prelude.{ℕ, String, List, str_eq, is_some}
use talkback.Processing.Job.{Job, source_zoom, source_teams, source_google_meet}
use Prim.Native.String.{◌++◌}
use talkback.Processing.Pipeline.{
  Answer, Answers, World, M, choose, require, quit, ◌>>◌, fail_for_good, world_of,
}
use talkback.Processing.Pipeline.Files.{Recording}
use talkback.Processing.Pipeline.Run.{Reply, run_zoom_job, run_teams_job}
use talkback.Processing.Pipeline.Meet.{MeetAnswers, run_google_meet_job}
use talkback.Transcript.Normalize.{Segment}

-- What the providers answer, and the parser of transcripts.
pub record ProviderAnswers : Type 0 where
  pub max_duration_seconds : ℕ
  pub recordings : Reply Recording
  pub content : Reply String
  pub title : String
  pub url : Answer String
  pub vtt : String
  pub meet : MeetAnswers
  pub parse_vtt : String → Answer (List Segment)

module _ (now : ℕ) (job : Job) (ans : Answers) (provider : ProviderAnswers) where
  unfoldable pub run : M (Unit {0})
  run =
      choose (str_eq job.source source_zoom)
        (run_zoom_job now job ans provider.max_duration_seconds provider.recordings provider.content
          provider.parse_vtt)
        (choose (str_eq job.source source_teams)
          (require (is_some ans.token) (
              quit (
                fail_for_good now job "teams_not_configured" "Teams token resolver not configured"))
            >> run_teams_job now job ans provider.title provider.url provider.vtt
                provider.parse_vtt)
          (choose (str_eq job.source source_google_meet)
            (require (is_some ans.token) (
                quit (
                  fail_for_good now job "google_meet_not_configured"
                    "Google Meet token resolver not configured"))
              >> run_google_meet_job now job ans provider.meet)
            (quit (
              fail_for_good now job "unsupported_source"
                ("unsupported job source: " ++ job.source)))))

  -- The tables after the run.
  unfoldable pub run_job : World → World
  run_job w = world_of (run w)
