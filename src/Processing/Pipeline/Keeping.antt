-- ===== src/Processing/Pipeline/Keeping.antt =====
-- Induction over a run: what the statements on the tables of the recordings keep, the steps of a run
-- keep (internal/processing/pipeline_zoom.go, pipeline_teams.go, pipeline_google_meet.go).
pub mod Writes
pub mod Whole
use talkback.Prelude.{
  ℕ, String, Bool, true, false, not, Option, none, some, List, ◌≡◌, refl, arith, Bool-cases, inl,
  inr, if◌then◌else◌,
}
use talkback.Processing.State.{State, Stage}
use talkback.Processing.Job.{Job, Db}
use talkback.Processing.Zoom.{Error, handle_zoom_error}
use talkback.Processing.Media.{
  FileArtifact, VideoSource, WhisperJob, TranscriptRow, SegmentRow, Media, create_file_artifact,
  update_file_artifact_to_ready, update_file_artifact_to_failed, create_artifact,
  create_video_source, update_video_source_transcription_job, update_video_source_transcript,
  create_transcript_job, create_transcript, update_transcript_to_ready,
  delete_segments_by_transcript_id, insert_transcript_segments,
}
use talkback.Processing.Pipeline.{
  Flow, ended, goes_on, world_of, Answer, Answers, StoreAnswers, World, M, write, quit, on_media,
  on_db, enter, fail_for_good, wait_until,
}
use talkback.Processing.Pipeline.Rules.{
  Safe, Ends, Inserts, Returns, safe_rules, Safe-write, Safe-quit,
}
use talkback.Processing.Pipeline.Dedupe.{set_primary_if_not_set}
use talkback.Processing.Pipeline.Ingest.{fail_upload}
use talkback.Processing.Pipeline.Whisper.{await_whisper}
use talkback.Processing.Pipeline.Save.{finish, fail_index, is_rate_limit}
use talkback.Processing.Pipeline.Run.{fail_later}
use talkback.Processing.Pipeline.Meet.{MeetAnswers, poll_again}

-- Every statement of a run keeps `P`.
pub record MediaLaws (P : Media → Type 0) : Type 0 where
  pub file_created :
      (fa : FileArtifact) (media made : Media)
      → create_file_artifact fa media ≡ some made
      → P media
      → P made
  pub file_ready :
      (id size : ℕ) (media : Media) → P media → P (update_file_artifact_to_ready id size media)
  pub file_failed : (id : ℕ) (media : Media) → P media → P (update_file_artifact_to_failed id media)
  pub artifact_created :
      (id session_id : ℕ) (title : String) (media : Media)
      → P media
      → P (create_artifact id session_id title media)
  pub video_created :
      (vs : VideoSource) (media : Media) → P media → P (create_video_source vs media)
  pub video_queued :
      (id job_id : ℕ) (media : Media)
      → P media
      → P (update_video_source_transcription_job id job_id media)
  pub video_transcribed :
      (id : ℕ) (media : Media) → P media → P (update_video_source_transcript id media)
  pub whisper_created :
      (job : WhisperJob) (media made : Media)
      → create_transcript_job job media ≡ some made
      → P media
      → P made
  pub transcript_created :
      (t : TranscriptRow) (media : Media) → P media → P (create_transcript t media).0
  pub transcript_ready :
      (id : ℕ) (media : Media) → P media → P (update_transcript_to_ready id media)
  pub segments_deleted :
      (id : ℕ) (media : Media) → P media → P (delete_segments_by_transcript_id id media)
  pub segments_inserted :
      (rows : List SegmentRow) (media : Media) → P media → P (insert_transcript_segments rows media)

pub record OnMedia (P : Media → Type 0) (w : World) : Type 0 where
  pub kept : P w.media

-- The step keeps `P`, whether it ends the run or not.
abbrev pub Keeps : (Media → Type 0) → {A : Type 0} → M A → Type 0
Keeps P m = Safe (OnMedia P) (OnMedia P) (OnMedia P) m

pub OnMedia-Ends :
    {A : Type 0} (P : Media → Type 0) (flow : Flow A)
    → Ends (OnMedia P) (OnMedia P) flow
    → P (world_of flow).media
OnMedia-Ends P (ended w) h = h.kept
OnMedia-Ends P (goes_on a w) h = h.kept
