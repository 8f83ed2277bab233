-- ===== src/Processing/Pipeline/Skipping.antt =====
-- shouldSkipMP4Ingest over the runs of a worker (internal/processing/recording_dedupe.go): the
-- statement that records a video has no column for the recording's own identifier.

use talkback.Prelude.{
  ℕ, String, false, Option, none, some, List, [], ◌∷◌, ◌≡◌, refl, arith, All, All-append,
  All-update_where, find, str_eq, ◌==◌, Bool-cases, inl, inr,
}
use talkback.Processing.Job.{Job}
use talkback.Processing.Media.{
  TranscriptRow, VideoSource, Media, WhisperJob, FileArtifact, is_recording,
  get_video_source_by_external_recording_id, create_video_source,
  update_video_source_transcription_job, update_video_source_transcript, create_file_artifact,
  create_transcript_job, create_transcript, update_file_artifact_to_ready,
  update_file_artifact_to_failed, create_artifact, update_transcript_to_ready,
  delete_segments_by_transcript_id, insert_transcript_segments,
}
use talkback.Processing.Pipeline.{Answers, World}
use talkback.Processing.Pipeline.Dedupe.{should_skip_mp4_ingest, external_id_of}
use talkback.Processing.Pipeline.Keeping.{MediaLaws}
use talkback.Processing.Pipeline.Keeping.Whole.{run_job_induction}
use talkback.Processing.Pipeline.Dispatch.{ProviderAnswers, run_job}

abbrev pub HasNoId : VideoSource → Type 0
HasNoId vs = vs.external_recording_id ≡ none

-- No video has the identifier of a recording.
abbrev pub NoExternalIds : Media → Type 0
NoExternalIds media = All HasNoId media.video_sources

video_sources-create_file :
    (fa : FileArtifact) (media made : Media)
    → create_file_artifact fa media ≡ some made
    → made.video_sources ≡ media.video_sources
unfolding create_file_artifact
video_sources-create_file fa media made e = ground arith

video_sources-create_whisper :
    (job : WhisperJob) (media made : Media)
    → create_transcript_job job media ≡ some made
    → made.video_sources ≡ media.video_sources
unfolding create_transcript_job
video_sources-create_whisper job media made e = ground arith

video_sources-create_transcript :
    (t : TranscriptRow) (media : Media)
    → (create_transcript t media).0.video_sources ≡ media.video_sources
unfolding create_transcript
video_sources-create_transcript t media = ground arith

NoExternalIds-laws : MediaLaws NoExternalIds
unfolding update_file_artifact_to_ready update_file_artifact_to_failed create_artifact
    create_video_source update_video_source_transcription_job update_video_source_transcript
    update_transcript_to_ready delete_segments_by_transcript_id insert_transcript_segments
NoExternalIds-laws = record {
  file_created = λ fa media made e h. rw (video_sources-create_file fa media made e) h;
  file_ready = λ id size media h. h;
  file_failed = λ id media h. h;
  artifact_created = λ id session_id title media h. h;
  video_created = λ vs media h. All-append HasNoId media.video_sources _ h (refl, tt);
  video_queued = λ id job_id media h.
      All-update_where HasNoId HasNoId (λ vs. vs.id == id) _ media.video_sources (λ r _ k. k)
        (λ r _ k. k) h;
  video_transcribed = λ id media h.
      All-update_where HasNoId HasNoId (λ vs. vs.id == id) _ media.video_sources (λ r _ k. k)
        (λ r _ k. k) h;
  whisper_created = λ job media made e h. rw (video_sources-create_whisper job media made e) h;
  transcript_created = λ t media h. rw (video_sources-create_transcript t media) h;
  transcript_ready = λ id media h. h;
  segments_deleted = λ id media h. h;
  segments_inserted = λ rows media h. h;
}

find-HasNoId :
    (session_id : ℕ) (provider external_id : String) (rs : List VideoSource)
    → All HasNoId rs
    → find (is_recording session_id provider external_id) rs ≡ none
unfolding find
find-HasNoId session_id provider external_id [] h = refl
find-HasNoId session_id provider external_id (r ∷ rs) h =
    ground (arith, h.0, find-HasNoId session_id provider external_id rs h.1)

get_video_source-NoExternalIds :
    (session_id : ℕ) (provider external_id : String) (media : Media)
    → NoExternalIds media
    → get_video_source_by_external_recording_id session_id provider external_id media ≡ none
unfolding get_video_source_by_external_recording_id
get_video_source-NoExternalIds session_id provider external_id media h =
    elim (Bool-cases (str_eq external_id "")) [
      | inl e ↦ rw e
      | inr e ↦ rw e (find-HasNoId session_id provider external_id media.video_sources h)
    ]

should_skip-NoExternalIds :
    (session_id : ℕ) (provider : String) (meeting_uuid instance_uuid : Option String) (w : World)
    → NoExternalIds w.media
    → should_skip_mp4_ingest session_id provider meeting_uuid instance_uuid w ≡ false
unfolding should_skip_mp4_ingest
should_skip-NoExternalIds session_id provider meeting_uuid instance_uuid w h =
    elim (Bool-cases (str_eq (external_id_of meeting_uuid instance_uuid) "")) [
      | inl e ↦ rw e
      | inr e ↦ rw (
        e,
        get_video_source-NoExternalIds session_id provider
            (external_id_of meeting_uuid instance_uuid) w.media h,
      )
    ]

-- Where no video has the identifier of a recording, none has one after a run either, so a recording
-- is never skipped as one that is ingested already.
pub run_job_never_skips :
    (now : ℕ) (job : Job) (ans : Answers) (provider : ProviderAnswers) (w : World)
    → NoExternalIds w.media
    → NoExternalIds (run_job now job ans provider w).media
      × ((session_id : ℕ) (name : String) (meeting_uuid instance_uuid : Option String)
          → should_skip_mp4_ingest session_id name meeting_uuid instance_uuid
              (run_job now job ans provider w)
            ≡ false)
run_job_never_skips now job ans provider w h =
    let k = run_job_induction NoExternalIds-laws now job ans provider w h in
    (
      k,
      λ session_id name meeting_uuid instance_uuid.
          should_skip-NoExternalIds session_id name meeting_uuid instance_uuid _ k,
    )
