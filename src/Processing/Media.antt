-- ===== src/Processing/Media.antt =====
-- The tables that a pipeline fills (internal/database/file_artifacts.go, video_sources.go,
-- transcript_jobs.go, transcripts.go): the stored recordings, the videos of a session, their
-- transcripts, and the jobs of the Whisper queue. A row has the columns that the pipelines read, and
-- those that tell rows apart. An insertion gives `none` where it meets a unique index.
use talkback.Prelude.{
  ℕ, String, Bool, true, false, not, ◌&&◌, Option, none, some, List, [], ◌∷◌, ◌++◌, ◌==◌, str_eq,
  if◌then◌else◌, update_where, find, select, ◌||◌,
}
use mathlib.Core.List.{reverse}

-- FileArtifactStatus
pub data FileStatus : Type 0 where
  pending_file ready_file failed_file : FileStatus

abbrev pub is_ready_file : FileStatus → Bool
is_ready_file ready_file = true
is_ready_file _ = false

-- FileArtifact
pub record FileArtifact : Type 0 where
  pub id : ℕ
  pub session_id : ℕ
  pub storage_provider : String
  pub storage_key : String
  pub status : FileStatus
  pub size_bytes : Option ℕ

-- Artifact
pub record Artifact : Type 0 where
  pub id : ℕ
  pub session_id : ℕ
  pub title : String

-- VideoSource
pub record VideoSource : Type 0 where
  pub id : ℕ
  pub artifact_id : ℕ
  pub session_id : ℕ
  pub provider : String
  pub external_recording_id : Option String
  pub file_artifact_id : Option ℕ
  pub has_transcript : Bool
  pub transcription_job_id : Option ℕ

-- TranscriptJobStatus, as far as the pipelines tell the statuses apart.
pub data WhisperStatus : Type 0 where
  whisper_queued whisper_running whisper_completed whisper_failed : WhisperStatus

abbrev pub is_whisper_failed : WhisperStatus → Bool
is_whisper_failed whisper_failed = true
is_whisper_failed _ = false

-- TranscriptJob
pub record WhisperJob : Type 0 where
  pub id : ℕ
  pub video_source_id : ℕ
  pub session_id : ℕ
  pub status : WhisperStatus
  pub source_url : String
  pub job_key : String

-- Transcript
pub record TranscriptRow : Type 0 where
  pub id : ℕ
  pub session_id : ℕ
  pub source : String
  pub is_ready : Bool

-- TranscriptSegmentRow
pub record SegmentRow : Type 0 where
  pub transcript_id : ℕ
  pub session_id : ℕ
  pub idx : ℕ
  pub start_ms : ℕ
  pub end_ms : ℕ
  pub text : String
  pub speaker_label : Option String
  pub source_ref : Option String

pub record Media : Type 0 where
  pub file_artifacts : List FileArtifact
  pub artifacts : List Artifact
  pub video_sources : List VideoSource
  pub transcript_jobs : List WhisperJob
  pub transcripts : List TranscriptRow
  pub segments : List SegmentRow

abbrev pub has_file_id : ℕ → FileArtifact → Bool
has_file_id id fa = fa.id == id

-- GetFileArtifactByID
unfoldable pub get_file_artifact_by_id : ℕ → Media → Option FileArtifact
get_file_artifact_by_id id media = find (has_file_id id) media.file_artifacts

-- CreateFileArtifact; `id` is the primary key, and `storage_key` is unique.
unfoldable pub create_file_artifact : FileArtifact → Media → Option Media
create_file_artifact fa media =
    elim (find (λ r. has_file_id fa.id r || str_eq r.storage_key fa.storage_key)
      media.file_artifacts) [
        | some clash ↦ none
        | none ↦ some (record media { file_artifacts = media.file_artifacts ++ fa ∷ [] })
      ]

-- UpdateFileArtifactToReadyWithMetadata and UpdateFileArtifactToReady
unfoldable pub update_file_artifact_to_ready : ℕ → ℕ → Media → Media
update_file_artifact_to_ready id size media = record media {
  file_artifacts =
      update_where (has_file_id id)
        (λ fa. record fa { status = ready_file; size_bytes = some size }) media.file_artifacts;
}

-- UpdateFileArtifactToFailed
unfoldable pub update_file_artifact_to_failed : ℕ → Media → Media
update_file_artifact_to_failed id media = record media {
  file_artifacts =
      update_where (has_file_id id) (λ fa. record fa { status = failed_file }) media.file_artifacts;
}

-- GetArtifactsBySessionID: the newest first, that is, the last of the table.
unfoldable pub get_artifacts_by_session_id : ℕ → Media → List Artifact
get_artifacts_by_session_id session_id media =
    reverse (select (λ a. a.session_id == session_id) media.artifacts)

-- CreateArtifact
unfoldable pub create_artifact : ℕ → ℕ → String → Media → Media
create_artifact id session_id title media = record media {
  artifacts = media.artifacts ++ record { id = id; session_id = session_id; title = title } ∷ [];
}

-- CreateVideoSource. The statement has no column `external_recording_id`.
unfoldable pub create_video_source : VideoSource → Media → Media
create_video_source vs media = record media {
  video_sources = media.video_sources ++ record vs { external_recording_id = none } ∷ [];
}

abbrev pub is_recording : ℕ → String → String → VideoSource → Bool
is_recording session_id provider external_id vs =
    vs.session_id == session_id
    && (str_eq vs.provider provider
        && elim vs.external_recording_id [ none ↦ false | some e ↦ str_eq e external_id ])

-- GetVideoSourceByExternalRecordingID
unfoldable pub get_video_source_by_external_recording_id :
    ℕ → String → String → Media → Option VideoSource
get_video_source_by_external_recording_id session_id provider external_id media =
    if str_eq external_id ""
    then none
    else find (is_recording session_id provider external_id) media.video_sources

-- UpdateVideoSourceTranscriptionJob
unfoldable pub update_video_source_transcription_job : ℕ → ℕ → Media → Media
update_video_source_transcription_job id job_id media = record media {
  video_sources =
      update_where (λ vs. vs.id == id) (λ vs. record vs { transcription_job_id = some job_id })
        media.video_sources;
}

-- UpdateVideoSourceZoomTranscript
unfoldable pub update_video_source_transcript : ℕ → Media → Media
update_video_source_transcript id media = record media {
  video_sources =
      update_where (λ vs. vs.id == id) (λ vs. record vs { has_transcript = true })
        media.video_sources;
}

abbrev pub has_job_key : String → WhisperJob → Bool
has_job_key key job = str_eq job.job_key key

-- GetTranscriptJobByKey; `job_key` is unique.
unfoldable pub get_transcript_job_by_key : String → Media → Option WhisperJob
get_transcript_job_by_key key media = find (has_job_key key) media.transcript_jobs

-- CreateTranscriptJob
unfoldable pub create_transcript_job : WhisperJob → Media → Option Media
create_transcript_job job media = elim (get_transcript_job_by_key job.job_key media) [
  | some clash ↦ none
  | none ↦ some (record media { transcript_jobs = media.transcript_jobs ++ job ∷ [] })
]

-- UNIQUE (session_id, source)
abbrev pub is_transcript_of : ℕ → String → TranscriptRow → Bool
is_transcript_of session_id source t = t.session_id == session_id && str_eq t.source source

-- CreateTranscript, and the row's identifier: that of the row that is there, if one is.
unfoldable pub create_transcript : TranscriptRow → Media → Media × ℕ
create_transcript t media = elim (find (is_transcript_of t.session_id t.source) media.transcripts) [
  | some old ↦ (
    record media {
      transcripts =
          update_where (is_transcript_of t.session_id t.source)
            (λ r. record r { is_ready = t.is_ready }) media.transcripts;
    },
    old.id,
  )
  | none ↦ (record media { transcripts = media.transcripts ++ t ∷ [] }, t.id)
]

-- GetTranscriptBySessionID, at a source that is given.
unfoldable pub get_transcript_by_session_id : ℕ → String → Media → Option TranscriptRow
get_transcript_by_session_id session_id source media =
    find (is_transcript_of session_id source) media.transcripts

-- UpdateTranscriptStatus, to ready
unfoldable pub update_transcript_to_ready : ℕ → Media → Media
update_transcript_to_ready id media = record media {
  transcripts =
      update_where (λ t. t.id == id) (λ t. record t { is_ready = true }) media.transcripts;
}

-- DeleteSegmentsByTranscriptID
unfoldable pub delete_segments_by_transcript_id : ℕ → Media → Media
delete_segments_by_transcript_id id media = record media {
  segments = select (λ s. not (s.transcript_id == id)) media.segments;
}

-- InsertTranscriptSegments
unfoldable pub insert_transcript_segments : List SegmentRow → Media → Media
insert_transcript_segments rows media = record media { segments = media.segments ++ rows }

-- ListSegmentsByTranscriptID
unfoldable pub list_segments_by_transcript_id : ℕ → Media → List SegmentRow
list_segments_by_transcript_id id media = select (λ s. s.transcript_id == id) media.segments
