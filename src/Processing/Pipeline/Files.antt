-- ===== src/Processing/Pipeline/Files.antt =====
-- The files of a Zoom recording, and which of them a run takes: SelectCanonicalMP4 and
-- FindTranscriptFileWithStatus (internal/utils/zoom_client.go).
use talkback.Prelude.{
  ℕ, String, Bool, true, not, ◌&&◌, ◌||◌, Option, none, some, List, [], ◌∷◌, str_eq, find, select,
  if◌then◌else◌,
}
use talkback.Processing.Pipeline.{Texts}

-- ZoomRecordingFile
pub record RecordingFile : Type 0 where
  pub id : String
  pub file_type : String
  pub file_extension : String
  pub download_url : String
  pub status : String
  pub recording_type : String

-- The Zoom recording of a meeting; a length that is not known is 0.
pub record Recording : Type 0 where
  pub duration_minutes : ℕ
  pub topic : String
  pub recording_files : List RecordingFile

-- TranscriptStatusReady, TranscriptStatusProcessing, TranscriptStatusNotAvailable
pub data TranscriptStatus : Type 0 where
  transcript_ready transcript_processing transcript_not_available : TranscriptStatus

-- The preferred types of a recording, in their order.
abbrev pub preference : List String
preference =
    "shared_screen_with_speaker_view" ∷ "shared_screen_with_speaker_view_cc" ∷ "speaker_view"
    ∷ "gallery_view" ∷ "shared_screen_with_gallery_view" ∷ "shared_screen" ∷ "active_speaker" ∷ []

module _ (texts : Texts) where
  abbrev pub is_mp4 : RecordingFile → Bool
  is_mp4 f = texts.equal_fold (texts.trim_space f.file_type) "MP4" && not (str_eq f.download_url "")

  abbrev pub has_type : String → RecordingFile → Bool
  has_type want f = texts.equal_fold (texts.trim_space f.recording_type) want

  -- The loop over the preferred types; without any of them, the first file.
  unfoldable pub pick : List String → List RecordingFile → Option RecordingFile
  pick [] mp4s = find (λ f. true) mp4s
  pick (want ∷ order) mp4s = elim (find (has_type want) mp4s) [
    | some f ↦ some f
    | none ↦ pick order mp4s
  ]

  -- `none` is ErrNoMP4Recording.
  unfoldable pub select_canonical_mp4 : List RecordingFile → Option RecordingFile
  unfolding pick
  select_canonical_mp4 files = pick preference (select is_mp4 files)

  abbrev pub is_vtt : RecordingFile → Bool
  is_vtt f =
      str_eq (texts.to_upper (texts.trim_space f.file_type)) "VTT"
      || (str_eq (texts.to_upper (texts.trim_space f.file_type)) "TRANSCRIPT"
          && str_eq (texts.to_upper (texts.trim_space f.file_extension)) "VTT")

  abbrev pub is_cc : RecordingFile → Bool
  is_cc f =
      str_eq (texts.to_upper (texts.trim_space f.file_type)) "CC"
      || (str_eq (texts.to_upper (texts.trim_space f.file_type)) "TRANSCRIPT"
          && (str_eq (texts.to_upper (texts.trim_space f.file_extension)) "CC"
              || str_eq (texts.to_upper (texts.trim_space f.file_extension)) ""))

  abbrev pub status_of : RecordingFile → TranscriptStatus
  status_of f =
      if str_eq (texts.to_lower (texts.trim_space f.status)) "completed"
      then transcript_ready
      else transcript_processing

  -- `firstVTT` and `firstCC`, each kept once it is set.
  unfoldable pub first_transcripts :
      Option RecordingFile
      → Option RecordingFile
      → List RecordingFile
      → Option RecordingFile × Option RecordingFile
  first_transcripts vtt cc [] = (vtt, cc)
  first_transcripts vtt cc (f ∷ files) =
      first_transcripts (elim vtt [ some g ↦ some g | none ↦ if is_vtt f then some f else none ])
        (elim cc [ some g ↦ some g | none ↦ if is_cc f then some f else none ]) files

  unfoldable pub find_transcript_file_with_status :
      List RecordingFile → Option RecordingFile × TranscriptStatus
  unfolding first_transcripts
  find_transcript_file_with_status files =
      let found = first_transcripts none none files in
      elim (found.0) [
        | some f ↦ (some f, status_of f)
        | none ↦ elim (found.1) [
          | some f ↦ (some f, status_of f)
          | none ↦ (none, transcript_not_available)
        ]
      ]
