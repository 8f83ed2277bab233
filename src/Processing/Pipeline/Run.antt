-- ===== src/Processing/Pipeline/Run.antt =====
-- runZoomJob and runTeamsJob, whole (internal/processing/pipeline_zoom.go, pipeline_teams.go).
use talkback.Prelude.{
  ℕ, ◌+◌, ◌*◌, String, Bool, true, false, not, ◌&&◌, Option, none, some, List, str_eq, ltb, leb,
  if◌then◌else◌,
}
use talkback.Processing.State.{fetching, downloading, parsing, fetch, download, parse}
use talkback.Processing.Job.{Job}
use talkback.Processing.Backoff.{backoff_waiting}
use talkback.Processing.Zoom.{Error, handle_zoom_error, fail_transient, meeting_uuid_for_job}
use talkback.Processing.Pipeline.{
  World, Answer, Body, Answers, M, ◌>>=◌, ◌>>◌, pure, read, write, quit, got, require, when, choose,
  on_some, on_db, attempt_of, enter, fail_for_good, wait_until,
}
use talkback.Processing.Pipeline.Dedupe.{text_or_empty, should_skip_mp4_ingest}
use talkback.Processing.Pipeline.Ingest.{ingest, require_size}
use talkback.Processing.Pipeline.Whisper.{whisper_fallback}
use talkback.Processing.Pipeline.Save.{rows_from, save_transcript, index_and_finish}
use talkback.Processing.Pipeline.Files.{
  RecordingFile, Recording, TranscriptStatus, transcript_processing, select_canonical_mp4,
  find_transcript_file_with_status,
}
use talkback.Transcript.Normalize.{Segment}

-- A reply of the Zoom API.
pub data Reply (A : Type 0) : Type 0 where
  zoom_failed : Error → Reply A
  replied : A → Reply A

module _ (now : ℕ) (job : Job) (ans : Answers) where
  -- A transient failure, and the mirror.
  abbrev pub fail_later : String → String → World → World
  fail_later code msg = on_db (fail_transient now job (attempt_of job) code msg)

  -- The creator's token, or the end of the run.
  unfoldable pub get_token : String → M String
  get_token code =
      on_some ans.token (quit (fail_for_good now job code "creator_identity required")) (λ resolve.
        choose (str_eq (text_or_empty job.creator_identity) "")
          (quit (fail_for_good now job code "creator_identity required"))
          (got (resolve (text_or_empty job.creator_identity))
            (λ e. quit (fail_for_good now job code e))))

  -- Parsed segments become the transcript; then the session is indexed.
  unfoldable pub complete : String → String → Option ℕ → Answer (List Segment) → M (Unit {0})
  complete provider title ingested parsed = do
    segments ← got parsed (λ e. quit (fail_for_good now job "vtt_parse_error" e))
    save_transcript now job ans provider title ingested
        (λ id. rows_from id job.session_id 0 segments)
    index_and_finish now job ans

  abbrev pub got_zoom : {A : Type 0} → Reply A → M A
  got_zoom (replied a) = pure a
  got_zoom (zoom_failed e) = quit (on_db (handle_zoom_error now job (attempt_of job) e))

  -- The MP4 of a Zoom recording: its length, the file, the download, the size.
  unfoldable pub ingest_zoom : ℕ → Recording → M ℕ
  ingest_zoom max_duration_seconds rec = do
    require (leb (rec.duration_minutes * 60) max_duration_seconds)
        (quit (fail_for_good now job "zoom_duration_limit" "Demo limit: recording is too long."))
    on_some (select_canonical_mp4 ans.texts rec.recording_files)
        (quit (fail_for_good now job "no_mp4" "No MP4 recording found for this meeting recording."))
        (λ f. pure tt)
    body ← got ans.download (λ e. quit (fail_later "zoom_mp4_download" e))
    require_size now job ans "zoom_file_too_large" body.content_length
    ingest now job ans "zoom.mp4"

  -- rec.Topic, or a title for it.
  abbrev pub zoom_title : Recording → String
  zoom_title rec = if str_eq rec.topic "" then "Zoom Recording" else rec.topic

  abbrev pub is_missing : Option RecordingFile × TranscriptStatus → Bool
  is_missing (none, status) = true
  is_missing (some f, transcript_processing) = true
  is_missing (some f, _) = false

  abbrev pub waiting_message : TranscriptStatus → String
  waiting_message transcript_processing = "transcript still processing"
  waiting_message _ = "no transcript file available"

  unfoldable pub run_zoom_job :
      ℕ → Reply Recording → Reply String → (String → Answer (List Segment)) → M (Unit {0})
  run_zoom_job max_duration_seconds recordings content parse_vtt = do
    require (not (str_eq (meeting_uuid_for_job job) ""))
        (quit (fail_for_good now job "zoom_missing_meeting" "missing meeting_uuid"))
    token ← get_token "zoom_auth"
    write (enter now job fetching fetch)
    rec ← got_zoom recordings
    skip ← read (should_skip_mp4_ingest job.session_id "zoom" job.meeting_uuid job.instance_uuid)
    ingested ←
        choose skip (pure none) (ingest_zoom max_duration_seconds rec >>= λ id. pure (some id))
    let found = find_transcript_file_with_status ans.texts rec.recording_files
    when (is_missing found) (
        whisper_fallback now job ans "zoom" (zoom_title rec) ingested
        >> quit (
            wait_until now job (now + backoff_waiting (attempt_of job)) "transcript_not_ready"
              (waiting_message found.1)))
    write (enter now job downloading download)
    text ← got_zoom content
    write (enter now job parsing parse)
    complete "zoom" (zoom_title rec) ingested (parse_vtt text)

  -- The download of a recording's file over HTTP, with the code of its failures.
  unfoldable pub download_body : String → M Body
  download_body code = do
    body ← got ans.download (λ e. quit (fail_later code e))
    require (leb 200 body.status_code && ltb body.status_code 300)
        (quit (fail_later code "HTTP error"))
    pure body

  unfoldable pub ingest_teams : M ℕ
  ingest_teams = do
    body ← download_body "teams_mp4_download"
    require_size now job ans "teams_file_too_large" body.content_length
    ingest now job ans "teams.mp4"

  -- `url` is the recording's download address, `vtt` its transcript, "" if there is none or its
  -- fetch failed, and `title` that of the session.
  unfoldable pub run_teams_job :
      String → Answer String → String → (String → Answer (List Segment)) → M (Unit {0})
  run_teams_job title url vtt parse_vtt = do
    let meeting_id = ans.texts.trim_space (text_or_empty job.meeting_uuid)
    let recording_id = ans.texts.trim_space (text_or_empty job.instance_uuid)
    require (not (str_eq meeting_id "") && not (str_eq recording_id "")) (
        quit
          (fail_for_good now job "teams_missing_ids" "missing meeting_id or recording_id on job"))
    token ← get_token "teams_auth"
    write (enter now job fetching fetch)
    address ← got url (λ e. quit (fail_later "teams_fetch_recording" e))
    require (not (str_eq (ans.texts.trim_space address) ""))
        (quit (fail_for_good now job "teams_no_download_url" "Recording has no download URL yet."))
    skip ←
        read (should_skip_mp4_ingest job.session_id "teams" (some meeting_id) (some recording_id))
    ingested ← choose skip (pure none) (ingest_teams >>= λ id. pure (some id))
    write (enter now job downloading download)
    when (str_eq (ans.texts.trim_space vtt) "") (
        whisper_fallback now job ans "teams" title ingested
        >> quit (
            wait_until now job (now + backoff_waiting (attempt_of job))
              "teams_transcript_unavailable" "No Teams transcript available yet."))
    write (enter now job parsing parse)
    complete "teams" title ingested (parse_vtt (ans.texts.trim_space vtt))
