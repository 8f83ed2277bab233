-- ===== src/Processing/Pipeline/Meet.antt =====
-- runGoogleMeetJob and its Whisper fallback (internal/processing/pipeline_google_meet.go), with the
-- poll for the native transcript (native_transcript_poll.go). Times of the recording are numbers of
-- seconds; one that is not known is 0.
use talkback.Prelude.{
  ℕ, suc, ◌+◌, ◌-◌, String, Bool, true, false, not, ◌&&◌, Option, none, some, List, [], ◌∷◌, str_eq,
  ltb, ◌==◌, if◌then◌else◌, find,
}
use talkback.Processing.State.{
  fetching, downloading, parsing, waiting_native_transcript, fetch, download, parse,
}
use talkback.Processing.Job.{Job}
use talkback.Processing.Store.{update_job_state, unlock_job, update_mirror}
use talkback.Processing.Backoff.{backoff_waiting}
use talkback.Processing.Media.{
  is_whisper_failed, SegmentRow, get_file_artifact_by_id, create_video_source, create_artifact,
  update_video_source_transcription_job, get_transcript_job_by_key, create_transcript_job,
}
use talkback.Processing.Pipeline.{
  World, on_insert, is_answered, Answer, Answers, M, ◌>>=◌, ◌>>◌, pure, read, write, quit, got,
  require, when, choose, on_some, on_db, on_media, attempt_of, enter, fail_for_good, wait_until,
}
use talkback.Processing.Pipeline.Dedupe.{text_or_empty, should_skip_mp4_ingest}
use talkback.Processing.Pipeline.Ingest.{ingest, require_size}
use talkback.Processing.Pipeline.Whisper.{
  first_artifact, fallback_artifact, whisper_key, whisper_source, is_usable, new_video,
  new_whisper_job, await_whisper,
}
use talkback.Processing.Pipeline.Save.{save_transcript, index_and_finish}
use talkback.Processing.Pipeline.Run.{fail_later, get_token, download_body}

-- The states of a recording and of a transcript, which the API names by texts.
pub data MeetState : Type 0 where
  file_generated still_running given_up : MeetState

-- IsRecordingReady
abbrev pub is_generated : MeetState → Bool
is_generated file_generated = true
is_generated _ = false

-- IsTerminalTranscriptState
abbrev pub is_given_up : MeetState → Bool
is_given_up given_up = true
is_given_up _ = false

-- The recording of Google Meet; "" is no file on the drive.
pub record MeetRecording : Type 0 where
  pub state : MeetState
  pub drive_file : String
  pub start_time : ℕ
  pub end_time : ℕ

-- A line of a transcript, in milliseconds from the start of the recording.
pub record Entry : Type 0 where
  pub start_ms : ℕ
  pub end_ms : ℕ
  pub text : String

-- shouldEnqueueMeetWhisperFallback: there is no transcript that may still come.
unfoldable pub should_enqueue_meet_whisper_fallback : List MeetState → Bool
should_enqueue_meet_whisper_fallback [] = true
should_enqueue_meet_whisper_fallback (t ∷ ts) =
    is_given_up t && should_enqueue_meet_whisper_fallback ts

-- nativeTranscriptPollExpired; a recording without an end never expires.
abbrev pub native_transcript_poll_expired : ℕ → ℕ → ℕ → Bool
native_transcript_poll_expired max_age recording_end now =
    if recording_end == 0 then false else ltb max_age (now - recording_end)

-- The answers of Google Meet, the settings of the poll, and the parser's rows.
pub record MeetAnswers : Type 0 where
  pub recording : Answer MeetRecording
  pub is_permanent : String → Bool
  pub recording_backoff : ℕ
  pub transcripts : Answer (List MeetState)
  pub entries : Answer (List Entry)
  pub poll_interval : ℕ
  pub poll_max_age : ℕ
  pub title : String

module _ (now : ℕ) (job : Job) (ans : Answers) (meet : MeetAnswers) where
  -- The rows of the entries that have a text, each with its place among all entries.
  unfoldable pub entry_rows : ℕ → ℕ → List Entry → List SegmentRow
  entry_rows transcript_id i [] = []
  entry_rows transcript_id i (e ∷ es) =
      let rest = entry_rows transcript_id (suc i) es in
      if str_eq (ans.texts.trim_space e.text) ""
      then rest
      else record {
        transcript_id = transcript_id;
        session_id = job.session_id;
        idx = i;
        start_ms = e.start_ms;
        end_ms = e.end_ms;
        text = e.text;
        speaker_label = none;
        source_ref = none;
      }
        ∷ rest

  -- The artifact of the session, made if it has none; here a failure only ends the fallback.
  unfoldable pub with_artifact : (ℕ → M (Unit {0})) → M (Unit {0})
  with_artifact k = do
    first ← read (first_artifact job.session_id)
    on_some first
        (when (not ans.faults.create_artifact_fails) (
          write (on_media (create_artifact ans.new_ids.artifact_id job.session_id meet.title))
          >> k ans.new_ids.artifact_id))
        k

  -- A Whisper job of that key that has not failed is waited for; otherwise there is a new one.
  unfoldable pub enqueue_or_join : String → Answer (Unit {0}) → M (Unit {0})
  enqueue_or_join source_url enqueued = do
    existing ← read (λ w.
        get_transcript_job_by_key (whisper_key ans.texts.show "google_meet" job.session_id) w.media)
    when (elim existing [ none ↦ false | some j ↦ not (is_whisper_failed j.status) ])
        (quit (await_whisper now job ans))
    on_insert ans.faults.create_whisper_fails
        (create_transcript_job (new_whisper_job now job ans "google_meet" source_url)) (pure tt)
        (do
          write (
              on_media
                (update_video_source_transcription_job ans.new_ids.video_id ans.new_ids.whisper_id))
          when (is_answered enqueued) (quit (await_whisper now job ans)))

  -- enqueueGoogleMeetWhisperFallback; where it gives false the run goes on.
  unfoldable pub meet_whisper_fallback : Option ℕ → M (Unit {0})
  meet_whisper_fallback ingested = on_some ans.job_processor (pure tt) (λ enqueued. do
    id ← read (fallback_artifact ingested job.session_id)
    on_some id (pure tt) (λ id. do
      file ← read (λ w. get_file_artifact_by_id id w.media)
      on_some file (pure tt) (λ fa. when (is_usable now job ans fa) (
          with_artifact (λ artifact_id. when (not ans.faults.create_video_fails) (do
            write (
                on_media (
                  create_video_source
                    (new_video now job ans "google_meet" artifact_id (some fa.id) false)))
            enqueue_or_join (whisper_source now job ans fa) enqueued))))))

  -- Wait for the native transcript, and look again after the interval.
  unfoldable pub poll_again : World → World
  poll_again = on_db (λ db. update_mirror job.session_id waiting_native_transcript now (
      unlock_job job.id now (
        update_job_state job.id waiting_native_transcript parse (attempt_of job)
          (some (now + meet.poll_interval)) none none now db)))

  -- No transcript is ready: the fallback, the poll, or a wait.
  unfoldable pub without_transcript : Option ℕ → MeetRecording → List MeetState → M (Unit {0})
  without_transcript ingested rec transcripts = do
    choose (should_enqueue_meet_whisper_fallback transcripts) (meet_whisper_fallback ingested) (
        choose (native_transcript_poll_expired meet.poll_max_age rec.end_time now)
          (meet_whisper_fallback ingested) (quit poll_again))
    quit (
        wait_until now job (now + backoff_waiting (attempt_of job))
          "google_meet_transcript_not_ready" "No FILE_GENERATED transcript yet.")

  unfoldable pub ingest_meet : M ℕ
  ingest_meet = do
    write (enter now job downloading download)
    body ← download_body now job ans "google_meet_drive_download"
    require_size now job ans "google_meet_file_too_large" body.content_length
    ingest now job ans "google-meet.mp4"

  -- The recording, once it is ready and has a file on the drive.
  unfoldable pub fetch_meet : M MeetRecording
  fetch_meet = do
    rec ← got meet.recording (λ e.
        choose (meet.is_permanent e) (quit (fail_for_good now job "google_meet_fetch" e))
          (quit (fail_later now job ans "google_meet_fetch" e)))
    require (is_generated rec.state) (
        quit (
          wait_until now job (now + meet.recording_backoff) "google_meet_recording_not_ready"
            "Waiting for FILE_GENERATED."))
    require (not (str_eq (ans.texts.trim_space rec.drive_file) "")) (
        quit (
          fail_for_good now job "google_meet_no_drive_file"
            "Recording is FILE_GENERATED but has no driveDestination.file"))
    pure rec

  unfoldable pub run_google_meet_job : M (Unit {0})
  run_google_meet_job = do
    let conference_record = ans.texts.trim_space (text_or_empty job.meeting_uuid)
    let recording_name = ans.texts.trim_space (text_or_empty job.instance_uuid)
    require (not (str_eq conference_record "") && not (str_eq recording_name "")) (
        quit (
          fail_for_good now job "google_meet_missing_ids"
            "missing conference_record or recording on job"))
    token ← get_token now job ans "google_meet_auth"
    write (enter now job fetching fetch)
    rec ← fetch_meet
    skip ← read (
        should_skip_mp4_ingest job.session_id "google_meet" (some conference_record)
          (some recording_name))
    ingested ← choose skip (pure none) (ingest_meet >>= λ id. pure (some id))
    write (enter now job parsing parse)
    transcripts ←
        got meet.transcripts (λ e. quit (fail_later now job ans "google_meet_transcripts_list" e))
    on_some (find is_generated transcripts) (without_transcript ingested rec transcripts)
        (λ t. pure tt)
    entries ← got meet.entries (λ e. quit (fail_later now job ans "google_meet_entries_list" e))
    save_transcript now job ans "google_meet" meet.title ingested (λ id. entry_rows id 0 entries)
    index_and_finish now job ans
