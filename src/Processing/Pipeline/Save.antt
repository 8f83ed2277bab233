-- ===== src/Processing/Pipeline/Save.antt =====
-- The last stages of a pipeline: the transcript's rows, the video, the index, and "ready"
-- (internal/processing/pipeline_zoom.go, pipeline_teams.go, pipeline_google_meet.go).
use talkback.Prelude.{
  ℕ, suc, String, Bool, true, false, not, ◌||◌, Option, none, List, [], ◌∷◌, take, if◌then◌else◌,
}
use talkback.Processing.State.{chunking, embedding, ready, chunk, embed, done}
use talkback.Processing.Job.{Job}
use talkback.Processing.Store.{update_job_state, unlock_job, update_mirror}
use talkback.Processing.Zoom.{fail_transient}
use talkback.Processing.Media.{
  TranscriptRow, SegmentRow, create_video_source, create_transcript, get_transcript_by_session_id,
  update_transcript_to_ready, delete_segments_by_transcript_id, insert_transcript_segments,
  update_video_source_transcript,
}
use talkback.Processing.Pipeline.{
  World, Answers, M, ◌>>=◌, ◌>>◌, pure, read, write, quit, got, require, on_some, choose, on_media,
  on_db, attempt_of, on_media_with, enter, fail_for_good,
}
use talkback.Processing.Pipeline.Whisper.{ensure_artifact, new_video}
use talkback.Transcript.Normalize.{Segment}

-- The rows of a transcript, numbered from `i` on.
unfoldable pub rows_from : ℕ → ℕ → ℕ → List Segment → List SegmentRow
rows_from transcript_id session_id i [] = []
rows_from transcript_id session_id i (s ∷ segs) =
    record {
      transcript_id = transcript_id;
      session_id = session_id;
      idx = i;
      start_ms = s.start_ms;
      end_ms = s.end_ms;
      text = s.text;
      speaker_label = s.speaker_label;
      source_ref = s.source_ref;
    }
    ∷ rows_from transcript_id session_id (suc i) segs

module _ (now : ℕ) (job : Job) (ans : Answers) where
  abbrev pub new_transcript : String → TranscriptRow
  new_transcript source = record {
    id = ans.new_ids.transcript_id;
    session_id = job.session_id;
    source = source;
    is_ready = false;
  }

  -- The transcript's identifier: the row is made or taken over, and if the statement fails, looked up.
  unfoldable pub transcript_id_for : String → M ℕ
  transcript_id_for source =
      choose ans.faults.create_transcript_fails
        (do
          existing ← read (λ w. get_transcript_by_session_id job.session_id source w.media)
          on_some existing (quit (fail_for_good now job "db_error" "create transcript"))
              (λ t. pure t.id))
        (on_media_with (create_transcript (new_transcript source)))

  -- The old segments are deleted and the new ones inserted.
  unfoldable pub save_segments : ℕ → List SegmentRow → M (Unit {0})
  save_segments transcript_id rows = do
    write (on_media (delete_segments_by_transcript_id transcript_id))
    on_some ans.faults.segments_fail (write (on_media (insert_transcript_segments rows)))
        (λ inserted. quit (λ w.
          fail_for_good now job "db_error" "insert transcript segment"
            (on_media (insert_transcript_segments (take inserted rows)) w)))
    write (on_media (update_transcript_to_ready transcript_id))

  -- The video that the transcript belongs to.
  unfoldable pub add_video : String → String → Option ℕ → M (Unit {0})
  add_video provider title ingested = do
    artifact_id ← ensure_artifact now job ans title
    require (not ans.faults.create_video_fails)
        (quit (fail_for_good now job "db_error" "create video source"))
    write
        (on_media (create_video_source (new_video now job ans provider artifact_id ingested true)))
    write (on_media (update_video_source_transcript ans.new_ids.video_id))

  -- The transcript, its segments, and its video.
  unfoldable pub save_transcript : String → String → Option ℕ → (ℕ → List SegmentRow) → M (Unit {0})
  save_transcript provider title ingested rows = do
    transcript_id ← transcript_id_for provider
    save_segments transcript_id (rows transcript_id)
    add_video provider title ingested

  -- A rate limit passes; any other error of the index does not.
  abbrev pub is_rate_limit : String → Bool
  is_rate_limit msg =
      ans.texts.contains (ans.texts.to_lower msg) "rate" || ans.texts.contains msg "429"

  abbrev pub fail_index : String → World → World
  fail_index msg =
      if is_rate_limit msg
      then on_db (fail_transient now job (attempt_of job) "index_error" msg)
      else fail_for_good now job "index_error" msg

  -- The job is ready, and unlocked.
  unfoldable pub finish : World → World
  finish = on_db (λ db. unlock_job job.id now (
      update_mirror job.session_id ready now
        (update_job_state job.id ready done (attempt_of job) none none none now db)))

  -- The index over the session, and the end of the run.
  unfoldable pub index_and_finish : M (Unit {0})
  index_and_finish = do
    write (enter now job chunking chunk)
    write (enter now job embedding embed)
    got ans.index (λ msg. quit (fail_index msg))
    quit finish
