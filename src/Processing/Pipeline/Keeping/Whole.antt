-- ===== src/Processing/Pipeline/Keeping/Whole.antt =====
-- What the statements keep, a whole run keeps (internal/processing/pipeline_zoom.go, pipeline_teams.go,
-- pipeline_google_meet.go).
use talkback.Prelude.{ℕ, String, Option, List}
use talkback.Processing.Job.{Job}
use talkback.Processing.Media.{Media, FileArtifact, SegmentRow}
use talkback.Processing.Pipeline.{Answer, Answers, StoreAnswers, World, M}
use talkback.Processing.Pipeline.Rules.{Safe-then, Safe-on_some}
use talkback.Processing.Pipeline.Keeping.{MediaLaws, OnMedia-Ends, Keeps}
use talkback.Processing.Pipeline.Keeping.Writes.{keeping_rules, Keeps-fail_inserting}
use talkback.Processing.Pipeline.Ingest.{
  mark_ingested, ingest_to_store, discard_file, ingest_to_disk, ingest,
}
use talkback.Processing.Pipeline.Whisper.{
  ensure_artifact, enqueue_whisper, transcribe_file, whisper_fallback,
}
use talkback.Processing.Pipeline.Save.{
  transcript_id_for, save_segments, add_video, save_transcript, index_and_finish,
}
use talkback.Processing.Pipeline.Files.{Recording}
use talkback.Processing.Pipeline.Run.{
  Reply, replied, zoom_failed, got_zoom, get_token, complete, ingest_zoom, run_zoom_job,
  download_body, ingest_teams, run_teams_job,
}
use talkback.Processing.Pipeline.Meet.{
  MeetRecording, MeetState, MeetAnswers, with_artifact, enqueue_or_join, meet_whisper_fallback,
  without_transcript, ingest_meet, fetch_meet, run_google_meet_job,
}
use talkback.Processing.Pipeline.Dispatch.{ProviderAnswers, run, run_job}
use talkback.Transcript.Normalize.{Segment}

module _ {P : Media → Type 0} (laws : MediaLaws P) (now : ℕ) (job : Job) (ans : Answers) where
  Keeps-mark_ingested : (size : ℕ) → Keeps P (mark_ingested now job ans size)
  unfolding mark_ingested
  Keeps-mark_ingested size = search keeping_rules depth 16

  Keeps-ingest_to_store :
      (filename : String) (store : StoreAnswers)
      → Keeps P (ingest_to_store now job ans filename store)
  unfolding ingest_to_store
  Keeps-ingest_to_store filename store = search (keeping_rules, Keeps-mark_ingested) depth 16

  Keeps-discard_file :
      {A : Type 0} (key code msg : String) → Keeps P (discard_file now job ans {A = A} key code msg)
  unfolding discard_file
  Keeps-discard_file key code msg = search keeping_rules depth 16

  Keeps-ingest_to_disk : (filename : String) → Keeps P (ingest_to_disk now job ans filename)
  unfolding ingest_to_disk
  Keeps-ingest_to_disk filename =
      search (keeping_rules, Keeps-mark_ingested, Keeps-discard_file) depth 16

  Keeps-ingest : (filename : String) → Keeps P (ingest now job ans filename)
  unfolding ingest
  Keeps-ingest filename =
      search (keeping_rules, Keeps-ingest_to_store, Keeps-ingest_to_disk) depth 16

  Keeps-ensure_artifact : (title : String) → Keeps P (ensure_artifact now job ans title)
  unfolding ensure_artifact
  Keeps-ensure_artifact title = search keeping_rules depth 16

  Keeps-enqueue_whisper :
      (provider source_url : String) (enqueued : Answer (Unit {0}))
      → Keeps P (enqueue_whisper now job ans provider source_url enqueued)
  unfolding enqueue_whisper
  Keeps-enqueue_whisper provider source_url enqueued = search keeping_rules depth 16

  Keeps-transcribe_file :
      (provider title : String) (enqueued : Answer (Unit {0})) (fa : FileArtifact)
      → Keeps P (transcribe_file now job ans provider title enqueued fa)
  unfolding transcribe_file
  Keeps-transcribe_file provider title enqueued fa =
      search (keeping_rules, Keeps-ensure_artifact, Keeps-enqueue_whisper) depth 16

  Keeps-whisper_fallback :
      (provider title : String) (ingested : Option ℕ)
      → Keeps P (whisper_fallback now job ans provider title ingested)
  unfolding whisper_fallback
  Keeps-whisper_fallback provider title ingested =
      search (keeping_rules, Keeps-transcribe_file) depth 16

  Keeps-transcript_id_for : (source : String) → Keeps P (transcript_id_for now job ans source)
  unfolding transcript_id_for
  Keeps-transcript_id_for source = search keeping_rules depth 16

  Keeps-save_segments :
      (transcript_id : ℕ) (rows : List SegmentRow)
      → Keeps P (save_segments now job ans transcript_id rows)
  unfolding save_segments
  Keeps-save_segments transcript_id rows = Safe-then _ _ (search keeping_rules) (
      Safe-then _ _
        (Safe-on_some ans.faults.segments_fail _ _ (search keeping_rules)
          (λ inserted. Keeps-fail_inserting laws now job _ _ _))
        (search keeping_rules))

  Keeps-add_video :
      (provider title : String) (ingested : Option ℕ)
      → Keeps P (add_video now job ans provider title ingested)
  unfolding add_video
  Keeps-add_video provider title ingested = search (keeping_rules, Keeps-ensure_artifact) depth 16

  Keeps-save_transcript :
      (provider title : String) (ingested : Option ℕ) (rows : ℕ → List SegmentRow)
      → Keeps P (save_transcript now job ans provider title ingested rows)
  unfolding save_transcript
  Keeps-save_transcript provider title ingested rows =
      search (keeping_rules, Keeps-transcript_id_for, Keeps-save_segments, Keeps-add_video) depth 16

  Keeps-index_and_finish : Keeps P (index_and_finish now job ans)
  unfolding index_and_finish
  Keeps-index_and_finish = search keeping_rules depth 16

module _ {P : Media → Type 0} (laws : MediaLaws P) (now : ℕ) (job : Job) (ans : Answers) where
  Keeps-get_token : (code : String) → Keeps P (get_token now job ans code)
  unfolding get_token
  Keeps-get_token code = search keeping_rules depth 16

  Keeps-got_zoom : {A : Type 0} (reply : Reply A) → Keeps P (got_zoom now job ans reply)
  Keeps-got_zoom (replied a) = search keeping_rules
  Keeps-got_zoom (zoom_failed e) = search keeping_rules

  Keeps-complete :
      (provider title : String) (ingested : Option ℕ) (parsed : Answer (List Segment))
      → Keeps P (complete now job ans provider title ingested parsed)
  unfolding complete
  Keeps-complete provider title ingested parsed =
      search (keeping_rules, Keeps-save_transcript, Keeps-index_and_finish) depth 16

  Keeps-ingest_zoom :
      (max_duration_seconds : ℕ) (rec : Recording)
      → Keeps P (ingest_zoom now job ans max_duration_seconds rec)
  unfolding ingest_zoom
  Keeps-ingest_zoom max_duration_seconds rec = search (keeping_rules, Keeps-ingest) depth 20

  Keeps-run_zoom_job :
      (max_duration_seconds : ℕ) (recordings : Reply Recording) (content : Reply String)
      (parse_vtt : String → Answer (List Segment))
      → Keeps P (run_zoom_job now job ans max_duration_seconds recordings content parse_vtt)
  unfolding run_zoom_job
  Keeps-run_zoom_job max_duration_seconds recordings content parse_vtt =
      search
        (
          keeping_rules, Keeps-get_token, Keeps-got_zoom, Keeps-ingest_zoom, Keeps-whisper_fallback,
          Keeps-complete,
        )
        depth 30

  Keeps-download_body : (code : String) → Keeps P (download_body now job ans code)
  unfolding download_body
  Keeps-download_body code = search keeping_rules depth 16

  Keeps-ingest_teams : Keeps P (ingest_teams now job ans)
  unfolding ingest_teams
  Keeps-ingest_teams = search (keeping_rules, Keeps-download_body, Keeps-ingest) depth 16

  Keeps-run_teams_job :
      (title : String) (url : Answer String) (vtt : String)
      (parse_vtt : String → Answer (List Segment))
      → Keeps P (run_teams_job now job ans title url vtt parse_vtt)
  unfolding run_teams_job
  Keeps-run_teams_job title url vtt parse_vtt =
      search
        (keeping_rules, Keeps-get_token, Keeps-ingest_teams, Keeps-whisper_fallback, Keeps-complete)
        depth 30

module _ {P : Media → Type 0} (laws : MediaLaws P) (now : ℕ) (job : Job) (ans : Answers)
    (meet : MeetAnswers) where
  Keeps-enqueue_or_join :
      (source_url : String) (enqueued : Answer (Unit {0}))
      → Keeps P (enqueue_or_join now job ans meet source_url enqueued)
  unfolding enqueue_or_join
  Keeps-enqueue_or_join source_url enqueued = search keeping_rules depth 16

  Keeps-with_artifact :
      (k : ℕ → M (Unit {0}))
      → ((id : ℕ) → Keeps P (k id))
      → Keeps P (with_artifact now job ans meet k)
  unfolding with_artifact
  Keeps-with_artifact k h = search (keeping_rules, h) depth 16

  Keeps-meet_whisper_fallback :
      (ingested : Option ℕ) → Keeps P (meet_whisper_fallback now job ans meet ingested)
  unfolding meet_whisper_fallback
  Keeps-meet_whisper_fallback ingested =
      search (keeping_rules, Keeps-with_artifact, Keeps-enqueue_or_join) depth 20

  Keeps-without_transcript :
      (ingested : Option ℕ) (rec : MeetRecording) (transcripts : List MeetState)
      → Keeps P (without_transcript now job ans meet ingested rec transcripts)
  unfolding without_transcript
  Keeps-without_transcript ingested rec transcripts =
      search (keeping_rules, Keeps-meet_whisper_fallback) depth 16

  Keeps-ingest_meet : Keeps P (ingest_meet now job ans meet)
  unfolding ingest_meet
  Keeps-ingest_meet = search (keeping_rules, Keeps-download_body, Keeps-ingest) depth 16

  Keeps-fetch_meet : Keeps P (fetch_meet now job ans meet)
  unfolding fetch_meet
  Keeps-fetch_meet = search keeping_rules depth 16

  Keeps-run_google_meet_job : Keeps P (run_google_meet_job now job ans meet)
  unfolding run_google_meet_job
  Keeps-run_google_meet_job =
      search
        (
          keeping_rules, Keeps-get_token, Keeps-fetch_meet, Keeps-ingest_meet,
          Keeps-without_transcript, Keeps-save_transcript, Keeps-index_and_finish,
        )
        depth 40

module _ {P : Media → Type 0} (laws : MediaLaws P) (now : ℕ) (job : Job) (ans : Answers)
    (provider : ProviderAnswers) where
  Keeps-run : Keeps P (run now job ans provider)
  unfolding run
  Keeps-run =
      search (keeping_rules, Keeps-run_zoom_job, Keeps-run_teams_job, Keeps-run_google_meet_job)
        depth 16

  -- Whatever the statements of a run keep holds after the run.
  pub run_job_induction : (w : World) → P w.media → P (run_job now job ans provider w).media
  unfolding run_job
  run_job_induction w h =
      OnMedia-Ends P (run now job ans provider w) (Keeps-run.at w (record { kept = h }))
