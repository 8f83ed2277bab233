-- ===== src/Processing/Pipeline/Total.antt =====
-- A run of each pipeline ends, and leaves the job finished.
use talkback.Prelude.{ℕ, String, Option, some, List, ◌≡◌, refl}
use talkback.Processing.Job.{Job, Session}
use talkback.Processing.Store.{get_job_by_id, get_session}
use talkback.Processing.Pipeline.{
  Answer, Answers, World, Flow, ended, goes_on, M, attempt_of, world_of,
}
use talkback.Processing.Pipeline.Rules.{Ends, Never, Safe-Never}
use talkback.Processing.Pipeline.Finished.{Finished}
use talkback.Processing.Pipeline.Ending.{Over, Step, Last, ending_rules}
use talkback.Processing.Pipeline.Ending.Shared.{
  Step-ingest, Step-whisper_fallback, Step-save_transcript, Last-index_and_finish,
}
use talkback.Processing.Pipeline.Files.{Recording}
use talkback.Processing.Pipeline.Run.{
  Reply, replied, zoom_failed, got_zoom, get_token, complete, ingest_zoom, run_zoom_job,
  download_body, ingest_teams, run_teams_job,
}
use talkback.Processing.Pipeline.Meet.{
  MeetRecording, MeetState, MeetAnswers, with_artifact, enqueue_or_join, meet_whisper_fallback,
  without_transcript, ingest_meet, fetch_meet, run_google_meet_job,
}
use talkback.Processing.Pipeline.Dispatch.{ProviderAnswers, run, run_job}
use talkback.Transcript.Normalize.{Segment}

module _ (now : ℕ) (job : Job) (ans : Answers) where
  Step-get_token : (code : String) → Step now job (get_token now job ans code)
  unfolding get_token
  Step-get_token code = search ending_rules depth 16

  Step-got_zoom : {A : Type 0} (reply : Reply A) → Step now job (got_zoom now job ans reply)
  Step-got_zoom (replied a) = search ending_rules
  Step-got_zoom (zoom_failed e) = search ending_rules

  Last-complete :
      (provider title : String) (ingested : Option ℕ) (parsed : Answer (List Segment))
      → Last now job (complete now job ans provider title ingested parsed)
  unfolding complete
  Last-complete provider title ingested parsed =
      search (ending_rules, Step-save_transcript, Last-index_and_finish) depth 16

  Step-ingest_zoom :
      (max_duration_seconds : ℕ) (rec : Recording)
      → Step now job (ingest_zoom now job ans max_duration_seconds rec)
  unfolding ingest_zoom
  Step-ingest_zoom max_duration_seconds rec = search (ending_rules, Step-ingest) depth 20

  Last-run_zoom_job :
      (max_duration_seconds : ℕ) (recordings : Reply Recording) (content : Reply String)
      (parse_vtt : String → Answer (List Segment))
      → Last now job (run_zoom_job now job ans max_duration_seconds recordings content parse_vtt)
  unfolding run_zoom_job
  Last-run_zoom_job max_duration_seconds recordings content parse_vtt =
      search
        (
          ending_rules, Step-get_token, Step-got_zoom, Step-ingest_zoom, Step-whisper_fallback,
          Last-complete,
        )
        depth 30

  Step-download_body : (code : String) → Step now job (download_body now job ans code)
  unfolding download_body
  Step-download_body code = search ending_rules depth 16

  Step-ingest_teams : Step now job (ingest_teams now job ans)
  unfolding ingest_teams
  Step-ingest_teams = search (ending_rules, Step-download_body, Step-ingest) depth 16

  Last-run_teams_job :
      (title : String) (url : Answer String) (vtt : String)
      (parse_vtt : String → Answer (List Segment))
      → Last now job (run_teams_job now job ans title url vtt parse_vtt)
  unfolding run_teams_job
  Last-run_teams_job title url vtt parse_vtt =
      search (ending_rules, Step-get_token, Step-ingest_teams, Step-whisper_fallback, Last-complete)
        depth 30

module _ (now : ℕ) (job : Job) (ans : Answers) (meet : MeetAnswers) where
  Step-enqueue_or_join :
      (source_url : String) (enqueued : Answer (Unit {0}))
      → Step now job (enqueue_or_join now job ans meet source_url enqueued)
  unfolding enqueue_or_join
  Step-enqueue_or_join source_url enqueued = search ending_rules depth 16

  Step-with_artifact :
      (k : ℕ → M (Unit {0}))
      → ((id : ℕ) → Step now job (k id))
      → Step now job (with_artifact now job ans meet k)
  unfolding with_artifact
  Step-with_artifact k h = search (ending_rules, h) depth 16

  Step-meet_whisper_fallback :
      (ingested : Option ℕ) → Step now job (meet_whisper_fallback now job ans meet ingested)
  unfolding meet_whisper_fallback
  Step-meet_whisper_fallback ingested =
      search (ending_rules, Step-with_artifact, Step-enqueue_or_join) depth 20

  Last-without_transcript :
      (ingested : Option ℕ) (rec : MeetRecording) (transcripts : List MeetState)
      → Last now job (without_transcript now job ans meet ingested rec transcripts)
  unfolding without_transcript
  Last-without_transcript ingested rec transcripts =
      search (ending_rules, Step-meet_whisper_fallback) depth 16

  Step-without_transcript :
      (ingested : Option ℕ) (rec : MeetRecording) (transcripts : List MeetState)
      → Step now job (without_transcript now job ans meet ingested rec transcripts)
  Step-without_transcript ingested rec transcripts =
      Safe-Never (without_transcript now job ans meet ingested rec transcripts)
        (Last-without_transcript ingested rec transcripts)

  Step-ingest_meet : Step now job (ingest_meet now job ans meet)
  unfolding ingest_meet
  Step-ingest_meet = search (ending_rules, Step-download_body, Step-ingest) depth 16

  Step-fetch_meet : Step now job (fetch_meet now job ans meet)
  unfolding fetch_meet
  Step-fetch_meet = search ending_rules depth 16

  Last-run_google_meet_job : Last now job (run_google_meet_job now job ans meet)
  unfolding run_google_meet_job
  Last-run_google_meet_job =
      search
        (
          ending_rules, Step-get_token, Step-fetch_meet, Step-ingest_meet, Step-without_transcript,
          Step-save_transcript, Last-index_and_finish,
        )
        depth 40

module _ (now : ℕ) (job : Job) (ans : Answers) (provider : ProviderAnswers) where
  Last-run : Last now job (run now job ans provider)
  unfolding run
  Last-run =
      search (ending_rules, Last-run_zoom_job, Last-run_teams_job, Last-run_google_meet_job) depth
        16

  abbrev pub Ended : {A : Type 0} → Flow A → Type 0
  Ended flow = (w : World) × (flow ≡ ended w)

  Ended-Ends :
      (flow : Flow (Unit {0}))
      → Ends Never (Over job) flow
      → Ended flow × Finished job (attempt_of job) (world_of flow).db
  Ended-Ends (ended w) h = ((w, refl), h)
  Ended-Ends (goes_on a w) h = absurd h

  -- Whatever the outside answers, and whichever of the modelled failures of statements occur, a run
  -- comes to its end by a return of the pipeline. If the rows of the job and of its session are there at the start, it
  -- leaves the job's row without a lock, with one more attempt counted than the job had when it was
  -- claimed, and at rest: ready, failed for good, awaiting Whisper, or with a time at which it is
  -- tried again. Up to five attempts the session's mirror then has the state of the row.
  pub run_job-Finished :
      (w : World) (row : Job) (session : Session)
      → get_job_by_id job.id w.db ≡ some row
      → get_session job.session_id w.db ≡ some session
      → Ended (run now job ans provider w)
        × Finished job (attempt_of job) (run_job now job ans provider w).db
  unfolding run_job
  run_job-Finished w row session h k =
      Ended-Ends (run now job ans provider w)
        (Last-run.at w (record { row = row; found = h; session = session; session_found = k }))
