-- ===== src/Processing/Pipeline/Keeping/Writes.antt =====
-- The writes of a run, each with what it keeps of the tables of the recordings (the ends of the
-- stages in internal/processing/pipeline_zoom.go, pipeline_teams.go, pipeline_google_meet.go).
use talkback.Prelude.{ℕ, String, Bool, List, ◌≡◌, refl, arith, Bool-cases, inl, inr}
use talkback.Processing.State.{State, Stage}
use talkback.Processing.Job.{Job, Db}
use talkback.Processing.Media.{
  FileArtifact, VideoSource, WhisperJob, TranscriptRow, SegmentRow, Media, create_file_artifact,
  update_file_artifact_to_ready, create_artifact, create_video_source,
  update_video_source_transcription_job, update_video_source_transcript, create_transcript_job,
  create_transcript, update_transcript_to_ready, delete_segments_by_transcript_id,
  insert_transcript_segments,
}
use talkback.Processing.Pipeline.{
  Answers, World, StoredFile, write, quit, on_media, on_disk, on_db, enter, fail_for_good,
  wait_until,
}
use talkback.Processing.Pipeline.Rules.{Safe, Inserts, Returns, safe_rules, Safe-write, Safe-quit}
use talkback.Processing.Pipeline.Dedupe.{set_primary_if_not_set}
use talkback.Processing.Pipeline.Ingest.{fail_upload}
use talkback.Processing.Pipeline.Whisper.{await_whisper}
use talkback.Processing.Pipeline.Save.{finish, fail_index, is_rate_limit}
use talkback.Processing.Pipeline.Meet.{MeetAnswers, poll_again}
use talkback.Processing.Pipeline.Keeping.{MediaLaws, OnMedia, Keeps}

-- Writes that leave the tables of the recordings as they are.
media-enter :
    (now : ℕ) (job : Job) (state : State) (stage : Stage) (w : World)
    → (enter now job state stage w).media ≡ w.media
unfolding enter
media-enter now job state stage w = refl

media-fail_for_good :
    (now : ℕ) (job : Job) (code msg : String) (w : World)
    → (fail_for_good now job code msg w).media ≡ w.media
unfolding fail_for_good
media-fail_for_good now job code msg w = refl

media-set_primary :
    (fails : Bool) (session_id id : ℕ) (promote : Bool) (w : World)
    → (set_primary_if_not_set fails session_id id promote w).media ≡ w.media
unfolding set_primary_if_not_set
media-set_primary fails session_id id promote w = ground arith

media-wait_until :
    (now : ℕ) (job : Job) (next : ℕ) (code msg : String) (w : World)
    → (wait_until now job next code msg w).media ≡ w.media
unfolding wait_until
media-wait_until now job next code msg w = refl

module _ (now : ℕ) (job : Job) (ans : Answers) (w : World) where
  media-await_whisper : (await_whisper now job ans w).media ≡ w.media
  unfolding await_whisper
  media-await_whisper = refl

  media-poll_again : (meet : MeetAnswers) → (poll_again now job ans meet w).media ≡ w.media
  unfolding poll_again
  media-poll_again meet = refl

  media-finish : (finish now job ans w).media ≡ w.media
  unfolding finish
  media-finish = refl

  media-fail_index : (msg : String) → (fail_index now job ans msg w).media ≡ w.media
  media-fail_index msg = elim (Bool-cases (is_rate_limit now job ans msg)) [
    | inl e ↦ rw e refl
    | inr e ↦ rw e (media-fail_for_good now job "index_error" msg w)
  ]

module _ {P : Media → Type 0} where
  Keeps-write : (f : World → World) → ((w : World) → (f w).media ≡ w.media) → Keeps P (write f)
  Keeps-write f same = Safe-write f (λ w h. record { kept = rw same h.kept })

  Keeps-quit :
      {A : Type 0} (f : World → World)
      → ((w : World) → (f w).media ≡ w.media)
      → Keeps P {A = A} (quit f)
  Keeps-quit f same = Safe-quit f (λ w h. record { kept = rw same h.kept })

  pub Keeps-enter :
      (now : ℕ) (job : Job) (state : State) (stage : Stage)
      → Keeps P (write (enter now job state stage))
  Keeps-enter now job state stage = Keeps-write _ (media-enter now job state stage)

  pub Keeps-on_disk : (f : List StoredFile → List StoredFile) → Keeps P (write (on_disk f))
  Keeps-on_disk f = Keeps-write (on_disk f) (λ w. refl)

  pub Keeps-set_primary :
      (fails : Bool) (session_id id : ℕ) (promote : Bool)
      → Keeps P (write (set_primary_if_not_set fails session_id id promote))
  Keeps-set_primary fails session_id id promote =
      Keeps-write _ (media-set_primary fails session_id id promote)

  pub Keeps-statement :
      (f : Media → Media) → ((media : Media) → P media → P (f media)) → Keeps P (write (on_media f))
  Keeps-statement f keeps = Safe-write _ (λ w h. record { kept = keeps w.media h.kept })

module _ {P : Media → Type 0} {A : Type 0} where
  pub Keeps-fail :
      (now : ℕ) (job : Job) (code msg : String)
      → Keeps P {A = A} (quit (fail_for_good now job code msg))
  Keeps-fail now job code msg = Keeps-quit _ (media-fail_for_good now job code msg)

  pub Keeps-wait :
      (now : ℕ) (job : Job) (next : ℕ) (code msg : String)
      → Keeps P {A = A} (quit (wait_until now job next code msg))
  Keeps-wait now job next code msg = Keeps-quit _ (media-wait_until now job next code msg)

  pub Keeps-on_db : (f : Db → Db) → Keeps P {A = A} (quit (on_db f))
  Keeps-on_db f = Keeps-quit _ (λ w. refl)

  pub Keeps-await :
      (now : ℕ) (job : Job) (ans : Answers) → Keeps P {A = A} (quit (await_whisper now job ans))
  Keeps-await now job ans = Keeps-quit _ (media-await_whisper now job ans)

  pub Keeps-poll :
      (now : ℕ) (job : Job) (ans : Answers) (meet : MeetAnswers)
      → Keeps P {A = A} (quit (poll_again now job ans meet))
  Keeps-poll now job ans meet = Keeps-quit _ (λ w. media-poll_again now job ans w meet)

  pub Keeps-finish :
      (now : ℕ) (job : Job) (ans : Answers) → Keeps P {A = A} (quit (finish now job ans))
  Keeps-finish now job ans = Keeps-quit _ (media-finish now job ans)

  pub Keeps-index :
      (now : ℕ) (job : Job) (ans : Answers) (msg : String)
      → Keeps P {A = A} (quit (fail_index now job ans msg))
  Keeps-index now job ans msg = Keeps-quit _ (λ w. media-fail_index now job ans w msg)

module _ {P : Media → Type 0} (laws : MediaLaws P) where
  pub Keeps-file_ready :
      (id size : ℕ) → Keeps P (write (on_media (update_file_artifact_to_ready id size)))
  Keeps-file_ready id size = Keeps-statement _ (laws.file_ready id size)

  pub Keeps-artifact_created :
      (id session_id : ℕ) (title : String)
      → Keeps P (write (on_media (create_artifact id session_id title)))
  Keeps-artifact_created id session_id title =
      Keeps-statement _ (laws.artifact_created id session_id title)

  pub Keeps-video_created : (vs : VideoSource) → Keeps P (write (on_media (create_video_source vs)))
  Keeps-video_created vs = Keeps-statement _ (laws.video_created vs)

  pub Keeps-video_queued :
      (id job_id : ℕ) → Keeps P (write (on_media (update_video_source_transcription_job id job_id)))
  Keeps-video_queued id job_id = Keeps-statement _ (laws.video_queued id job_id)

  pub Keeps-video_transcribed :
      (id : ℕ) → Keeps P (write (on_media (update_video_source_transcript id)))
  Keeps-video_transcribed id = Keeps-statement _ (laws.video_transcribed id)

  pub Keeps-transcript_ready : (id : ℕ) → Keeps P (write (on_media (update_transcript_to_ready id)))
  Keeps-transcript_ready id = Keeps-statement _ (laws.transcript_ready id)

  pub Keeps-segments_deleted :
      (id : ℕ) → Keeps P (write (on_media (delete_segments_by_transcript_id id)))
  Keeps-segments_deleted id = Keeps-statement _ (laws.segments_deleted id)

  pub Keeps-segments_inserted :
      (rows : List SegmentRow) → Keeps P (write (on_media (insert_transcript_segments rows)))
  Keeps-segments_inserted rows = Keeps-statement _ (laws.segments_inserted rows)

  pub Inserts-file : (fa : FileArtifact) → Inserts (OnMedia P) (create_file_artifact fa)
  Inserts-file fa = record {
    at = λ w made e h. record { kept = laws.file_created fa w.media made e h.kept };
  }

  pub Inserts-whisper : (job : WhisperJob) → Inserts (OnMedia P) (create_transcript_job job)
  Inserts-whisper job = record {
    at = λ w made e h. record { kept = laws.whisper_created job w.media made e h.kept };
  }

  pub Returns-transcript : (t : TranscriptRow) → Returns (OnMedia P) (create_transcript t)
  Returns-transcript t = record {
    at = λ w h. record { kept = laws.transcript_created t w.media h.kept };
  }

  pub Keeps-fail_upload :
      {A : Type 0} (now : ℕ) (job : Job) (ans : Answers) (msg : String)
      → Keeps P {A = A} (quit (fail_upload now job ans msg))
  Keeps-fail_upload now job ans msg = Safe-quit _ (λ w h. record {
    kept =
        rw (media-fail_for_good now job "r2_upload" msg)
          (laws.file_failed ans.new_ids.file_id w.media h.kept);
  })

  pub Keeps-fail_inserting :
      {A : Type 0} (now : ℕ) (job : Job) (code msg : String) (rows : List SegmentRow)
      → Keeps P {A = A} (
          quit (λ w. fail_for_good now job code msg (on_media (insert_transcript_segments rows) w)))
  Keeps-fail_inserting now job code msg rows = Safe-quit _ (λ w h. record {
    kept = rw (media-fail_for_good now job code msg) (laws.segments_inserted rows w.media h.kept);
  })

pub ruleset keeping_rules = (
  safe_rules, Keeps-enter, Keeps-on_disk, Keeps-set_primary, Keeps-fail, Keeps-wait, Keeps-on_db,
  Keeps-await, Keeps-poll, Keeps-finish, Keeps-index, Keeps-file_ready, Keeps-artifact_created,
  Keeps-video_created, Keeps-video_queued, Keeps-video_transcribed, Keeps-transcript_ready,
  Keeps-segments_deleted, Keeps-segments_inserted, Inserts-file, Inserts-whisper,
  Returns-transcript, Keeps-fail_upload, Keeps-fail_inserting,
)
