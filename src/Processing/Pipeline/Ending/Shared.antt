-- ===== src/Processing/Pipeline/Ending/Shared.antt =====
-- The steps that the pipelines share: each ends a run only with the job finished, and otherwise keeps
-- its row (internal/processing/pipeline_zoom.go, and what repeats it).
use talkback.Prelude.{ℕ, String, Option, List}
use talkback.Processing.Job.{Job}
use talkback.Processing.Media.{SegmentRow, FileArtifact}
use talkback.Processing.Pipeline.{Answer, Answers, StoreAnswers}
use talkback.Processing.Pipeline.Ingest.{
  mark_ingested, ingest_to_store, discard_file, ingest_to_disk, ingest,
}
use talkback.Processing.Pipeline.Whisper.{
  ensure_artifact, enqueue_whisper, transcribe_file, whisper_fallback,
}
use talkback.Processing.Pipeline.Save.{
  transcript_id_for, save_segments, add_video, save_transcript, index_and_finish,
}
use talkback.Processing.Pipeline.Ending.{Step, Last, ending_rules}

module _ (now : ℕ) (job : Job) (ans : Answers) where
  Step-mark_ingested : (size : ℕ) → Step now job (mark_ingested now job ans size)
  unfolding mark_ingested
  Step-mark_ingested size = search ending_rules depth 16

  Step-ingest_to_store :
      (filename : String) (store : StoreAnswers)
      → Step now job (ingest_to_store now job ans filename store)
  unfolding ingest_to_store
  Step-ingest_to_store filename store = search (ending_rules, Step-mark_ingested) depth 16

  Step-discard_file :
      {A : Type 0} (key code msg : String)
      → Step now job (discard_file now job ans {A = A} key code msg)
  unfolding discard_file
  Step-discard_file key code msg = search ending_rules depth 16

  Step-ingest_to_disk : (filename : String) → Step now job (ingest_to_disk now job ans filename)
  unfolding ingest_to_disk
  Step-ingest_to_disk filename =
      search (ending_rules, Step-mark_ingested, Step-discard_file) depth 16

  pub Step-ingest : (filename : String) → Step now job (ingest now job ans filename)
  unfolding ingest
  Step-ingest filename = search (ending_rules, Step-ingest_to_store, Step-ingest_to_disk) depth 16

  Step-ensure_artifact : (title : String) → Step now job (ensure_artifact now job ans title)
  unfolding ensure_artifact
  Step-ensure_artifact title = search ending_rules depth 16

  Step-enqueue_whisper :
      (provider source_url : String) (enqueued : Answer (Unit {0}))
      → Step now job (enqueue_whisper now job ans provider source_url enqueued)
  unfolding enqueue_whisper
  Step-enqueue_whisper provider source_url enqueued = search ending_rules depth 16

  Step-transcribe_file :
      (provider title : String) (enqueued : Answer (Unit {0})) (fa : FileArtifact)
      → Step now job (transcribe_file now job ans provider title enqueued fa)
  unfolding transcribe_file
  Step-transcribe_file provider title enqueued fa =
      search (ending_rules, Step-ensure_artifact, Step-enqueue_whisper) depth 16

  pub Step-whisper_fallback :
      (provider title : String) (ingested : Option ℕ)
      → Step now job (whisper_fallback now job ans provider title ingested)
  unfolding whisper_fallback
  Step-whisper_fallback provider title ingested =
      search (ending_rules, Step-transcribe_file) depth 16

  Step-transcript_id_for : (source : String) → Step now job (transcript_id_for now job ans source)
  unfolding transcript_id_for
  Step-transcript_id_for source = search ending_rules depth 16

  Step-save_segments :
      (transcript_id : ℕ) (rows : List SegmentRow)
      → Step now job (save_segments now job ans transcript_id rows)
  unfolding save_segments
  Step-save_segments transcript_id rows = search ending_rules depth 16

  Step-add_video :
      (provider title : String) (ingested : Option ℕ)
      → Step now job (add_video now job ans provider title ingested)
  unfolding add_video
  Step-add_video provider title ingested = search (ending_rules, Step-ensure_artifact) depth 16

  pub Step-save_transcript :
      (provider title : String) (ingested : Option ℕ) (rows : ℕ → List SegmentRow)
      → Step now job (save_transcript now job ans provider title ingested rows)
  unfolding save_transcript
  Step-save_transcript provider title ingested rows =
      search (ending_rules, Step-transcript_id_for, Step-save_segments, Step-add_video) depth 16

  pub Last-index_and_finish : Last now job (index_and_finish now job ans)
  unfolding index_and_finish
  Last-index_and_finish = search ending_rules depth 16
