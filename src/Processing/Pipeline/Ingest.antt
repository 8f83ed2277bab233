-- ===== src/Processing/Pipeline/Ingest.antt =====
-- The ingestion of a recording's MP4, into the object store or onto the local disk
-- (internal/processing/pipeline_zoom.go; the other pipelines repeat it with another file name).
use talkback.Prelude.{
  ℕ, String, Bool, not, ◌&&◌, none, List, ◌∷◌, ltb, leb, str_eq, select, update_where,
}
use talkback.Processing.Job.{Job}
use talkback.Processing.Media.{
  FileArtifact, pending_file, create_file_artifact, update_file_artifact_to_ready,
  update_file_artifact_to_failed,
}
use talkback.Processing.Pipeline.{
  World, StoredFile, on_disk, StoreAnswers, Answers, M, ◌>>=◌, ◌>>◌, pure, write, quit, got,
  require, when, on_some, on_media, try_insert, fail_for_good,
}
use talkback.Processing.Pipeline.Dedupe.{set_primary_if_not_set}

abbrev pub is_at : String → StoredFile → Bool
is_at key f = str_eq f.key key

-- os.Remove
unfoldable pub remove_file : String → List StoredFile → List StoredFile
remove_file key = select (λ f. not (is_at key f))

-- os.Create: a file that is there is truncated.
unfoldable pub truncate_file : String → List StoredFile → List StoredFile
unfolding remove_file
truncate_file key disk = record { key = key; size = 0 } ∷ remove_file key disk

-- io.Copy
unfoldable pub fill_file : String → ℕ → List StoredFile → List StoredFile
fill_file key size = update_where (is_at key) (λ f. record f { size = size })

module _ (now : ℕ) (job : Job) (ans : Answers) where
  -- The new row, which waits for its file.
  abbrev pub new_file : String → String → FileArtifact
  new_file provider key = record {
    id = ans.new_ids.file_id;
    session_id = job.session_id;
    storage_provider = provider;
    storage_key = key;
    status = pending_file;
    size_bytes = none;
  }

  -- The last steps of both ways: the row is ready, and may become the session's primary video.
  unfoldable pub mark_ingested : ℕ → M ℕ
  mark_ingested size = do
    when (not ans.faults.ready_fails)
        (write (on_media (update_file_artifact_to_ready ans.new_ids.file_id size)))
    write (
        set_primary_if_not_set ans.faults.primary_fails job.session_id ans.new_ids.file_id
          job.set_as_primary)
    pure ans.new_ids.file_id

  -- An upload that failed: the row, then the job.
  abbrev pub fail_upload : String → World → World
  fail_upload msg w =
      fail_for_good now job "r2_upload" msg
        (on_media (update_file_artifact_to_failed ans.new_ids.file_id) w)

  -- With a store: the row, Put, Head, then the row is ready.
  unfoldable pub ingest_to_store : String → StoreAnswers → M ℕ
  ingest_to_store filename store = do
    try_insert ans.faults.create_file_fails
        (create_file_artifact
          (new_file "r2" (ans.texts.r2_key job.session_id ans.new_ids.file_id filename)))
        (quit (fail_for_good now job "db_error" "create file_artifact"))
    got store.put (λ e. quit (fail_upload e))
    found ← got store.head (λ e. quit (fail_upload "object missing or empty after upload"))
    require (found.0 && ltb 0 found.1) (quit (fail_upload "object missing or empty after upload"))
    mark_ingested found.1

  -- The file is removed, and the job fails for good.
  unfoldable pub discard_file : {A : Type 0} → String → String → String → M A
  discard_file key code msg = do
    write (on_disk (remove_file key))
    quit (fail_for_good now job code msg)

  -- Without one: the file, then the row. A copy that fails or a row that is refused removes the file.
  unfoldable pub ingest_to_disk : String → M ℕ
  ingest_to_disk filename = do
    let key = ans.texts.local_key job.session_id filename
    got ans.mkdir (λ e. quit (fail_for_good now job "local_mkdir" e))
    got ans.create_file (λ e. quit (fail_for_good now job "local_create" e))
    write (on_disk (truncate_file key))
    size ← got ans.copy (discard_file key "local_write")
    write (on_disk (fill_file key size))
    try_insert ans.faults.create_file_fails (create_file_artifact (new_file "local" key))
        (discard_file key "db_error" "create file_artifact")
    mark_ingested size

  unfoldable pub ingest : String → M ℕ
  ingest filename = on_some ans.store (ingest_to_disk filename) (ingest_to_store filename)

  -- Abort if the response is larger than the cap. An unknown length is 0.
  abbrev pub require_size : String → ℕ → M (Unit {0})
  require_size code content_length =
      require (leb content_length ans.max_upload_bytes)
        (quit (fail_for_good now job code "Recording file size exceeds maximum allowed."))
