-- ===== src/Processing/Queue/Failed.antt =====
-- A Whisper job that fails (internal/utils/job_processor.go).
use talkback.Prelude.{ℕ, String, ◌≡◌, refl}
use talkback.Processing.Media.{WhisperJob, Media}
use talkback.Processing.Pipeline.{
  World, Answer, refused, Flow, ended, goes_on, M, write, quit, got, on_media, world_of,
}
use talkback.Processing.Pipeline.Rules.{
  Safe, Ends, Never, safe_rules, Safe-write, Safe-quit, Safe-then_Never,
}
use talkback.Processing.Queue.{QueueAnswers, get_source, process_job}

module _ (now : ℕ) (job : WhisperJob) (q : QueueAnswers) (start : World) where
  -- The tables of the processing jobs and of the sessions are as they were.
  record Unmoved (w : World) : Type 0 where
    db : w.db ≡ start.db

  Safe-media :
      {Q : World → Type 0} (f : Media → Media) → Safe Unmoved Unmoved Q (write (on_media f))
  Safe-media f = Safe-write _ (λ w h. record { db = h.db })

  Safe-out :
      {G : World → Type 0} {A : Type 0} (f : Media → Media)
      → Safe Unmoved G Unmoved {A = A} (quit (on_media f))
  Safe-out f = Safe-quit _ (λ w h. record { db = h.db })

  Safe-got_refused :
      {A : Type 0} (answer : Answer A) (error : String) (out : String → M A)
      → answer ≡ refused error
      → Safe Unmoved Never Unmoved (out error)
      → Safe Unmoved Never Unmoved (got answer out)
  unfolding got
  Safe-got_refused answer error out e k = rw e k

  Safe-get_source : Safe Unmoved Unmoved Unmoved (get_source now job q)
  unfolding get_source
  Safe-get_source = search (safe_rules, Safe-out) depth 12

  Unmoved-Ends : (flow : Flow (Unit {0})) → Ends Never Unmoved flow → Unmoved (world_of flow)
  Unmoved-Ends (ended w) h = h
  Unmoved-Ends (goes_on a w) h = absurd h

  -- If Whisper refuses a recording, the run of the queue leaves the processing jobs and the sessions as
  -- they were: a processing job that awaits this transcript goes on awaiting it.
  pub process_job_refused :
      (error : String)
      → q.transcribe ≡ refused error
      → (world_of (process_job now job q start)).db ≡ start.db
  unfolding process_job
  process_job_refused error e =
      let safe : Safe Unmoved Never Unmoved (process_job now job q) =
        search
          (safe_rules, Safe-media, Safe-out, Safe-get_source, Safe-then_Never, Safe-got_refused, e)
          depth 30 in
      (Unmoved-Ends _ (safe.at start (record { db = refl }))).db
