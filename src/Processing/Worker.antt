-- ===== src/Processing/Worker.antt =====
-- The worker (internal/processing/worker.go): at each tick it claims the next job and runs it.
pub mod Tick
use talkback.Prelude.{ℕ, String, Option, none, some}
use talkback.Processing.Job.{Job}
use talkback.Processing.Store.{unlock_job}
use talkback.Processing.Claim.{claim_next_job}
use talkback.Processing.Pipeline.{World, Answers, on_db}
use talkback.Processing.Pipeline.Dispatch.{ProviderAnswers, run_job}

-- runOne; the deferred statement unlocks the row whatever the run did.
unfoldable pub run_one : ℕ → Job → Answers → ProviderAnswers → World → World
run_one now job ans provider w = on_db (unlock_job job.id now) (run_job now job ans provider w)

-- A tick of the loop of RunWorker. The outside answers a run by its job; `now` is the time of the
-- claim, `run_now` that of the run.
unfoldable pub tick : ℕ → ℕ → ℕ → (Job → Answers) → (Job → ProviderAnswers) → World → World
tick lock_duration now run_now ans provider w =
    let claimed = claim_next_job "worker" lock_duration now now w.db in
    elim (claimed.1) [
      | none ↦ w
      | some job ↦ run_one run_now job (ans job) (provider job) (record w { db = claimed.0 })
    ]
