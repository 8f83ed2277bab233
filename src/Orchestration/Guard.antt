-- ===== src/Orchestration/Guard.antt =====
-- The guard of the generation of drafts (internal/handlers/orchestration_draft_guard.go). Its mutex
-- makes each method one step. A map is a function with what a missing key gives, and the key of the
-- rate is the pair of the user and the session. Times are in one unit; a guard is never nil here.
pub mod Limit
pub mod Slots
pub mod Window
use talkback.Prelude.{
  ℕ, ◌+◌, ◌-◌, Bool, true, false, ◌&&◌, List, [], ◌∷◌, ◌++◌, ◌==◌, ltb, leb, length, select,
  if◌then◌else◌,
}

pub record Guard : Type 0 where
  pub max_per_window : ℕ
  pub window : ℕ
  pub rate : ℕ → ℕ → List ℕ
  pub concurrent : ℕ → ℕ
  pub max_conc : ℕ

-- newOrchestrationDraftGuardFromEnv, from the two limits that it reads or defaults.
abbrev pub new_guard : ℕ → ℕ → ℕ → Guard
new_guard max_per window max_conc = record {
  max_per_window = max_per;
  window = window;
  rate = λ user session. [];
  concurrent = λ session. 0;
  max_conc = max_conc;
}

-- t.After(now.Add(-window))
abbrev pub is_recent : ℕ → ℕ → ℕ → Bool
is_recent window now t = ltb now (t + window)

-- g.rate[key] = ts
abbrev pub set_rate : ℕ → ℕ → List ℕ → Guard → Guard
set_rate user session ts g = record g {
  rate = λ u s. if (u == user) && (s == session) then ts else g.rate u s;
}

unfoldable pub allow_rate : ℕ → ℕ → ℕ → Guard → Bool × Guard
allow_rate user session now g =
    let pruned = select (is_recent g.window now) (g.rate user session) in
    if leb g.max_per_window (length pruned)
    then (false, set_rate user session pruned g)
    else (true, set_rate user session (pruned ++ now ∷ []) g)

abbrev pub set_concurrent : ℕ → ℕ → Guard → Guard
set_concurrent session n g = record g {
  concurrent = λ s. if s == session then n else g.concurrent s;
}

unfoldable pub acquire_concurrency : ℕ → Guard → Bool × Guard
acquire_concurrency session g =
    if leb g.max_conc (g.concurrent session)
    then (false, g)
    else (true, set_concurrent session (g.concurrent session + 1) g)

-- The function that acquireConcurrency returns. An entry that reaches 0 or less is deleted.
unfoldable pub release : ℕ → Guard → Guard
release session g = set_concurrent session (g.concurrent session - 1) g
