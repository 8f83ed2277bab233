-- ===== src/Orchestration/Guard/Slots.antt =====
-- The cap on the generations of drafts that run at once in a session.
use talkback.Prelude.{
  ℕ, suc, ◌+◌, ◌-◌, ◌≤◌, ◌≡◌, true, false, refl, ◌∙◌, List, [], ◌∷◌, inl, inr, arith, ◌==◌, ltb,
  leb, if◌then◌else◌, Bool-cases,
}
use talkback.Orchestration.Guard.{
  Guard, new_guard, allow_rate, set_concurrent, acquire_concurrency, release,
}

-- How often a session stands in a list.
unfoldable pub count : ℕ → List ℕ → ℕ
count s [] = 0
count s (x ∷ xs) = let rest = count s xs in if x == s then rest + 1 else rest

unfoldable pub remove : ℕ → List ℕ → List ℕ
remove s [] = []
remove s (x ∷ xs) = let rest = remove s xs in if x == s then xs else x ∷ rest

-- The steps of the requests that share a guard, in any interleaving, with the sessions of the
-- generations that run. One that ends has started, since it holds the function that releases.
pub data Step : Guard → List ℕ → Guard → List ℕ → Type 0 where
  asked :
      {g : Guard} {running : List ℕ} (user session now : ℕ)
      → Step g running (allow_rate user session now g).1 running
  started :
      {g : Guard} {running : List ℕ} (session : ℕ)
      → (acquire_concurrency session g).0 ≡ true
      → Step g running (acquire_concurrency session g).1 (session ∷ running)
  refused :
      {g : Guard} {running : List ℕ} (session : ℕ)
      → (acquire_concurrency session g).0 ≡ false
      → Step g running (acquire_concurrency session g).1 running
  ended :
      {g : Guard} {running : List ℕ} (session : ℕ)
      → 1 ≤ count session running
      → Step g running (release session g) (remove session running)

pub data Reached (max_per window max_conc : ℕ) : Guard → List ℕ → Type 0 where
  fresh : Reached max_per window max_conc (new_guard max_per window max_conc) []
  step :
      {g g' : Guard} {running running' : List ℕ}
      → Reached max_per window max_conc g running
      → Step g running g' running'
      → Reached max_per window max_conc g' running'

-- The guard counts, for each session, the generations that run, and they are within its limit.
abbrev pub Counts : Guard → List ℕ → Type 0
Counts g running = (s : ℕ) → (g.concurrent s ≡ count s running) × (count s running ≤ g.max_conc)

count-remove :
    (s x : ℕ) (xs : List ℕ)
    → 1 ≤ count x xs
    → count s (remove x xs) ≡ (if s == x then count s xs - 1 else count s xs)
unfolding count remove
count-remove s x [] h = absurd (omega arith)
count-remove s x (y ∷ ys) h = ground (arith, count-remove s x ys)

allow_rate_same :
    (user session now : ℕ) (g : Guard)
    → let g' = (allow_rate user session now g).1 in
      (g'.concurrent ≡ g.concurrent) × (g'.max_conc ≡ g.max_conc)
unfolding allow_rate
allow_rate_same user session now g = ground arith

acquire_concurrency-true :
    (session : ℕ) (g : Guard)
    → (acquire_concurrency session g).0 ≡ true
    → (suc (g.concurrent session) ≤ g.max_conc)
      × ((acquire_concurrency session g).1 ≡ set_concurrent session (g.concurrent session + 1) g)
unfolding acquire_concurrency
acquire_concurrency-true session g ok = elim (Bool-cases (leb g.max_conc (g.concurrent session))) [
  | inl full ↦ let no_slot = rw full at ok in absurd (cc)
  | inr free ↦ rw free (ground arith, refl)
]

acquire_concurrency-false :
    (session : ℕ) (g : Guard)
    → (acquire_concurrency session g).0 ≡ false
    → (acquire_concurrency session g).1 ≡ g
unfolding acquire_concurrency
acquire_concurrency-false session g e = ground arith

Step-Counts :
    {g g' : Guard} {running running' : List ℕ}
    → Step g running g' running'
    → Counts g running
    → Counts g' running' × (g'.max_conc ≡ g.max_conc)
unfolding release count
Step-Counts {g} (asked user session now) h =
    let same = allow_rate_same user session now g in rw (same.0, same.1) (h, refl)
Step-Counts {g} (started session ok) h =
    let grown = acquire_concurrency-true session g ok in
    rw grown.1 (λ s. ground (arith, h s, h session), refl)
Step-Counts {g} (refused session e) h = rw (acquire_concurrency-false session g e) (h, refl)
Step-Counts {g} {running = running} (ended session some_run) h =
    (λ s. ground (arith, h s, h session, count-remove s session running), refl)

Reached-Counts :
    {max_per window max_conc : ℕ} {g : Guard} {running : List ℕ}
    → Reached max_per window max_conc g running
    → Counts g running × (g.max_conc ≡ max_conc)
unfolding count
Reached-Counts fresh = (λ s. (refl, omega arith), refl)
Reached-Counts (step reached s) =
    let before = Reached-Counts reached in
    let after = Step-Counts s before.0 in (after.0, after.1 ∙ before.1)

-- In every state that requests with the guard reach, in any interleaving of their checks, starts
-- and ends, no session has more generations of drafts running than the limit, and another one is
-- started if and only if fewer than the limit run in its session.
pub Reached-within_limit :
    (max_per window max_conc session : ℕ) {g : Guard} {running : List ℕ}
    → Reached max_per window max_conc g running
    → (count session running ≤ max_conc)
      × ((acquire_concurrency session g).0 ≡ ltb (count session running) max_conc)
unfolding acquire_concurrency
Reached-within_limit max_per window max_conc session reached =
    let (counts, same) = Reached-Counts reached in ground (arith, counts session)
