-- ===== src/Processing/Aggregate/Worst.antt =====
-- What AggregateProcessingState promises: the worst state among the jobs.
use mathlib.Core.List.{Memᴰ}
use talkback.Prelude.{
  ℕ, ◌≤◌, List, [], ◌∷◌, Option, none, some, true, false, ◌≡◌, refl, ap, ◌∙◌, ◌<◌, ◌⊎◌, inl, inr,
  arith, Bool-cases, All, Memᴰ-All, ◌↔◌,
}
use talkback.Prelude.Int.{pos, negsuc, ltb_ℤ}
use talkback.Processing.State.{State, failed_transient, is_known, is_terminal}
use talkback.Processing.Job.{Job}
use talkback.Processing.Aggregate.{state_priority, aggregate_from, aggregate_processing_state}

abbrev pub AtMost : ℕ → Option Job → Type 0
AtMost n none = Unit {0}
AtMost n (some j) = state_priority j.state ≤ n

-- The state of one of the jobs, and none of them has a higher precedence.
pub record IsWorst (jobs : List (Option Job)) (s : State) : Type 0 where
  pub job : Job
  pub among : Memᴰ (some job) jobs
  pub is_state : s ≡ job.state
  pub worst : All (AtMost (state_priority s)) jobs

-- What the loop has found after `best`, among the jobs left.
record Found (best : State) (jobs : List (Option Job)) (s : State) : Type 0 where
  grows : state_priority best ≤ state_priority s
  bound : All (AtMost (state_priority s)) jobs
  origin : (s ≡ best) ⊎ ((job : Job) × Memᴰ (some job) jobs × (s ≡ job.state))

Found-step :
    (best : State) (j : Job) (jobs : List (Option Job)) {s t : State}
    → (state_priority best ≤ state_priority t)
    → (state_priority j.state ≤ state_priority t)
    → (t ≡ best) ⊎ (t ≡ j.state)
    → Found t jobs s
    → Found best (some j ∷ jobs) s
Found-step best j jobs {s} {t} a b o f = record {
  grows = omega arith;
  bound = (omega arith, f.bound);
  origin = elim f.origin [
    | inl e ↦ elim o [ inl k ↦ inl (e ∙ k) | inr k ↦ inr (j, Memᴰ.head refl, e ∙ k) ]
    | inr (k, m, e) ↦ inr (k, Memᴰ.tail m, e)
  ];
}

Found-skip :
    (best : State) (jobs : List (Option Job)) {s : State}
    → Found best jobs s
    → Found best (none ∷ jobs) s
Found-skip best jobs f = record {
  grows = f.grows;
  bound = (tt, f.bound);
  origin = elim f.origin [ inl e ↦ inl e | inr (k, m, e) ↦ inr (k, Memᴰ.tail m, e) ];
}

aggregate_from-Found :
    (best : State) (jobs : List (Option Job))
    → Found best jobs (aggregate_from best (pos (state_priority best)) jobs)
unfolding aggregate_from
aggregate_from-Found best [] = record { grows = omega arith; bound = tt; origin = inl refl }
aggregate_from-Found best (none ∷ jobs) = Found-skip best jobs (aggregate_from-Found best jobs)
aggregate_from-Found best (some j ∷ jobs) =
    elim (Bool-cases (ltb_ℤ (pos (state_priority best)) (pos (state_priority j.state)))) [
      | inl e ↦ rw e (
          Found-step best j jobs (ground arith) (omega arith) (inr refl)
            (aggregate_from-Found j.state jobs))
      | inr e ↦ rw e (
          Found-step best j jobs (omega arith) (ground arith) (inl refl)
            (aggregate_from-Found best jobs))
    ]

state_priority_pos : (s : State) → 0 < state_priority s
state_priority_pos failed_transient = omega arith
state_priority_pos _ = omega arith

first_wins : (s : State) → ltb_ℤ (negsuc 0) (pos (state_priority s)) ≡ true
first_wins s = ground (arith, state_priority_pos s)

IsWorst-of_Found :
    (j : Job) (jobs : List (Option Job)) {s : State}
    → Found j.state jobs s
    → IsWorst (some j ∷ jobs) s
IsWorst-of_Found j jobs f = elim f.origin [
  | inl e ↦ record { job = j; among = Memᴰ.head refl; is_state = e; worst = (f.grows, f.bound) }
  | inr (k, m, e) ↦ record {
    job = k;
    among = Memᴰ.tail m;
    is_state = e;
    worst = (f.grows, f.bound);
  }
]

IsWorst-skip : (jobs : List (Option Job)) {s : State} → IsWorst jobs s → IsWorst (none ∷ jobs) s
IsWorst-skip jobs w = record {
  job = w.job;
  among = Memᴰ.tail w.among;
  is_state = w.is_state;
  worst = (tt, w.worst);
}

-- If some entry of the list is a job (no nil pointer), the aggregate is the state of one of the
-- jobs, and no job's state has a higher precedence.
pub aggregate_processing_state-IsWorst :
    (jobs : List (Option Job)) (j : Job)
    → Memᴰ (some j) jobs
    → IsWorst jobs (aggregate_processing_state jobs)
unfolding aggregate_processing_state aggregate_from
aggregate_processing_state-IsWorst [] j m = elim m [ ]
aggregate_processing_state-IsWorst (none ∷ jobs) j (Memᴰ.head e) = cc
aggregate_processing_state-IsWorst (none ∷ jobs) j (Memᴰ.tail m) =
    IsWorst-skip jobs (aggregate_processing_state-IsWorst jobs j m)
aggregate_processing_state-IsWorst (some k ∷ jobs) j m =
    rw (first_wins k.state) (IsWorst-of_Found k jobs (aggregate_from-Found k.state jobs))

abbrev pub IsActive : State → Type 0
IsActive s = (is_known s ≡ true) × (is_terminal s ≡ false)

priority-IsActive : (s : State) → 200 ≤ state_priority s → IsActive s
priority-IsActive s h = ground arith

active-priority : (s : State) → IsActive s → 200 ≤ state_priority s
active-priority s h = ground arith

-- Rule 1: one job in a known state that is not terminal makes the aggregate such a state.
aggregate_processing_state-IsActive :
    (jobs : List (Option Job)) (j : Job)
    → Memᴰ (some j) jobs
    → IsActive j.state
    → IsActive (aggregate_processing_state jobs)
aggregate_processing_state-IsActive jobs j m a =
    let w = aggregate_processing_state-IsWorst jobs j m in
    priority-IsActive _ (omega (arith, Memᴰ-All _ w.worst m, active-priority j.state a))

abbrev pub Known : Option Job → Type 0
Known none = Unit {0}
Known (some j) = is_known j.state ≡ true

priority_injective : (s t : State) → is_known s ≡ true → state_priority s ≡ state_priority t → s ≡ t
priority_injective s t k e = ground arith

-- The aggregate depends on which jobs there are, not on their order or on nil entries: two lists
-- of jobs in known states that hold the same jobs, and at least one, have the same aggregate.
aggregate_processing_state_congr :
    (xs ys : List (Option Job)) (j : Job)
    → All Known xs
    → ((k : Job) → Memᴰ (some k) xs ↔ Memᴰ (some k) ys)
    → Memᴰ (some j) xs
    → aggregate_processing_state xs ≡ aggregate_processing_state ys
aggregate_processing_state_congr xs ys j known same m =
    let v = aggregate_processing_state-IsWorst xs j m in
    let w = aggregate_processing_state-IsWorst ys j ((same j).0 m) in
    let up = Memᴰ-All _ w.worst ((same v.job).0 v.among) in
    let down = Memᴰ-All _ v.worst ((same w.job).1 w.among) in
    priority_injective _ _ (rw v.is_state (Memᴰ-All _ known v.among))
      (omega (arith, ap state_priority v.is_state, ap state_priority w.is_state, up, down))
