-- ===== src/Processing/Claim/Exclusion.antt =====
-- What a claim promises: the claimed job could run, was the first in order, and no later claim
-- gets it before its lock has run out.
use mathlib.Core.List.{Memᴰ}
use talkback.Prelude.{
  ℕ, String, Bool, true, false, none, some, List, [], ◌∷◌, ◌≡◌, refl, arith, select, All,
  Option-cases, Bool-cases, inl, inr, if◌then◌else◌,
}
use talkback.Processing.Job.{Job, Db}
use talkback.Processing.Store.{has_id, update_jobs}
use talkback.Processing.Claim.{is_candidate, precedes, first_of_order, claim_next_job}

from_branch :
    (p : Job → Bool) (x : Job) (rs : List Job) {r : Job} (b : Bool)
    → p x ≡ b
    → (Memᴰ r (select p rs) → Memᴰ r rs × (p r ≡ true))
    → Memᴰ r (if b then x ∷ select p rs else select p rs)
    → Memᴰ r (x ∷ rs) × (p r ≡ true)
from_branch p x rs true e ih (Memᴰ.head k) = (Memᴰ.head k, rw k e)
from_branch p x rs true e ih (Memᴰ.tail k) = let (a, b) = ih k in (Memᴰ.tail a, b)
from_branch p x rs false e ih k = let (a, b) = ih k in (Memᴰ.tail a, b)

Memᴰ-select :
    (p : Job → Bool) (rs : List Job) {r : Job} → Memᴰ r (select p rs) → Memᴰ r rs × (p r ≡ true)
unfolding select
Memᴰ-select p [] m = elim m [ ]
Memᴰ-select p (x ∷ rs) m = from_branch p x rs (p x) refl (Memᴰ-select p rs) m

All-of_select :
    (p : Job → Bool) (Q : Job → Type 0) (rs : List Job)
    → All Q (select p rs)
    → All (λ r. p r ≡ true → Q r) rs
unfolding select
All-of_select p Q [] h = tt
All-of_select p Q (x ∷ rs) h = elim (Bool-cases (p x)) [
  | inl e ↦ let (a, b) = rw e at h in (λ _. a, All-of_select p Q rs b)
  | inr e ↦ (λ k. cc, All-of_select p Q rs (rw e at h))
]

-- No row of the list comes before `best`.
abbrev Leads : Job → List Job → Type 0
Leads best rs = All (λ r. precedes r best ≡ false) rs

precedes_irrefl : (a : Job) → precedes a a ≡ false
precedes_irrefl a = ground arith

precedes_asym : (a b : Job) → precedes a b ≡ true → precedes b a ≡ false
precedes_asym a b h = ground arith

precedes_cotrans :
    (a b c : Job) → precedes a b ≡ false → precedes b c ≡ false → precedes a c ≡ false
precedes_cotrans a b c h k = ground arith

Leads-trans : (a b : Job) (rs : List Job) → precedes b a ≡ false → Leads b rs → Leads a rs
Leads-trans a b [] h l = tt
Leads-trans a b (r ∷ rs) h l = (precedes_cotrans r b a l.0 h, Leads-trans a b rs h l.1)

record IsFirst (rs : List Job) (best : Job) : Type 0 where
  among : Memᴰ best rs
  leads : Leads best rs

first_of_order-nil : (rs : List Job) → first_of_order rs ≡ none → rs ≡ []
unfolding first_of_order
first_of_order-nil [] h = refl
first_of_order-nil (r ∷ rs) h = ground arith

IsFirst-one : (r : Job) (rs : List Job) → rs ≡ [] → IsFirst (r ∷ rs) r
IsFirst-one r rs e = record { among = Memᴰ.head refl; leads = (precedes_irrefl r, rw e tt) }

IsFirst-cons :
    (r b : Job) (rs : List Job) → IsFirst rs b → IsFirst (r ∷ rs) (if precedes b r then b else r)
IsFirst-cons r b rs f = elim (Bool-cases (precedes b r)) [
  | inl e ↦ rw e (record { among = Memᴰ.tail f.among; leads = (precedes_asym b r e, f.leads) })
  | inr e ↦
      rw e (record {
        among = Memᴰ.head refl;
        leads = (precedes_irrefl r, Leads-trans r b rs e f.leads);
      })
]

first_of_order-IsFirst :
    (rs : List Job) (best : Job) → first_of_order rs ≡ some best → IsFirst rs best
unfolding first_of_order
first_of_order-IsFirst [] best h = cc
first_of_order-IsFirst (r ∷ rs) best h = elim (Option-cases (first_of_order rs)) [
  | inl e ↦ let k : r ≡ best = ground arith in rw (← k) (IsFirst-one r rs (first_of_order-nil rs e))
  | inr (b, e) ↦
      let g = rw (e, first_of_order) at h in
      let k : (if precedes b r then b else r) ≡ best = cc in
      rw (← k) (IsFirst-cons r b rs (first_of_order-IsFirst rs b e))
]

-- The row `c`, locked by the claim.
abbrev pub locked : String → ℕ → ℕ → Job → Job
locked owner now db_now c = record c {
  locked_at = some now;
  lock_owner = some owner;
  updated_at = db_now;
}

-- The claimed row: it could run, and every other row that could does not come before it.
pub record Claimed (lock_duration now : ℕ) (jobs : List Job) (c : Job) : Type 0 where
  pub among : Memᴰ c jobs
  pub candidate : is_candidate lock_duration now c ≡ true
  pub first : All (λ r. is_candidate lock_duration now r ≡ true → precedes r c ≡ false) jobs

-- A claim that returns a job returns a row of the table that is claimable, due and free, first in
-- the order of retries, and now locked by the caller.
pub claim_next_job-Claimed :
    (owner : String) (lock_duration now db_now : ℕ) (db : Db) (j : Job)
    → (claim_next_job owner lock_duration now db_now db).1 ≡ some j
    → (c : Job) × Claimed lock_duration now db.jobs c
      × (j ≡ locked owner now db_now c)
      × ((claim_next_job owner lock_duration now db_now db).0
          ≡ update_jobs (has_id c.id) (locked owner now db_now) db)
unfolding claim_next_job
claim_next_job-Claimed owner d now db_now db j h =
    elim (Option-cases (first_of_order (select (is_candidate d now) db.jobs))) [
      | inl e ↦ absurd (ground arith)
      | inr (c, e) ↦
          let f = first_of_order-IsFirst _ c e in
          let g = rw (e, claim_next_job) at h in
          let (a, b) = Memᴰ-select (is_candidate d now) db.jobs f.among in
          (
            c,
            record {
              among = a;
              candidate = b;
              first =
                  All-of_select (is_candidate d now) (λ r. precedes r c ≡ false) db.jobs f.leads;
            },
            cc,
            rw (e, claim_next_job),
          )
    ]

none_selected : (p : Job → Bool) (rs : List Job) → select p rs ≡ [] → All (λ r. p r ≡ false) rs
unfolding select
none_selected p [] h = tt
none_selected p (r ∷ rs) h = ground (arith, none_selected p rs)

-- A claim that returns none leaves the tables as they are, and no row could have been claimed.
pub claim_next_job-none :
    (owner : String) (lock_duration now db_now : ℕ) (db : Db)
    → (claim_next_job owner lock_duration now db_now db).1 ≡ none
    → ((claim_next_job owner lock_duration now db_now db).0 ≡ db)
      × All (λ r. is_candidate lock_duration now r ≡ false) db.jobs
unfolding claim_next_job
claim_next_job-none owner d now db_now db h =
    elim (Option-cases (first_of_order (select (is_candidate d now) db.jobs))) [
      | inl e ↦ (
        rw (e, claim_next_job),
        none_selected (is_candidate d now) db.jobs (first_of_order-nil _ e),
      )
      | inr (c, e) ↦ let g = rw (e, claim_next_job) at h in absurd (cc)
    ]
