-- ===== src/Orchestration/Guard/Limit.antt =====
-- The rate limit within any window of time.
use talkback.Prelude.{
  ℕ, suc, ◌+◌, ◌≤◌, ◌≡◌, Bool, true, false, ◌&&◌, List, [], ◌∷◌, ◌++◌, inl, inr, arith, ltb, leb,
  ◌==◌, length, select, if◌then◌else◌, Bool-cases,
}
use talkback.Orchestration.Guard.{new_guard, is_recent}
use talkback.Orchestration.Guard.Window.{
  Request, answers, Ordered, is_like, is_allowed, by_log, length-select_append, answers-new_guard,
}

-- The requests that got the answer `true`.
unfoldable pub allowed : List Request → List Bool → List Request
allowed [] oks = []
allowed (r ∷ rs) [] = []
allowed (r ∷ rs) (ok ∷ oks) = let rest = allowed rs oks in if ok then r ∷ rest else rest

-- The request is one of this user and session, at a time in [start, start + window).
abbrev pub is_within : ℕ → ℕ → ℕ → ℕ → Request → Bool
is_within user session start window q =
    (q.user == user) && (q.session == session) && leb start q.now && ltb q.now (start + window)

length-select_mono {ℓ} :
    {A : Type ℓ} (p q : A → Bool) (xs : List A)
    → ((x : A) → p x ≡ true → q x ≡ true)
    → length (select p xs) ≤ length (select q xs)
unfolding select
length-select_mono p q [] h = omega arith
length-select_mono p q (x ∷ xs) h = ground (arith, h x, length-select_mono p q xs h)

module _ (limit window user session start : ℕ) where
  abbrev counted : List Request → ℕ
  counted rs = length (select (is_within user session start window) rs)

  counted-is_allowed :
      (log : List Request) (r : Request)
      → is_allowed limit window log r ≡ true
      → is_within user session start window r ≡ true
      → suc (counted log) ≤ limit
  counted-is_allowed log r ok within =
      let fewer =
        length-select_mono (is_within user session start window)
          (λ q. is_like r q && is_recent window r.now q.now) log (λ q e. ground arith) in
      ground arith

  counted_one : (r : Request) → is_within user session start window r ≡ false → counted (r ∷ []) ≡ 0
  unfolding select
  counted_one r e = ground arith

  counted_one_le : (r : Request) → counted (r ∷ []) ≤ 1
  unfolding select
  counted_one_le r = ground arith

  counted-add :
      (log : List Request) (r : Request)
      → counted log ≤ limit
      → is_allowed limit window log r ≡ true
      → counted (log ++ r ∷ []) ≤ limit
  counted-add log r h ok =
      let sum = length-select_append (is_within user session start window) log (r ∷ []) in
      elim (Bool-cases (is_within user session start window r)) [
        | inl e ↦
            let room = counted-is_allowed log r ok e in let one = counted_one_le r in omega arith
        | inr e ↦ let one = counted_one r e in omega arith
      ]

  counted-by_log :
      (rs log : List Request)
      → counted log ≤ limit
      → counted log + counted (allowed rs (by_log limit window log rs)) ≤ limit
  unfolding by_log allowed select
  counted-by_log [] log h = omega arith
  counted-by_log (r ∷ rs) log h = elim (Bool-cases (is_allowed limit window log r)) [
    | inl ok ↦
        let sum = length-select_append (is_within user session start window) log (r ∷ []) in
        let rest = counted-by_log rs (log ++ r ∷ []) (counted-add log r h ok) in
        let one =
          length-select_append (is_within user session start window) (r ∷ [])
            (allowed rs (by_log limit window (log ++ r ∷ []) rs)) in
        rw ok (omega arith)
    | inr refused ↦ rw refused (counted-by_log rs log h)
  ]

-- A new guard that is asked in the order of the times allows, of one user and session, no more than
-- its limit of requests within any window of time.
pub answers-within_limit :
    (limit window max_conc user session start : ℕ) (rs : List Request)
    → Ordered 0 rs
    → length (
        select
          (is_within user session start window)
          (allowed rs (answers rs (new_guard limit window max_conc))))
      ≤ limit
unfolding select
answers-within_limit limit window max_conc user session start rs o =
    let bound = counted-by_log limit window user session start rs [] (omega arith) in
    rw (answers-new_guard limit window max_conc rs o) (omega arith)
