-- ===== src/Orchestration/Guard/Window.antt =====
-- The rate limit: the pruned list of times answers like a log of all allowed requests.
use talkback.Prelude.{
  ℕ, ◌+◌, ◌≤◌, ◌≡◌, Bool, true, false, ◌&&◌, refl, sym, List, [], ◌∷◌, ◌++◌, inl, inr, arith, ltb,
  leb, ◌==◌, length, length-append, select, select-append, if◌then◌else◌, Bool-cases,
}
use talkback.Orchestration.Guard.{Guard, new_guard, is_recent, set_rate, allow_rate}

pub record Request : Type 0 where
  pub user : ℕ
  pub session : ℕ
  pub now : ℕ

-- The answers to a sequence of requests.
unfoldable pub answers : List Request → Guard → List Bool
answers [] g = []
answers (r ∷ rs) g = let (ok, g') = allow_rate r.user r.session r.now g in ok ∷ answers rs g'

-- No request comes before `last`, and none before the one that it follows.
unfoldable pub Ordered : ℕ → List Request → Type 0
Ordered last [] = Unit
Ordered last (r ∷ rs) = (last ≤ r.now) × Ordered r.now rs

abbrev pub is_like : Request → Request → Bool
is_like r q = (q.user == r.user) && (q.session == r.session)

-- The limit as a rule on the log of all allowed requests, from which nothing is ever removed:
-- a request is allowed if fewer than `limit` of its user and session are within `window`.
abbrev pub is_allowed : ℕ → ℕ → List Request → Request → Bool
is_allowed limit window log r =
    ltb (length (select (λ q. is_like r q && is_recent window r.now q.now) log)) limit

unfoldable pub by_log : ℕ → ℕ → List Request → List Request → List Bool
by_log limit window log [] = []
by_log limit window log (r ∷ rs) =
    let ok = is_allowed limit window log r in
    ok ∷ by_log limit window (if ok then log ++ r ∷ [] else log) rs

module _ (p q : ℕ → Bool) where
  select-select :
      (xs : List ℕ) → ((x : ℕ) → p x ≡ true → q x ≡ true) → select p (select q xs) ≡ select p xs
  unfolding select
  select-select [] h = refl
  select-select (x ∷ xs) h = ground (arith, h x, select-select xs h)

-- The list of a key counts, at any time from `last` on, what the log counts.
abbrev Tracks : Guard → ℕ → List Request → Type 0
Tracks g last log =
    (r : Request)
    → last ≤ r.now
    → length (select (is_recent g.window r.now) (g.rate r.user r.session))
      ≡ length (select (λ q. is_like r q && is_recent g.window r.now q.now) log)

pub length-select_append {ℓ} :
    {A : Type ℓ} (p : A → Bool) (xs ys : List A)
    → length (select p (xs ++ ys)) ≡ length (select p xs) + length (select p ys)
length-select_append p xs ys = rw (select-append p xs ys, length-append)

-- Pruning forgets nothing that counts later.
select-is_recent :
    (window now later : ℕ) (ts : List ℕ)
    → now ≤ later
    → select (is_recent window later) (select (is_recent window now) ts)
      ≡ select (is_recent window later) ts
select-is_recent window now later ts le =
    select-select (is_recent window later) (is_recent window now) ts (λ t e. ground arith)

allowed_last :
    (window : ℕ) (r q : Request)
    → is_like r q ≡ true
    → length (select (λ x. is_like q x && is_recent window q.now x.now) (r ∷ []))
      ≡ length (select (is_recent window q.now) (r.now ∷ []))
unfolding select
allowed_last window r q e = ground arith

allowed_beside :
    (window : ℕ) (r q : Request)
    → is_like r q ≡ false
    → select (λ x. is_like q x && is_recent window q.now x.now) (r ∷ []) ≡ []
unfolding select
allowed_beside window r q e = ground arith

refused-Tracks :
    (g : Guard) (last : ℕ) (log : List Request) (r : Request)
    → Tracks g last log
    → last ≤ r.now
    → Tracks
        (set_rate r.user r.session (select (is_recent g.window r.now) (g.rate r.user r.session)) g)
        r.now
        log
refused-Tracks g last log r h le q later = elim (Bool-cases (is_like r q)) [
  | inl e ↦
      let user : q.user ≡ r.user = ground arith in
      let session : q.session ≡ r.session = ground arith in
      let from_log = h q (omega arith) in
      rw
        (
          e,
          select-is_recent g.window r.now q.now (g.rate r.user r.session) later,
          sym user,
          sym session,
        )
        from_log
  | inr e ↦ rw e (h q (omega arith))
]

allowed-Tracks :
    (g : Guard) (last : ℕ) (log : List Request) (r : Request)
    → Tracks g last log
    → last ≤ r.now
    → Tracks
        (set_rate r.user r.session
          (select (is_recent g.window r.now) (g.rate r.user r.session) ++ r.now ∷ [])
          g)
        r.now
        (log ++ r ∷ [])
allowed-Tracks g last log r h le q later =
    let in_log =
      length-select_append (λ x. is_like q x && is_recent g.window q.now x.now) log (r ∷ []) in
    elim (Bool-cases (is_like r q)) [
      | inl e ↦
          let old = rw e at (refused-Tracks g last log r h le q later) in
          let in_list =
            length-select_append (is_recent g.window q.now)
              (select (is_recent g.window r.now) (g.rate r.user r.session)) (r.now ∷ []) in
          rw (e, in_list, in_log, allowed_last g.window r q e, old)
      | inr e ↦ rw (e, in_log, allowed_beside g.window r q e) (omega (arith, h q (omega arith)))
    ]

allow_rate-Tracks :
    (g : Guard) (last : ℕ) (log : List Request) (r : Request)
    → Tracks g last log
    → last ≤ r.now
    → let ok = is_allowed g.max_per_window g.window log r in
      let (answer, g') = allow_rate r.user r.session r.now g in
      (answer ≡ ok)
      × ((g'.window ≡ g.window)
          × ((g'.max_per_window ≡ g.max_per_window)
              × Tracks g' r.now (if ok then log ++ r ∷ [] else log)))
unfolding allow_rate
allow_rate-Tracks g last log r h le =
    elim (Bool-cases (
      leb g.max_per_window
        (length (select (is_recent g.window r.now) (g.rate r.user r.session))))) [
          | inl full ↦
              let ok : is_allowed g.max_per_window g.window log r ≡ false =
                ground (arith, h r le) in
              rw (full, ok) (refl, (refl, (refl, refused-Tracks g last log r h le)))
          | inr free ↦
              let ok : is_allowed g.max_per_window g.window log r ≡ true = ground (arith, h r le) in
              rw (free, ok) (refl, (refl, (refl, allowed-Tracks g last log r h le)))
        ]

answers-by_log :
    (rs : List Request) (g : Guard) (last : ℕ) (log : List Request)
    → Tracks g last log
    → Ordered last rs
    → answers rs g ≡ by_log g.max_per_window g.window log rs
unfolding answers by_log Ordered
answers-by_log [] g last log h o = refl
answers-by_log (r ∷ rs) g last log h (le, o) =
    let step = allow_rate-Tracks g last log r h le in
    let rest = answers-by_log rs (allow_rate r.user r.session r.now g).1 r.now _ step.1.1.1 o in
    rw (step.0, rest, step.1.0, step.1.1.0)

-- The answers of a new guard to a sequence of requests, in the order of their times, are those of
-- the rule on the log: a request is allowed if and only if fewer than the limit of its user and
-- session were allowed within the window before it.
pub answers-new_guard :
    (max_per window max_conc : ℕ) (rs : List Request)
    → Ordered 0 rs
    → answers rs (new_guard max_per window max_conc) ≡ by_log max_per window [] rs
unfolding select
answers-new_guard max_per window max_conc rs o =
    answers-by_log rs (new_guard max_per window max_conc) 0 [] (λ r le. refl) o
