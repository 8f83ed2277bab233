-- ===== src/Orchestration/Sync/Replaced.antt =====
-- What a replacement of the recommendations leaves of a session, and of its audit.
use talkback.Prelude.{
  ℕ, suc, ◌≡◌, Bool, true, false, not, some, is_some, List, [], ◌∷◌, refl, inl, inr, map,
  Bool-cases, ◌==◌, find, select, select-append, All, All-mono, arith, sym, length, take, ==_refl,
  ==_iff, zero,
}
use mathlib.Core.Path.{subst}
use talkback.Orchestration.Model.{Recommendation, Faults, Result, ok, delete_recommendations}
use talkback.Orchestration.Sync.{
  StatusAudit, Store, is_of, delete_by_session_id, sync_session_recommendations,
}
use talkback.Orchestration.Sync.Created.{
  Outcome, all_made, first_made, stamped, append-nil, create_all-Outcome,
}

module _ {A : Type 0} where
  select-none : (p : A → Bool) (xs : List A) → All (λ x. p x ≡ false) xs → select p xs ≡ []
  unfolding select
  select-none p [] h = refl
  select-none p (x ∷ xs) h = rw h.0 (select-none p xs h.1)

  select-all : (p : A → Bool) (xs : List A) → All (λ x. p x ≡ true) xs → select p xs ≡ xs
  unfolding select
  select-all p [] h = refl
  select-all p (x ∷ xs) h = rw (h.0, select-all p xs h.1) refl

  select-select_out :
      (p q : A → Bool) (xs : List A)
      → All (λ x. p x ≡ true → q x ≡ false) xs
      → select p (select q xs) ≡ []
  unfolding select
  select-select_out p q [] h = refl
  select-select_out p q (x ∷ xs) h =
      let this = h.0 in
      let rest = select-select_out p q xs h.1 in
      elim (Bool-cases (p x)) [
        | inl e ↦ rw (this e) rest
        | inr e ↦ elim (Bool-cases (q x)) [ inl kept ↦ rw (kept, e) rest | inr out ↦ rw out rest ]
      ]

  select-twice : (p : A → Bool) (xs : List A) → select p (select p xs) ≡ select p xs
  unfolding select
  select-twice p [] = refl
  select-twice p (x ∷ xs) = ground (arith, select-twice p xs)

  All-take : (P : A → Type 0) (n : ℕ) (xs : List A) → All P xs → All P (take n xs)
  All-take P zero xs h = tt
  All-take P (suc n) [] h = tt
  All-take P (suc n) (x ∷ xs) h = (h.0, All-take P n xs h.1)

  All-of : (P : A → Type 0) → ((a : A) → P a) → (xs : List A) → All P xs
  All-of P h [] = tt
  All-of P h (x ∷ xs) = (h x, All-of P h xs)

-- Each row of the audit is about a recommendation of its session.
abbrev pub Refers : Store → Type 0
Refers store =
    All
      (λ a.
        (r : Recommendation) × ((find (λ r. r.id == a.recommendation_id)
            (select (is_of a.session_id) store.recommendations)
          ≡ some r)))
      store.audit

audit_gone :
    (session_id : ℕ) (store : Store)
    → Refers store
    → select (λ a. a.session_id == session_id) (delete_by_session_id session_id store).audit ≡ []
unfolding delete_by_session_id
audit_gone session_id store refers =
    let refers_to : StatusAudit → ℕ → Type 0 = λ a session.
      (r : Recommendation) × (find (λ r. r.id == a.recommendation_id)
          (select (is_of session) store.recommendations)
        ≡ some r) in
    select-select_out (λ a. a.session_id == session_id)
      (λ a. not (
        is_some (
          find (λ r. r.id == a.recommendation_id)
            (select (is_of session_id) store.recommendations))))
      store.audit
      (All-mono (λ a. refers_to a a.session_id)
        (λ a.
          (a.session_id == session_id) ≡ true
          → not (
              is_some (
                find (λ r. r.id == a.recommendation_id)
                  (select (is_of session_id) store.recommendations)))
            ≡ false)
        store.audit
        (λ a h e.
          let found = subst (refers_to a) ((==_iff a.session_id session_id).0 e) h in
          rw found.1 refl)
        refers)

abbrev pub of_session : ℕ → Recommendation → Recommendation
of_session session_id r = record r { session_id = session_id }

abbrev IsIn : ℕ → Recommendation → Type 0
IsIn session_id r = is_of session_id r ≡ true

stamped-IsIn :
    (ids : ℕ → ℕ) (now session_id n : ℕ) (recs : List Recommendation)
    → All (IsIn session_id) (stamped ids now n (map (of_session session_id) recs))
unfolding stamped
stamped-IsIn ids now session_id n [] = tt
stamped-IsIn ids now session_id n (r ∷ recs) =
    (==_refl session_id, stamped-IsIn ids now session_id (suc n) recs)

Outcome-IsIn :
    (session_id n : ℕ) (whole added : List Recommendation) (result : Result (List Recommendation))
    → All (IsIn session_id) whole
    → Outcome n whole added result
    → All (IsIn session_id) added
Outcome-IsIn session_id n whole added result h (all_made e) = rw e h
Outcome-IsIn session_id n whole added result h (first_made m e taken) =
    subst (All (IsIn session_id)) (sym taken) (All-take (IsIn session_id) (length added) whole h)

cleared_of :
    (session_id : ℕ) (store : Store)
    → select (is_of session_id) (delete_by_session_id session_id store).recommendations ≡ []
unfolding delete_by_session_id
cleared_of session_id store =
    select-select_out (is_of session_id) (λ r. not (is_of session_id r)) store.recommendations
      (All-of (λ r. is_of session_id r ≡ true → not (is_of session_id r) ≡ false) (λ r h. rw h refl)
        store.recommendations)

-- Where every row of the audit is about a recommendation of its session, and the old recommendations
-- can be deleted, the rows of the session are after a replacement the evaluated ones, as their
-- insertion completed them, up to the first insertion that fails, which is the error returned if
-- there is one; those of other sessions are as before, and no row of the session's audit is left.
pub sync_session_recommendations-Replaced :
    (faults : Faults) (ids : ℕ → ℕ) (now session_id : ℕ) (recs : List Recommendation)
    (store : Store)
    → faults delete_recommendations ≡ false
    → Refers store
    → let (result, store') =
        sync_session_recommendations faults ids now session_id (ok recs) store in
      (added : List Recommendation) × (Outcome 0
          (stamped ids now 0 (map (of_session session_id) recs))
          added
          result
        × ((select (is_of session_id) store'.recommendations ≡ added)
            × ((select (λ r. not (is_of session_id r)) store'.recommendations
                  ≡ select (λ r. not (is_of session_id r)) store.recommendations)
                × (select (λ a. a.session_id == session_id) store'.audit ≡ []))))
unfolding sync_session_recommendations delete_by_session_id
sync_session_recommendations-Replaced faults ids now session_id recs store works refers =
    let cleared = delete_by_session_id session_id store in
    let whole = map (of_session session_id) recs in
    let (added, (grown, outcome)) =
      create_all-Outcome faults ids now whole 0 cleared.recommendations in
    let rows = cleared.recommendations in
    let mine =
      Outcome-IsIn session_id 0 _ added _ (stamped-IsIn ids now session_id 0 recs) outcome in
    let not_mine =
      All-mono (IsIn session_id) (λ r. not (is_of session_id r) ≡ false) added (λ r h. rw h refl)
        mine in
    rw (works, sync_session_recommendations)
      (
        added,
        (
          outcome,
          (
            rw
                (
                  grown,
                  select-append (is_of session_id) rows added,
                  select-all (is_of session_id) added mine,
                  cleared_of session_id store,
                )
                refl,
            (
              rw
                  (
                    grown,
                    select-append (λ r. not (is_of session_id r)) rows added,
                    select-none (λ r. not (is_of session_id r)) added not_mine,
                    append-nil,
                  )
                  (select-twice (λ r. not (is_of session_id r)) store.recommendations),
              audit_gone session_id store refers,
            ),
          ),
        ),
      )
