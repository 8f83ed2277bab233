-- ===== src/Orchestration/Sync/Created.antt =====
-- The insertions of recommendations, up to one that fails.
use talkback.Prelude.{
  ℕ, suc, ◌+◌, ◌≡◌, none, some, List, [], ◌∷◌, ◌++◌, refl, ◌∙◌, ap, inl, inr, Bool-cases,
  Option-cases, ◌==◌, find, if◌then◌else◌, arith, sym, length, take,
}
use talkback.Orchestration.Model.{Recommendation, Faults, Result, failed, ok, create_recommendation}
use talkback.Orchestration.Sync.{stamp_row, create_orchestration_recommendation, create_all}

-- The recommendations as the insertions complete them.
unfoldable pub stamped : (ℕ → ℕ) → ℕ → ℕ → List Recommendation → List Recommendation
stamped ids now n [] = []
stamped ids now n (r ∷ recs) = stamp_row (ids n) now r ∷ stamped ids now (suc n) recs

-- All insertions are made, or the first ones up to one that fails.
pub data Outcome (n : ℕ) (whole added : List Recommendation)
    : Result (List Recommendation) → Type 0 where
  all_made : added ≡ whole → Outcome n whole added (ok whole)
  first_made :
      (m : ℕ)
      → m ≡ n + length added
      → added ≡ take (length added) whole
      → Outcome n whole added (failed (create_recommendation m))

Outcome-next :
    (n : ℕ) (row : Recommendation) (whole added : List Recommendation)
    (result : Result (List Recommendation))
    → Outcome (suc n) whole added result
    → Outcome n
        (row ∷ whole)
        (row ∷ added)
        (elim result [ failed s ↦ failed s | ok made ↦ ok (row ∷ made) ])
Outcome-next n row whole added result (all_made e) = all_made (ap (λ rs. row ∷ rs) e)
Outcome-next n row whole added result (first_made m e h) =
    first_made m (omega arith) (ap (λ rs. row ∷ rs) h)

append-one :
    (xs : List Recommendation) (x : Recommendation) (ys : List Recommendation)
    → xs ++ x ∷ [] ++ ys ≡ xs ++ (x ∷ ys)
append-one [] x ys = refl
append-one (z ∷ xs) x ys = rw (append-one xs x ys)

pub append-nil : (rows : List Recommendation) → rows ++ [] ≡ rows
append-nil [] = refl
append-nil (r ∷ rows) = rw (append-nil rows)

module _ (faults : Faults) (ids : ℕ → ℕ) (now : ℕ) where
  create-some :
      (n : ℕ) (r : Recommendation) (rows rows' : List Recommendation)
      → (if faults (create_recommendation n)
          then none
          else create_orchestration_recommendation r rows)
        ≡ some rows'
      → rows' ≡ rows ++ r ∷ []
  unfolding create_orchestration_recommendation
  create-some n r rows rows' h = elim (Bool-cases (faults (create_recommendation n))) [
    | inl fails ↦ let h' = rw fails at h in absurd (cc)
    | inr works ↦ elim (Option-cases (find (λ x. x.id == r.id) rows)) [
      | inr (clash, e) ↦
          let h' = rw (works, e, create_orchestration_recommendation) at h in absurd (cc)
      | inl e ↦ let h' = rw (works, e, create_orchestration_recommendation) at h in cc
    ]
  ]

  pub create_all-Outcome :
      (recs : List Recommendation) (n : ℕ) (rows : List Recommendation)
      → (added : List Recommendation) × (((create_all faults ids now n recs rows).1 ≡ rows ++ added)
          × Outcome n (stamped ids now n recs) added (create_all faults ids now n recs rows).0)
  unfolding create_all stamped
  create_all-Outcome [] n rows = ([], (sym (append-nil rows), all_made refl))
  create_all-Outcome (r ∷ recs) n rows =
      elim (Option-cases (
        if faults (create_recommendation n)
        then none
        else create_orchestration_recommendation (stamp_row (ids n) now r) rows)) [
          | inl e ↦ (
            [],
            (
              rw (e, create_all) (sym (append-nil rows)),
              rw (e, create_all) (first_made n (omega arith) refl),
            ),
          )
          | inr (rows', e) ↦
              let (added, (grown, outcome)) = create_all-Outcome recs (suc n) rows' in
              (
                stamp_row (ids n) now r ∷ added,
                (
                  rw (e, create_all)
                      (grown
                        ∙ (ap (λ z. z ++ added)
                              (create-some n (stamp_row (ids n) now r) rows rows' e)
                            ∙ append-one rows (stamp_row (ids n) now r) added)),
                  rw (e, create_all)
                      (Outcome-next n (stamp_row (ids n) now r) (stamped ids now (suc n) recs) added
                        _ outcome),
                ),
              )
        ]
