-- ===== src/Orchestration/Sync.antt =====
-- The table of recommendations and its audit (internal/database/orchestration_recommendations.go,
-- orchestration_recommendation_audit.go), and the replacement of the recommendations of a session
-- (internal/orchestration/evaluator.go).
pub mod Created
pub mod Replaced
pub mod Explained
use talkback.Prelude.{
  ℕ, suc, ◌+◌, String, Bool, true, false, not, ◌&&◌, Option, none, some, is_some, List, [], ◌∷◌,
  ◌++◌, map, ◌==◌, find, select, update_where, if◌then◌else◌,
}
use talkback.Orchestration.Model.{
  Status, is_new, reviewed, approved, dismissed, completed, Recommendation, Statement,
  delete_recommendations, create_recommendation, Faults, Result, failed, ok,
}

pub record StatusAudit : Type 0 where
  pub session_id : ℕ
  pub recommendation_id : ℕ
  pub actor_user_id : ℕ
  pub from_status : Status
  pub to_status : Status
  pub client_surface : Option String
  pub created_at : ℕ

pub record Store : Type 0 where
  pub recommendations : List Recommendation
  pub audit : List StatusAudit

abbrev pub is_of : ℕ → Recommendation → Bool
is_of session_id r = r.session_id == session_id

-- id = $1 AND session_id = $2
abbrev pub is_row : ℕ → ℕ → Recommendation → Bool
is_row id session_id r = (r.id == id) && is_of session_id r

-- A row as the insertion completes it, with the id that is drawn if it has none.
abbrev pub stamp_row : ℕ → ℕ → Recommendation → Recommendation
stamp_row new_id now r = record r {
  id = if r.id == 0 then new_id else r.id;
  created_at = now;
  updated_at = now;
}

-- CreateOrchestrationRecommendation of a row that is stamped; `none` is the error of a second row
-- with one id. Every recommendation that is made has a status.
unfoldable pub create_orchestration_recommendation :
    Recommendation → List Recommendation → Option (List Recommendation)
create_orchestration_recommendation r rows = elim (find (λ x. x.id == r.id) rows) [
  | some clash ↦ none
  | none ↦ some (rows ++ r ∷ [])
]

-- The rows of the audit go with the recommendation that they refer to (ON DELETE CASCADE).
unfoldable pub delete_by_session_id : ℕ → Store → Store
delete_by_session_id session_id store =
    let deleted = select (is_of session_id) store.recommendations in
    record {
      recommendations = select (λ r. not (is_of session_id r)) store.recommendations;
      audit =
          select (λ a. not (is_some (find (λ r. r.id == a.recommendation_id) deleted))) store.audit;
    }

-- The loop of the insertions, which the first error ends. `ids n` is the id drawn for the n-th.
unfoldable pub create_all :
    Faults
    → (ℕ → ℕ)
    → ℕ
    → ℕ
    → List Recommendation
    → List Recommendation
    → Result (List Recommendation) × List Recommendation
create_all faults ids now n [] rows = (ok [], rows)
create_all faults ids now n (r ∷ recs) rows =
    let row = stamp_row (ids n) now r in
    elim (if faults (create_recommendation n)
      then none
      else create_orchestration_recommendation row rows) [
        | none ↦ (failed (create_recommendation n), rows)
        | some rows' ↦
            let (result, rows'') = create_all faults ids now (suc n) recs rows' in
            (elim result [ failed s ↦ failed s | ok made ↦ ok (row ∷ made) ], rows'')
      ]

-- SyncSessionRecommendations, from what the evaluation returns. Each statement is a transaction of
-- its own. The session of each recommendation is the one that is synced.
unfoldable pub sync_session_recommendations :
    Faults
    → (ℕ → ℕ)
    → ℕ
    → ℕ
    → Result (List Recommendation)
    → Store
    → Result (List Recommendation) × Store
sync_session_recommendations faults ids now session_id (failed s) store = (failed s, store)
sync_session_recommendations faults ids now session_id (ok recs) store =
    if faults delete_recommendations
    then (failed delete_recommendations, store)
    else let cleared = delete_by_session_id session_id store in
      let (result, rows) =
        create_all faults ids now 0
          (map {A = Recommendation} (λ r. record r { session_id = session_id }) recs)
          cleared.recommendations in
      (result, record cleared { recommendations = rows })

pub data UpdateError : Type 0 where
  recommendation_not_found : UpdateError
  update_failed : UpdateError

abbrev pub is_same_status : Status → Status → Bool
is_same_status is_new is_new = true
is_same_status reviewed reviewed = true
is_same_status approved approved = true
is_same_status dismissed dismissed = true
is_same_status completed completed = true
is_same_status _ _ = false

-- UpdateOrchestrationRecommendationStatusWithAudit: one transaction, with the row locked; a failure
-- of any of its statements rolls it back.
unfoldable pub update_status_with_audit :
    Bool → ℕ → ℕ → Status → ℕ → Option String → ℕ → Store → Option UpdateError × Store
update_status_with_audit fails session_id id new_status actor surface now store =
    if fails
    then (some update_failed, store)
    else elim (find (is_row id session_id) store.recommendations) [
      | none ↦ (some recommendation_not_found, store)
      | some r ↦ if is_same_status r.status new_status then (none, store) else (
        none,
        record {
          recommendations =
              update_where (is_row id session_id)
                (λ x. record x { status = new_status; updated_at = now }) store.recommendations;
          audit =
              store.audit
              ++ record {
                session_id = session_id;
                recommendation_id = id;
                actor_user_id = actor;
                from_status = r.status;
                to_status = new_status;
                client_surface = surface;
                created_at = now;
              }
                ∷ [];
        },
      )
    ]
