-- ===== src/Orchestration/Sync/Explained.antt =====
-- The audit explains the status of each recommendation.
use talkback.Prelude.{
  ℕ, ◌≡◌, String, Bool, ◌&&◌, Option, List, [], ◌∷◌, ◌++◌, refl, inl, inr, Bool-cases, Option-cases,
  ◌==◌, find, All-update_where, All, if◌then◌else◌, arith, sym,
}
use talkback.Orchestration.Model.{Status, is_new, Recommendation}
use talkback.Orchestration.Sync.{
  StatusAudit, Store, is_row, is_same_status, update_status_with_audit,
}

-- The rows of the audit about one recommendation.
abbrev pub is_about : ℕ → ℕ → StatusAudit → Bool
is_about session_id id a = (a.session_id == session_id) && (a.recommendation_id == id)

-- The status that the last of them wrote, or else that of a recommendation that is made.
unfoldable pub last_status : ℕ → ℕ → Status → List StatusAudit → Status
last_status session_id id status [] = status
last_status session_id id status (a ∷ audit) =
    last_status session_id id (if is_about session_id id a then a.to_status else status) audit

abbrev pub IsExplained : List StatusAudit → Recommendation → Type 0
IsExplained audit r = last_status r.session_id r.id is_new audit ≡ r.status

last_status-append :
    (session_id id : ℕ) (audit : List StatusAudit) (status : Status) (a : StatusAudit)
    → last_status session_id id status (audit ++ a ∷ [])
      ≡ (if is_about session_id id a then a.to_status else last_status session_id id status audit)
unfolding last_status
last_status-append session_id id [] status a = refl
last_status-append session_id id (x ∷ audit) status a = last_status-append session_id id audit _ a

append-nil : (audit : List StatusAudit) → audit ++ [] ≡ audit
append-nil [] = refl
append-nil (a ∷ audit) = rw (append-nil audit)

-- A change of a status, whichever way it ends, keeps every recommendation's status the one that the
-- last row of the audit about it wrote, or `new` if there is none, and takes no row from the audit.
pub update_status_with_audit-IsExplained :
    (fails : Bool) (session_id id : ℕ) (new_status : Status) (actor : ℕ) (surface : Option String)
    (now : ℕ) (store : Store)
    → All (IsExplained store.audit) store.recommendations
    → let store' =
        (update_status_with_audit fails session_id id new_status actor surface now store).1 in
      All (IsExplained store'.audit) store'.recommendations
      × ((new : List StatusAudit) × (store'.audit ≡ store.audit ++ new))
unfolding update_status_with_audit
update_status_with_audit-IsExplained fails session_id id new_status actor surface now store h =
    elim (Bool-cases fails) [
      | inl broken ↦ rw (broken, update_status_with_audit) (h, ([], sym (append-nil store.audit)))
      | inr works ↦ elim (Option-cases (find (is_row id session_id) store.recommendations)) [
        | inl gone ↦
            rw (works, gone, update_status_with_audit) (h, ([], sym (append-nil store.audit)))
        | inr (r, found) ↦ elim (Bool-cases (is_same_status r.status new_status)) [
          | inl kept ↦
              rw (works, found, kept, update_status_with_audit)
                (h, ([], sym (append-nil store.audit)))
          | inr changed ↦
              rw (works, found, changed, update_status_with_audit)
                (
                  All-update_where (IsExplained store.audit) (IsExplained (store.audit ++ _ ∷ []))
                      (is_row id session_id)
                      (λ x. record x { status = new_status; updated_at = now })
                      store.recommendations
                      (λ x row old.
                        rw (last_status-append x.session_id x.id store.audit is_new _)
                          (ground arith))
                      (λ x beside old.
                        rw (last_status-append x.session_id x.id store.audit is_new _)
                          (ground (arith)))
                      h,
                  (_, refl),
                )
        ]
      ]
    ]
