-- ===== src/Invitations/Service/Pending.antt =====
-- After Create there is one pending invitation for the session and the email.
use talkback.Prelude.{
  ℕ, sym, String, true, false, not, none, some, List, [], ◌∷◌, ◌++◌, ◌≡◌, refl, ap, ◌∙◌, arith, inl,
  inr, Bool-cases, Option-cases, select, find-append, select-append, select-update_where_out,
  select-update_where_beside, ==_refl, eq_refl,
}
use talkback.Invitations.Model.{Role, Invitation, succeeded, Delivery}
use talkback.Invitations.Repository.{
  has_hash, is_for, is_pending_for, get_by_id, get_by_token_hash, insert,
  revoke_pending_by_session_and_email,
}
use talkback.Invitations.Service.{
  Outside, Db, Faults, normalize_email, new_invitation, create_error, replace_pending, create,
}

insert_succeeded :
    (inv : Invitation) (invs invs' : List Invitation)
    → insert inv invs ≡ some invs'
    → (invs ++ inv ∷ [] ≡ invs') × (get_by_token_hash inv.token_hash invs ≡ none)
unfolding insert
insert_succeeded inv invs invs' h = elim (Option-cases (get_by_id inv.id invs)) [
  | inr (clash, e) ↦ let h' = rw (e, insert) at h in absurd (cc)
  | inl e ↦ elim (Option-cases (get_by_token_hash inv.token_hash invs)) [
    | inr (clash, e') ↦ let h' = rw (e, e', insert) at h in absurd (cc)
    | inl e' ↦ let h' = rw (e, e', insert) at h in (cc, e')
  ]
]

append-nil {ℓ} : {A : Type ℓ} (xs : List A) → xs ++ [] ≡ xs
append-nil [] = refl
append-nil (x ∷ xs) = ap (λ ys. x ∷ ys) (append-nil xs)

revoked_none_pending :
    (session_id : ℕ) (email : String) (now : ℕ) (invs : List Invitation)
    → select
        (is_pending_for session_id email)
        (revoke_pending_by_session_and_email session_id email now invs)
      ≡ []
unfolding revoke_pending_by_session_and_email
revoked_none_pending session_id email now invs =
    select-update_where_out _ _ _ invs (λ r e. ground arith) (λ r e. e)

revoked_others :
    (session_id : ℕ) (email : String) (now : ℕ) (invs : List Invitation)
    → select
        (λ r. not (is_for session_id email r))
        (revoke_pending_by_session_and_email session_id email now invs)
      ≡ select (λ r. not (is_for session_id email r)) invs
unfolding revoke_pending_by_session_and_email
revoked_others session_id email now invs =
    select-update_where_beside _ _ _ invs (λ r e. ground (arith, e))

-- The row `new` is the only pending one of its session and email, its token finds it, and the rows
-- of other sessions and emails are those of before.
pub record Replaced (hash : String) (session_id : ℕ) (email : String) (new : Invitation)
    (old invs : List Invitation) : Type 0 where
  only_pending : select (is_pending_for session_id email) invs ≡ new ∷ []
  found : get_by_token_hash hash invs ≡ some new
  others :
      select (λ r. not (is_for session_id email r)) invs
      ≡ select (λ r. not (is_for session_id email r)) old

module _ {W : Type 0} (env : Outside W) where
  insert-Replaced :
      (raw : String) (id session_id inviter : ℕ) (email : String) (role : Role) (now : ℕ)
      → (old invs : List Invitation)
      → insert
          (new_invitation env id session_id inviter email role raw now)
          (revoke_pending_by_session_and_email session_id email now old)
        ≡ some invs
      → Replaced
          (env.sha256_hex raw)
          session_id
          email
          (new_invitation env id session_id inviter email role raw now)
          old
          invs
  unfolding get_by_token_hash select
  insert-Replaced raw id session_id inviter email role now old invs h =
      let new = new_invitation env id session_id inviter email role raw now in
      let before = revoke_pending_by_session_and_email session_id email now old in
      let (all, fresh) = insert_succeeded new before invs h in
      let mine : is_for session_id email new ≡ true = rw (==_refl session_id, eq_refl email) in
      record {
        only_pending = rw (
          sym all,
          select-append (is_pending_for session_id email) before (new ∷ []),
          revoked_none_pending session_id email now old,
          mine,
        );
        found = rw (
          sym all,
          find-append (has_hash (env.sha256_hex raw)) before new fresh,
          eq_refl (env.sha256_hex raw),
        );
        others =
            rw
              (
                sym all,
                select-append (λ r. not (is_for session_id email r)) before (new ∷ []),
                mine,
              )
              (append-nil _ ∙ revoked_others session_id email now old);
      }

  replace_pending-Replaced :
      (faults : Faults) (raw : String) (id session_id inviter : ℕ) (email : String)
      → (role : Role) (now : ℕ) (db : Db W) (d : Delivery) → faults.revoke_fails ≡ false
      → (replace_pending env faults (some raw) id session_id inviter email role now db).0
        ≡ succeeded d
      → Replaced
          (env.sha256_hex raw)
          session_id
          email
          (new_invitation env id session_id inviter email role raw now)
          db.invitations
          (replace_pending env faults
            (some raw)
            id
            session_id
            inviter
            email
            role
            now
            db).1.invitations
  unfolding replace_pending
  replace_pending-Replaced faults raw id session_id inviter email role now db d works h =
      let new = new_invitation env id session_id inviter email role raw now in
      let before = revoke_pending_by_session_and_email session_id email now db.invitations in
      elim (Bool-cases faults.write_fails) [
        | inl broken ↦ let h' = rw (works, broken, replace_pending) at h in absurd (cc)
        | inr writes ↦ elim (Option-cases (insert new before)) [
          | inl clash ↦ let h' = rw (works, writes, clash, replace_pending) at h in absurd (cc)
          | inr (invs, e) ↦
              rw (works, writes, e, replace_pending)
                (insert-Replaced raw id session_id inviter email role now db.invitations invs e)
        ]
      ]

  -- Where Create succeeds and the revocation of older invitations did not fail, the email is not
  -- empty, the role is one of the three and the user is no member; the new invitation is the only
  -- pending one for the session and the email, its token finds it, and the rows of other sessions
  -- and emails are not touched.
  pub create-Replaced :
      (faults : Faults) (raw : String) (id session_id inviter : ℕ) (invited_email : String)
      → (role : Role) (now : ℕ) (db : Db W) (d : Delivery) → faults.revoke_fails ≡ false
      → (create env faults (some raw) id session_id inviter invited_email role now db).0
        ≡ succeeded d
      → (create_error env session_id (normalize_email env invited_email) role db.outside ≡ none)
        × Replaced
            (env.sha256_hex raw)
            session_id
            (normalize_email env invited_email)
            (new_invitation env id session_id inviter
              (normalize_email env invited_email)
              role
              raw
              now)
            db.invitations
            (create env faults
              (some raw)
              id
              session_id
              inviter
              invited_email
              role
              now
              db).1.invitations
  unfolding create
  create-Replaced faults raw id session_id inviter invited_email role now db d works h =
      let email = normalize_email env invited_email in
      elim (Option-cases (create_error env session_id email role db.outside)) [
        | inr (e, refused) ↦ let h' = rw (refused, create) at h in absurd (cc)
        | inl passed ↦
            let h' = rw (passed, create) at h in
            rw (passed, create)
              (
                refl,
                replace_pending-Replaced faults raw id session_id inviter email role now db d works
                    h',
              )
      ]
