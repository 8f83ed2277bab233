-- ===== src/Invitations/Manage/Revoked.antt =====
-- A revoked invitation lets nobody in.
use talkback.Prelude.{
  ℕ, String, true, false, none, some, ◌≡◌, refl, ap, find-true, find-update_where, update_where,
  ==_iff, str_eq,
}
use talkback.Invitations.Model.{
  revoked, is_pending, Invitation, was_revoked, already_accepted, failed,
}
use talkback.Invitations.Repository.{
  has_id, has_hash, get_by_id, get_by_token_hash, revoke_row, update_status,
}
use talkback.Invitations.Service.{Outside, Db, Faults, lookup_id, lookup_token}
use talkback.Invitations.Accept.{accept, resolve}
use talkback.Invitations.Accept.Once.{accept_not_pending}
use talkback.Invitations.Manage.{revoke}

abbrev revoked_at : ℕ → Invitation → Invitation
revoked_at now inv = record inv { status = revoked; updated_at = now }

module _ {W : Type 0} (env : Outside W) where
  revoke_pending_eq :
      (faults : Faults) (id now : ℕ) (db : Db W) (inv : Invitation)
      → lookup_id env faults id db ≡ some inv
      → is_pending inv.status ≡ true
      → faults.write_fails ≡ false
      → revoke env faults id now db ≡ (
        none,
        record db { invitations = update_where (has_id id) (revoked_at now) db.invitations },
      )
  unfolding revoke revoke_row update_status
  revoke_pending_eq faults id now db inv found open_ writes = rw (revoke, found, open_, writes)

  -- The row behind the token, after the revocation.
  token_row :
      (hash : String) (id now : ℕ) (db : Db W) (inv : Invitation)
      → inv.id ≡ id
      → get_by_token_hash hash db.invitations ≡ some inv
      → get_by_token_hash hash (update_where (has_id id) (revoked_at now) db.invitations)
        ≡ some (revoked_at now inv)
  unfolding get_by_token_hash
  token_row hash id now db inv same found =
      let hit : has_id id inv ≡ true = (==_iff inv.id id).1 same in
      rw (
        find-update_where (has_hash hash) (has_id id) (revoked_at now) db.invitations (λ r e. refl),
        found,
        hit,
      )

  lookup_revoked :
      (faults : Faults) (raw : String) (db : Db W) (inv : Invitation)
      → faults.lookup_fails ≡ false
      → get_by_token_hash (env.sha256_hex raw) db.invitations ≡ some inv
      → lookup_token env faults raw db ≡ some inv
  unfolding lookup_token
  lookup_revoked faults raw db inv works found = rw (lookup_token, works, found)

  -- Where the statements work, revoking a pending invitation that its identifier and its token, a
  -- text that is not empty, both find succeeds, and from then on the token lets nobody in: Resolve
  -- says that it was revoked, and Accept, that it was already accepted.
  pub revoke_pending_lem :
      (faults : Faults) (id now : ℕ) (db : Db W) (inv : Invitation) (raw : String)
      → faults.lookup_fails ≡ false
      → faults.write_fails ≡ false
      → get_by_id id db.invitations ≡ some inv
      → get_by_token_hash (env.sha256_hex raw) db.invitations ≡ some inv
      → is_pending inv.status ≡ true
      → str_eq raw "" ≡ false
      → (faults' : Faults) (email : String) (now' : ℕ) → faults'.lookup_fails ≡ false
      → ((revoke env faults id now db).0 ≡ none)
        × ((resolve env faults' raw now' (revoke env faults id now db).1 ≡ failed was_revoked)
            × ((accept env faults' raw email now' (revoke env faults id now db).1).0
                ≡ failed already_accepted))
  unfolding lookup_id get_by_id resolve
  revoke_pending_lem faults id now db inv raw works writes found by_token open_ filled faults' email
        now' works' =
      let looked : lookup_id env faults id db ≡ some inv =
        rw (lookup_id, works, get_by_id, found) in
      let same : inv.id ≡ id =
        (==_iff inv.id id).0 (find-true (has_id id) db.invitations inv found) in
      let effect = revoke_pending_eq faults id now db inv looked open_ writes in
      let db' : Db W = record db {
        invitations = update_where (has_id id) (revoked_at now) db.invitations;
      } in
      let row = token_row (env.sha256_hex raw) id now db inv same by_token in
      rw effect (
        refl,
        (
          rw (resolve, filled, lookup_revoked faults' raw db' (revoked_at now inv) works' row),
          ap (λ out. out.0)
              (accept_not_pending env faults' raw email "" "" now' db' (revoked_at now inv) works'
                row refl).0,
        ),
      )
