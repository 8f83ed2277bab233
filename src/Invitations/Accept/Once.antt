-- ===== src/Invitations/Accept/Once.antt =====
-- An invitation is accepted only once.
use talkback.Prelude.{ℕ, String, false, some, ◌≡◌}
use talkback.Invitations.Model.{is_pending, Invitation, already_accepted, failed, succeeded}
use talkback.Invitations.Repository.{get_by_token_hash}
use talkback.Invitations.Service.{Outside, Db, Faults, lookup_token}
use talkback.Invitations.Accept.{usable_error, accept_found, accept, register_and_accept}
use talkback.Invitations.Accept.Joined.{accept-Joined}

module _ {W : Type 0} (env : Outside W) where
  lookup_row :
      (faults : Faults) (raw : String) (db : Db W) (inv : Invitation)
      → faults.lookup_fails ≡ false
      → get_by_token_hash (env.sha256_hex raw) db.invitations ≡ some inv
      → lookup_token env faults raw db ≡ some inv
  unfolding lookup_token
  lookup_row faults raw db inv works h = rw (works, lookup_token, h)

  not_usable :
      (inv : Invitation) (now : ℕ)
      → is_pending inv.status ≡ false
      → usable_error inv now ≡ some already_accepted
  unfolding usable_error
  not_usable inv now h = rw (usable_error, h)

  -- Where the row behind the token is not pending, neither way in writes anything, and both say
  -- that the invitation is already accepted, also of one that was revoked.
  pub accept_not_pending :
      (faults : Faults) (raw email name password_hash : String) (now : ℕ) (db : Db W)
      (inv : Invitation)
      → faults.lookup_fails ≡ false
      → get_by_token_hash (env.sha256_hex raw) db.invitations ≡ some inv
      → is_pending inv.status ≡ false
      → (accept env faults raw email now db ≡ (failed already_accepted, db))
        × (register_and_accept env faults raw name password_hash now db
            ≡ (failed already_accepted, db))
  unfolding accept accept_found register_and_accept
  accept_not_pending faults raw email name password_hash now db inv works h closed =
      let found = lookup_row faults raw db inv works h in
      let refused = not_usable inv now closed in
      (rw (accept, found, accept_found, refused), rw (register_and_accept, found, refused))

  -- After a success of Accept, the token of the invitation lets nobody in again, at no time, as long
  -- as the lookup of the token works: both ways in say that it was accepted, and change nothing.
  pub accept_once :
      (faults : Faults) (raw email : String) (now : ℕ) (db : Db W) (session_id : ℕ)
      → (accept env faults raw email now db).0 ≡ succeeded session_id
      → (faults' : Faults) (email' name password_hash : String) (now' : ℕ)
      → faults'.lookup_fails ≡ false
      → (accept env faults' raw email' now' (accept env faults raw email now db).1
          ≡ (failed already_accepted, (accept env faults raw email now db).1))
        × (register_and_accept env faults' raw name password_hash now'
              (accept env faults raw email now db).1
            ≡ (failed already_accepted, (accept env faults raw email now db).1))
  accept_once faults raw email now db session_id h faults' email' name password_hash now' works =
      let j = accept-Joined env faults raw email now db session_id h in
      accept_not_pending faults' raw email' name password_hash now'
        (accept env faults raw email now db).1 j.row works j.row_found (rw j.row_accepted)
