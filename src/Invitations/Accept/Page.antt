-- ===== src/Invitations/Accept/Page.antt =====
-- The page behind the link and the acceptance agree.
use talkback.Prelude.{ℕ, String, true, none, some, ◌≡◌, ◌↔◌, ◌≢◌, arith}
use talkback.Invitations.Model.{pending, accepted, Invitation, succeeded, ResolveResult}
use talkback.Invitations.Service.{Outside, Db, Faults, lookup_token}
use talkback.Invitations.Accept.{usable_error, resolve}

module _ {W : Type 0} (env : Outside W) where
  -- Where Resolve finds an invitation and gives an answer, the answer is "pending" just where the
  -- invitation passes the checks of the acceptance, "accepted" just where it was accepted, and then
  -- with its session, and expired by time only where the checks fail.
  resolve_lem :
      (faults : Faults) (raw : String) (now : ℕ) (db : Db W) (inv : Invitation) (r : ResolveResult)
      → lookup_token env faults raw db ≡ some inv
      → resolve env faults raw now db ≡ succeeded r
      → ((r.status ≡ pending) ↔ (usable_error inv now ≡ none))
        × (((r.status ≡ accepted) ↔ (inv.status ≡ accepted))
            × ((inv.status ≡ accepted → r.session_id ≡ some inv.session_id)
                × (r.is_expired ≡ true → usable_error inv now ≢ none)))
  unfolding resolve usable_error
  resolve_lem faults raw now db inv r found h =
      let h' = rw (resolve, found) at h in ground (arith, h')
