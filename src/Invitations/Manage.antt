-- ===== src/Invitations/Manage.antt =====
-- What the creator of a session does with an invitation (internal/invitations/service.go).
pub mod Links
pub mod Revoked
use talkback.Prelude.{ℕ, String, Option, none, some, List, true, false, if◌then◌else◌}
use talkback.Invitations.Model.{
  Invitation, Error, not_found, other_error, Outcome, failed, succeeded, Delivery, is_pending,
}
use talkback.Invitations.Repository.{update_token_and_expiry, revoke_row}
use talkback.Invitations.Service.{
  Outside, Db, Faults, db_error, hash_token, accept_url_of, expiry_from, deliver, lookup_id,
}
use talkback.Invitations.Accept.{usable_error}

module _ {W : Type 0} (env : Outside W) where
  -- The common part of Resend and GetAcceptURL: a new token, whose hash replaces the old one. The
  -- result is the token and the invitation as it was read.
  unfoldable pub rotate_token :
      Faults → Option String → ℕ → ℕ → Db W → Outcome (String × Invitation) × Db W
  rotate_token faults token id now db = elim (lookup_id env faults id db) [
    | none ↦ (failed not_found, db)
    | some inv ↦ elim (usable_error inv now) [
      | some e ↦ (failed e, db)
      | none ↦ elim token [
        | none ↦ (failed (other_error "random"), db)
        | some raw ↦
            let written =
              update_token_and_expiry inv.id (hash_token env raw) (expiry_from env now) now
                db.invitations in
            elim (if faults.write_fails then none else written) [
              | none ↦ (failed db_error, db)
              | some invs ↦ (succeeded (raw, inv), record db { invitations = invs })
            ]
      ]
    ]
  ]

  unfoldable pub get_accept_url : Faults → Option String → ℕ → ℕ → Db W → Outcome String × Db W
  get_accept_url faults token id now db =
      let rotated = rotate_token faults token id now db in
      (
        elim (rotated.0) [
          | failed e ↦ failed e
          | succeeded (raw, inv) ↦ succeeded (accept_url_of env raw)
        ],
        rotated.1,
      )

  -- The answer holds the new time of expiry.
  unfoldable pub resend : Faults → Option String → ℕ → ℕ → Db W → Outcome Delivery × Db W
  resend faults token id now db =
      let rotated = rotate_token faults token id now db in
      elim (rotated.0) [
        | failed e ↦ (failed e, rotated.1)
        | succeeded (raw, inv) ↦
            let delivered =
              deliver env raw (record inv { expires_at = expiry_from env now }) rotated.1.outside in
            (succeeded delivered.0, record (rotated.1) { outside = delivered.1 })
      ]

  -- An invitation that is not pending stays as it is, without an error.
  unfoldable pub revoke : Faults → ℕ → ℕ → Db W → Option Error × Db W
  revoke faults id now db = elim (lookup_id env faults id db) [
    | none ↦ (some not_found, db)
    | some inv ↦ elim (is_pending inv.status) [
      | false ↦ (none, db)
      | true ↦ elim faults.write_fails [
        | true ↦ (some db_error, db)
        | false ↦ (none, record db { invitations = revoke_row id now db.invitations })
      ]
    ]
  ]
