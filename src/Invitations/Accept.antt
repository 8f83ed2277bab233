-- ===== src/Invitations/Accept.antt =====
-- How an invitation is looked at and accepted (internal/invitations/service.go).
pub mod Joined
pub mod Once
pub mod Page
use talkback.Prelude.{
  ℕ, String, Bool, true, false, not, Option, none, some, ltb, str_eq, if◌then◌else◌, ◌||◌,
}
use talkback.Invitations.Model.{
  Status, pending, accepted, revoked, expired, is_pending, Invitation, Error, not_found,
  invalid_token, has_expired, was_revoked, already_accepted, wrong_email, no_account, Outcome,
  failed, succeeded, ResolveResult,
}
use talkback.Invitations.Repository.{update_status}
use talkback.Invitations.Service.{
  Outside, Db, Faults, db_error, normalize_email, lookup_id, lookup_token,
}

-- The checks of an invitation that was found, in their order.
unfoldable pub usable_error : Invitation → ℕ → Option Error
usable_error inv now =
    if not (is_pending inv.status)
    then some already_accepted
    else if ltb inv.expires_at now
    then some has_expired
    else none

module _ {W : Type 0} (env : Outside W) where
  -- The membership, then the status. A failed UpdateStatus leaves the membership.
  unfoldable pub join : Faults → Invitation → ℕ → Option ℕ → ℕ → Db W → Outcome ℕ × Db W
  join faults inv user email_verified_at now db =
      let made =
        env.create_membership inv.session_id user inv.invited_role inv.inviter_user_id db.outside in
      elim (made.0) [
        | some e ↦ (failed e, record db { outside = made.1 })
        | none ↦ elim faults.write_fails [
          | true ↦ (failed db_error, record db { outside = made.1 })
          | false ↦ (
            succeeded inv.session_id,
            record {
              invitations =
                  update_status inv.id accepted (some now) (some user) email_verified_at now
                    db.invitations;
              outside = made.1;
            },
          )
        ]
      ]

  -- The common part of Accept and AcceptByInvitationID, for an invitation that was found.
  unfoldable pub accept_found : Faults → Invitation → String → ℕ → Db W → Outcome ℕ × Db W
  accept_found faults inv email now db = elim (usable_error inv now) [
    | some e ↦ (failed e, db)
    | none ↦ elim (str_eq (normalize_email env inv.invited_email_normalized) email) [
      | false ↦ (failed wrong_email, db)
      | true ↦ elim (env.get_user_id email db.outside) [
        | none ↦ (failed no_account, db)
        | some user ↦ join faults inv user none now db
      ]
    ]
  ]

  unfoldable pub accept : Faults → String → String → ℕ → Db W → Outcome ℕ × Db W
  accept faults raw authenticated_email now db = elim (lookup_token env faults raw db) [
    | none ↦ (failed invalid_token, db)
    | some inv ↦ accept_found faults inv (normalize_email env authenticated_email) now db
  ]

  unfoldable pub accept_by_invitation_id : Faults → ℕ → String → ℕ → Db W → Outcome ℕ × Db W
  accept_by_invitation_id faults id authenticated_email now db = elim (lookup_id env faults id db) [
    | none ↦ (failed not_found, db)
    | some inv ↦ accept_found faults inv (normalize_email env authenticated_email) now db
  ]

  -- The new user's account is verified by the token; the result is the session and the user.
  unfoldable pub register_and_accept :
      Faults → String → String → String → ℕ → Db W → Outcome (ℕ × ℕ) × Db W
  register_and_accept faults raw name password_hash now db = elim (lookup_token env faults raw db) [
    | none ↦ (failed invalid_token, db)
    | some inv ↦ elim (usable_error inv now) [
      | some e ↦ (failed e, db)
      | none ↦
          let registered =
            env.create_user inv.invited_email_normalized name password_hash db.outside in
          let db' : Db W = record db { outside = registered.1 } in
          elim (registered.0) [
            | failed e ↦ (failed e, db')
            | succeeded user ↦
                let joined = join faults inv user (some now) now db' in
                (
                  elim (joined.0) [
                    | failed e ↦ failed e
                    | succeeded session_id ↦ succeeded (session_id, user)
                  ],
                  joined.1,
                )
          ]
    ]
  ]

  -- The full answer of Resolve.
  abbrev pub resolved : Invitation → Status → Db W → ResolveResult
  resolved inv status db = record {
    session_id = some inv.session_id;
    session_title = env.get_session_title inv.session_id db.outside;
    inviter_name = env.get_user_display_name inv.inviter_user_id db.outside;
    invited_email = inv.invited_email_normalized;
    invited_role = some inv.invited_role;
    status = status;
    is_expired = false;
    account_exists = env.account_exists inv.invited_email_normalized db.outside;
  }

  -- The page behind the link. Nothing is written.
  unfoldable pub resolve : Faults → String → ℕ → Db W → Outcome ResolveResult
  resolve faults raw now db =
      if str_eq raw "" then failed invalid_token else elim (lookup_token env faults raw db) [
        | none ↦ failed invalid_token
        | some inv ↦ elim inv.status [
          | revoked ↦ failed was_revoked
          | accepted ↦ succeeded (resolved inv accepted db)
          | _ ↦
              if ltb inv.expires_at now
              then succeeded (record {
                session_id = none;
                session_title = "";
                inviter_name = "";
                invited_email = inv.invited_email_normalized;
                invited_role = none;
                status = expired;
                is_expired = true;
                account_exists = env.account_exists inv.invited_email_normalized db.outside;
              })
              else succeeded (resolved inv inv.status db)
        ]
      ]
