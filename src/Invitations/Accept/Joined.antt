-- ===== src/Invitations/Accept/Joined.antt =====
-- An invitation is accepted by the invited user, while it is pending and has not expired.
use talkback.Prelude.{
  ℕ, String, true, false, Option, none, some, List, ◌≡◌, refl, arith, inl, inr, Bool-cases,
  Option-cases, find-update_where, ltb, ==_refl, str_eq, eq_iff,
}
use talkback.Invitations.Model.{accepted, is_pending, Invitation, succeeded}
use talkback.Invitations.Repository.{has_id, has_hash, coalesce, get_by_token_hash, update_status}
use talkback.Invitations.Service.{Outside, Db, Faults, normalize_email, lookup_token}
use talkback.Invitations.Accept.{usable_error, join, accept_found, accept}

-- The row of an invitation that `user` accepted.
abbrev accepted_row : ℕ → ℕ → Option ℕ → Invitation → Invitation
accepted_row user now verified inv = record inv {
  status = accepted;
  updated_at = now;
  accepted_at = some now;
  accepted_by_user_id = some user;
  email_verified_at = coalesce verified inv.email_verified_at;
}

module _ {W : Type 0} (env : Outside W) where
  -- The effect of a success of Accept by the user of `email`.
  pub record Joined (raw email : String) (now session_id : ℕ) (db db' : Db W) : Type 0 where
    pub inv : Invitation
    pub user : ℕ
    pub found : get_by_token_hash (env.sha256_hex raw) db.invitations ≡ some inv
    pub was_pending : is_pending inv.status ≡ true
    pub in_time : ltb inv.expires_at now ≡ false
    pub invited : normalize_email env inv.invited_email_normalized ≡ email
    pub known : env.get_user_id email db.outside ≡ some user
    pub no_error :
        (env.create_membership inv.session_id user inv.invited_role inv.inviter_user_id
          db.outside).0
        ≡ none
    pub member :
        db'.outside
        ≡ (env.create_membership inv.session_id user inv.invited_role inv.inviter_user_id
            db.outside).1
    pub same_session : session_id ≡ inv.session_id
    pub row : Invitation
    pub row_found : get_by_token_hash (env.sha256_hex raw) db'.invitations ≡ some row
    pub row_accepted : row.status ≡ accepted
    pub row_user : row.accepted_by_user_id ≡ some user

  usable_inv :
      (inv : Invitation) (now : ℕ)
      → usable_error inv now ≡ none
      → (is_pending inv.status ≡ true) × (ltb inv.expires_at now ≡ false)
  unfolding usable_error
  usable_inv inv now h = ground (arith, h)

  -- The row that the token finds, after its status was set.
  token_row :
      (hash : String) (inv : Invitation) (user now : ℕ) (verified : Option ℕ)
      (invs : List Invitation)
      → get_by_token_hash hash invs ≡ some inv
      → get_by_token_hash hash
          (update_status inv.id accepted (some now) (some user) verified now invs)
        ≡ some (accepted_row user now verified inv)
  unfolding get_by_token_hash update_status
  token_row hash inv user now verified invs h = rw (
    find-update_where (has_hash hash) (has_id inv.id) (accepted_row user now verified) invs
        (λ r e. refl),
    h,
    ==_refl inv.id,
  )

  join_succeeded :
      (faults : Faults) (inv : Invitation) (user now : ℕ) (verified : Option ℕ) (db : Db W)
      (session_id : ℕ)
      → (join env faults inv user verified now db).0 ≡ succeeded session_id
      → ((env.create_membership inv.session_id user inv.invited_role inv.inviter_user_id
            db.outside).0
          ≡ none)
        × ((session_id ≡ inv.session_id)
            × (join env faults inv user verified now db ≡ (
              succeeded inv.session_id,
              record {
                invitations =
                    update_status inv.id accepted
                      (some now)
                      (some user)
                      verified
                      now
                      db.invitations;
                outside =
                    (env.create_membership inv.session_id user inv.invited_role inv.inviter_user_id
                      db.outside).1;
              },
            )))
  unfolding join
  join_succeeded faults inv user now verified db session_id h =
      elim (Option-cases
        (env.create_membership inv.session_id user inv.invited_role inv.inviter_user_id
          db.outside).0) [
            | inr (e, refused) ↦ let h' = rw (refused, join) at h in absurd (cc)
            | inl made ↦ elim (Bool-cases faults.write_fails) [
              | inl broken ↦ let h' = rw (made, broken, join) at h in absurd (cc)
              | inr writes ↦
                  let h' = rw (made, writes, join) at h in (made, (cc, rw (made, writes, join)))
            ]
          ]

  accept_found_succeeded :
      (faults : Faults) (inv : Invitation) (email : String) (now : ℕ) (db : Db W) (session_id : ℕ)
      → (accept_found env faults inv email now db).0 ≡ succeeded session_id
      → (usable_error inv now ≡ none)
        × ((normalize_email env inv.invited_email_normalized ≡ email)
            × ((user : ℕ) × ((env.get_user_id email db.outside ≡ some user)
                  × (accept_found env faults inv email now db
                      ≡ join env faults inv user none now db))))
  unfolding accept_found
  accept_found_succeeded faults inv email now db session_id h =
      elim (Option-cases (usable_error inv now)) [
        | inr (e, refused) ↦ let h' = rw (refused, accept_found) at h in absurd (cc)
        | inl usable ↦
            elim (Bool-cases (str_eq (normalize_email env inv.invited_email_normalized) email)) [
              | inr other ↦ let h' = rw (usable, other, accept_found) at h in absurd (cc)
              | inl same ↦ elim (Option-cases (env.get_user_id email db.outside)) [
                | inl unknown ↦
                    let h' = rw (usable, same, unknown, accept_found) at h in absurd (cc)
                | inr (user, known) ↦ (
                  usable,
                  ((eq_iff _ _).0 same, (user, (known, rw (usable, same, known, accept_found)))),
                )
              ]
            ]
      ]

  accept-Joined_found :
      (faults : Faults) (raw email : String) (inv : Invitation) (now : ℕ) (db : Db W)
      (session_id : ℕ)
      → get_by_token_hash (env.sha256_hex raw) db.invitations ≡ some inv
      → (accept_found env faults inv email now db).0 ≡ succeeded session_id
      → Joined raw email now session_id db (accept_found env faults inv email now db).1
  accept-Joined_found faults raw email inv now db session_id found h =
      let (usable, (same, (user, (known, joins)))) =
        accept_found_succeeded faults inv email now db session_id h in
      let h' = rw joins at h in
      let (made, (here, effect)) = join_succeeded faults inv user now none db session_id h' in
      rw (joins, effect)
        (record {
          inv = inv;
          user = user;
          found = found;
          was_pending = (usable_inv inv now usable).0;
          in_time = (usable_inv inv now usable).1;
          invited = same;
          known = known;
          no_error = made;
          member = refl;
          same_session = here;
          row = accepted_row user now none inv;
          row_found = token_row (env.sha256_hex raw) inv user now none db.invitations found;
          row_accepted = refl;
          row_user = refl;
        })

  lookup_inv :
      (faults : Faults) (raw : String) (db : Db W) (inv : Invitation)
      → lookup_token env faults raw db ≡ some inv
      → get_by_token_hash (env.sha256_hex raw) db.invitations ≡ some inv
  unfolding lookup_token
  lookup_inv faults raw db inv h = ground (arith, h)

  -- Accept succeeds only for a pending invitation that has not expired, behind the token, for the
  -- user of the invited email; then the membership was made with the invitation's session, role and
  -- inviter, and the row behind the token is accepted by that user.
  pub accept-Joined :
      (faults : Faults) (raw email : String) (now : ℕ) (db : Db W) (session_id : ℕ)
      → (accept env faults raw email now db).0 ≡ succeeded session_id
      → Joined raw
          (normalize_email env email)
          now
          session_id
          db
          (accept env faults raw email now db).1
  unfolding accept
  accept-Joined faults raw email now db session_id h =
      elim (Option-cases (lookup_token env faults raw db)) [
        | inl missing ↦ let h' = rw (missing, accept) at h in absurd (cc)
        | inr (inv, e) ↦
            let h' = rw (e, accept) at h in
            rw (e, accept)
              (accept-Joined_found faults raw (normalize_email env email) inv now db session_id
                (lookup_inv faults raw db inv e) h')
      ]
