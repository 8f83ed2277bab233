-- ===== src/Invitations/Service.antt =====
-- The service of invitations (internal/invitations/service.go, token.go). A method takes one reading
-- of the clock, the drawn token or `none` where no token can be drawn, and the statements that fail.
pub mod Pending
use talkback.Prelude.{
  ℕ, ◌+◌, ◌*◌, ◌/◌, ◌%◌, String, Bool, true, false, not, ◌&&◌, ◌||◌, Option, none, some, List, ltb,
  leb, ◌==◌, str_eq, if◌then◌else◌,
}
use Prim.Native.String.{◌++◌}
use talkback.Invitations.Model.{
  Role, is_valid_role, Status, pending, accepted, revoked, expired, is_pending, Invitation, Error,
  not_found, invalid_token, has_expired, was_revoked, already_accepted, wrong_email, already_member,
  no_account, invalid_role, other_error, Outcome, failed, succeeded, ResolveResult, Delivery,
}
use talkback.Invitations.Repository.{
  get_by_id, get_by_token_hash, insert, update_status, update_token_and_expiry, revoke_row,
  revoke_pending_by_session_and_email,
}

-- The arguments of SendInviteFunc.
pub record Mail : Type 0 where
  pub to : String
  pub inviter_name : String
  pub session_title : String
  pub invited_role : Role
  pub accept_url : String
  pub expiration_note : String

-- Config, Lookup and Send of the service, the callbacks of the handlers, and the functions of the
-- standard library. `W` is the state of the users, the members and the mail. A lookup that fails
-- gives the empty text, since its error is dropped.
pub record Outside (W : Type 0) : Type 0 where
  pub trim_space : String → String
  pub to_lower : String → String
  pub trim_suffix : String → String → String
  pub show : ℕ → String
  pub sha256_hex : String → String
  pub app_base_url : String
  pub expiry_hours : ℕ
  pub get_session_title : ℕ → W → String
  pub get_user_display_name : ℕ → W → String
  pub get_user_email : ℕ → W → String
  pub send : Option (Mail → W → W)
  pub is_already_member : ℕ → String → W → Bool
  pub account_exists : String → W → Bool
  pub get_user_id : String → W → Option ℕ
  pub create_user : String → String → String → W → Outcome ℕ × W
  pub create_membership : ℕ → ℕ → Role → ℕ → W → Option Error × W

pub record Db (W : Type 0) : Type 0 where
  pub invitations : List Invitation
  pub outside : W

-- The statements that fail.
pub record Faults : Type 0 where
  pub lookup_fails : Bool
  pub revoke_fails : Bool
  pub write_fails : Bool

abbrev pub db_error : Error
db_error = other_error "database"

module _ {W : Type 0} (env : Outside W) where
  abbrev pub normalize_email : String → String
  normalize_email email = env.to_lower (env.trim_space email)

  -- DefaultExpiryHours is used when ExpiryHours <= 0.
  abbrev pub expiry_hours : ℕ
  expiry_hours = if env.expiry_hours == 0 then 168 else env.expiry_hours

  abbrev pub hash_token : String → String
  hash_token raw = env.sha256_hex raw

  abbrev pub format_expiry : ℕ → String
  format_expiry hours =
      if leb 24 hours && (hours % 24 == 0)
      then env.show (hours / 24) ++ " days"
      else env.show hours ++ " hours"

  abbrev pub accept_url_of : String → String
  accept_url_of raw = env.trim_suffix env.app_base_url "/" ++ "/accept-invite?token=" ++ raw

  -- `err != nil || inv == nil` is one case to the methods.
  unfoldable pub lookup_id : Faults → ℕ → Db W → Option Invitation
  lookup_id faults id db = if faults.lookup_fails then none else get_by_id id db.invitations

  unfoldable pub lookup_token : Faults → String → Db W → Option Invitation
  lookup_token faults raw db =
      if faults.lookup_fails then none else get_by_token_hash (hash_token raw) db.invitations

  -- The email is sent if there is a sender; its error is dropped.
  unfoldable pub deliver : String → Invitation → W → Delivery × W
  deliver raw inv w =
      let accept_url = accept_url_of raw in
      let title = env.get_session_title inv.session_id w in
      let inviter_name = env.get_user_display_name inv.inviter_user_id w in
      let inviter_email = env.get_user_email inv.inviter_user_id w in
      let mail : Mail = record {
        to = inv.invited_email_normalized;
        inviter_name = inviter_name;
        session_title = title;
        invited_role = inv.invited_role;
        accept_url = accept_url;
        expiration_note = "This link expires in " ++ format_expiry expiry_hours ++ ".";
      } in
      (
        record {
          invitation = record inv { token_hash = "" };
          accept_url = accept_url;
          session_title = title;
          inviter_name = inviter_name;
          inviter_email = inviter_email;
        },
        elim env.send [ none ↦ w | some send ↦ send mail w ],
      )

  -- The time, in seconds, at which a link made now expires.
  abbrev pub expiry_from : ℕ → ℕ
  expiry_from now = now + expiry_hours * 3600

  abbrev pub new_invitation : ℕ → ℕ → ℕ → String → Role → String → ℕ → Invitation
  new_invitation id session_id inviter email role raw now = record {
    id = id;
    session_id = session_id;
    invited_email_normalized = email;
    inviter_user_id = inviter;
    invited_role = role;
    token_hash = hash_token raw;
    status = pending;
    expires_at = expiry_from now;
    accepted_at = none;
    accepted_by_user_id = none;
    email_verified_at = none;
    created_at = now;
    updated_at = now;
  }

  -- The checks of Create, before anything is written.
  unfoldable pub create_error : ℕ → String → Role → W → Option Error
  create_error session_id email role w =
      if str_eq email ""
      then some invalid_role
      else if not (is_valid_role role)
      then some invalid_role
      else if env.is_already_member session_id email w
      then some already_member
      else none

  -- Create, from the revocation of pending invitations on.
  unfoldable pub replace_pending :
      Faults → Option String → ℕ → ℕ → ℕ → String → Role → ℕ → Db W → Outcome Delivery × Db W
  replace_pending faults token id session_id inviter email role now db =
      let revoked_db : Db W = if faults.revoke_fails then db else record db {
        invitations = revoke_pending_by_session_and_email session_id email now db.invitations;
      } in
      elim token [
        | none ↦ (failed (other_error "random"), revoked_db)
        | some raw ↦
            let inv = new_invitation id session_id inviter email role raw now in
            elim (if faults.write_fails then none else insert inv revoked_db.invitations) [
              | none ↦ (failed db_error, revoked_db)
              | some invs ↦
                  let delivered = deliver raw inv db.outside in
                  (succeeded delivered.0, record { invitations = invs; outside = delivered.1 })
            ]
      ]

  unfoldable pub create :
      Faults → Option String → ℕ → ℕ → ℕ → String → Role → ℕ → Db W → Outcome Delivery × Db W
  create faults token id session_id inviter invited_email role now db =
      let email = normalize_email invited_email in
      elim (create_error session_id email role db.outside) [
        | some e ↦ (failed e, db)
        | none ↦ replace_pending faults token id session_id inviter email role now db
      ]
