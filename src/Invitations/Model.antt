-- ===== src/Invitations/Model.antt =====
-- The data of an invitation (internal/invitations/model.go, errors.go).
use talkback.Prelude.{ℕ, String, Bool, true, false, Option, ◌≡◌, ◌⊎◌, inl, inr, refl}

pub data Role : Type 0 where
  participant : Role
  creator : Role
  decision_maker : Role
  other_role : String → Role

abbrev pub is_valid_role : Role → Bool
is_valid_role participant = true
is_valid_role creator = true
is_valid_role decision_maker = true
is_valid_role (other_role s) = false

-- The table allows no other status.
pub data Status : Type 0 where
  pending : Status
  accepted : Status
  revoked : Status
  expired : Status

abbrev pub is_pending : Status → Bool
is_pending pending = true
is_pending _ = false

pub record Invitation : Type 0 where
  pub id : ℕ
  pub session_id : ℕ
  pub invited_email_normalized : String
  pub inviter_user_id : ℕ
  pub invited_role : Role
  pub token_hash : String
  pub status : Status
  pub expires_at : ℕ
  pub accepted_at : Option ℕ
  pub accepted_by_user_id : Option ℕ
  pub email_verified_at : Option ℕ
  pub created_at : ℕ
  pub updated_at : ℕ

-- The errors of the package; `other_error` is one that a statement or a callback returns.
pub data Error : Type 0 where
  not_found : Error
  invalid_token : Error
  has_expired : Error
  was_revoked : Error
  already_accepted : Error
  wrong_email : Error
  already_member : Error
  no_account : Error
  invalid_role : Error
  other_error : String → Error

-- What a method returns: an error or a value.
pub data Outcome {ℓ} (A : Type ℓ) : Type ℓ where
  failed : Error → Outcome A
  succeeded : A → Outcome A

pub Outcome-cases {ℓ} :
    {A : Type ℓ} (o : Outcome A) → ((e : Error) × (o ≡ failed e)) ⊎ ((a : A) × (o ≡ succeeded a))
Outcome-cases (failed e) = inl (e, refl)
Outcome-cases (succeeded a) = inr (a, refl)

pub record ResolveResult : Type 0 where
  pub session_id : Option ℕ
  pub session_title : String
  pub inviter_name : String
  pub invited_email : String
  pub invited_role : Option Role
  pub status : Status
  pub is_expired : Bool
  pub account_exists : Bool

-- CreateResult and ResendResult.
pub record Delivery : Type 0 where
  pub invitation : Invitation
  pub accept_url : String
  pub session_title : String
  pub inviter_name : String
  pub inviter_email : String
