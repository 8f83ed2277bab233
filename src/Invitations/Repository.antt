-- ===== src/Invitations/Repository.antt =====
-- The statements on the table of invitations (internal/invitations/repository.go).
use talkback.Prelude.{
  ℕ, String, Bool, not, ◌&&◌, Option, none, some, List, [], ◌∷◌, ◌++◌, ◌==◌, str_eq, find,
  update_where,
}
use talkback.Invitations.Model.{Status, revoked, is_pending, Invitation}

abbrev pub has_id : ℕ → Invitation → Bool
has_id id inv = inv.id == id

abbrev pub has_hash : String → Invitation → Bool
has_hash hash inv = str_eq inv.token_hash hash

-- session_id = $1 AND invited_email_normalized = $2
abbrev pub is_for : ℕ → String → Invitation → Bool
is_for session_id email inv =
    inv.session_id == session_id && str_eq inv.invited_email_normalized email

-- … AND status = 'pending'
abbrev pub is_pending_for : ℕ → String → Invitation → Bool
is_pending_for session_id email inv = is_for session_id email inv && is_pending inv.status

-- GetByID
unfoldable pub get_by_id : ℕ → List Invitation → Option Invitation
get_by_id id invs = find (has_id id) invs

-- GetByTokenHash
unfoldable pub get_by_token_hash : String → List Invitation → Option Invitation
get_by_token_hash hash invs = find (has_hash hash) invs

-- Create; `none` is the error of a second row with one primary key or one token_hash.
unfoldable pub insert : Invitation → List Invitation → Option (List Invitation)
insert inv invs = elim (get_by_id inv.id invs) [
  | some clash ↦ none
  | none ↦ elim (get_by_token_hash inv.token_hash invs) [
    | some clash ↦ none
    | none ↦ some (invs ++ inv ∷ [])
  ]
]

-- COALESCE($n, column)
abbrev pub coalesce : Option ℕ → Option ℕ → Option ℕ
coalesce none old = old
coalesce (some new) old = some new

-- UpdateStatus
unfoldable pub update_status :
    ℕ → Status → Option ℕ → Option ℕ → Option ℕ → ℕ → List Invitation → List Invitation
update_status id status accepted_at accepted_by_user_id email_verified_at now =
    update_where (has_id id) (λ inv. record inv {
      status = status;
      updated_at = now;
      accepted_at = coalesce accepted_at inv.accepted_at;
      accepted_by_user_id = coalesce accepted_by_user_id inv.accepted_by_user_id;
      email_verified_at = coalesce email_verified_at inv.email_verified_at;
    })

-- UpdateTokenAndExpiry; `none` is the error of a second row with one token_hash.
unfoldable pub update_token_and_expiry :
    ℕ → String → ℕ → ℕ → List Invitation → Option (List Invitation)
update_token_and_expiry id hash expires_at now invs =
    elim (find (λ inv. has_hash hash inv && not (has_id id inv)) invs) [
      | some clash ↦ none
      | none ↦ some (
          update_where (has_id id)
            (λ inv. record inv { token_hash = hash; expires_at = expires_at; updated_at = now })
            invs)
    ]

-- Revoke
unfoldable pub revoke_row : ℕ → ℕ → List Invitation → List Invitation
revoke_row id now = update_status id revoked none none none now

-- RevokePendingBySessionAndEmail; the number of rows is dropped by its caller.
unfoldable pub revoke_pending_by_session_and_email :
    ℕ → String → ℕ → List Invitation → List Invitation
revoke_pending_by_session_and_email session_id email now =
    update_where (is_pending_for session_id email)
      (λ inv. record inv { status = revoked; updated_at = now })
