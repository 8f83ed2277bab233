-- ===== src/Decisions/Members.antt =====
-- The table of memberships (internal/database/session_memberships.go). A transaction whose statement
-- fails is rolled back.
pub mod Creators
pub mod Skew
use talkback.Prelude.{
  ℕ, String, Bool, true, false, not, ◌&&◌, Option, none, some, List, [], ◌∷◌, ◌++◌, ◌==◌, str_eq,
  length, find, select, update_where, if◌then◌else◌,
}

pub record Membership : Type 0 where
  pub session_id : ℕ
  pub user_id : ℕ
  pub role : String
  pub invited_by_user_id : Option ℕ
  pub joined_at : ℕ
  pub created_at : ℕ
  pub updated_at : ℕ

pub data Error : Type 0 where
  membership_not_found : Error
  last_creator : Error
  db_error : Error

pub record Faults : Type 0 where
  pub load_fails : Bool
  pub count_fails : Bool
  pub write_fails : Bool

-- session_id = $1 AND user_id = $2
abbrev pub is_member : ℕ → ℕ → Membership → Bool
is_member session_id user_id m = (m.session_id == session_id) && (m.user_id == user_id)

abbrev pub is_creator : ℕ → Membership → Bool
is_creator session_id m = (m.session_id == session_id) && str_eq m.role "creator"

-- session_id = $1 AND user_id <> $2 AND role = 'creator'
abbrev pub is_other_creator : ℕ → ℕ → Membership → Bool
is_other_creator session_id user_id m = is_creator session_id m && not (m.user_id == user_id)

-- `none` is the error of a second row for one user and session.
unfoldable pub create_session_membership :
    ℕ → ℕ → String → Option ℕ → ℕ → List Membership → Option (List Membership)
create_session_membership session_id user_id role invited_by now ms =
    elim (find (is_member session_id user_id) ms) [
      | some clash ↦ none
      | none ↦ some (
          ms
          ++ record {
            session_id = session_id;
            user_id = user_id;
            role = role;
            invited_by_user_id = invited_by;
            joined_at = now;
            created_at = now;
            updated_at = now;
          }
            ∷ [])
    ]

-- `none` is ErrMembershipNotFound.
unfoldable pub get_session_membership : ℕ → ℕ → List Membership → Option Membership
get_session_membership session_id user_id ms = find (is_member session_id user_id) ms

-- At one time the statement leaves the order of the rows open; here it is that of their insertion.
unfoldable pub get_session_memberships : ℕ → List Membership → List Membership
get_session_memberships session_id ms = select (λ m. m.session_id == session_id) ms

-- What a transaction that changes a role decides, with the row locked, before it writes.
pub data Check : Type 0 where
  refused : Error → Check
  same_role : Check
  may_write : Check

unfoldable pub check_last_creator : Faults → ℕ → ℕ → List Membership → Check
check_last_creator faults session_id user_id ms =
    if faults.count_fails
    then refused db_error
    else if length (select (is_other_creator session_id user_id) ms) == 0
    then refused last_creator
    else may_write

unfoldable pub check_role_change : Faults → ℕ → ℕ → String → List Membership → Check
check_role_change faults session_id user_id new_role ms =
    if faults.load_fails
    then refused db_error
    else elim (get_session_membership session_id user_id ms) [
      | none ↦ refused membership_not_found
      | some m ↦
          if str_eq m.role new_role
          then same_role
          else if str_eq m.role "creator" && not (str_eq new_role "creator")
          then check_last_creator faults session_id user_id ms
          else may_write
    ]

unfoldable pub set_role : ℕ → ℕ → String → ℕ → List Membership → List Membership
set_role session_id user_id new_role now ms =
    update_where (is_member session_id user_id)
      (λ m. record m { role = new_role; updated_at = now }) ms

-- The transaction when no other one runs.
unfoldable pub update_session_membership_role :
    Faults → ℕ → ℕ → String → ℕ → List Membership → Option Error × List Membership
update_session_membership_role faults session_id user_id new_role now ms =
    elim (check_role_change faults session_id user_id new_role ms) [
      | refused e ↦ (some e, ms)
      | same_role ↦ (if faults.write_fails then some db_error else none, ms)
      | may_write ↦
          if faults.write_fails
          then (some db_error, ms)
          else (none, set_role session_id user_id new_role now ms)
    ]
