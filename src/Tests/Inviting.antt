-- ===== src/Tests/Inviting.antt =====
-- Invitations at concrete inputs: one user of the invited address, members as a list.
use talkback.Prelude.{
  ℕ, true, false, none, some, List, [], ◌∷◌, ◌≡◌, refl, str_eq, eq_iff, find, update_where,
  if◌then◌else◌,
}
use Prim.Native.String.{◌++◌}
use mathlib.Core.Bool.{false≢true}
use talkback.Invitations.Model.{
  participant, pending, Invitation, invalid_token, was_revoked, already_accepted, failed, succeeded,
  Delivery, ResolveResult,
}
use talkback.Invitations.Repository.{
  get_by_id, get_by_token_hash, insert, update_token_and_expiry,
  revoke_pending_by_session_and_email,
}
use talkback.Invitations.Service.{
  Outside, Db, Faults, new_invitation, create_error, create, replace_pending, deliver, lookup_id,
  lookup_token,
}
use talkback.Invitations.Service.Pending.{Replaced, create-Replaced}
use talkback.Invitations.Accept.{
  usable_error, accept, register_and_accept, resolve, resolved, accept_found, join,
}
use talkback.Invitations.Accept.Joined.{Joined, accept-Joined}
use talkback.Invitations.Accept.Once.{accept_once}
use talkback.Invitations.Manage.{get_accept_url, rotate_token, revoke}
use talkback.Invitations.Manage.Links.{get_accept_url_old_link}
use talkback.Invitations.Manage.Revoked.{revoke_pending_lem}

-- The members of the only session.
abbrev Members : Type 0
Members = List ℕ

abbrev env : Outside Members
env = record {
  trim_space = λ s. s;
  to_lower = λ s. s;
  trim_suffix = λ s t. s;
  show = λ n. "n";
  sha256_hex = λ s. "h" ++ s;
  app_base_url = "https://app";
  expiry_hours = 0;
  get_session_title = λ id w. "Review";
  get_user_display_name = λ id w. "Ann";
  get_user_email = λ id w. "ann@x";
  send = none;
  is_already_member = λ id email w. false;
  account_exists = λ email w. true;
  get_user_id = λ email w. if str_eq email "bob@x" then some 7 else none;
  create_user = λ email name hash w. (succeeded 8, w);
  create_membership = λ session user role inviter w. (none, user ∷ w);
}

abbrev no_faults : Faults
no_faults = record { lookup_fails = false; revoke_fails = false; write_fails = false }

abbrev invited : Invitation
invited = new_invitation env 1 5 2 "bob@x" participant "t" 100

abbrev one_invited : Db Members
one_invited = record { invitations = invited ∷ []; outside = [] }

abbrev second : Delivery
second = record {
  invitation = record (new_invitation env 2 5 2 "bob@x" participant "u" 200) { token_hash = "" };
  accept_url = "https://app/accept-invite?token=u";
  session_title = "Review";
  inviter_name = "Ann";
  inviter_email = "ann@x";
}

create-Replaced_example :
    (create_error env 5 "bob@x" participant [] ≡ none)
    × Replaced "hu" 5 "bob@x"
        (new_invitation env 2 5 2 "bob@x" participant "u" 200)
        (invited ∷ [])
        (create env no_faults (some "u") 2 5 2 "bob@x" participant 200 one_invited).1.invitations
unfolding create create_error replace_pending deliver insert get_by_id get_by_token_hash
    revoke_pending_by_session_and_email update_where find
create-Replaced_example =
    create-Replaced env no_faults "u" 2 5 2 "bob@x" participant 200 one_invited second refl refl

accept-Joined_example :
    Joined env "t" "bob@x" 150 5 one_invited (accept env no_faults "t" "bob@x" 150 one_invited).1
unfolding accept lookup_token get_by_token_hash find accept_found usable_error join
accept-Joined_example = accept-Joined env no_faults "t" "bob@x" 150 one_invited 5 refl

accept_once_example :
    (accept env no_faults "t" "eve@x" 160 (accept env no_faults "t" "bob@x" 150 one_invited).1
      ≡ (failed already_accepted, (accept env no_faults "t" "bob@x" 150 one_invited).1))
    × (register_and_accept env no_faults "t" "Eve" "pw" 160
          (accept env no_faults "t" "bob@x" 150 one_invited).1
        ≡ (failed already_accepted, (accept env no_faults "t" "bob@x" 150 one_invited).1))
unfolding accept lookup_token get_by_token_hash find accept_found usable_error join
accept_once_example =
    accept_once env no_faults "t" "bob@x" 150 one_invited 5 refl no_faults "eve@x" "Eve" "pw" 160
      refl

abbrev page : ResolveResult
page = resolved env invited pending one_invited

get_accept_url_old_link_example :
    (resolve env no_faults "t" 160 (get_accept_url env no_faults (some "u") 1 150 one_invited).1
      ≡ failed invalid_token)
    × ((accept env no_faults "t" "bob@x" 160
          (get_accept_url env no_faults (some "u") 1 150 one_invited).1).0
        ≡ failed invalid_token)
unfolding get_accept_url rotate_token lookup_id get_by_id find usable_error update_token_and_expiry
get_accept_url_old_link_example =
    get_accept_url_old_link env no_faults "u" "t" 1 150 one_invited
      "https://app/accept-invite?token=u" refl (λ p. false≢true ((eq_iff "ht" "hu").1 p))
      (λ e. refl, tt) no_faults "bob@x" 160

revoke_pending_lem_example :
    ((revoke env no_faults 1 150 one_invited).0 ≡ none)
    × ((resolve env no_faults "t" 160 (revoke env no_faults 1 150 one_invited).1
          ≡ failed was_revoked)
        × ((accept env no_faults "t" "bob@x" 160 (revoke env no_faults 1 150 one_invited).1).0
            ≡ failed already_accepted))
unfolding get_by_id get_by_token_hash find
revoke_pending_lem_example =
    revoke_pending_lem env no_faults 1 150 one_invited invited "t" refl refl refl refl refl refl
      no_faults "bob@x" 160 refl
