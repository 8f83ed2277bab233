-- ===== src/Tests/Deciding.antt =====
-- Memberships and stances at concrete inputs.
use talkback.Prelude.{ℕ, ◌≡◌, String, true, false, not, ◌&&◌, none, some, List, [], ◌∷◌, refl, find}
use talkback.Decisions.Members.{Membership, Faults, get_session_membership}
use talkback.Decisions.Members.Creators.{
  Change, UniqueMembers, change_all, change_all-has_creator, has_creator,
}
use talkback.Decisions.Members.Skew.{Steps, demotions_skew}
use talkback.Decisions.Stances.{
  Kind, DecisionStance, Session, Request, Texts, is_set, submit_stance, clear_stance,
  get_decision_maker_readiness,
}
use talkback.Decisions.Stances.Closing.{
  UniqueStances, some_decision_maker, all_voted, get_decision_maker_readiness-ready,
}
use talkback.Decisions.Stances.Locked.{Wrote, submit_stance-Wrote}
use talkback.Decisions.Stances.Unique.{requests-UniqueStances}

abbrev member : ℕ → String → Membership
member user_id role = record {
  session_id = 2;
  user_id = user_id;
  role = role;
  invited_by_user_id = none;
  joined_at = 0;
  created_at = 0;
  updated_at = 0;
}

abbrev two_creators : List Membership
two_creators = member 1 "creator" ∷ member 3 "creator" ∷ member 4 "decision_maker" ∷ []

two_creators-UniqueMembers : UniqueMembers two_creators
unfolding UniqueMembers find
two_creators-UniqueMembers = (refl, (refl, (refl, tt)))

abbrev no_faults : Faults
no_faults = record { load_fails = false; count_fails = false; write_fails = false }

abbrev demote : ℕ → Change
demote user_id = record {
  session_id = 2;
  user_id = user_id;
  new_role = "participant";
  now = 9;
  faults = no_faults;
}

change_all-has_creator_example :
    has_creator 2 (change_all (demote 1 ∷ demote 3 ∷ []) two_creators) ≡ true
unfolding find
change_all-has_creator_example =
    change_all-has_creator (demote 1 ∷ demote 3 ∷ []) 2 two_creators two_creators-UniqueMembers refl

demotions_skew_example :
    (ms' : List Membership) × (Steps two_creators [] ms' [] × (has_creator 2 ms' ≡ false))
unfolding get_session_membership find
demotions_skew_example =
    demotions_skew 2 1 3 9 10 two_creators (member 1 "creator") (member 3 "creator") refl refl refl
      refl refl (λ e. refl, (λ e. refl, (λ e. absurd (cc), tt)))

abbrev session : Session
session = record {
  id = 2;
  premise = none;
  primary_decision = some "what";
  decision_outcome = none;
  index_status = "none";
}

abbrev agreed : List DecisionStance
agreed =
    record {
      session_id = 2;
      user_id = 4;
      stance = Kind.agree;
      rationale = none;
      created_at = 1;
      updated_at = 1;
    }
    ∷ []

agreed-UniqueStances : UniqueStances agreed
unfolding UniqueStances find
agreed-UniqueStances = (refl, tt)

get_decision_maker_readiness-ready_example :
    (get_decision_maker_readiness session two_creators agreed).ready_to_close ≡ (
      some_decision_maker 2 two_creators
      && all_voted 2 two_creators agreed
      && is_set session.primary_decision
      && not (is_set session.decision_outcome))
get_decision_maker_readiness-ready_example =
    get_decision_maker_readiness-ready session two_creators agreed agreed-UniqueStances

abbrev texts : Texts
texts = record { trim_space = λ s. s; limit_bytes = λ n s. s }

abbrev request : Request
request = record { stance = "disagree"; rationale = some "cost" }

submit_stance-Wrote_example :
    Wrote texts session 4
      (some request)
      agreed
      (submit_stance texts false (some session) (some request) 4 9 two_creators agreed)
submit_stance-Wrote_example =
    submit_stance-Wrote texts false session (some request) 4 9 two_creators agreed

requests-UniqueStances_example :
    UniqueStances
      (submit_stance texts false (some session) (some request) 4 9 two_creators agreed).1
    × UniqueStances (clear_stance false (some session) 4 two_creators agreed).1
requests-UniqueStances_example =
    requests-UniqueStances texts false (some session) (some request) 4 9 two_creators agreed
      agreed-UniqueStances
