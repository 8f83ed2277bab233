-- ===== src/Decisions/Stances.antt =====
-- The stances of the participants on the decision of a session (internal/database/stances.go) and
-- the requests that write them (internal/handlers/session_stances.go). A text of the request is
-- decoded before; the broadcast and the log are left out.
pub mod Closing
pub mod Locked
pub mod Unique
use talkback.Prelude.{
  ℕ, ◌+◌, String, Bool, true, false, not, ◌&&◌, Option, none, some, List, [], ◌∷◌, ◌++◌, ◌==◌,
  str_eq, ltb, length, find, select, update_where, if◌then◌else◌,
}
use talkback.Decisions.Members.{Membership}
use mathlib.Core.Option

-- The values that the table allows, in the order of ValidStances.
pub data Kind : Type 0 where
  agree : Kind
  disagree : Kind
  conditional : Kind
  abstain : Kind
  need_more_info : Kind

unfoldable pub valid_stance : String → Option Kind
valid_stance s =
    if str_eq s "agree"
    then some agree
    else if str_eq s "disagree"
    then some disagree
    else if str_eq s "conditional"
    then some conditional
    else if str_eq s "abstain"
    then some abstain
    else if str_eq s "need_more_info"
    then some need_more_info
    else none

pub record DecisionStance : Type 0 where
  pub session_id : ℕ
  pub user_id : ℕ
  pub stance : Kind
  pub rationale : Option String
  pub created_at : ℕ
  pub updated_at : ℕ

-- session_id = $1 AND user_id = $2
abbrev pub is_stance : ℕ → ℕ → DecisionStance → Bool
is_stance session_id user_id s = (s.session_id == session_id) && (s.user_id == user_id)

unfoldable pub create_or_update_stance :
    ℕ → ℕ → Kind → Option String → ℕ → List DecisionStance → List DecisionStance
create_or_update_stance session_id user_id stance rationale now rows =
    elim (find (is_stance session_id user_id) rows) [
      | some old ↦
          update_where (is_stance session_id user_id)
            (λ s. record s { stance = stance; rationale = rationale; updated_at = now }) rows
      | none ↦
          rows
          ++ record {
            session_id = session_id;
            user_id = user_id;
            stance = stance;
            rationale = rationale;
            created_at = now;
            updated_at = now;
          }
            ∷ []
    ]

unfoldable pub get_stance_by_user_and_session : ℕ → ℕ → List DecisionStance → Option DecisionStance
get_stance_by_user_and_session session_id user_id rows = find (is_stance session_id user_id) rows

unfoldable pub delete_stance : ℕ → ℕ → List DecisionStance → List DecisionStance
delete_stance session_id user_id rows = select (λ s. not (is_stance session_id user_id s)) rows

pub record StanceAggregate : Type 0 where
  pub agree_count : ℕ
  pub disagree_count : ℕ
  pub conditional_count : ℕ
  pub abstain_count : ℕ
  pub need_more_info_count : ℕ
  pub total : ℕ

abbrev pub no_stances : StanceAggregate
no_stances = record {
  agree_count = 0;
  disagree_count = 0;
  conditional_count = 0;
  abstain_count = 0;
  need_more_info_count = 0;
  total = 0;
}

-- One more row of a kind in the counts.
abbrev pub add_stance : Kind → StanceAggregate → StanceAggregate
add_stance agree a = record a { agree_count = a.agree_count + 1; total = a.total + 1 }
add_stance disagree a = record a { disagree_count = a.disagree_count + 1; total = a.total + 1 }
add_stance conditional a = record a {
  conditional_count = a.conditional_count + 1;
  total = a.total + 1;
}
add_stance abstain a = record a { abstain_count = a.abstain_count + 1; total = a.total + 1 }
add_stance need_more_info a = record a {
  need_more_info_count = a.need_more_info_count + 1;
  total = a.total + 1;
}

unfoldable pub count_stances : List DecisionStance → StanceAggregate
count_stances [] = no_stances
count_stances (s ∷ rows) = add_stance s.stance (count_stances rows)

-- GROUP BY stance: each group sets its count and adds to the total.
unfoldable pub get_stance_aggregate : ℕ → List DecisionStance → StanceAggregate
get_stance_aggregate session_id rows = count_stances (select (λ s. s.session_id == session_id) rows)

-- The columns of a session that a decision reads.
pub record Session : Type 0 where
  pub id : ℕ
  pub premise : Option String
  pub primary_decision : Option String
  pub decision_outcome : Option String
  pub index_status : String

-- COALESCE(column, '')
abbrev pub or_empty : Option String → String
or_empty none = ""
or_empty (some s) = s

pub record DecisionMakerReadiness : Type 0 where
  pub decision_maker_total : ℕ
  pub decision_maker_voted : ℕ
  pub ready_to_close : Bool

abbrev pub is_decision_maker : ℕ → Membership → Bool
is_decision_maker session_id m = (m.session_id == session_id) && str_eq m.role "decision_maker"

-- The rows of the join of decision makers and stances.
unfoldable pub count_voted : ℕ → List Membership → List DecisionStance → ℕ
count_voted session_id [] rows = 0
count_voted session_id (m ∷ dms) rows =
    length (select (is_stance session_id m.user_id) rows) + count_voted session_id dms rows

unfoldable pub get_decision_maker_readiness :
    Session → List Membership → List DecisionStance → DecisionMakerReadiness
get_decision_maker_readiness session ms rows =
    let dms = select (is_decision_maker session.id) ms in
    let total = length dms in
    let voted = count_voted session.id dms rows in
    record {
      decision_maker_total = total;
      decision_maker_voted = voted;
      ready_to_close =
          ltb 0 total
          && (voted == total)
          && not (str_eq (or_empty session.primary_decision) "")
          && str_eq (or_empty session.decision_outcome) "";
    }

-- submitStanceRequest.
pub record Request : Type 0 where
  pub stance : String
  pub rationale : Option String

-- What a request is answered, after the path and the method are checked.
pub data Reply : Type 0 where
  session_not_found : Reply
  no_primary_decision : Reply
  stances_locked : Reply
  invalid_body : Reply
  invalid_stance : Reply
  write_failed : Reply
  stances : StanceAggregate → Option DecisionStance → DecisionMakerReadiness → Reply

-- The functions on texts that the handler calls: trim_space, and the first 500 bytes.
pub record Texts : Type 0 where
  pub trim_space : String → String
  pub limit_bytes : ℕ → String → String

abbrev pub is_set : Option String → Bool
is_set text = not (str_eq (or_empty text) "")

-- SessionSubmitStance from the body on; the request is `none` where it cannot be decoded. The reads
-- for the answer are of the table as written.
unfoldable pub save_stance :
    Texts
    → Bool
    → Session
    → Option Request
    → ℕ
    → ℕ
    → List Membership
    → List DecisionStance
    → Reply × List DecisionStance
save_stance texts write_fails session none user_id now ms rows = (invalid_body, rows)
save_stance texts write_fails session (some r) user_id now ms rows =
    elim (valid_stance (texts.trim_space r.stance)) [
      | none ↦ (invalid_stance, rows)
      | some kind ↦
          let rationale = Option.map (texts.limit_bytes 500) r.rationale in
          let rows' = create_or_update_stance session.id user_id kind rationale now rows in
          if write_fails then (write_failed, rows) else (
            stances (get_stance_aggregate session.id rows')
                (get_stance_by_user_and_session session.id user_id rows')
                (get_decision_maker_readiness session ms rows'),
            rows',
          )
    ]

-- SessionSubmitStance; the session is `none` where the look-up fails.
unfoldable pub submit_stance :
    Texts
    → Bool
    → Option Session
    → Option Request
    → ℕ
    → ℕ
    → List Membership
    → List DecisionStance
    → Reply × List DecisionStance
submit_stance texts write_fails none request user_id now ms rows = (session_not_found, rows)
submit_stance texts write_fails (some session) request user_id now ms rows =
    if not (is_set session.primary_decision)
    then (no_primary_decision, rows)
    else if is_set session.decision_outcome
    then (stances_locked, rows)
    else save_stance texts write_fails session request user_id now ms rows

-- SessionDeleteStance.
unfoldable pub clear_stance :
    Bool → Option Session → ℕ → List Membership → List DecisionStance → Reply × List DecisionStance
clear_stance write_fails none user_id ms rows = (session_not_found, rows)
clear_stance write_fails (some session) user_id ms rows =
    if is_set session.decision_outcome
    then (stances_locked, rows)
    else if write_fails
    then (write_failed, rows)
    else let rows' = delete_stance session.id user_id rows in
      (
        stances (get_stance_aggregate session.id rows') none
            (get_decision_maker_readiness session ms rows'),
        rows',
      )
