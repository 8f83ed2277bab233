-- ===== src/Decisions/Stances/Closing.antt =====
-- When a session can be closed, and the counts of its stances.
use talkback.Prelude.{
  ℕ, ◌≡◌, ◌≤◌, Bool, true, not, ◌&&◌, none, is_some, List, [], ◌∷◌, refl, inl, inr, Bool-cases,
  ◌==◌, ltb, length, find, select, if◌then◌else◌, arith,
}
use talkback.Decisions.Members.{Membership}
use talkback.Decisions.Stances.{
  DecisionStance, is_stance, get_stance_by_user_and_session, Session, is_set, is_decision_maker,
  count_voted, get_decision_maker_readiness,
}

-- UNIQUE (session_id, user_id)
unfoldable pub UniqueStances : List DecisionStance → Type 0
UniqueStances [] = Unit
UniqueStances (s ∷ rows) =
    (find (is_stance s.session_id s.user_id) rows ≡ none) × UniqueStances rows

-- Each decision maker among the members has a stance.
unfoldable pub all_voted : ℕ → List Membership → List DecisionStance → Bool
all_voted session_id [] rows = true
all_voted session_id (m ∷ ms) rows =
    let rest = all_voted session_id ms rows in
    if is_decision_maker session_id m
    then is_some (get_stance_by_user_and_session session_id m.user_id rows) && rest
    else rest

unfoldable pub some_decision_maker : ℕ → List Membership → Bool
some_decision_maker session_id ms = is_some (find (is_decision_maker session_id) ms)

nothing_selected :
    (p : DecisionStance → Bool) (rows : List DecisionStance)
    → find p rows ≡ none
    → length (select p rows) ≡ 0
unfolding find select
nothing_selected p [] h = refl
nothing_selected p (s ∷ rows) h = ground (arith, nothing_selected p rows)

length-select_stance :
    (session_id user_id : ℕ) (rows : List DecisionStance)
    → UniqueStances rows
    → length (select (is_stance session_id user_id) rows)
      ≡ (if is_some (get_stance_by_user_and_session session_id user_id rows) then 1 else 0)
unfolding UniqueStances find select get_stance_by_user_and_session
length-select_stance session_id user_id [] h = refl
length-select_stance session_id user_id (s ∷ rows) (alone, unique) =
    elim (Bool-cases (is_stance session_id user_id s)) [
      | inl e ↦
          let session : s.session_id ≡ session_id = ground arith in
          let user : s.user_id ≡ user_id = ground arith in
          let rest =
            nothing_selected (is_stance session_id user_id) rows (rw (session, user) at alone) in
          rw (e, rest) refl
      | inr e ↦ rw e (length-select_stance session_id user_id rows unique)
    ]

count_voted_le :
    (session_id : ℕ) (ms : List Membership) (rows : List DecisionStance)
    → UniqueStances rows
    → count_voted session_id ms rows ≤ length ms
unfolding count_voted
count_voted_le session_id [] rows unique = omega arith
count_voted_le session_id (m ∷ ms) rows unique = ground (
  arith,
  length-select_stance session_id m.user_id rows unique,
  count_voted_le session_id ms rows unique,
)

count_voted-all_voted :
    (session_id : ℕ) (ms : List Membership) (rows : List DecisionStance)
    → UniqueStances rows
    → (count_voted session_id (select (is_decision_maker session_id) ms) rows
        == length (select (is_decision_maker session_id) ms))
      ≡ all_voted session_id ms rows
unfolding count_voted all_voted select
count_voted-all_voted session_id [] rows unique = refl
count_voted-all_voted session_id (m ∷ ms) rows unique = ground (
  arith,
  length-select_stance session_id m.user_id rows unique,
  count_voted_le session_id (select (is_decision_maker session_id) ms) rows unique,
  count_voted-all_voted session_id ms rows unique,
)

some_selected :
    (session_id : ℕ) (ms : List Membership)
    → ltb 0 (length (select (is_decision_maker session_id) ms)) ≡ some_decision_maker session_id ms
unfolding some_decision_maker select find
some_selected session_id [] = refl
some_selected session_id (m ∷ ms) = ground (arith, some_selected session_id ms)

-- Where no user has two stances in one session, the session is ready to close if and only if it has
-- a decision maker, each of its decision makers has a stance, its primary decision is set and its
-- outcome is not.
pub get_decision_maker_readiness-ready :
    (session : Session) (ms : List Membership) (rows : List DecisionStance)
    → UniqueStances rows
    → (get_decision_maker_readiness session ms rows).ready_to_close ≡ (
        some_decision_maker session.id ms
        && all_voted session.id ms rows
        && is_set session.primary_decision
        && not (is_set session.decision_outcome))
unfolding get_decision_maker_readiness
get_decision_maker_readiness-ready session ms rows unique =
    rw (some_selected session.id ms, count_voted-all_voted session.id ms rows unique) (ground arith)
