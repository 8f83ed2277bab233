-- ===== src/Orchestration/Evaluate.antt =====
-- The evaluation of a session (internal/orchestration/evaluator.go).
pub mod Latest
pub mod Complete
pub mod Kinds
use talkback.Prelude.{
  ℕ, suc, ◌+◌, ◌-◌, ◌*◌, ◌/◌, String, Bool, true, false, not, ◌&&◌, ◌||◌, Option, none, some, List,
  [], ◌∷◌, ◌++◌, ltb, leb, ◌==◌, str_eq, length, take, find, select, if◌then◌else◌,
}
use talkback.Prelude.Int.{ℤ, pos, negsuc, sub_ℕ, pos_part, ltb_ℤ}
use Prim.Native.String.{◌++◌ as cat}
use mathlib.Core.Option
use talkback.Decisions.Members.{Membership, get_session_memberships}
use talkback.Decisions.Stances.{
  Session, DecisionStance, get_stance_by_user_and_session, get_stance_aggregate,
}
use talkback.Orchestration.Model.{
  Question, Answer, User, View, Category, unanswered_question, missing_participant_input,
  review_draft_answer, decision_readiness, is_new, EvidenceRef, Metadata, no_metadata,
  about_question, about_participant, readiness, Recommendation, Statement, get_session,
  list_questions, answer_for, list_memberships, stance_of, user_of, material_views_of,
  question_views_of, stance_aggregate, Faults, Result, failed, ok, ◌>>=◌, read, Texts,
}
use talkback.Orchestration.Advice.{
  build_missing_participant_recommendation, build_review_recommendation,
  build_unanswered_question_recommendation, humanize_duration, inputs_complete, inputs_incomplete,
  is_ai_draft_pending_review, label_of, overdue_unanswered_after, participant_ref, trim_or_empty,
  truncate, whole_seconds,
}

-- The tables. Which questions come first is left to the database.
pub record Db : Type 0 where
  pub sessions : List Session
  pub questions : List Question
  pub answers : List Answer
  pub memberships : List Membership
  pub stances : List DecisionStance
  pub users : List User
  pub material_views : List View
  pub question_views : List View
  pub order : List Question → List Question

abbrev pub max_questions_scan : ℕ
max_questions_scan = 500

-- GetQuestionsBySessionID; the answers that it returns too are not used.
unfoldable pub get_questions_by_session_id : ℕ → ℕ → Db → List Question
get_questions_by_session_id session_id limit db =
    take (if limit == 0 then 20 else limit)
      (db.order (select (λ q. q.session_id == session_id) db.questions))

-- The newest answer; of several at one time the first of the table, which the statement leaves open.
unfoldable pub newest : List Answer → Option Answer
newest [] = none
newest (a ∷ rest) = elim (newest rest) [
  | none ↦ some a
  | some b ↦ if ltb a.created_at b.created_at then some b else some a
]

unfoldable pub get_latest_answer_by_question_id : ℕ → Db → Option Answer
get_latest_answer_by_question_id question_id db =
    newest (select (λ a. a.question_id == question_id) db.answers)

unfoldable pub has_any_view : ℕ → String → List View → Bool
has_any_view session_id ref views =
    ltb 0 (length (select (λ v. (v.session_id == session_id) && str_eq v.seen_by ref) views))

module _ (texts : Texts) where
  module _ (faults : Faults) (session_id now : ℕ) (db : Db) where
    -- What the answer to a question without a parent gives.
    unfoldable pub for_answer : Question → Option Answer → List Recommendation
    for_answer q none = build_unanswered_question_recommendation texts session_id now q ∷ []
    for_answer q (some a) =
        if is_ai_draft_pending_review texts a
        then build_review_recommendation texts session_id q a ∷ []
        else []

    unfoldable pub for_question : Question → Result (List Recommendation)
    for_question q = elim q.parent_question_id [
      | some parent ↦ ok []
      | none ↦
          read faults (answer_for q.id) (get_latest_answer_by_question_id q.id db) >>= λ answer.
          ok (for_answer q answer)
    ]

    unfoldable pub for_questions : List Question → Result (List Recommendation)
    for_questions [] = ok []
    for_questions (q ∷ qs) =
        for_question q >>= λ first. for_questions qs >>= λ rest. ok (first ++ rest)

    -- A participant without a stance.
    unfoldable pub for_silent : ℕ → Result (List Recommendation)
    for_silent user_id =
        read faults (user_of user_id) (find (λ u. u.id == user_id) db.users) >>= λ u.
        let ref = participant_ref texts u user_id in
        read faults (material_views_of user_id) (has_any_view session_id ref db.material_views)
        >>= λ mat_view.
            read faults (question_views_of user_id) (has_any_view session_id ref db.question_views)
            >>= λ q_view. ok (
                build_missing_participant_recommendation texts session_id user_id u mat_view q_view
                ∷ [])

    unfoldable pub for_member : Membership → Result (List Recommendation)
    for_member m =
        if not (str_eq (texts.to_lower (texts.trim_space m.role)) "participant")
        then ok []
        else (read faults (stance_of m.user_id)
              (get_stance_by_user_and_session session_id m.user_id db.stances)
            >>= λ stance. elim stance [ some s ↦ ok [] | none ↦ for_silent m.user_id ])

    unfoldable pub for_members : List Membership → Result (List Recommendation)
    for_members [] = ok []
    for_members (m ∷ ms) = for_member m >>= λ first. for_members ms >>= λ rest. ok (first ++ rest)

    unfoldable pub for_participants : Session → Result (List Recommendation)
    for_participants session =
        if str_eq (trim_or_empty texts session.primary_decision) ""
        then ok []
        else (read faults list_memberships (get_session_memberships session_id db.memberships)
            >>= λ members. for_members members)

    unfoldable pub for_readiness : Session → Result (List Recommendation)
    for_readiness session =
        if str_eq (trim_or_empty texts session.premise) ""
          || str_eq (trim_or_empty texts session.primary_decision) ""
        then ok (inputs_incomplete texts session_id ∷ [])
        else if texts.equal_fold (texts.trim_space session.index_status) "ready"
        then (read faults stance_aggregate (get_stance_aggregate session_id db.stances) >>= λ agg.
            ok (if ltb 0 agg.total then inputs_complete texts session_id ∷ [] else []))
        else ok []

    -- A session that is not found is an error of its look-up.
    unfoldable pub evaluate_session : Result (List Recommendation)
    evaluate_session =
        read faults get_session (find (λ s. s.id == session_id) db.sessions) >>= λ found.
        elim found [
          | none ↦ failed get_session
          | some session ↦
              read faults list_questions
                (get_questions_by_session_id session_id max_questions_scan db)
              >>= λ questions. for_questions questions >>= λ about_questions.
                  for_participants session >>= λ about_members.
                  for_readiness session >>= λ ready. ok (about_questions ++ about_members ++ ready)
        ]
