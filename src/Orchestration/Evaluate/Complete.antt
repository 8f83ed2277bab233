-- ===== src/Orchestration/Evaluate/Complete.antt =====
-- What an evaluation recommends, kind by kind.
use talkback.Prelude.{
  ℕ, ◌≡◌, ◌≤◌, Bool, false, ◌||◌, Option, none, some, List, [], ◌∷◌, ◌++◌, refl, map, inl, inr,
  Bool-cases, Option-cases, ◌==◌, str_eq, ltb, length, find, select, select-append, if◌then◌else◌,
  arith, All,
}
use talkback.Decisions.Members.{Membership, get_session_memberships}
use talkback.Decisions.Stances.{Session, get_stance_by_user_and_session, get_stance_aggregate}
use talkback.Orchestration.Model.{
  Question, decision_readiness, Recommendation, Statement, stance_of, user_of, material_views_of,
  question_views_of, list_memberships, list_questions, get_session, stance_aggregate, Faults, ok,
  ◌>>=◌, read, Texts,
}
use talkback.Orchestration.Evaluate.{
  Db, get_questions_by_session_id, max_questions_scan, get_latest_answer_by_question_id,
  has_any_view, for_answer, for_question, for_questions, for_silent, for_member, for_members,
  for_participants, for_readiness, evaluate_session,
}
use talkback.Orchestration.Advice.{
  build_unanswered_question_recommendation, build_review_recommendation,
  build_missing_participant_recommendation, participant_ref, trim_or_empty, inputs_incomplete,
  inputs_complete,
}
use talkback.Orchestration.Evaluate.Latest.{IsLatest, get_latest_answer_by_question_id-IsLatest}
use talkback.Orchestration.Evaluate.Kinds.{
  is_unanswered, is_review, is_participant_advice, is_open, drafts, is_silent, ask_participant,
  recs_of, recs_of_all, recs_of_all-AboutQuestions, members_asked,
}

module _ (texts : Texts) (faults : Faults) (session_id now : ℕ) (db : Db) where
  module _ (works : (s : Statement) → faults s ≡ false) where
    read-ok : {A : Type 0} (s : Statement) (a : A) → read faults s a ≡ ok a
    unfolding read
    read-ok s a = rw (works s) refl

    for_question-ok :
        (q : Question)
        → for_question texts faults session_id now db q
          ≡ ok ((recs_of texts faults session_id now db) q.parent_question_id q)
    unfolding for_question recs_of ◌>>=◌
    for_question-ok q = of_parent q.parent_question_id
      where
        of_parent :
            (parent : Option ℕ)
            → (elim parent [
              | some p ↦ ok []
              | none ↦
                  read faults (Statement.answer_for q.id) (get_latest_answer_by_question_id q.id db)
                  >>= λ answer. ok (for_answer texts faults session_id now db q answer)
            ])
              ≡ ok ((recs_of texts faults session_id now db) parent q)
        of_parent (some p) = refl
        of_parent none =
            rw (read-ok (Statement.answer_for q.id) (get_latest_answer_by_question_id q.id db)) refl

    for_questions-ok :
        (qs : List Question)
        → for_questions texts faults session_id now db qs
          ≡ ok ((recs_of_all texts faults session_id now db) qs)
    unfolding for_questions recs_of_all ◌>>=◌
    for_questions-ok [] = refl
    for_questions-ok (q ∷ qs) = rw (for_question-ok q, for_questions-ok qs) refl

    for_silent-ok :
        (m : Membership)
        → for_silent texts faults session_id now db m.user_id
          ≡ ok ((ask_participant texts faults session_id now db) m ∷ [])
    unfolding for_silent ◌>>=◌
    for_silent-ok m =
        let u = find (λ u. u.id == m.user_id) db.users in
        let ref = participant_ref texts u m.user_id in
        rw
          (
            read-ok (user_of m.user_id) u,
            read-ok (material_views_of m.user_id) (has_any_view session_id ref db.material_views),
            read-ok (question_views_of m.user_id) (has_any_view session_id ref db.question_views),
          )
          refl

    for_member-ok :
        (m : Membership)
        → for_member texts faults session_id now db m
          ≡ ok (
              if (is_silent texts faults session_id now db) m
              then (ask_participant texts faults session_id now db) m ∷ []
              else [])
    unfolding for_member is_silent ◌>>=◌
    for_member-ok m =
        elim (Bool-cases (str_eq (texts.to_lower (texts.trim_space m.role)) "participant")) [
          | inr other ↦ rw other refl
          | inl participant ↦
              elim (Option-cases (get_stance_by_user_and_session session_id m.user_id db.stances)) [
                | inl silent ↦
                    rw
                      (
                        participant,
                        read-ok (stance_of m.user_id)
                            (get_stance_by_user_and_session session_id m.user_id db.stances),
                        silent,
                      )
                      (for_silent-ok m)
                | inr (s, spoke) ↦
                    rw
                      (
                        participant,
                        read-ok (stance_of m.user_id)
                            (get_stance_by_user_and_session session_id m.user_id db.stances),
                        spoke,
                      )
                      refl
              ]
        ]

    for_members-ok :
        (ms : List Membership)
        → for_members texts faults session_id now db ms
          ≡ ok (
              map
                (ask_participant texts faults session_id now db)
                (select (is_silent texts faults session_id now db) ms))
    unfolding for_members select ◌>>=◌
    for_members-ok [] = refl
    for_members-ok (m ∷ ms) = elim (Bool-cases ((is_silent texts faults session_id now db) m)) [
      | inl e ↦ rw (for_member-ok m, for_members-ok ms, e) refl
      | inr e ↦ rw (for_member-ok m, for_members-ok ms, e) refl
    ]

    -- At most one recommendation, of the kind of readiness.
    for_readiness-ok :
        (session : Session)
        → (recs : List Recommendation) × ((for_readiness texts faults session_id now db session
              ≡ ok recs)
            × ((All (λ r. r.category ≡ decision_readiness) recs) × (length recs ≤ 1)))
    unfolding for_readiness ◌>>=◌
    for_readiness-ok session =
        elim (Bool-cases (
          str_eq (trim_or_empty texts session.premise) ""
          || str_eq (trim_or_empty texts session.primary_decision) "")) [
            | inl unset ↦ (
              inputs_incomplete texts session_id ∷ [],
              (rw unset refl, ((refl, tt), omega arith)),
            )
            | inr set ↦
                elim (Bool-cases
                  (texts.equal_fold (texts.trim_space session.index_status) "ready")) [
                    | inr waits ↦ ([], (rw (set, waits) refl, (tt, omega arith)))
                    | inl indexed ↦
                        let agg = get_stance_aggregate session_id db.stances in
                        elim (Bool-cases (ltb 0 agg.total)) [
                          | inl voted ↦ (
                            inputs_complete texts session_id ∷ [],
                            (
                              rw (set, indexed, read-ok stance_aggregate agg, voted) refl,
                              ((refl, tt), omega arith),
                            ),
                          )
                          | inr silent ↦ (
                            [],
                            (
                              rw (set, indexed, read-ok stance_aggregate agg, silent) refl,
                              (tt, omega arith),
                            ),
                          )
                        ]
                  ]
          ]

    for_participants-ok :
        (session : Session)
        → for_participants texts faults session_id now db session
          ≡ ok (
              map
                (ask_participant texts faults session_id now db)
                ((members_asked texts faults session_id now db) session))
    unfolding for_participants members_asked ◌>>=◌
    for_participants-ok session =
        elim (Bool-cases (str_eq (trim_or_empty texts session.primary_decision) "")) [
          | inl unset ↦ rw unset refl
          | inr set ↦
              let members = get_session_memberships session_id db.memberships in
              rw (set, read-ok list_memberships members) (for_members-ok members)
        ]

    evaluate_session-ok :
        (session : Session)
        → find (λ s. s.id == session_id) db.sessions ≡ some session
        → evaluate_session texts faults session_id now db
          ≡ ok (
              (recs_of_all texts faults session_id now db)
                (get_questions_by_session_id session_id max_questions_scan db)
              ++ map
                  (ask_participant texts faults session_id now db)
                  ((members_asked texts faults session_id now db) session)
              ++ (for_readiness-ok session).0)
    unfolding evaluate_session ◌>>=◌
    evaluate_session-ok session found =
        let questions = get_questions_by_session_id session_id max_questions_scan db in
        rw
          (
            read-ok get_session (find (λ s. s.id == session_id) db.sessions),
            found,
            read-ok list_questions questions,
            for_questions-ok questions,
            for_participants-ok session,
            (for_readiness-ok session).1.0,
          )
          refl

    select-ask_participant :
        (ms : List Membership)
        → (select is_unanswered (map (ask_participant texts faults session_id now db) ms) ≡ [])
          × ((select is_review (map (ask_participant texts faults session_id now db) ms) ≡ [])
              × (select is_participant_advice
                    (map (ask_participant texts faults session_id now db) ms)
                  ≡ map (ask_participant texts faults session_id now db) ms))
    unfolding select build_missing_participant_recommendation
    select-ask_participant [] = (refl, (refl, refl))
    select-ask_participant (m ∷ ms) =
        let (a, (b, c)) = select-ask_participant ms in (rw a, (rw b, rw c))

    select-readiness :
        (recs : List Recommendation)
        → All (λ r. r.category ≡ decision_readiness) recs
        → (select is_unanswered recs ≡ [])
          × ((select is_review recs ≡ []) × (select is_participant_advice recs ≡ []))
    unfolding select
    select-readiness [] h = (refl, (refl, refl))
    select-readiness (r ∷ recs) (h, hs) =
        let (a, (b, c)) = select-readiness recs hs in
        (rw (h, a) refl, (rw (h, b) refl, rw (h, c) refl))

append-nil : (rs : List Recommendation) → rs ++ [] ≡ rs
append-nil [] = refl
append-nil (r ∷ rs) = rw (append-nil rs)

select-three :
    (p : Recommendation → Bool) (xs ys zs : List Recommendation)
    → select p zs ≡ []
    → select p (xs ++ ys ++ zs) ≡ select p xs ++ select p ys
select-three p xs ys zs h =
    rw (select-append p (xs ++ ys) zs, select-append p xs ys, h, append-nil) refl

-- An evaluation in which no statement fails, of a session that exists, returns one recommendation
-- for each of its questions, of the 500 that are read, that has no parent and no answer, one for
-- each without a parent whose newest answer is a draft, and, if the primary decision is set, one for
-- each participant without a stance, each kind in the order of the questions and of the members.
-- The newest answer of a question, by which they are told apart, is one of its answers of which none
-- is later, and is missing only if the question has no answer.
pub evaluate_session-Complete :
    (texts : Texts) (faults : Faults) (session_id now : ℕ) (db : Db)
    → ((s : Statement) → faults s ≡ false)
    → (session : Session) → find (λ s. s.id == session_id) db.sessions ≡ some session
    → let questions = get_questions_by_session_id session_id max_questions_scan db in
      (recs : List Recommendation) × ((evaluate_session texts faults session_id now db ≡ ok recs)
        × ((select is_unanswered recs
              ≡ map
                  (build_unanswered_question_recommendation texts session_id now)
                  (select (is_open texts faults session_id now db) questions))
            × ((select is_review recs
                  ≡ map
                      (λ d. build_review_recommendation texts session_id d.0 d.1)
                      (drafts texts faults session_id now db questions))
                × ((select is_participant_advice recs
                      ≡ map
                          (ask_participant texts faults session_id now db)
                          (members_asked texts faults session_id now db session))
                    × ((question_id : ℕ)
                        → IsLatest question_id db.answers
                            (get_latest_answer_by_question_id question_id db))))))
evaluate_session-Complete texts faults session_id now db works session found =
    let questions = get_questions_by_session_id session_id max_questions_scan db in
    let first = recs_of_all texts faults session_id now db questions in
    let asked = members_asked texts faults session_id now db session in
    let middle = map (ask_participant texts faults session_id now db) asked in
    let (last, (e, (ready, short))) =
      for_readiness-ok texts faults session_id now db works session in
    let about = recs_of_all-AboutQuestions texts faults session_id now db questions in
    let (open_, (drafted, missing)) =
      select-ask_participant texts faults session_id now db works asked in
    let (no_open, (no_draft, no_missing)) =
      select-readiness texts faults session_id now db works last ready in
    (
      first ++ middle ++ last,
      (
        evaluate_session-ok texts faults session_id now db works session found,
        (
          rw (select-three is_unanswered first middle last no_open, open_, append-nil)
              about.unanswered,
          (
            rw (select-three is_review first middle last no_draft, drafted, append-nil)
                about.reviews,
            (
              rw
                  (
                    select-three is_participant_advice first middle last no_missing,
                    about.none_missing,
                  )
                  missing,
              λ question_id. get_latest_answer_by_question_id-IsLatest question_id db,
            ),
          ),
        ),
      ),
    )
