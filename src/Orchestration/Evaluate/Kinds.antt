-- ===== src/Orchestration/Evaluate/Kinds.antt =====
-- What questions and participants an evaluation recommends something about, and what one question
-- gives, kind by kind.
use talkback.Prelude.{
  ℕ, ◌≡◌, Bool, true, false, not, ◌&&◌, Option, none, some, is_some, List, [], ◌∷◌, ◌++◌, refl, sym,
  map, inl, inr, Bool-cases, ◌==◌, str_eq, find, select, select-append, if◌then◌else◌,
}
use talkback.Decisions.Members.{Membership, get_session_memberships}
use talkback.Decisions.Stances.{Session, get_stance_by_user_and_session}
use talkback.Orchestration.Model.{
  Question, Answer, unanswered_question, missing_participant_input, review_draft_answer,
  Recommendation, Faults, Texts,
}
use talkback.Orchestration.Evaluate.{Db, get_latest_answer_by_question_id, has_any_view, for_answer}
use talkback.Orchestration.Advice.{
  is_ai_draft_pending_review, build_unanswered_question_recommendation, build_review_recommendation,
  build_missing_participant_recommendation, participant_ref, trim_or_empty,
}

abbrev pub is_unanswered : Recommendation → Bool
is_unanswered r = elim r.category [ unanswered_question ↦ true | _ ↦ false ]

abbrev pub is_review : Recommendation → Bool
is_review r = elim r.category [ review_draft_answer ↦ true | _ ↦ false ]

abbrev pub is_participant_advice : Recommendation → Bool
is_participant_advice r = elim r.category [ missing_participant_input ↦ true | _ ↦ false ]

module _ (texts : Texts) (faults : Faults) (session_id now : ℕ) (db : Db) where
  -- A question without a parent and without an answer.
  unfoldable pub is_open : Question → Bool
  is_open q =
      not (is_some q.parent_question_id) && not (is_some (get_latest_answer_by_question_id q.id db))

  unfoldable pub draft_of : Option ℕ → Question → Option Answer → List (Question × Answer)
  draft_of (some parent) q answer = []
  draft_of none q none = []
  draft_of none q (some a) = if is_ai_draft_pending_review texts a then (q, a) ∷ [] else []

  -- The questions without a parent whose newest answer is a draft, with it.
  unfoldable pub drafts : List Question → List (Question × Answer)
  drafts [] = []
  drafts (q ∷ qs) =
      draft_of q.parent_question_id q (get_latest_answer_by_question_id q.id db) ++ drafts qs

  -- A participant of the session who has not taken a stance.
  unfoldable pub is_silent : Membership → Bool
  is_silent m =
      str_eq (texts.to_lower (texts.trim_space m.role)) "participant"
      && not (is_some (get_stance_by_user_and_session session_id m.user_id db.stances))

  abbrev pub ask_participant : Membership → Recommendation
  ask_participant m =
      let u = find (λ u. u.id == m.user_id) db.users in
      let ref = participant_ref texts u m.user_id in
      build_missing_participant_recommendation texts session_id m.user_id u
        (has_any_view session_id ref db.material_views)
        (has_any_view session_id ref db.question_views)

  unfoldable pub recs_of : Option ℕ → Question → List Recommendation
  recs_of (some parent) q = []
  recs_of none q =
      for_answer texts faults session_id now db q (get_latest_answer_by_question_id q.id db)

  unfoldable pub recs_of_all : List Question → List Recommendation
  recs_of_all [] = []
  recs_of_all (q ∷ qs) = recs_of q.parent_question_id q ++ recs_of_all qs

  abbrev pub to_review : Question × Answer → Recommendation
  to_review d = build_review_recommendation texts session_id d.0 d.1

  abbrev pub to_answer : Question → Recommendation
  to_answer q = build_unanswered_question_recommendation texts session_id now q

  -- What one question gives, of each kind.
  recs_of-kinds :
      (parent : Option ℕ) (q : Question) (answer : Option Answer)
      → get_latest_answer_by_question_id q.id db ≡ answer
      → (select is_unanswered (recs_of parent q)
          ≡ (if not (is_some parent) && not (is_some answer) then to_answer q ∷ [] else []))
        × ((select is_review (recs_of parent q) ≡ map to_review (draft_of parent q answer))
            × (select is_participant_advice (recs_of parent q) ≡ []))
  unfolding recs_of draft_of for_answer select build_unanswered_question_recommendation
      build_review_recommendation
  recs_of-kinds (some parent) q answer e = (refl, (refl, refl))
  recs_of-kinds none q none e = rw e (refl, (refl, refl))
  recs_of-kinds none q (some a) e = elim (Bool-cases (is_ai_draft_pending_review texts a)) [
    | inl draft ↦ rw (e, draft) (refl, (refl, refl))
    | inr final ↦ rw (e, final) (refl, (refl, refl))
  ]

  -- The recommendations about questions: none is about a participant.
  pub record AboutQuestions (qs : List Question) (recs : List Recommendation) : Type 0 where
    pub unanswered : select is_unanswered recs ≡ map to_answer (select is_open qs)
    pub reviews : select is_review recs ≡ map to_review (drafts qs)
    pub none_missing : select is_participant_advice recs ≡ []

  map-append : {A B : Type 0} (f : A → B) (xs ys : List A) → map f (xs ++ ys) ≡ map f xs ++ map f ys
  map-append f [] ys = refl
  map-append f (x ∷ xs) ys = rw (map-append f xs ys)

  pub recs_of_all-AboutQuestions : (qs : List Question) → AboutQuestions qs (recs_of_all qs)
  unfolding recs_of_all select drafts is_open
  recs_of_all-AboutQuestions [] = record { unanswered = refl; reviews = refl; none_missing = refl }
  recs_of_all-AboutQuestions (q ∷ qs) =
      let rest = recs_of_all-AboutQuestions qs in
      let first = recs_of q.parent_question_id q in
      let (open_, (draft, missing)) = recs_of-kinds q.parent_question_id q _ refl in
      record {
        unanswered =
            rw (select-append is_unanswered first (recs_of_all qs), open_, rest.unanswered)
              (elim (Bool-cases (is_open q)) [ inl e ↦ rw e refl | inr e ↦ rw e refl ]);
        reviews =
            rw (select-append is_review first (recs_of_all qs), draft, rest.reviews)
              (sym (
                map-append to_review
                  (draft_of q.parent_question_id q (get_latest_answer_by_question_id q.id db))
                  (drafts qs)));
        none_missing =
            rw
              (
                select-append is_participant_advice first (recs_of_all qs),
                missing,
                rest.none_missing,
              )
              refl;
      }

  -- Those whom an evaluation asks for a stance.
  unfoldable pub members_asked : Session → List Membership
  members_asked session =
      if str_eq (trim_or_empty texts session.primary_decision) ""
      then []
      else select is_silent (get_session_memberships session_id db.memberships)
