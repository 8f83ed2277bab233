-- ===== src/Tests/Advising.antt =====
-- The guard of drafts, the evaluation of a session and the replacement of its recommendations, at
-- concrete inputs.
use talkback.Prelude.{
  ℕ, ◌≡◌, ◌≤◌, ◌+◌, true, false, not, Option, none, some, List, [], ◌∷◌, ◌++◌, refl, map, arith,
  All, ltb, ◌==◌, str_eq, select, find, length,
}
use talkback.Decisions.Members.{Membership}
use talkback.Decisions.Stances.{Session}
use talkback.Orchestration.Guard.{new_guard, acquire_concurrency, allow_rate}
use talkback.Orchestration.Guard.Window.{Request, answers, Ordered, by_log, answers-new_guard}
use talkback.Orchestration.Guard.Limit.{allowed, is_within, answers-within_limit}
use talkback.Orchestration.Guard.Slots as Slots
use talkback.Orchestration.Guard.Slots.{count, Reached, fresh, Reached-within_limit}
use talkback.Orchestration.Model.{
  Question, Answer, Faults, Texts, ok, Recommendation, Status, is_new, reviewed,
  unanswered_question, no_metadata,
}
use talkback.Orchestration.Evaluate.{
  get_latest_answer_by_question_id, Db, evaluate_session, get_questions_by_session_id,
  max_questions_scan,
}
use talkback.Orchestration.Advice.{
  build_unanswered_question_recommendation, build_review_recommendation,
}
use talkback.Orchestration.Evaluate.Kinds.{
  is_unanswered, is_review, is_participant_advice, is_open, drafts, ask_participant, members_asked,
}
use talkback.Orchestration.Evaluate.Latest.{IsLatest}
use talkback.Orchestration.Evaluate.Complete.{evaluate_session-Complete}
use talkback.Orchestration.Sync.{
  Store, StatusAudit, is_of, sync_session_recommendations, update_status_with_audit,
}
use talkback.Orchestration.Sync.Created.{Outcome, stamped}
use talkback.Orchestration.Sync.Replaced.{of_session, sync_session_recommendations-Replaced}
use talkback.Orchestration.Sync.Explained.{
  IsExplained, last_status, update_status_with_audit-IsExplained,
}

-- Four requests of one user, the last two after the first one is too old to count.
abbrev at_times : List ℕ → List Request
at_times [] = []
at_times (t ∷ ts) = record { user = 1; session = 2; now = t } ∷ at_times ts

abbrev four_requests : List Request
four_requests = at_times (10 ∷ 20 ∷ 30 ∷ 75 ∷ [])

four_requests-Ordered : Ordered 0 four_requests
unfolding Ordered
four_requests-Ordered = (omega arith, (omega arith, (omega arith, (omega arith, tt))))

answers-new_guard_example : answers four_requests (new_guard 2 60 1) ≡ by_log 2 60 [] four_requests
answers-new_guard_example = answers-new_guard 2 60 1 four_requests four_requests-Ordered

third_refused : answers four_requests (new_guard 2 60 1) ≡ true ∷ true ∷ false ∷ true ∷ []
unfolding answers allow_rate select
third_refused = refl

answers-within_limit_example :
    length (
      select
        (is_within 1 2 10 60)
        (allowed four_requests (answers four_requests (new_guard 2 60 1))))
    ≤ 2
answers-within_limit_example =
    answers-within_limit 2 60 1 1 2 10 four_requests four_requests-Ordered

one_running : Reached 15 60 1 (acquire_concurrency 7 (new_guard 15 60 1)).1 (7 ∷ [])
unfolding acquire_concurrency
one_running = Reached.step fresh (Slots.Step.started 7 refl)

Reached-within_limit_example :
    (count 7 (7 ∷ []) ≤ 1)
    × ((acquire_concurrency 7 (acquire_concurrency 7 (new_guard 15 60 1)).1).0
        ≡ ltb (count 7 (7 ∷ [])) 1)
Reached-within_limit_example = Reached-within_limit 15 60 1 7 one_running

abbrev texts : Texts
texts = record {
  trim_space = λ s. s;
  to_lower = λ s. s;
  equal_fold = str_eq;
  byte_length = λ s. 5;
  byte_prefix = λ n s. s;
  show_id = λ n. "id";
  show = λ n. "n";
  round_div = λ d unit. "q";
}

abbrev no_faults : Faults
no_faults s = false

abbrev session : Session
session = record {
  id = 2;
  premise = some "why";
  primary_decision = some "what";
  decision_outcome = none;
  index_status = "ready";
}

abbrev question : ℕ → Option ℕ → Question
question id parent = record {
  id = id;
  session_id = 2;
  parent_question_id = parent;
  question_text = "When?";
  created_at = 5;
}

abbrev draft : Answer
draft = record {
  id = 8;
  question_id = 4;
  model = some "orchestration-draft";
  confirmed = false;
  created_at = 6;
}

abbrev participant : Membership
participant = record {
  session_id = 2;
  user_id = 1;
  role = "participant";
  invited_by_user_id = none;
  joined_at = 0;
  created_at = 0;
  updated_at = 0;
}

-- An open question, a reply to it, a question with a draft, and a participant without a stance.
abbrev db : Db
db = record {
  sessions = session ∷ [];
  questions = question 3 none ∷ question 5 (some 3) ∷ question 4 none ∷ [];
  answers = draft ∷ [];
  memberships = participant ∷ [];
  stances = [];
  users = [];
  material_views = [];
  question_views = [];
  order = λ qs. qs;
}

evaluate_session-Complete_example :
    let questions = get_questions_by_session_id 2 max_questions_scan db in
    (recs : List Recommendation) × ((evaluate_session texts no_faults 2 9 db ≡ ok recs)
      × ((select is_unanswered recs
            ≡ map
                (build_unanswered_question_recommendation texts 2 9)
                (select (is_open texts no_faults 2 9 db) questions))
          × ((select is_review recs
                ≡ map
                    (λ d. build_review_recommendation texts 2 d.0 d.1)
                    (drafts texts no_faults 2 9 db questions))
              × ((select is_participant_advice recs
                    ≡ map
                        (ask_participant texts no_faults 2 9 db)
                        (members_asked texts no_faults 2 9 db session))
                  × ((question_id : ℕ)
                      → IsLatest question_id db.answers
                          (get_latest_answer_by_question_id question_id db))))))
unfolding find
evaluate_session-Complete_example =
    evaluate_session-Complete texts no_faults 2 9 db (λ s. refl) session refl

abbrev old_advice : Recommendation
old_advice = record {
  id = 40;
  session_id = 2;
  category = unanswered_question;
  status = reviewed;
  summary = "old";
  suggested_action = none;
  evidence = [];
  metadata = no_metadata;
  created_at = 1;
  updated_at = 2;
}

abbrev new_advice : Recommendation
new_advice = record old_advice { id = 0; status = is_new; summary = "new" }

abbrev reviewed_store : Store
reviewed_store = record {
  recommendations = old_advice ∷ [];
  audit =
      record {
        session_id = 2;
        recommendation_id = 40;
        actor_user_id = 1;
        from_status = is_new;
        to_status = reviewed;
        client_surface = none;
        created_at = 2;
      }
      ∷ [];
}

sync_session_recommendations-Replaced_example :
    let (result, store') =
      sync_session_recommendations no_faults
        (λ n. 50 + n)
        9
        2
        (ok (new_advice ∷ []))
        reviewed_store in
    (added : List Recommendation) × (Outcome 0
        (stamped (λ n. 50 + n) 9 0 (map (of_session 2) (new_advice ∷ [])))
        added
        result
      × ((select (is_of 2) store'.recommendations ≡ added)
          × ((select (λ r. not (is_of 2 r)) store'.recommendations
                ≡ select (λ r. not (is_of 2 r)) reviewed_store.recommendations)
              × (select (λ a. a.session_id == 2) store'.audit ≡ []))))
unfolding find select
sync_session_recommendations-Replaced_example =
    sync_session_recommendations-Replaced no_faults (λ n. 50 + n) 9 2 (new_advice ∷ [])
      reviewed_store refl ((old_advice, refl), tt)

update_status_with_audit-IsExplained_example :
    let store' =
      (update_status_with_audit false 2 40 Status.dismissed 1 none 12 reviewed_store).1 in
    All (IsExplained store'.audit) store'.recommendations
    × ((new : List StatusAudit) × (store'.audit ≡ reviewed_store.audit ++ new))
unfolding last_status
update_status_with_audit-IsExplained_example =
    update_status_with_audit-IsExplained false 2 40 Status.dismissed 1 none 12 reviewed_store
      (refl, tt)
