-- ===== src/Orchestration/Advice.antt =====
-- The texts and the recommendations that an evaluation builds (internal/orchestration/evaluator.go).
use talkback.Prelude.{
  ℕ, suc, ◌-◌, ◌*◌, ◌/◌, String, Bool, false, not, ◌||◌, Option, none, some, [], ◌∷◌, ltb, leb,
  str_eq, if◌then◌else◌,
}
use talkback.Prelude.Int.{ℤ, pos, negsuc, sub_ℕ, pos_part, ltb_ℤ}
use Prim.Native.String.{◌++◌ as cat}
use talkback.Orchestration.Model.{
  Question, Answer, User, unanswered_question, missing_participant_input, review_draft_answer,
  decision_readiness, is_new, no_metadata, about_question, about_participant, readiness,
  Recommendation, Texts,
}

abbrev second : ℕ
second = 1000000000

abbrev minute : ℕ
minute = 60 * second

abbrev hour : ℕ
hour = 60 * minute

-- OverdueUnansweredAfter, 48 hours.
abbrev pub overdue_unanswered_after : ℕ
overdue_unanswered_after = 48 * hour

module _ (texts : Texts) where
  unfoldable pub truncate : String → ℕ → String
  truncate s max =
      let trimmed = texts.trim_space s in
      if leb (texts.byte_length trimmed) max
      then trimmed
      else if leb max 3
      then "..."
      else cat (texts.byte_prefix (max - 3) trimmed) "..."

  -- humanizeDuration, of a duration that is not negative or was set to 0.
  unfoldable pub humanize_duration : ℕ → String
  humanize_duration d =
      if ltb d minute
      then "under 1m"
      else if ltb d hour
      then cat (texts.show (d / minute)) "m"
      else if ltb d (24 * hour)
      then cat (texts.round_div d hour) "h"
      else cat (texts.round_div d (24 * hour)) "d"

  unfoldable pub is_ai_draft_pending_review : Answer → Bool
  is_ai_draft_pending_review a = if a.confirmed then false else elim a.model [
    | none ↦ false
    | some model ↦
        let m = texts.trim_space model in not (str_eq m "" || texts.equal_fold m "manual")
  ]

  unfoldable pub participant_ref : Option User → ℕ → String
  participant_ref none user_id = texts.show_id user_id
  participant_ref (some u) user_id =
      let e = texts.trim_space u.email in
      if str_eq e "" then texts.show_id user_id else texts.to_lower e

  -- int64(d.Seconds()), which rounds to zero.
  unfoldable pub whole_seconds : ℤ → ℤ
  whole_seconds (pos n) = pos (n / second)
  whole_seconds (negsuc n) = sub_ℕ 0 (suc n / second)

  unfoldable pub build_unanswered_question_recommendation : ℕ → ℕ → Question → Recommendation
  build_unanswered_question_recommendation session_id now q =
      let age = sub_ℕ now q.created_at in
      let overdue = not (ltb_ℤ age (pos overdue_unanswered_after)) in
      let age_text = humanize_duration (pos_part age) in
      record {
        id = 0;
        session_id = session_id;
        category = unanswered_question;
        status = is_new;
        summary =
            if overdue
            then cat "Overdue unanswered question (open " (
                cat age_text (
                  cat ", threshold " (
                    cat (humanize_duration overdue_unanswered_after)
                      (cat "): " (truncate q.question_text 100)))))
            else cat "Unanswered question (open "
                (cat age_text (cat "): " (truncate q.question_text 110)));
        suggested_action = some (
            if overdue
            then "Prioritize answering or explicitly defer this question so participants are not blocked."
            else "Review the question and add or generate an answer.");
        evidence =
            record {
              source_type = "question";
              source_id = none;
              question_id = some q.id;
              answer_id = none;
            }
            ∷ [];
        metadata =
            about_question (cat "unanswered_question:" (texts.show_id q.id))
              (if overdue then "overdue_unanswered" else "unanswered") (whole_seconds age) overdue
              (overdue_unanswered_after / second);
        created_at = 0;
        updated_at = 0;
      }

  -- The recommendation to review the answer `a` to `q`.
  unfoldable pub build_review_recommendation : ℕ → Question → Answer → Recommendation
  build_review_recommendation session_id q a = record {
    id = 0;
    session_id = session_id;
    category = review_draft_answer;
    status = is_new;
    summary =
        cat "Draft answer awaiting review (question: " (cat (truncate q.question_text 80) ")");
    suggested_action =
        some "Review, approve, or dismiss the generated answer before it is treated as final.";
    evidence =
        record {
          source_type = "question";
          source_id = none;
          question_id = some q.id;
          answer_id = none;
        }
        ∷ record {
          source_type = "answer";
          source_id = none;
          question_id = some q.id;
          answer_id = some a.id;
        }
        ∷ [];
    metadata = no_metadata;
    created_at = 0;
    updated_at = 0;
  }

  abbrev pub trim_or_empty : Option String → String
  trim_or_empty none = ""
  trim_or_empty (some s) = texts.trim_space s

  -- The email of a user, or else the name, or else the id.
  unfoldable pub label_of : Option User → ℕ → String
  label_of none user_id = texts.show_id user_id
  label_of (some u) user_id =
      let email = texts.trim_space u.email in
      let display = texts.trim_space u.display_name in
      if not (str_eq email "")
      then email
      else if not (str_eq display "")
      then display
      else texts.show_id user_id

  abbrev email_of : Option User → String
  email_of none = ""
  email_of (some u) = u.email

  abbrev display_of : Option User → String
  display_of none = ""
  display_of (some u) = u.display_name

  unfoldable pub build_missing_participant_recommendation :
      ℕ → ℕ → Option User → Bool → Bool → Recommendation
  build_missing_participant_recommendation session_id user_id u mat_view q_view =
      let engaged = mat_view || q_view in
      record {
        id = 0;
        session_id = session_id;
        category = missing_participant_input;
        status = is_new;
        summary = cat "Participant (" (
            cat (label_of u user_id) (
              if engaged
              then ") has viewed session content but has not recorded a stance on the primary decision."
              else ") has no material or Q&A views recorded yet and has not recorded a stance on the primary decision."));
        suggested_action =
            some "Follow up with the participant or record their stance when they respond.";
        evidence =
            record {
              source_type = "session_membership";
              source_id = some user_id;
              question_id = none;
              answer_id = none;
            }
            ∷ [];
        metadata =
            about_participant (cat "missing_participant_input:" (texts.show_id user_id))
              (if engaged then "viewed_not_responded" else "not_viewed") (email_of u) (display_of u)
              (texts.show_id user_id) mat_view q_view (participant_ref u user_id);
        created_at = 0;
        updated_at = 0;
      }

  abbrev readiness_recommendation : ℕ → String → String → String → Recommendation
  readiness_recommendation session_id summary action level = record {
    id = 0;
    session_id = session_id;
    category = decision_readiness;
    status = is_new;
    summary = summary;
    suggested_action = some action;
    evidence = [];
    metadata = readiness level;
    created_at = 0;
    updated_at = 0;
  }

  abbrev pub inputs_incomplete : ℕ → Recommendation
  inputs_incomplete session_id =
      readiness_recommendation session_id
        "Premise and primary decision should both be set for decision tracking."
        "Add or update premise and primary decision in session context." "inputs_incomplete"

  abbrev pub inputs_complete : ℕ → Recommendation
  inputs_complete session_id =
      readiness_recommendation session_id
        "Core decision inputs are present and participant stances exist; review before finalizing."
        "Review stances and decision outcome before closing the session." "inputs_complete"
