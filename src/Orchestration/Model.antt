-- ===== src/Orchestration/Model.antt =====
-- The data that recommendations are made from and of (internal/models/models.go).
use talkback.Prelude.{ℕ, String, Bool, Option, List, if◌then◌else◌}
use talkback.Prelude.Int.{ℤ}

-- Times and durations are in nanoseconds.
pub record Question : Type 0 where
  pub id : ℕ
  pub session_id : ℕ
  pub parent_question_id : Option ℕ
  pub question_text : String
  pub created_at : ℕ

pub record Answer : Type 0 where
  pub id : ℕ
  pub question_id : ℕ
  pub model : Option String
  pub confirmed : Bool
  pub created_at : ℕ

pub record User : Type 0 where
  pub id : ℕ
  pub email : String
  pub display_name : String

-- A row of material_views or of question_views.
pub record View : Type 0 where
  pub session_id : ℕ
  pub seen_by : String

pub data Category : Type 0 where
  unanswered_question : Category
  missing_participant_input : Category
  review_draft_answer : Category
  decision_readiness : Category

pub data Status : Type 0 where
  is_new : Status
  reviewed : Status
  approved : Status
  dismissed : Status
  completed : Status

-- An excerpt is never given.
pub record EvidenceRef : Type 0 where
  pub source_type : String
  pub source_id : Option ℕ
  pub question_id : Option ℕ
  pub answer_id : Option ℕ

-- The maps that the evaluator builds for the column metadata_json.
pub data Metadata : Type 0 where
  no_metadata : Metadata
  about_question :
      (dedupe_key reason : String) (question_age_seconds : ℤ) (overdue : Bool)
      (overdue_threshold_seconds : ℕ)
      → Metadata
  about_participant :
      (dedupe_key engagement_level participant_email participant_display_name user_id : String)
      (has_material_view has_question_view : Bool) (participant_ref : String)
      → Metadata
  readiness : String → Metadata

-- A confidence is never given. Before the insertion the id is 0 (uuid.Nil) and the times are 0.
pub record Recommendation : Type 0 where
  pub id : ℕ
  pub session_id : ℕ
  pub category : Category
  pub status : Status
  pub summary : String
  pub suggested_action : Option String
  pub evidence : List EvidenceRef
  pub metadata : Metadata
  pub created_at : ℕ
  pub updated_at : ℕ

-- The statements, each of which can fail.
pub data Statement : Type 0 where
  get_session : Statement
  list_questions : Statement
  answer_for : ℕ → Statement
  list_memberships : Statement
  stance_of : ℕ → Statement
  user_of : ℕ → Statement
  material_views_of : ℕ → Statement
  question_views_of : ℕ → Statement
  stance_aggregate : Statement
  delete_recommendations : Statement
  create_recommendation : ℕ → Statement

abbrev pub Faults : Type 0
Faults = Statement → Bool

-- `failed s`: the error of the statement `s`.
pub data Result {ℓ} (A : Type ℓ) : Type ℓ where
  failed : Statement → Result A
  ok : A → Result A

infixl 20 ◌>>=◌
unfoldable pub ◌>>=◌ {ℓ κ} : {A : Type ℓ} {B : Type κ} → Result A → (A → Result B) → Result B
failed s >>= f = failed s
ok a >>= f = f a

unfoldable pub read {ℓ} : {A : Type ℓ} → Faults → Statement → A → Result A
read faults s a = if faults s then failed s else ok a

-- The functions of the standard library on texts, and the ids and numbers as texts. A text is cut by
-- its bytes; `round_div` is "%.0f" of a quotient.
pub record Texts : Type 0 where
  pub trim_space : String → String
  pub to_lower : String → String
  pub equal_fold : String → String → Bool
  pub byte_length : String → ℕ
  pub byte_prefix : ℕ → String → String
  pub show_id : ℕ → String
  pub show : ℕ → String
  pub round_div : ℕ → ℕ → String
