-- ===== src/Processing/Pipeline.antt =====
-- What the three pipelines share (internal/processing/pipeline.go and the files beside it): the
-- tables, the files of the local disk, the answers of the outside, and the steps of a run. A run makes each outside call at most
-- once, so its answers are given beforehand. The statements that set the job's state, its lock and
-- the mirror do not fail; of the others a field says whether they do.
pub mod Dedupe
pub mod Ingest
pub mod Whisper
pub mod Save
pub mod Files
pub mod Run
pub mod Meet
pub mod Dispatch
pub mod Rules
pub mod Finished
pub mod Ending
pub mod Total
pub mod Keeping
pub mod Skipping
pub mod Saved
pub mod Rows
pub mod Again
pub mod Local
pub mod Disk
use talkback.Prelude.{ℕ, ◌+◌, String, Bool, true, false, Option, none, some, List, if◌then◌else◌}
use talkback.Processing.State.{State, failed_permanent, waiting, Stage}
use talkback.Processing.Job.{Job, Db}
use talkback.Processing.Store.{update_job_state, update_mirror}
use talkback.Processing.Backoff.{backoff_waiting, set_job_failed_permanent, set_job_waiting}
use talkback.Processing.Media.{Media}

-- A file under the upload root of the local disk: its key, and its size in bytes.
pub record StoredFile : Type 0 where
  pub key : String
  pub size : ℕ

pub record World : Type 0 where
  pub db : Db
  pub media : Media
  pub disk : List StoredFile

-- The answer of a call that may fail, with the error's text.
pub data Answer (A : Type 0) : Type 0 where
  refused : String → Answer A
  answered : A → Answer A

abbrev pub is_answered : {A : Type 0} → Answer A → Bool
is_answered (answered a) = true
is_answered (refused e) = false

-- The object store: Put, Head (whether the object exists, and its size) and PresignGet.
pub record StoreAnswers : Type 0 where
  pub put : Answer (Unit {0})
  pub head : Answer (Bool × ℕ)
  pub presign : String → Answer String

-- A response to a download; a length that is not known is 0.
pub record Body : Type 0 where
  pub status_code : ℕ
  pub content_length : ℕ

-- The identifiers that the run draws.
pub record NewIds : Type 0 where
  pub file_id : ℕ
  pub artifact_id : ℕ
  pub video_id : ℕ
  pub whisper_id : ℕ
  pub transcript_id : ℕ

-- The statements that fail; of the segments, how many were inserted before the failure.
pub record Faults : Type 0 where
  pub create_file_fails : Bool
  pub ready_fails : Bool
  pub primary_fails : Bool
  pub create_artifact_fails : Bool
  pub create_video_fails : Bool
  pub create_whisper_fails : Bool
  pub create_transcript_fails : Bool
  pub segments_fail : Option ℕ

-- The functions of the standard library, and those of internal/storage that build keys.
pub record Texts : Type 0 where
  pub trim_space : String → String
  pub to_lower : String → String
  pub to_upper : String → String
  pub contains : String → String → Bool
  pub equal_fold : String → String → Bool
  pub to_slash : String → String
  pub show : ℕ → String
  pub r2_key : ℕ → ℕ → String → String
  pub local_key : ℕ → String → String

-- A resolver of tokens, a store or a queue may be missing.
pub record Answers : Type 0 where
  pub token : Option (String → Answer String)
  pub download : Answer Body
  pub max_upload_bytes : ℕ
  pub store : Option StoreAnswers
  pub mkdir : Answer (Unit {0})
  pub create_file : Answer (Unit {0})
  pub copy : Answer ℕ
  pub job_processor : Option (Answer (Unit {0}))
  pub index : Answer (Unit {0})
  pub new_ids : NewIds
  pub faults : Faults
  pub texts : Texts

-- A step of a run: it ends the run, or the run goes on with a value.
pub data Flow (A : Type 0) : Type 0 where
  ended : World → Flow A
  goes_on : A → World → Flow A

abbrev pub M : Type 0 → Type 0
M A = World → Flow A

infixl 5 ◌>>=◌ ◌>>◌
unfoldable pub ◌>>=◌ : {A B : Type 0} → M A → (A → M B) → M B
◌>>=◌ m f w = elim (m w) [ ended w' ↦ ended w' | goes_on a w' ↦ f a w' ]

unfoldable pub ◌>>◌ : {B : Type 0} → M (Unit {0}) → M B → M B
unfolding ◌>>=◌
m >> k = m >>= λ _. k

unfoldable pub pure : {A : Type 0} → A → M A
pure a w = goes_on a w

unfoldable pub read : {A : Type 0} → (World → A) → M A
read f w = goes_on (f w) w

unfoldable pub write : (World → World) → M (Unit {0})
write f w = goes_on tt (f w)

-- return nil, after the last writes.
unfoldable pub quit : {A : Type 0} → (World → World) → M A
quit f w = ended (f w)

-- The value of an answer, or the way out.
unfoldable pub got : {A : Type 0} → Answer A → (String → M A) → M A
unfolding pure
got (answered a) out = pure a
got (refused e) out = out e

unfoldable pub choose : {A : Type 0} → Bool → M A → M A → M A
choose true m n = m
choose false m n = n

unfoldable pub require : Bool → M (Unit {0}) → M (Unit {0})
unfolding choose pure
require b out = choose b (pure tt) out

unfoldable pub when : Bool → M (Unit {0}) → M (Unit {0})
unfolding choose pure
when b m = choose b m (pure tt)

unfoldable pub on_some : {A B : Type 0} → Option A → M B → (A → M B) → M B
on_some none out f = out
on_some (some a) out f = f a

-- An insertion and what follows it, or the way out where it fails.
unfoldable pub on_insert : {A : Type 0} → Bool → (Media → Option Media) → M A → M A → M A
on_insert fails insert out k w = elim (if fails then none else insert w.media) [
  | none ↦ out w
  | some media ↦ k (record w { media = media })
]

unfoldable pub try_insert : Bool → (Media → Option Media) → M (Unit {0}) → M (Unit {0})
unfolding on_insert pure
try_insert fails insert out = on_insert fails insert out (pure tt)

-- A statement that returns a value.
unfoldable pub on_media_with : {A : Type 0} → (Media → Media × A) → M A
on_media_with f w = let made = f w.media in goes_on made.1 (record w { media = made.0 })

abbrev pub on_media : (Media → Media) → World → World
on_media f w = record w { media = f w.media }

abbrev pub on_disk : (List StoredFile → List StoredFile) → World → World
on_disk f w = record w { disk = f w.disk }

abbrev pub on_db : (Db → Db) → World → World
on_db f w = record w { db = f w.db }

-- The final world of a run.
abbrev pub world_of : {A : Type 0} → Flow A → World
world_of (ended w) = w
world_of (goes_on a w) = w

-- attempt := job.AttemptCount + 1
abbrev pub attempt_of : Job → ℕ
attempt_of job = job.attempt_count + 1

module _ (now : ℕ) (job : Job) where
  -- updateJobState and updateMirror, at the start of a stage.
  unfoldable pub enter : State → Stage → World → World
  enter state stage = on_db (λ db.
      update_mirror job.session_id state now
        (update_job_state job.id state stage (attempt_of job) none none none now db))

  -- setJobFailedPermanent and updateMirror
  unfoldable pub fail_for_good : String → String → World → World
  fail_for_good code msg = on_db (λ db.
      update_mirror job.session_id failed_permanent now
        (set_job_failed_permanent job.id (attempt_of job) code msg now db))

  -- setJobWaiting and updateMirror
  unfoldable pub wait_until : ℕ → String → String → World → World
  wait_until next code msg = on_db (λ db.
      update_mirror job.session_id waiting now
        (set_job_waiting job.id (attempt_of job) code msg next now db))
