-- ===== src/Processing/State.antt =====
-- The states and stages of a processing job (internal/models/models.go), which the source keeps
-- as strings: a string that is none of the constants is `other`.
use talkback.Prelude.{String, Bool, true, false, str_eq}

pub data State : Type 0 where
  queued fetching downloading parsing chunking embedding waiting awaiting_whisper : State
  waiting_native_transcript ready failed_transient failed_permanent canceled : State
  other : String → State

-- The string "", which stands for "no state".
abbrev pub no_state : State
no_state = other ""

abbrev pub is_no_state : State → Bool
is_no_state (other s) = str_eq s ""
is_no_state _ = false

abbrev pub is_known : State → Bool
is_known (other s) = false
is_known _ = true

-- The states in which nothing more happens to a job by itself.
abbrev pub is_terminal : State → Bool
is_terminal ready = true
is_terminal failed_permanent = true
is_terminal canceled = true
is_terminal _ = false

pub data Stage : Type 0 where
  fetch download parse chunk embed done : Stage
