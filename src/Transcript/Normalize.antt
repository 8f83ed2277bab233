-- ===== src/Transcript/Normalize.antt =====
-- normalizeSegments (internal/transcript/vtt_parser.go). The times of a cue come from digits, so
-- they are natural numbers; a duration may be negative.
pub mod Order
pub mod Words
use talkback.Prelude.{
  ℕ, ◌+◌, String, Bool, true, false, not, ◌&&◌, Option, none, List, [], ◌∷◌, ltb, leb, str_eq,
  if◌then◌else◌,
}
use talkback.Prelude.Int.{ℤ, pos, sub_ℕ, ltb_ℤ}
use Prim.Native.String.{◌++◌}

-- cue
pub record Cue : Type 0 where
  pub start_ms : ℕ
  pub end_ms : ℕ
  pub text : String
  pub source_ref : Option String

-- TranscriptSegmentInput
pub record Segment : Type 0 where
  pub start_ms : ℕ
  pub end_ms : ℕ
  pub text : String
  pub speaker_label : Option String
  pub source_ref : Option String

abbrev pub micro_cue_threshold_ms : ℕ
micro_cue_threshold_ms = 800

abbrev pub is_empty : String → Bool
is_empty s = str_eq s ""

-- c.endMs - c.startMs < microCueThresholdMs
abbrev pub is_micro : Cue → Bool
is_micro c = ltb_ℤ (sub_ℕ c.end_ms c.start_ms) (pos micro_cue_threshold_ms)

-- A micro-cue goes into the cue before it.
unfoldable pub absorb : Cue → Cue → Cue
absorb prev c = record prev {
  end_ms = c.end_ms;
  text =
      if not (is_empty prev.text) && not (is_empty c.text)
      then prev.text ++ " " ++ c.text
      else if not (is_empty c.text)
      then c.text
      else prev.text;
}

-- The first loop, behind the last cue of `merged`, which comes first here.
unfoldable pub merge_cues : Cue → List Cue → List Cue
merge_cues prev [] = prev ∷ []
merge_cues prev (c ∷ cs) = elim (is_micro c) [
  | true ↦ merge_cues (absorb prev c) cs
  | false ↦ prev ∷ merge_cues c cs
]

-- The body of the second loop, behind a cue that ends at `prev_end`.
unfoldable pub clamp : ℕ → Cue → Cue
clamp prev_end c =
    let start = if ltb c.start_ms prev_end then prev_end else c.start_ms in
    record c { start_ms = start; end_ms = if leb c.end_ms start then start + 1 else c.end_ms }

-- The second loop, from the second cue on.
unfoldable pub clamp_all : ℕ → List Cue → List Cue
clamp_all prev_end [] = []
clamp_all prev_end (c ∷ cs) = clamp prev_end c ∷ clamp_all (clamp prev_end c).end_ms cs

-- The first cue is mended after the loop over the others.
unfoldable pub fix_first : Cue → Cue
fix_first c = record c { end_ms = if leb c.end_ms c.start_ms then c.start_ms + 1 else c.end_ms }

unfoldable pub enforce_order : List Cue → List Cue
enforce_order [] = []
enforce_order (c ∷ cs) = fix_first c ∷ clamp_all c.end_ms cs

abbrev pub segment_of : Cue → Segment
segment_of c = record {
  start_ms = c.start_ms;
  end_ms = c.end_ms;
  text = c.text;
  speaker_label = none;
  source_ref = c.source_ref;
}

-- The third loop.
unfoldable pub build_segments : List Cue → List Segment
build_segments [] = []
build_segments (c ∷ cs) =
    let rest = build_segments cs in if is_empty c.text then rest else segment_of c ∷ rest

unfoldable pub normalize_segments : List Cue → List Segment
normalize_segments [] = []
normalize_segments (c ∷ cs) = build_segments (enforce_order (merge_cues c cs))
