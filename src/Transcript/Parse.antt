-- ===== src/Transcript/Parse.antt =====
-- parseCues and ParseVTT (internal/transcript/vtt_parser.go). The functions of the standard library
-- are in the record Lexer: those on strings, strconv.Atoi on two or three digits, and
-- FindStringSubmatch of the two regular expressions, which gives [] for nil.
pub mod Steps
pub mod Rendered
use talkback.Prelude.{
  ℕ, zero, suc, ◌+◌, ◌*◌, String, Bool, true, false, not, ◌||◌, Option, none, some, List, [], ◌∷◌,
  length, str_eq, if◌then◌else◌,
}
use Prim.Native.String.{◌++◌}
use talkback.Transcript.Normalize.{Cue, Segment, normalize_segments}

pub record Lexer : Type 0 where
  pub trim_space : String → String
  pub has_prefix : String → String → Bool
  pub contains : String → String → Bool
  pub fields : String → List String
  pub atoi : String → ℕ
  pub find_long : String → List String
  pub find_short : String → List String

-- strings.Join(_, " ")
unfoldable pub join_spaced : List String → String
join_spaced [] = ""
join_spaced (s ∷ []) = s
join_spaced (s ∷ t ∷ rest) = s ++ " " ++ join_spaced (t ∷ rest)

module _ (lex : Lexer) where
  abbrev pub parse_ms : String → String → String → String → ℕ
  parse_ms h m s ms = lex.atoi h * 3600000 + lex.atoi m * 60000 + lex.atoi s * 1000 + lex.atoi ms

  abbrev pub parse_ms_short : String → String → String → ℕ
  parse_ms_short m s ms = lex.atoi m * 60000 + lex.atoi s * 1000 + lex.atoi ms

  -- The groups of the long form, if they are there.
  unfoldable pub times_long : List String → Option (ℕ × ℕ)
  times_long (all ∷ h ∷ m ∷ s ∷ ms ∷ h' ∷ m' ∷ s' ∷ ms' ∷ []) =
      some (parse_ms h m s ms, parse_ms h' m' s' ms')
  times_long _ = none

  unfoldable pub times_short : List String → Option (ℕ × ℕ)
  times_short (all ∷ m ∷ s ∷ ms ∷ m' ∷ s' ∷ ms' ∷ []) =
      some (parse_ms_short m s ms, parse_ms_short m' s' ms')
  times_short _ = none

  unfoldable pub parse_timestamp_line : String → Option (ℕ × ℕ)
  parse_timestamp_line line = elim (times_long (lex.find_long line)) [
    | some times ↦ some times
    | none ↦ times_short (lex.find_short line)
  ]

  unfoldable pub normalize_text : String → String
  normalize_text s = join_spaced (lex.fields (lex.trim_space s))

  -- The lines of a cue's text, up to an empty line, which is taken too; and what is left.
  unfoldable pub text_block : List String → List String × List String
  text_block [] = ([], [])
  text_block (l ∷ ls) =
      let rest = text_block ls in
      if str_eq (lex.trim_space l) "" then ([], ls) else (lex.trim_space l ∷ rest.0, rest.1)

  -- An empty line, the head of the file, or a note.
  abbrev pub is_skipped : String → Bool
  is_skipped line = str_eq line "" || (lex.has_prefix line "WEBVTT" || lex.has_prefix line "NOTE")

  -- The cue whose line of times may be `line`, and what is left.
  unfoldable pub cue_at : Option String → String → List String → Option Cue × List String
  cue_at ref line ls =
      if not (lex.contains line "-->") then (none, ls) else elim (parse_timestamp_line line) [
        | none ↦ (none, ls)
        | some times ↦
            let block = text_block ls in
            let text = normalize_text (join_spaced block.0) in
            (
              if str_eq text ""
                  then none
                  else some (record {
                    start_ms = times.0;
                    end_ms = times.1;
                    text = text;
                    source_ref = ref;
                  }),
              block.1,
            )
      ]

  -- A line without times is the cue's identifier, if another line follows.
  unfoldable pub named_cue : String → List String → Option Cue × List String
  named_cue ref [] = (none, [])
  named_cue ref (l ∷ ls) = cue_at (some ref) (lex.trim_space l) ls

  -- One pass of the loop: a cue or none, and what is left of the lines.
  unfoldable pub parse_step : String → List String → Option Cue × List String
  parse_step l ls =
      let line = lex.trim_space l in
      if is_skipped line
      then (none, ls)
      else if lex.contains line "-->"
      then cue_at none line ls
      else named_cue line ls

  abbrev pub add_cue : Option Cue → List Cue → List Cue
  add_cue none cues = cues
  add_cue (some c) cues = c ∷ cues

  -- The loop, on fuel.
  unfoldable pub parse_from : ℕ → List String → List Cue
  parse_from zero lines = []
  parse_from (suc fuel) [] = []
  parse_from (suc fuel) (l ∷ ls) =
      let step = parse_step l ls in let rest = parse_from fuel step.1 in add_cue step.0 rest

  unfoldable pub parse_cues : List String → List Cue
  parse_cues lines = parse_from (length lines) lines

  -- ParseVTT, from the lines of the reader on; a reader that fails gives none.
  unfoldable pub parse_vtt : List String → List Segment
  parse_vtt lines = normalize_segments (parse_cues lines)
