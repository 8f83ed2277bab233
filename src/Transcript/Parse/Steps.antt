-- ===== src/Transcript/Parse/Steps.antt =====
-- The loop of parseCues ends: each pass takes a line at least (internal/transcript/vtt_parser.go).
use talkback.Prelude.{
  ℕ, zero, suc, ◌≤◌, String, Option, none, some, List, [], ◌∷◌, length, ◌≡◌, refl, ap, arith,
  str_eq, Bool-cases, Option-cases, inl, inr,
}
use talkback.Transcript.Parse.{
  Lexer, text_block, is_skipped, parse_timestamp_line, cue_at, named_cue, parse_step, add_cue,
  parse_from, parse_cues,
}

module _ (lex : Lexer) where
  text_block_shorter : (ls : List String) → length (text_block lex ls).1 ≤ length ls
  unfolding text_block
  text_block_shorter [] = omega arith
  text_block_shorter (l ∷ ls) = elim (Bool-cases (str_eq (lex.trim_space l) "")) [
    | inl e ↦ rw e (omega arith)
    | inr e ↦ rw e (omega (arith, text_block_shorter ls))
  ]

  cue_at_shorter :
      (ref : Option String) (line : String) (ls : List String)
      → length (cue_at lex ref line ls).1 ≤ length ls
  unfolding cue_at
  cue_at_shorter ref line ls = elim (Bool-cases (lex.contains line "-->")) [
    | inl e ↦ elim (Option-cases (parse_timestamp_line lex line)) [
      | inl k ↦ rw (e, k) (omega arith)
      | inr (times, k) ↦ rw (e, k) (text_block_shorter ls)
    ]
    | inr e ↦ rw e (omega arith)
  ]

  named_cue_shorter :
      (ref : String) (ls : List String) → length (named_cue lex ref ls).1 ≤ length ls
  unfolding named_cue
  named_cue_shorter ref [] = omega arith
  named_cue_shorter ref (l ∷ ls) = omega (arith, cue_at_shorter (some ref) (lex.trim_space l) ls)

  parse_step_shorter : (l : String) (ls : List String) → length (parse_step lex l ls).1 ≤ length ls
  unfolding parse_step
  parse_step_shorter l ls = elim (Bool-cases (is_skipped lex (lex.trim_space l))) [
    | inl e ↦ rw e (omega arith)
    | inr e ↦ elim (Bool-cases (lex.contains (lex.trim_space l) "-->")) [
      | inl k ↦ rw (e, k) (cue_at_shorter none (lex.trim_space l) ls)
      | inr k ↦ rw (e, k) (named_cue_shorter (lex.trim_space l) ls)
    ]
  ]

  -- Any two amounts of fuel that are enough give the same.
  parse_from_enough :
      (n m : ℕ) (lines : List String)
      → length lines ≤ n
      → length lines ≤ m
      → parse_from lex n lines ≡ parse_from lex m lines
  unfolding parse_from
  parse_from_enough zero zero [] h k = refl
  parse_from_enough zero (suc m) [] h k = refl
  parse_from_enough (suc n) zero [] h k = refl
  parse_from_enough (suc n) (suc m) [] h k = refl
  parse_from_enough zero m (l ∷ ls) h k = absurd (omega arith)
  parse_from_enough (suc n) zero (l ∷ ls) h k = absurd (omega arith)
  parse_from_enough (suc n) (suc m) (l ∷ ls) h k =
      let shorter = parse_step_shorter l ls in
      ap (add_cue lex (parse_step lex l ls).0)
        (parse_from_enough n m (parse_step lex l ls).1 (omega arith) (omega arith))

  -- The loop does not run out of fuel: it is one pass, and the loop over what the pass leaves.
  pub parse_cues-parse_step :
      (l : String) (ls : List String)
      → parse_cues lex (l ∷ ls)
        ≡ add_cue lex (parse_step lex l ls).0 (parse_cues lex (parse_step lex l ls).1)
  unfolding parse_cues parse_from
  parse_cues-parse_step l ls = ap (add_cue lex (parse_step lex l ls).0) (
      parse_from_enough (length ls) _ (parse_step lex l ls).1 (parse_step_shorter l ls)
        (omega arith))
