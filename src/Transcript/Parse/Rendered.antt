-- ===== src/Transcript/Parse/Rendered.antt =====
-- Reading what was written: the lines of a file of cues give the cues again
-- (internal/transcript/vtt_parser.go).
use talkback.Prelude.{
  ℕ, ◌/◌, ◌%◌, arith, String, true, false, Option, none, some, List, [], ◌∷◌, ◌≡◌, refl, sym, ◌∙◌,
  ap, All, str_eq,
}
use talkback.Transcript.Normalize.{Cue}
use talkback.Transcript.Normalize.Order.{Recorded, InOrder, normalize_segments-InOrder}
use talkback.Transcript.Parse.{
  Lexer, text_block, parse_ms, times_long, parse_timestamp_line, normalize_text, join_spaced,
  cue_at, named_cue, parse_step, add_cue, parse_from, parse_cues, parse_vtt,
}
use talkback.Transcript.Parse.Steps.{parse_cues-parse_step}

module _ (lex : Lexer) (stamp : ℕ → ℕ → String) where
  -- A text that the parser takes as one line: it has no spaces around it and is not empty.
  pub record IsLine (line : String) : Type 0 where
    pub trimmed : lex.trim_space line ≡ line
    pub present : str_eq line "" ≡ false

  -- An identifier that is none of the other lines.
  pub record IsName (ref : String) : Type 0 where
    pub line : IsLine ref
    pub no_head : lex.has_prefix ref "WEBVTT" ≡ false
    pub no_note : lex.has_prefix ref "NOTE" ≡ false
    pub no_times : lex.contains ref "-->" ≡ false

  abbrev pub IsNamed : Option String → Type 0
  IsNamed none = Unit
  IsNamed (some ref) = IsName ref

  -- Four groups of digits that are read as the hours, minutes, seconds and milliseconds of a time.
  pub record IsTime (time : ℕ) (h m s ms : String) : Type 0 where
    pub hours : lex.atoi h ≡ time / 3600000
    pub minutes : lex.atoi m ≡ time / 60000 % 60
    pub seconds : lex.atoi s ≡ time / 1000 % 60
    pub millis : lex.atoi ms ≡ time % 1000

  -- A line of which the regular expression of the long form takes the groups of two times.
  pub record IsStamp (line : String) (start end : ℕ) : Type 0 where
    pub all : String
    pub h : String
    pub m : String
    pub s : String
    pub ms : String
    pub h' : String
    pub m' : String
    pub s' : String
    pub ms' : String
    pub groups : lex.find_long line ≡ all ∷ h ∷ m ∷ s ∷ ms ∷ h' ∷ m' ∷ s' ∷ ms' ∷ []
    pub start_time : IsTime start h m s ms
    pub end_time : IsTime end h' m' s' ms'

  -- A text whose words are those of one word or of several with a space between.
  pub record IsWords (text : String) : Type 0 where
    pub words : List String
    pub split : lex.fields text ≡ words
    pub joined : text ≡ join_spaced words

  -- A cue whose parts the functions on strings take apart as they were put together.
  pub record IsReadable (c : Cue) : Type 0 where
    pub name : IsNamed c.source_ref
    pub times : IsLine (stamp c.start_ms c.end_ms)
    pub no_head : lex.has_prefix (stamp c.start_ms c.end_ms) "WEBVTT" ≡ false
    pub no_note : lex.has_prefix (stamp c.start_ms c.end_ms) "NOTE" ≡ false
    pub arrow : lex.contains (stamp c.start_ms c.end_ms) "-->" ≡ true
    pub stamped : IsStamp (stamp c.start_ms c.end_ms) c.start_ms c.end_ms
    pub text : IsLine c.text
    pub spaced : IsWords c.text

  -- The lines of a cue from its times on, and whole.
  abbrev pub render_times : Cue → List String → List String
  render_times c rest = stamp c.start_ms c.end_ms ∷ c.text ∷ "" ∷ rest

  abbrev pub render_cue : Cue → List String → List String
  render_cue c rest = elim c.source_ref [
    | none ↦ render_times c rest
    | some ref ↦ ref ∷ render_times c rest
  ]

  unfoldable pub render : List Cue → List String
  render [] = []
  render (c ∷ cs) = render_cue c (render cs)

  parse_ms-IsTime :
      (time : ℕ) (h m s ms : String) → IsTime time h m s ms → parse_ms lex h m s ms ≡ time
  parse_ms-IsTime time h m s ms t = omega (arith, t.hours, t.minutes, t.seconds, t.millis)

  parse_timestamp_line-IsStamp :
      (line : String) (start end : ℕ)
      → IsStamp line start end
      → parse_timestamp_line lex line ≡ some (start, end)
  unfolding parse_timestamp_line times_long
  parse_timestamp_line-IsStamp line start end t = rw (
    t.groups,
    times_long,
    parse_timestamp_line,
    parse_ms-IsTime start t.h t.m t.s t.ms t.start_time,
    parse_ms-IsTime end t.h' t.m' t.s' t.ms' t.end_time,
  )

  normalize_text-IsWords :
      (text : String) → IsLine text → IsWords text → normalize_text lex text ≡ text
  unfolding normalize_text
  normalize_text-IsWords text line w = rw (line.trimmed, w.split) (sym w.joined)

  module _ (empty : lex.trim_space "" ≡ "") where
    text_block-text :
        (text : String) (rest : List String)
        → IsLine text
        → text_block lex (text ∷ "" ∷ rest) ≡ (text ∷ [], rest)
    unfolding text_block
    text_block-text text rest t = rw (t.trimmed, t.present, empty)

    cue_at-render :
        (c : Cue) (rest : List String)
        → IsReadable c
        → cue_at lex c.source_ref (stamp c.start_ms c.end_ms) (c.text ∷ "" ∷ rest) ≡ (some c, rest)
    unfolding cue_at join_spaced
    cue_at-render c rest r = rw (
      r.arrow,
      parse_timestamp_line-IsStamp _ c.start_ms c.end_ms r.stamped,
      text_block-text c.text rest r.text,
      normalize_text-IsWords c.text r.text r.spaced,
      r.text.present,
    )

    parse_step-times :
        (c : Cue) (ls : List String)
        → IsReadable c
        → parse_step lex (stamp c.start_ms c.end_ms) ls
          ≡ cue_at lex none (stamp c.start_ms c.end_ms) ls
    unfolding parse_step
    parse_step-times c ls r = rw (r.times.trimmed, r.times.present, r.no_head, r.no_note, r.arrow)

    parse_step-name :
        (ref : String) (c : Cue) (ls : List String)
        → IsName ref
        → IsReadable c
        → parse_step lex ref (stamp c.start_ms c.end_ms ∷ ls)
          ≡ cue_at lex (some ref) (stamp c.start_ms c.end_ms) ls
    unfolding parse_step named_cue
    parse_step-name ref c ls n r =
        rw (n.line.trimmed, n.line.present, n.no_head, n.no_note, n.no_times, r.times.trimmed)

    parse_cues-cue :
        (l : String) (ls rest : List String) (c : Cue)
        → parse_step lex l ls ≡ (some c, rest)
        → parse_cues lex (l ∷ ls) ≡ c ∷ parse_cues lex rest
    parse_cues-cue l ls rest c e =
        parse_cues-parse_step lex l ls
        ∙ ap (λ (step : Option Cue × List String). add_cue lex step.0 (parse_cues lex step.1)) e

    parse_cues-render_named :
        (c : Cue) (rest : List String) (name : Option String)
        → IsReadable c
        → c.source_ref ≡ name
        → parse_cues lex
            (elim name [ none ↦ render_times c rest | some ref ↦ ref ∷ render_times c rest ])
          ≡ c ∷ parse_cues lex rest
    parse_cues-render_named c rest none r e = parse_cues-cue _ _ rest c (
        parse_step-times c _ r
        ∙ (ap (λ name. cue_at lex name (stamp c.start_ms c.end_ms) (c.text ∷ "" ∷ rest)) (sym e)
            ∙ cue_at-render c rest r))
    parse_cues-render_named c rest (some ref) r e =
        let name : IsNamed (some ref) = rw e at r.name in
        parse_cues-cue _ _ rest c (
          parse_step-name ref c _ name r
          ∙ (ap (λ name. cue_at lex name (stamp c.start_ms c.end_ms) (c.text ∷ "" ∷ rest)) (sym e)
              ∙ cue_at-render c rest r))

    parse_cues-render : (cs : List Cue) → All IsReadable cs → parse_cues lex (render cs) ≡ cs
    unfolding render parse_cues parse_from
    parse_cues-render [] h = refl
    parse_cues-render (c ∷ cs) h =
        parse_cues-render_named c (render cs) c.source_ref h.0 refl
        ∙ ap (λ rest. c ∷ rest) (parse_cues-render cs h.1)

    -- Let a file have, for each cue, its identifier if it has one, its times, its text and an empty
    -- line, where the functions on strings find these lines as follows. The last line stays empty,
    -- and the others are not empty and have no spaces around them; the identifier and the times do
    -- not start like the head of a file or a note; the times have an arrow, the identifier has
    -- none. In the line of the times the regular expression finds four groups of digits for each of
    -- the two times, which are the numbers of its hours, and of the minutes, seconds and
    -- milliseconds that remain. The text is its words with a space between. Then the parser gives
    -- the cues again. If moreover each cue ends after it starts and starts no earlier than the one
    -- before, the segments of the file are in order, do not overlap, and end after they start.
    pub parse_vtt-render :
        (cs : List Cue)
        → All IsReadable cs
        → Recorded 0 cs
        → (parse_cues lex (render cs) ≡ cs) × InOrder 0 (parse_vtt lex (render cs))
    unfolding parse_vtt
    parse_vtt-render cs h recorded =
        let same = parse_cues-render cs h in
        (same, rw same (normalize_segments-InOrder cs recorded))
