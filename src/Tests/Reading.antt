-- ===== src/Tests/Reading.antt =====
-- Reading a WebVTT file of two cues, the second of which has an identifier.
use talkback.Prelude.{
  ℕ, String, false, ◌||◌, none, some, [], ◌∷◌, ◌≡◌, refl, arith, str_eq, ◌==◌, if◌then◌else◌,
}
use talkback.Transcript.Normalize.{Cue}
use talkback.Transcript.Normalize.Order.{InOrder}
use talkback.Transcript.Parse.{Lexer, parse_cues, parse_vtt, join_spaced}
use talkback.Transcript.Parse.Rendered.{IsLine, IsReadable, render, parse_vtt-render}

abbrev first_times : String
first_times = "00:00:01.000 --> 00:00:02.000"

abbrev second_times : String
second_times = "00:00:02.000 --> 01:00:05.000"

-- The functions on strings at the lines of this file.
abbrev lexer : Lexer
lexer = record {
  trim_space = λ s. s;
  has_prefix = λ s p. str_eq s p;
  contains = λ s t. str_eq s first_times || str_eq s second_times;
  fields = λ s. s ∷ [];
  atoi =
      λ s. if str_eq s "01" then 1 else if str_eq s "02" then 2 else if str_eq s "05" then 5 else 0;
  find_long = λ s.
      if str_eq s first_times
      then first_times ∷ "00" ∷ "00" ∷ "01" ∷ "000" ∷ "00" ∷ "00" ∷ "02" ∷ "000" ∷ []
      else if str_eq s second_times
      then second_times ∷ "00" ∷ "00" ∷ "02" ∷ "000" ∷ "01" ∷ "00" ∷ "05" ∷ "000" ∷ []
      else [];
  find_short = λ s. [];
}

abbrev stamp : ℕ → ℕ → String
stamp a b = if a == 1000 then first_times else second_times

abbrev first_cue : Cue
first_cue = record { start_ms = 1000; end_ms = 2000; text = "Good"; source_ref = none }

abbrev second_cue : Cue
second_cue = record { start_ms = 2000; end_ms = 3605000; text = "morning"; source_ref = some "2" }

plain-IsLine : (s : String) → str_eq s "" ≡ false → IsLine lexer stamp s
plain-IsLine s e = record { trimmed = refl; present = e }

first_cue-IsReadable : IsReadable lexer stamp first_cue
unfolding join_spaced
first_cue-IsReadable = record {
  name = tt;
  times = plain-IsLine first_times refl;
  no_head = refl;
  no_note = refl;
  arrow = refl;
  stamped = record {
    all = first_times;
    h = "00";
    m = "00";
    s = "01";
    ms = "000";
    h' = "00";
    m' = "00";
    s' = "02";
    ms' = "000";
    groups = refl;
    start_time = record { hours = refl; minutes = refl; seconds = refl; millis = refl };
    end_time = record { hours = refl; minutes = refl; seconds = refl; millis = refl };
  };
  text = plain-IsLine "Good" refl;
  spaced = record { words = "Good" ∷ []; split = refl; joined = refl };
}

second_cue-IsReadable : IsReadable lexer stamp second_cue
unfolding join_spaced
second_cue-IsReadable = record {
  name = record { line = plain-IsLine "2" refl; no_head = refl; no_note = refl; no_times = refl };
  times = plain-IsLine second_times refl;
  no_head = refl;
  no_note = refl;
  arrow = refl;
  stamped = record {
    all = second_times;
    h = "00";
    m = "00";
    s = "02";
    ms = "000";
    h' = "01";
    m' = "00";
    s' = "05";
    ms' = "000";
    groups = refl;
    start_time = record { hours = refl; minutes = refl; seconds = refl; millis = refl };
    end_time = record { hours = refl; minutes = refl; seconds = refl; millis = refl };
  };
  text = plain-IsLine "morning" refl;
  spaced = record { words = "morning" ∷ []; split = refl; joined = refl };
}

parse_vtt-render_example :
    (parse_cues lexer (render lexer stamp (first_cue ∷ second_cue ∷ []))
      ≡ first_cue ∷ second_cue ∷ [])
    × InOrder 0 (parse_vtt lexer (render lexer stamp (first_cue ∷ second_cue ∷ [])))
parse_vtt-render_example =
    parse_vtt-render lexer stamp refl (first_cue ∷ second_cue ∷ [])
      (first_cue-IsReadable, (second_cue-IsReadable, tt))
      (omega arith, (omega arith, (omega arith, (omega arith, tt))))
