-- ===== src/Tests/Texts.antt =====
-- Chunks and segments at concrete inputs.
use talkback.Prelude.{
  Option, ℕ, ◌≤◌, ◌<◌, String, none, some, List, [], ◌∷◌, ◌≡◌, refl, arith, All, length, find,
}
use talkback.Rag.Chunk.{chunk_text, chunk_loop}
use talkback.Rag.Chunk.Cover.{joined, chunk_text_lem}
use talkback.Rag.Segments as Seg
use talkback.Rag.Segments.{Anchor, build_transcript_chunks}
use talkback.Rag.Alias.{
  Alias, canonical_of, build_canonical_map_from_aliases, resolve_label, pick_any, overwrite_scoped,
}
use talkback.Rag.Alias.Precedence.{
  has_label, is_scoped, find_last, or_else, build_canonical_map_from_aliases_lem,
}
use mathlib.Core.Option
use talkback.Transcript.Normalize.{Cue, Segment, normalize_segments}
use talkback.Transcript.Normalize.Order.{normalize_segments_overlap}

abbrev ten_bytes : List ℕ
ten_bytes = 0 ∷ 1 ∷ 2 ∷ 3 ∷ 4 ∷ 5 ∷ 6 ∷ 7 ∷ 8 ∷ 9 ∷ []

chunk_text_lem_example :
    (cs : List (List ℕ)) × ((chunk_text 4 1 ten_bytes ≡ some cs)
      × ((joined 1 cs ≡ ten_bytes) × All (λ c. length c ≤ 4) cs))
chunk_text_lem_example = chunk_text_lem 4 1 ten_bytes (omega arith)

three_chunks :
    chunk_text 4 1 ten_bytes
    ≡ some ((0 ∷ 1 ∷ 2 ∷ 3 ∷ []) ∷ (3 ∷ 4 ∷ 5 ∷ 6 ∷ []) ∷ (6 ∷ 7 ∷ 8 ∷ 9 ∷ []) ∷ [])
unfolding chunk_text chunk_loop
three_chunks = refl

-- An overlap that is as long as a chunk leads to no result.
no_progress : chunk_text 4 4 ten_bytes ≡ none
unfolding chunk_text chunk_loop
no_progress = refl

abbrev hash : String → String
hash s = s

abbrev marshal : Anchor → String
marshal a = "{}"

abbrev show : ℕ → String
show n = "n"

abbrev two_segments : List Seg.Segment
two_segments =
    record { idx = 0; start_ms = 5; end_ms = 5; text = "Hello" }
    ∷ record { idx = 1; start_ms = 9; end_ms = 20; text = "" }
    ∷ []

abbrev cue : ℕ → ℕ → String → Cue
cue start_ms end_ms text = record {
  start_ms = start_ms;
  end_ms = end_ms;
  text = text;
  source_ref = none;
}

-- The second is a micro-cue, the third one overlaps it.
abbrev three_cues : List Cue
three_cues = cue 1000 3000 "Good" ∷ cue 3000 3500 "morning" ∷ cue 3200 6000 "all" ∷ []

-- A first cue that ends before it starts.
normalize_segments_overlap_example :
    (s : Segment) × ((t : Segment) × ((normalize_segments
            (cue 9000 1000 "one" ∷ cue 2000 4000 "two" ∷ [])
          ≡ s ∷ t ∷ [])
        × (t.start_ms < s.end_ms)))
normalize_segments_overlap_example =
    normalize_segments_overlap (cue 9000 1000 "one") (cue 2000 4000 "two") (omega arith)
      (omega arith) refl refl refl

abbrev alias : Option ℕ → String → Alias
alias recording name = record {
  source_label = "Speaker 1";
  source_recording_id = recording;
  canonical_person_id = 4;
  canonical_display_name = name;
  canonical_email = none;
}

abbrev two_aliases : List Alias
two_aliases = alias (some 9) "Ann Lee" ∷ alias none "Ann" ∷ []

build_canonical_map_from_aliases_lem_example :
    build_canonical_map_from_aliases two_aliases "Speaker 1"
    ≡ or_else
        (Option.map canonical_of (find_last (is_scoped "Speaker 1") two_aliases))
        (Option.map canonical_of (find (has_label "Speaker 1") two_aliases))
build_canonical_map_from_aliases_lem_example =
    build_canonical_map_from_aliases_lem two_aliases "Speaker 1"

scoped_name_wins :
    resolve_label (some (build_canonical_map_from_aliases two_aliases)) "Speaker 1" ≡ "Ann Lee"
unfolding resolve_label build_canonical_map_from_aliases pick_any overwrite_scoped
scoped_name_wins = refl
