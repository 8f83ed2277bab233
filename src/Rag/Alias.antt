-- ===== src/Rag/Alias.antt =====
-- The names of speakers in citations (internal/rag/speaker_aliases.go). A map is a function from
-- its keys.
pub mod Precedence
use talkback.Prelude.{
  ℕ, String, Bool, true, false, not, ◌&&◌, Option, none, some, List, [], ◌∷◌, str_eq, ◌==◌, is_some,
  if◌then◌else◌,
}

-- SessionSpeakerAlias, the columns that are read here.
pub record Alias : Type 0 where
  pub source_label : String
  pub source_recording_id : Option ℕ
  pub canonical_person_id : ℕ
  pub canonical_display_name : String
  pub canonical_email : Option String

-- SessionSpeakerCanonical
pub record Canonical : Type 0 where
  pub source_label : String
  pub canonical_person_id : ℕ
  pub display_name : String
  pub email : Option String

abbrev pub CanonicalMap : Type 0
CanonicalMap = String → Option Canonical

abbrev pub canonical_of : Alias → Canonical
canonical_of a = record {
  source_label = a.source_label;
  canonical_person_id = a.canonical_person_id;
  display_name = a.canonical_display_name;
  email = a.canonical_email;
}

-- out[a.SourceLabel] = …
abbrev pub put : Alias → CanonicalMap → CanonicalMap
put a out label = if str_eq a.source_label label then some (canonical_of a) else out label

-- The first loop keeps the first alias of a label.
unfoldable pub pick_any : CanonicalMap → List Alias → CanonicalMap
pick_any out [] = out
pick_any out (a ∷ rows) = pick_any (if is_some (out a.source_label) then out else put a out) rows

-- The second loop overwrites it with those of a recording.
unfoldable pub overwrite_scoped : CanonicalMap → List Alias → CanonicalMap
overwrite_scoped out [] = out
overwrite_scoped out (a ∷ rows) =
    overwrite_scoped (if is_some a.source_recording_id then put a out else out) rows

unfoldable pub build_canonical_map_from_aliases : List Alias → CanonicalMap
build_canonical_map_from_aliases rows = overwrite_scoped (pick_any (λ label. none) rows) rows

-- A nil map is `none`.
unfoldable pub resolve_label : Option CanonicalMap → String → String
resolve_label none source_label = source_label
resolve_label (some canonical_map) source_label = elim (canonical_map source_label) [
  | none ↦ source_label
  | some c ↦ if str_eq c.display_name "" then source_label else c.display_name
]
