-- ===== src/Rag/Alias/Precedence.antt =====
-- Which alias names a speaker.
use talkback.Prelude.{
  String, Bool, true, false, ◌&&◌, Option, none, some, List, [], ◌∷◌, ◌≡◌, refl, ap, ◌∙◌, arith,
  inl, inr, Bool-cases, Option-cases, find, str_eq, eq_iff, is_some, if◌then◌else◌,
}
use mathlib.Core.Option
use talkback.Rag.Alias.{
  Alias, Canonical, CanonicalMap, canonical_of, put, pick_any, overwrite_scoped,
  build_canonical_map_from_aliases,
}

-- The last row that passes the test.
abbrev pub find_last : (Alias → Bool) → List Alias → Option Alias
find_last p [] = none
find_last p (a ∷ rows) = elim (find_last p rows) [
  | some b ↦ some b
  | none ↦ if p a then some a else none
]

abbrev pub has_label : String → Alias → Bool
has_label label a = str_eq a.source_label label

abbrev pub is_scoped : String → Alias → Bool
is_scoped label a = is_some a.source_recording_id && has_label label a

abbrev pub or_else : Option Canonical → Option Canonical → Option Canonical
or_else (some c) d = some c
or_else none d = d

pick_step :
    (out : CanonicalMap) (a : Alias) (label : String)
    → (if is_some (out a.source_label) then out else put a out) label
      ≡ (if has_label label a then or_else (out label) (some (canonical_of a)) else out label)
pick_step out a label = elim (Bool-cases (str_eq a.source_label label)) [
  | inr e ↦ elim (Bool-cases (is_some (out a.source_label))) [
    | inl known ↦ rw (e, known)
    | inr new ↦ rw (new, e)
  ]
  | inl e ↦
      let same : out a.source_label ≡ out label = ap out ((eq_iff a.source_label label).0 e) in
      elim (Option-cases (out label)) [
        | inl new ↦
            let free : is_some (out a.source_label) ≡ false = rw (same, new) refl in
            rw (free, e, new)
        | inr (c, known) ↦
            let kept : is_some (out a.source_label) ≡ true = rw (same, known) refl in
            rw (kept, e, known)
      ]
]

overwrite_step :
    (out : CanonicalMap) (a : Alias) (label : String)
    → (if is_some a.source_recording_id then put a out else out) label
      ≡ (if is_scoped label a then some (canonical_of a) else out label)
overwrite_step out a label = elim (Bool-cases (is_some a.source_recording_id)) [
  | inl e ↦ rw e
  | inr e ↦ rw e
]

pick_any_lem :
    (out : CanonicalMap) (rows : List Alias) (label : String)
    → pick_any out rows label
      ≡ or_else (out label) (Option.map canonical_of (find (has_label label) rows))
unfolding pick_any find
pick_any_lem out [] label = ground arith
pick_any_lem out (a ∷ rows) label =
    pick_any_lem (if is_some (out a.source_label) then out else put a out) rows label
    ∙ rw (pick_step out a label) (ground arith)

overwrite_scoped_lem :
    (out : CanonicalMap) (rows : List Alias) (label : String)
    → overwrite_scoped out rows label
      ≡ or_else (Option.map canonical_of (find_last (is_scoped label) rows)) (out label)
unfolding overwrite_scoped
overwrite_scoped_lem out [] label = refl
overwrite_scoped_lem out (a ∷ rows) label =
    overwrite_scoped_lem (if is_some a.source_recording_id then put a out else out) rows label
    ∙ rw (overwrite_step out a label) (ground arith)

-- A label is named by the last alias of a recording that has it, and if there is none, by its first
-- alias of the whole session.
pub build_canonical_map_from_aliases_lem :
    (rows : List Alias) (label : String)
    → build_canonical_map_from_aliases rows label
      ≡ or_else
          (Option.map canonical_of (find_last (is_scoped label) rows))
          (Option.map canonical_of (find (has_label label) rows))
unfolding build_canonical_map_from_aliases
build_canonical_map_from_aliases_lem rows label =
    overwrite_scoped_lem (pick_any (λ l. none) rows) rows label
    ∙ ap (or_else (Option.map canonical_of (find_last (is_scoped label) rows)))
        (pick_any_lem (λ l. none) rows label)
