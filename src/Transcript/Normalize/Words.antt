-- ===== src/Transcript/Normalize/Words.antt =====
-- Merging and clamping lose no word.
use talkback.Prelude.{
  ℕ, String, false, List, [], ◌∷◌, ◌≡◌, refl, ap, ◌∙◌, All, arith, Bool-cases, inl, inr, map,
  eq_iff,
}
use Prim.Native.String.{◌++◌}
use text.Mathlib.TextLemmas.{append_assoc, append-ne-nil_of_right_ne-nil}
use talkback.Transcript.Normalize.{
  Cue, is_empty, is_micro, absorb, merge_cues, clamp, clamp_all, fix_first, enforce_order,
  build_segments, normalize_segments,
}
use talkback.Transcript.Normalize.Order.{merge_cues_micro, merge_cues_next}

-- The texts in their order, with a space before each.
pub spaced : List String → String
spaced [] = ""
spaced (t ∷ ts) = " " ++ (t ++ spaced ts)

abbrev pub texts : List Cue → List String
texts = map (λ c. c.text)

abbrev pub HasText : Cue → Type 0
HasText c = is_empty c.text ≡ false

is_empty-append : (s t : String) → is_empty t ≡ false → is_empty (s ++ t) ≡ false
is_empty-append s t h = elim (Bool-cases (is_empty (s ++ t))) [
  | inr e ↦ e
  | inl e ↦ absurd (
      append-ne-nil_of_right_ne-nil s {t = t} (λ p. ground (arith, h, (eq_iff t "").1 p))
        ((eq_iff (s ++ t) "").0 e))
]

absorb_text :
    (prev c : Cue) → HasText prev → HasText c → (absorb prev c).text ≡ prev.text ++ " " ++ c.text
unfolding absorb
absorb_text prev c p h = rw (p, h)

absorb-HasText : (prev c : Cue) → HasText prev → HasText c → HasText (absorb prev c)
absorb-HasText prev c p h =
    rw (absorb_text prev c p h)
      (is_empty-append prev.text (" " ++ c.text) (is_empty-append " " c.text h))

merge_cues-spaced :
    (prev : Cue) (cs : List Cue)
    → HasText prev
    → All HasText cs
    → (spaced (texts (merge_cues prev cs)) ≡ spaced (texts (prev ∷ cs)))
      × All HasText (merge_cues prev cs)
unfolding spaced merge_cues
merge_cues-spaced prev [] p h = (refl, (p, tt))
merge_cues-spaced prev (c ∷ cs) p (hc, h) = elim (Bool-cases (is_micro c)) [
  | inl e ↦
      let (same, filled) = merge_cues-spaced (absorb prev c) cs (absorb-HasText prev c p hc) h in
      rw (merge_cues_micro prev c cs e) (
        same
            ∙ (rw (
              absorb_text prev c p hc,
              append_assoc prev.text (" " ++ c.text) (spaced (texts cs)),
              append_assoc " " c.text (spaced (texts cs)),
            )),
        filled,
      )
  | inr e ↦
      let (same, filled) = merge_cues-spaced c cs hc h in
      rw (merge_cues_next prev c cs e) (ap (λ s. " " ++ (prev.text ++ s)) same, (p, filled))
]

texts-clamp_all : (t : ℕ) (cs : List Cue) → texts (clamp_all t cs) ≡ texts cs
unfolding clamp_all clamp
texts-clamp_all t [] = refl
texts-clamp_all t (c ∷ cs) = ap (λ ts. c.text ∷ ts) (texts-clamp_all (clamp t c).end_ms cs)

texts-enforce_order : (cs : List Cue) → texts (enforce_order cs) ≡ texts cs
unfolding enforce_order fix_first
texts-enforce_order [] = refl
texts-enforce_order (c ∷ cs) = ap (λ ts. c.text ∷ ts) (texts-clamp_all c.end_ms cs)

-- Texts that are all filled are all kept.
build_segments-texts :
    (cs : List Cue)
    → All (λ t. is_empty t ≡ false) (texts cs)
    → map (λ s. s.text) (build_segments cs) ≡ texts cs
unfolding build_segments
build_segments-texts [] h = refl
build_segments-texts (c ∷ cs) (e, h) = rw e (ap (λ ts. c.text ∷ ts) (build_segments-texts cs h))

All-texts : (cs : List Cue) → All HasText cs → All (λ t. is_empty t ≡ false) (texts cs)
All-texts [] h = tt
All-texts (c ∷ cs) (e, h) = (e, All-texts cs h)

-- Of cues with a text, as parseCues gives them, the texts of the segments one after the other are
-- the texts of the cues.
normalize_segments-spaced :
    (cues : List Cue)
    → All HasText cues
    → spaced (map (λ s. s.text) (normalize_segments cues)) ≡ spaced (texts cues)
unfolding normalize_segments
normalize_segments-spaced [] h = refl
normalize_segments-spaced (c ∷ cs) (e, h) =
    let (same, filled) = merge_cues-spaced c cs e h in
    let kept = texts-enforce_order (merge_cues c cs) in
    ap spaced (
      build_segments-texts (enforce_order (merge_cues c cs))
        (rw kept (All-texts (merge_cues c cs) filled))
      ∙ kept)
    ∙ same
