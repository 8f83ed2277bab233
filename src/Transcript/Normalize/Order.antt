-- ===== src/Transcript/Normalize/Order.antt =====
-- The segments are in order and do not overlap.
use talkback.Prelude.{
  ℕ, ◌≤◌, ◌<◌, true, false, List, [], ◌∷◌, ◌≡◌, refl, arith, leb, Bool-cases, inl, inr,
}
use talkback.Transcript.Normalize.{
  Cue, Segment, is_empty, is_micro, absorb, merge_cues, clamp, clamp_all, fix_first, enforce_order,
  segment_of, build_segments, normalize_segments,
}

-- One behind the other from the time `t` on, and each of them forward.
abbrev Chained : ℕ → List Cue → Type 0
Chained t [] = Unit
Chained t (c ∷ cs) = (t ≤ c.start_ms) × ((c.start_ms < c.end_ms) × Chained c.end_ms cs)

abbrev pub InOrder : ℕ → List Segment → Type 0
InOrder t [] = Unit
InOrder t (s ∷ ss) = (t ≤ s.start_ms) × ((s.start_ms < s.end_ms) × InOrder s.end_ms ss)

-- Cues as a recorder writes them: forward, and each starts no earlier than the one before.
abbrev pub Recorded : ℕ → List Cue → Type 0
Recorded t [] = Unit
Recorded t (c ∷ cs) = (t ≤ c.start_ms) × ((c.start_ms < c.end_ms) × Recorded c.start_ms cs)

InOrder-mono : (t u : ℕ) (ss : List Segment) → t ≤ u → InOrder u ss → InOrder t ss
InOrder-mono t u [] h o = tt
InOrder-mono t u (s ∷ ss) h o = (omega (arith, h, o.0), o.1)

build_segments-InOrder : (t : ℕ) (cs : List Cue) → Chained t cs → InOrder t (build_segments cs)
unfolding build_segments
build_segments-InOrder t [] h = tt
build_segments-InOrder t (c ∷ cs) (from, (forward, h)) =
    let rest = build_segments-InOrder c.end_ms cs h in
    elim (Bool-cases (is_empty c.text)) [
      | inl e ↦
          rw e (InOrder-mono t c.end_ms (build_segments cs) (omega (arith, from, forward)) rest)
      | inr e ↦ rw e (from, (forward, rest))
    ]

clamp_all-Chained : (t : ℕ) (cs : List Cue) → Chained t (clamp_all t cs)
unfolding clamp_all clamp
clamp_all-Chained t [] = tt
clamp_all-Chained t (c ∷ cs) =
    (ground arith, (ground arith, clamp_all-Chained (clamp t c).end_ms cs))

-- Whatever is merged into the first cue, it starts where it started and stays forward.
abbrev Headed : ℕ → List Cue → Type 0
Headed t [] = ⊥
Headed t (c ∷ cs) = (c.start_ms ≡ t) × (t < c.end_ms)

pub merge_cues_micro :
    (prev c : Cue) (cs : List Cue)
    → is_micro c ≡ true
    → merge_cues prev (c ∷ cs) ≡ merge_cues (absorb prev c) cs
unfolding merge_cues
merge_cues_micro prev c cs e = rw (e, merge_cues)

pub merge_cues_next :
    (prev c : Cue) (cs : List Cue)
    → is_micro c ≡ false
    → merge_cues prev (c ∷ cs) ≡ prev ∷ merge_cues c cs
unfolding merge_cues
merge_cues_next prev c cs e = rw (e, merge_cues)

merge_cues-Headed :
    (prev : Cue) (cs : List Cue) (t : ℕ)
    → prev.start_ms < prev.end_ms
    → prev.start_ms ≤ t
    → Recorded t cs
    → Headed prev.start_ms (merge_cues prev cs)
unfolding absorb merge_cues
merge_cues-Headed prev [] t forward h r = (refl, forward)
merge_cues-Headed prev (c ∷ cs) t forward h r = elim (Bool-cases (is_micro c)) [
  | inl e ↦ rw (merge_cues_micro prev c cs e) (
      merge_cues-Headed (absorb prev c) cs c.start_ms (ground (arith, r.0, r.1.0, h))
        (ground (arith, r.0, h)) r.1.1)
  | inr e ↦ rw (merge_cues_next prev c cs e) (refl, forward)
]

enforce_order-Chained : (t : ℕ) (cs : List Cue) → Headed t cs → Chained 0 (enforce_order cs)
unfolding enforce_order fix_first
enforce_order-Chained t [] h = absurd h
enforce_order-Chained t (c ∷ cs) (same, forward) =
    let whole : leb c.end_ms c.start_ms ≡ false = ground (arith, same, forward) in
    rw whole (omega arith, (omega (arith, same, forward), clamp_all-Chained c.end_ms cs))

-- From cues that a recorder writes, each of which ends after it starts and starts no earlier than
-- the one before, come segments that are in order, do not overlap, and end after they start.
pub normalize_segments-InOrder :
    (cues : List Cue) → Recorded 0 cues → InOrder 0 (normalize_segments cues)
unfolding normalize_segments
normalize_segments-InOrder [] h = tt
normalize_segments-InOrder (c ∷ cs) (from, (forward, r)) =
    build_segments-InOrder 0 _ (
      enforce_order-Chained c.start_ms _
        (merge_cues-Headed c cs c.start_ms forward (omega arith) r))

-- The first cue is mended after the others were moved behind it: where it ends before it starts
-- and the second one, not a micro-cue, starts before it too, the segments overlap.
pub normalize_segments_overlap :
    (c d : Cue)
    → c.end_ms ≤ c.start_ms
    → d.start_ms ≤ c.start_ms
    → is_micro d ≡ false
    → is_empty c.text ≡ false
    → is_empty d.text ≡ false
    → (s : Segment) × ((t : Segment) × ((normalize_segments (c ∷ d ∷ []) ≡ s ∷ t ∷ [])
          × (t.start_ms < s.end_ms)))
unfolding normalize_segments enforce_order fix_first clamp_all clamp build_segments merge_cues
normalize_segments_overlap c d back early whole ct dt = (
  segment_of (fix_first c),
  (
    segment_of (clamp c.end_ms d),
    (rw (merge_cues_next c d [] whole, merge_cues, ct, dt), ground (arith, back, early)),
  ),
)
