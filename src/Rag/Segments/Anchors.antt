-- ===== src/Rag/Segments/Anchors.antt =====
-- The chunks of a transcript are its segments with a text, and their anchors point back at them.
use talkback.Prelude.{
  ℕ, zero, suc, ◌+◌, ◌<◌, String, Bool, not, Option, none, some, List, [], ◌∷◌, map, ◌≡◌, refl, ap,
  All, All-mono, select, str_eq, Bool-cases, arith, inl, inr,
}
use talkback.Rag.Segments.{Segment, Anchor, Chunk, chunk_of, chunks_from, build_transcript_chunks}

-- segments[i], if there is one.
abbrev pub get_elem? : List Segment → ℕ → Option Segment
get_elem? [] i = none
get_elem? (s ∷ segs) zero = some s
get_elem? (s ∷ segs) (suc i) = get_elem? segs i

-- The chunk is that of the segment at its index.
pub record IsChunkAt (offset : ℕ) (segments : List Segment) (c : Chunk) : Type 0 where
  seg : Segment
  place : ℕ
  index : c.chunk_idx ≡ offset + place
  found : get_elem? segments place ≡ some seg
  same_text : c.text ≡ seg.text
  same_start : c.anchor_json.start_ms ≡ seg.start_ms
  forward : c.anchor_json.start_ms < c.anchor_json.end_ms

abbrev pub has_text : Segment → Bool
has_text s = not (str_eq s.text "")

module _ (sha256_hex : String → String) (marshal : Anchor → String) (show : ℕ → String) where
  chunk_of-IsChunkAt :
      (session_id transcript_id : String) (i : ℕ) (seg : Segment) (segs : List Segment)
      → IsChunkAt i (seg ∷ segs) (chunk_of sha256_hex marshal show session_id transcript_id i seg)
  unfolding chunk_of
  chunk_of-IsChunkAt session_id transcript_id i seg segs = record {
    seg = seg;
    place = 0;
    index = omega arith;
    found = refl;
    same_text = refl;
    same_start = refl;
    forward = ground arith;
  }

  IsChunkAt-suc :
      (i : ℕ) (seg : Segment) (segs : List Segment) (c : Chunk)
      → IsChunkAt (suc i) segs c
      → IsChunkAt i (seg ∷ segs) c
  IsChunkAt-suc i seg segs c h = record {
    seg = h.seg;
    place = suc h.place;
    index = omega (arith, h.index);
    found = h.found;
    same_text = h.same_text;
    same_start = h.same_start;
    forward = h.forward;
  }

  chunks_from_lem :
      (session_id transcript_id : String) (i : ℕ) (segs : List Segment)
      → (map (λ c. c.text) (chunks_from sha256_hex marshal show session_id transcript_id i segs)
          ≡ map (λ s. s.text) (select has_text segs))
        × All
            (IsChunkAt i segs)
            (chunks_from sha256_hex marshal show session_id transcript_id i segs)
  unfolding chunks_from select chunk_of
  chunks_from_lem session_id transcript_id i [] = (refl, tt)
  chunks_from_lem session_id transcript_id i (seg ∷ segs) =
      let (texts, chunks) = chunks_from_lem session_id transcript_id (suc i) segs in
      let later = All-mono _ _ _ (IsChunkAt-suc i seg segs) chunks in
      elim (Bool-cases (str_eq seg.text "")) [
        | inl empty ↦ rw empty (texts, later)
        | inr filled ↦ rw filled (
          ap (λ ts. seg.text ∷ ts) texts,
          (chunk_of-IsChunkAt session_id transcript_id i seg segs, later),
        )
      ]

  -- There is one chunk for each segment with a text, in the order of the segments; the index of a
  -- chunk is the place of its segment among all segments, its text and the start of its anchor are
  -- the segment's, and the anchor ends after it starts, even where the segment does not.
  build_transcript_chunks_lem :
      (session_id transcript_id : String) (segments : List Segment)
      → (map
            (λ c. c.text)
            (build_transcript_chunks sha256_hex marshal show session_id transcript_id segments)
          ≡ map (λ s. s.text) (select has_text segments))
        × All
            (IsChunkAt 0 segments)
            (build_transcript_chunks sha256_hex marshal show session_id transcript_id segments)
  unfolding build_transcript_chunks
  build_transcript_chunks_lem session_id transcript_id segments =
      chunks_from_lem session_id transcript_id 0 segments
