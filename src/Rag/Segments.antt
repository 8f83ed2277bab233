-- ===== src/Rag/Segments.antt =====
-- BuildTranscriptChunks and ContentHash (internal/rag/chunker.go): one chunk for each segment of a
-- transcript. An anchor is a record in place of a JSON map; json.Marshal, the printing of numbers
-- and SHA-256 are arguments.
pub mod Anchors
use talkback.Prelude.{ℕ, suc, ◌+◌, String, List, [], ◌∷◌, leb, str_eq, if◌then◌else◌}
use Prim.Native.String.{◌++◌}

-- TranscriptSegmentRow, without the columns that are not read here.
pub record Segment : Type 0 where
  pub idx : ℕ
  pub start_ms : ℕ
  pub end_ms : ℕ
  pub text : String

pub record Anchor : Type 0 where
  pub start_ms : ℕ
  pub end_ms : ℕ
  pub segment_idx_start : ℕ
  pub segment_idx_end : ℕ

-- ChunkInput
pub record Chunk : Type 0 where
  pub session_id : String
  pub source_type : String
  pub source_id : String
  pub chunk_idx : ℕ
  pub text : String
  pub anchor_json : Anchor
  pub content_hash : String

module _ (sha256_hex : String → String) (marshal : Anchor → String) (show : ℕ → String) where
  unfoldable pub content_hash : String → Anchor → String → String → String → ℕ → String
  content_hash text anchor session_id source_type source_id chunk_idx = sha256_hex (
      text
      ++ "|"
      ++ marshal anchor
      ++ "|"
      ++ session_id
      ++ "|"
      ++ source_type
      ++ "|"
      ++ source_id
      ++ "|"
      ++ show chunk_idx)

  -- The body of the loop, at the index `i`, for a segment with a text.
  unfoldable pub chunk_of : String → String → ℕ → Segment → Chunk
  chunk_of session_id transcript_id i seg =
      let anchor : Anchor = record {
        start_ms = seg.start_ms;
        end_ms = if leb seg.end_ms seg.start_ms then seg.start_ms + 1 else seg.end_ms;
        segment_idx_start = seg.idx;
        segment_idx_end = seg.idx;
      } in
      record {
        session_id = session_id;
        source_type = "transcript";
        source_id = transcript_id;
        chunk_idx = i;
        text = seg.text;
        anchor_json = anchor;
        content_hash = content_hash seg.text anchor session_id "transcript" transcript_id i;
      }

  -- The loop, from the index `i` on.
  unfoldable pub chunks_from : String → String → ℕ → List Segment → List Chunk
  chunks_from session_id transcript_id i [] = []
  chunks_from session_id transcript_id i (seg ∷ segs) =
      let rest = chunks_from session_id transcript_id (suc i) segs in
      if str_eq seg.text "" then rest else chunk_of session_id transcript_id i seg ∷ rest

  unfoldable pub build_transcript_chunks : String → String → List Segment → List Chunk
  build_transcript_chunks session_id transcript_id segments =
      chunks_from session_id transcript_id 0 segments
