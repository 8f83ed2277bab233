-- ===== src/Tests/Indexing.antt =====
-- Indexing two chunks, of which one has a row already.
use talkback.Prelude.{ℕ, ◌+◌, ◌≡◌, String, true, false, List, [], ◌∷◌, refl, map, select, ◌==◌, inl}
use talkback.Rag.Index.{Vectors, ChunkInput, Index, IndexStatus, index_chunks}
use talkback.Rag.Index.Aligned.{Answers}
use talkback.Rag.Index.Rows.{Stored}
use talkback.Rag.Index.Indexed.{paired, index_chunks-Indexed}

abbrev vector : String → String
vector s = s

abbrev answer : ℕ → List String → Vectors String
answer n texts = Vectors.vectors (map vector texts)

answer-Answers : Answers vector answer
answer-Answers n texts = inl refl

abbrev chunk : String → ChunkInput
chunk text = record { text = text; content_hash = text }

abbrev index : Index String
index = record {
  chunks =
      record { id = 7; session_id = 2; content_hash = "old"; text = "old"; updated_at = 1 } ∷ [];
  embeddings = record { chunk_id = 7; session_id = 2; embedding = "old" } ∷ [];
  index_status = IndexStatus.building;
}

index_chunks-Indexed_example :
    let (succeeded, index') =
      index_chunks
        (λ n. false)
        (λ n. false)
        answer
        (λ n. 50 + n)
        2
        9
        (chunk "old" ∷ chunk "new" ∷ [])
        index in
    (found : List ℕ) × ((succeeded ≡ true)
      × ((index'.index_status ≡ IndexStatus.ready)
          × (Stored 2 (chunk "old" ∷ chunk "new" ∷ []) found index'.chunks
              × (select (λ e. e.session_id == 2) index'.embeddings
                  ≡ paired 2 found (map (λ x. vector x.text) (chunk "old" ∷ chunk "new" ∷ []))))))
index_chunks-Indexed_example =
    index_chunks-Indexed vector answer (λ n. false) (λ n. false) (λ n. 50 + n) 2 9 (chunk "old")
      (chunk "new" ∷ []) index answer-Answers (λ n. refl) (λ n. refl)
