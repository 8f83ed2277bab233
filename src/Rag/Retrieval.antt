-- ===== src/Rag/Retrieval.antt =====
-- The ranking of chunks (internal/rag/retrieval.go). Scores are floating-point numbers, so their
-- type with its product, its order and its constants, the cosine, and sort.Slice are parameters; the
-- comparator that sort.Slice is called with and the boost are the code's.
pub mod Best
use talkback.Prelude.{
  ℕ, zero, suc, ◌-◌, min, String, Bool, true, false, ◌&&◌, Option, none, some, List, [], ◌∷◌, ◌==◌,
  str_eq, length, take, map, select, if◌then◌else◌,
}
use talkback.Prelude.Int.{ℤ, pos, negsuc}

pub record SessionChunk : Type 0 where
  pub id : ℕ
  pub session_id : ℕ
  pub source_type : String
  pub source_id : Option ℕ
  pub chunk_idx : ℕ
  pub text : String

pub record ChunkWithEmbedding (F : Type 0) : Type 0 where
  pub chunk : SessionChunk
  pub embedding : List F

pub record RetrievedChunk (S : Type 0) : Type 0 where
  pub chunk : SessionChunk
  pub score : S

-- What the functions compute with: the numbers of an embedding, the scores with `*`, `>` and the
-- constant of a numerator and a denominator, and sort.Slice, which takes the function `less`.
pub record Ranking : Type 1 where
  pub Number : Type 0
  pub Score : Type 0
  pub cosine_similarity : List Number → List Number → Score
  pub times : Score → Score → Score
  pub constant : ℕ → ℕ → Score
  pub is_greater : Score → Score → Bool
  pub sort_slice :
      (RetrievedChunk Score → RetrievedChunk Score → Bool)
      → List (RetrievedChunk Score)
      → List (RetrievedChunk Score)

pub data Retrieval (S : Type 0) : Type 0 where
  list_error : Retrieval S
  empty_question : Retrieval S
  retrieved : List (RetrievedChunk S) → Retrieval S

-- DefaultTopK, for k <= 0.
unfoldable pub limit_of : ℤ → ℕ
limit_of (pos zero) = 10
limit_of (pos (suc k)) = suc k
limit_of (negsuc k) = 10

-- A chunk of the transcript of the primary video.
abbrev pub is_primary : Option ℕ → SessionChunk → Bool
is_primary none c = false
is_primary (some video) c = str_eq c.source_type "transcript" && is_source video c.source_id
  where
    is_source : ℕ → Option ℕ → Bool
    is_source v none = false
    is_source v (some id) = id == v

module _ (ranking : Ranking) where
  -- PrimaryVideoScoreBoost, 1.2
  abbrev pub primary_video_score_boost : ranking.Score
  primary_video_score_boost = ranking.constant 12 10

  -- scoredList[i].score > scoredList[j].score
  abbrev pub has_higher_score : RetrievedChunk ranking.Score → RetrievedChunk ranking.Score → Bool
  has_higher_score x y = ranking.is_greater x.score y.score

  abbrev pub has_length : List ranking.Number → ChunkWithEmbedding ranking.Number → Bool
  has_length question c = length c.embedding == length question

  abbrev pub score_of :
      List ranking.Number
      → Option ℕ
      → ChunkWithEmbedding ranking.Number
      → RetrievedChunk ranking.Score
  score_of question primary c =
      let sim = ranking.cosine_similarity question c.embedding in
      record {
        chunk = c.chunk;
        score =
            if is_primary primary c.chunk then ranking.times sim primary_video_score_boost else sim;
      }

  -- The chunks whose embedding has the length of the question's, with their scores.
  unfoldable pub scored_list :
      List ranking.Number
      → Option ℕ
      → List (ChunkWithEmbedding ranking.Number)
      → List (RetrievedChunk ranking.Score)
  scored_list question primary chunks =
      map (score_of question primary) (select (has_length question) chunks)

  unfoldable pub top : ℤ → List (RetrievedChunk ranking.Score) → List (RetrievedChunk ranking.Score)
  top k scored =
      take (min (limit_of k) (length scored)) (ranking.sort_slice has_higher_score scored)

  -- `none` is the error of the statement that lists the chunks.
  unfoldable pub retrieve_top_k_with_scores :
      Option (List (ChunkWithEmbedding ranking.Number))
      → List ranking.Number
      → ℤ
      → Option ℕ
      → Retrieval ranking.Score
  retrieve_top_k_with_scores none question k primary = list_error
  retrieve_top_k_with_scores (some []) question k primary = retrieved []
  retrieve_top_k_with_scores (some (c ∷ chunks)) [] k primary = empty_question
  retrieve_top_k_with_scores (some (c ∷ chunks)) (x ∷ question) k primary =
      retrieved (top k (scored_list (x ∷ question) primary (c ∷ chunks)))

  -- Without a boost.
  unfoldable pub cross_session_top_k_by_chunks :
      List (ChunkWithEmbedding ranking.Number)
      → List ranking.Number
      → ℤ
      → List (RetrievedChunk ranking.Score)
  cross_session_top_k_by_chunks chunks [] k = []
  cross_session_top_k_by_chunks [] (x ∷ question) k = []
  cross_session_top_k_by_chunks (c ∷ chunks) (x ∷ question) k =
      top k (scored_list (x ∷ question) none (c ∷ chunks))
