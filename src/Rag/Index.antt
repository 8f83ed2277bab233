-- ===== src/Rag/Index.antt =====
-- The embeddings of texts (internal/rag/embedder.go) and the writing of an index
-- (internal/rag/index.go, internal/database/session_chunks.go). The vectors come from a provider.
pub mod Aligned
pub mod Indexed
pub mod Rows
use talkback.Prelude.{
  ℕ, zero, suc, ◌+◌, String, Bool, true, false, not, ◌&&◌, Option, none, some, List, [], ◌∷◌, ◌++◌,
  ◌==◌, map, str_eq, length, take, drop, find, select, update_where, if◌then◌else◌,
}
use mathlib.Core.Option

-- What the provider answers: the vectors, or an error, which says 429 or does not.
pub data Vectors (V : Type 0) : Type 0 where
  rate_limited : Vectors V
  other_error : Vectors V
  vectors : List V → Vectors V

module _ {V : Type 0} where
  -- One batch, with one more try after a 429.
  unfoldable pub embed_batch : Vectors V → Vectors V → Option (List V)
  embed_batch (vectors vs) again = some vs
  embed_batch other_error again = none
  embed_batch rate_limited (vectors vs) = some vs
  embed_batch rate_limited rate_limited = none
  embed_batch rate_limited other_error = none

  -- The loop over batches of 32. `answer n texts` is what the provider answers to the n-th call; the
  -- fuel is the number of texts, of which a batch takes one at least.
  unfoldable pub embed_loop : (ℕ → List String → Vectors V) → ℕ → ℕ → List String → Option (List V)
  embed_loop answer n fuel [] = some []
  embed_loop answer n zero (t ∷ texts) = none
  embed_loop answer n (suc fuel) (t ∷ texts) =
      let batch = take 32 (t ∷ texts) in
      let rest = embed_loop answer (n + 2) fuel (drop 32 (t ∷ texts)) in
      elim (embed_batch (answer n batch) (answer (n + 1) batch)) [
        | none ↦ none
        | some vs ↦ elim rest [ none ↦ none | some more ↦ some (vs ++ more) ]
      ]

  unfoldable pub embed : (ℕ → List String → Vectors V) → List String → Option (List V)
  embed answer texts = embed_loop answer 0 (length texts) texts

pub record ChunkRow : Type 0 where
  pub id : ℕ
  pub session_id : ℕ
  pub content_hash : String
  pub text : String
  pub updated_at : ℕ

-- The columns of a chunk that the upsert is given, the others standing in its hash.
pub record ChunkInput : Type 0 where
  pub text : String
  pub content_hash : String

pub record Embedding (V : Type 0) : Type 0 where
  pub chunk_id : ℕ
  pub session_id : ℕ
  pub embedding : V

pub data IndexStatus : Type 0 where
  building : IndexStatus
  ready : IndexStatus
  index_failed : IndexStatus

pub record Index (V : Type 0) : Type 0 where
  pub chunks : List ChunkRow
  pub embeddings : List (Embedding V)
  pub index_status : IndexStatus

-- The conflict of the upsert.
abbrev pub has_content_hash : ℕ → String → ChunkRow → Bool
has_content_hash session_id hash c = (c.session_id == session_id) && str_eq c.content_hash hash

-- UpsertSessionChunk, with the id that is drawn for a new row; the id of the row comes first.
unfoldable pub upsert_session_chunk : ℕ → ℕ → ℕ → ChunkInput → List ChunkRow → ℕ × List ChunkRow
upsert_session_chunk new_id session_id now c rows =
    elim (find (has_content_hash session_id c.content_hash) rows) [
      | some old ↦ (
        old.id,
        update_where (has_content_hash session_id c.content_hash)
            (λ r. record r { updated_at = now }) rows,
      )
      | none ↦ (
        new_id,
        rows
            ++ record {
              id = new_id;
              session_id = session_id;
              content_hash = c.content_hash;
              text = c.text;
              updated_at = now;
            }
              ∷ [],
      )
    ]

-- The loop of the upserts; `ids n` is the id drawn for the n-th chunk. It stops at a statement that
-- fails, which leaves the chunks before it. The ids found come in the order of the chunks.
unfoldable pub upsert_all :
    (ℕ → Bool)
    → (ℕ → ℕ)
    → ℕ
    → ℕ
    → ℕ
    → List ChunkInput
    → List ChunkRow
    → Option (List ℕ) × List ChunkRow
upsert_all fails ids session_id now n [] rows = (some [], rows)
upsert_all fails ids session_id now n (c ∷ cs) rows =
    let (id, rows') = upsert_session_chunk (ids n) session_id now c rows in
    let (found, rows'') = upsert_all fails ids session_id now (suc n) cs rows' in
    if fails n then (none, rows) else (Option.map (λ rest. id ∷ rest) found, rows'')

module _ {V : Type 0} where
  -- InsertChunkEmbedding for each id, without those whose statement fails, which is only logged.
  unfoldable pub insert_all : (ℕ → Bool) → ℕ → List ℕ → List V → List (Embedding V)
  insert_all fails session_id [] vs = []
  insert_all fails session_id (id ∷ ids) [] = []
  insert_all fails session_id (id ∷ ids) (v ∷ vs) =
      let rest = insert_all fails session_id ids vs in
      if fails id
      then rest
      else record { chunk_id = id; session_id = session_id; embedding = v } ∷ rest

  -- IndexSession from the embeddings on, for chunks with these ids; the statements on the status do
  -- not fail, and neither does the deletion. `false` is an error.
  unfoldable pub replace_embeddings :
      (ℕ → Bool) → Option (List V) → ℕ → List ℕ → Index V → Bool × Index V
  replace_embeddings fails embedded session_id ids index =
      let kept = select (λ e. not (e.session_id == session_id)) index.embeddings in
      elim embedded [
        | none ↦ (false, record index { embeddings = kept; index_status = index_failed })
        | some vs ↦
            if not (length vs == length ids)
            then (false, record index { embeddings = kept; index_status = index_failed })
            else (
              true,
              record index {
                embeddings = kept ++ insert_all fails session_id ids vs;
                index_status = ready;
              },
            )
      ]

  -- IndexSession for the chunks that it gathered, their texts made valid. The error of an upsert
  -- leaves the status as it is.
  unfoldable pub index_chunks :
      (ℕ → Bool)
      → (ℕ → Bool)
      → (ℕ → List String → Vectors V)
      → (ℕ → ℕ)
      → ℕ
      → ℕ
      → List ChunkInput
      → Index V
      → Bool × Index V
  index_chunks upsert_fails insert_fails answer ids session_id now [] index =
      (true, record index { index_status = ready })
  index_chunks upsert_fails insert_fails answer ids session_id now (c ∷ cs) index =
      let (found, rows) = upsert_all upsert_fails ids session_id now 0 (c ∷ cs) index.chunks in
      elim found [
        | none ↦ (false, record index { chunks = rows })
        | some chunk_ids ↦
            replace_embeddings insert_fails (embed answer (map (λ x. x.text) (c ∷ cs))) session_id
              chunk_ids (record index { chunks = rows })
      ]
