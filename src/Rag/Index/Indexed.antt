-- ===== src/Rag/Index/Indexed.antt =====
-- After a session is indexed, each of its chunks has its vector.
use talkback.Prelude.{
  ℕ, ◌≡◌, String, Bool, true, false, not, some, List, [], ◌∷◌, ◌++◌, refl, ◌∙◌, sym, map, length,
  ◌==◌, ==_refl, select, select-append, arith,
}
use talkback.Rag.Index.{
  Vectors, ChunkRow, ChunkInput, Embedding, Index, ready, upsert_all, insert_all,
  replace_embeddings, index_chunks,
}
use talkback.Rag.Index.Aligned.{Answers, embed-map}
use talkback.Rag.Index.Rows.{Stored, upsert_all-Stored}

module _ {V : Type 0} (session_id : ℕ) where
  -- The rows of the embeddings, for ids and vectors in the same order.
  unfoldable pub paired : List ℕ → List V → List (Embedding V)
  paired [] vs = []
  paired (id ∷ ids) [] = []
  paired (id ∷ ids) (v ∷ vs) =
      record { chunk_id = id; session_id = session_id; embedding = v } ∷ paired ids vs

  insert_all-paired :
      (fails : ℕ → Bool) (ids : List ℕ) (vs : List V)
      → ((id : ℕ) → fails id ≡ false)
      → insert_all fails session_id ids vs ≡ paired ids vs
  unfolding insert_all paired
  insert_all-paired fails [] vs works = refl
  insert_all-paired fails (id ∷ ids) [] works = refl
  insert_all-paired fails (id ∷ ids) (v ∷ vs) works =
      rw (works id, insert_all-paired fails ids vs works) refl

  select-paired :
      (ids : List ℕ) (vs : List V)
      → select (λ e. e.session_id == session_id) (paired ids vs) ≡ paired ids vs
  unfolding select paired
  select-paired [] vs = refl
  select-paired (id ∷ ids) [] = refl
  select-paired (id ∷ ids) (v ∷ vs) = rw (==_refl session_id, select-paired ids vs) refl

  select_others :
      (es : List (Embedding V))
      → select (λ e. e.session_id == session_id) (select (λ e. not (e.session_id == session_id)) es)
        ≡ []
  unfolding select
  select_others [] = refl
  select_others (e ∷ es) = ground (arith, select_others es)

length-map : {A B : Type 0} (f : A → B) (xs : List A) → length (map f xs) ≡ length xs
length-map f [] = refl
length-map f (x ∷ xs) = rw (length-map f xs)

map_text :
    {V : Type 0} (vector : String → V) (cs : List ChunkInput)
    → map vector (map {A = ChunkInput} (λ x. x.text) cs) ≡ map (λ x. vector x.text) cs
map_text vector [] = refl
map_text vector (c ∷ cs) = rw (map_text vector cs)

abbrev indexed : {V : Type 0} → ℕ → List ChunkRow → List ℕ → List V → Index V → Index V
indexed session_id rows found vs index = record {
  chunks = rows;
  embeddings =
      select (λ e. not (e.session_id == session_id)) index.embeddings ++ paired session_id found vs;
  index_status = ready;
}

replace_embeddings-indexed :
    {V : Type 0} (fails : ℕ → Bool) (session_id : ℕ) (found : List ℕ) (vs : List V)
    (rows : List ChunkRow) (index : Index V)
    → ((id : ℕ) → fails id ≡ false)
    → length vs ≡ length found
    → replace_embeddings fails (some vs) session_id found (record index { chunks = rows })
      ≡ (true, indexed session_id rows found vs index)
unfolding replace_embeddings
replace_embeddings-indexed fails session_id found vs rows index works same =
    let equal : (length vs == length found) ≡ true = ground arith in
    rw (equal, insert_all-paired session_id fails found vs works) refl

select-indexed :
    {V : Type 0} (session_id : ℕ) (rows : List ChunkRow) (found : List ℕ) (vs : List V)
    (index : Index V)
    → select (λ e. e.session_id == session_id) (indexed session_id rows found vs index).embeddings
      ≡ paired session_id found vs
select-indexed session_id rows found vs index =
    rw
      (
        select-append (λ e. e.session_id == session_id)
            (select (λ e. not (e.session_id == session_id)) index.embeddings)
            (paired session_id found vs),
        select_others session_id index.embeddings,
      )
      (select-paired session_id found vs)

-- Indexing a session for one chunk or more, where no statement fails and the provider gives each
-- text its vector or refuses a batch with a 429 once, succeeds and leaves the index ready; each
-- chunk has one row of the session with its hash, and the embeddings of the session are, in the
-- order of the chunks, the id of that row with the vector of the chunk's text.
pub index_chunks-Indexed :
    {V : Type 0} (vector : String → V) (answer : ℕ → List String → Vectors V)
    (upsert_fails insert_fails : ℕ → Bool) (ids : ℕ → ℕ) (session_id now : ℕ) (c : ChunkInput)
    (cs : List ChunkInput) (index : Index V)
    → Answers vector answer
    → ((n : ℕ) → upsert_fails n ≡ false)
    → ((n : ℕ) → insert_fails n ≡ false)
    → let (succeeded, index') =
        index_chunks upsert_fails insert_fails answer ids session_id now (c ∷ cs) index in
      (found : List ℕ) × ((succeeded ≡ true)
        × ((index'.index_status ≡ ready)
            × (Stored session_id (c ∷ cs) found index'.chunks
                × (select (λ e. e.session_id == session_id) index'.embeddings
                    ≡ paired session_id found (map (λ x. vector x.text) (c ∷ cs))))))
unfolding index_chunks
index_chunks-Indexed vector answer upsert_fails insert_fails ids session_id now c cs index h works
      inserts =
    let (found, (e, (stored, same))) =
      upsert_all-Stored session_id now ids upsert_fails works (c ∷ cs) 0 index.chunks in
    let vs = map (λ x. vector x.text) (c ∷ cs) in
    let rows = (upsert_all upsert_fails ids session_id now 0 (c ∷ cs) index.chunks).1 in
    let embedded = embed-map vector answer h (map {A = ChunkInput} (λ x. x.text) (c ∷ cs)) in
    let replaced =
      replace_embeddings-indexed insert_fails session_id found vs rows index inserts
        (length-map (λ x. vector x.text) (c ∷ cs) ∙ sym same) in
    (
      found,
      rw (e, index_chunks, embedded, map_text vector (c ∷ cs), replaced)
          (refl, (refl, (stored, select-indexed session_id rows found vs index))),
    )
