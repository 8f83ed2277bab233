-- ===== src/Rag/Index/Rows.antt =====
-- The upserts give each chunk its row.
use talkback.Prelude.{
  ℕ, suc, ◌≡◌, String, Bool, false, Option, none, some, List, [], ◌∷◌, refl, ◌∙◌, ap, inl, inr,
  length, ==_refl, eq_refl, find, find-append, find-append_some, find-update_where, update_where,
  if◌then◌else◌, arith, Bool-cases, Option-cases,
}
use mathlib.Core.Option
use talkback.Rag.Index.{ChunkRow, ChunkInput, has_content_hash, upsert_session_chunk, upsert_all}

-- The id of the row of a session with a hash.
abbrev pub id_of : ℕ → String → List ChunkRow → Option ℕ
id_of session_id hash rows = Option.map (λ r. r.id) (find (has_content_hash session_id hash) rows)

-- The ids are those of the rows of the chunks.
unfoldable pub Stored : ℕ → List ChunkInput → List ℕ → List ChunkRow → Type 0
Stored session_id [] [] rows = Unit
Stored session_id [] (id ∷ ids) rows = ⊥
Stored session_id (c ∷ cs) [] rows = ⊥
Stored session_id (c ∷ cs) (id ∷ ids) rows =
    (id_of session_id c.content_hash rows ≡ some id) × Stored session_id cs ids rows

module _ (session_id now : ℕ) where
  touched_id :
      (p : ChunkRow → Bool) (o : Option ChunkRow)
      → Option.map
          (λ r. r.id)
          (Option.map (λ r. if p r then record r { updated_at = now } else r) o)
        ≡ Option.map (λ r. r.id) o
  touched_id p none = refl
  touched_id p (some r) = elim (Bool-cases (p r)) [ inl e ↦ rw e refl | inr e ↦ rw e refl ]

  touched :
      (hash other : String) (rows : List ChunkRow)
      → id_of session_id hash (
          update_where
            (has_content_hash session_id other)
            (λ r. record r { updated_at = now })
            rows)
        ≡ id_of session_id hash rows
  touched hash other rows =
      rw
        (find-update_where (has_content_hash session_id hash) (has_content_hash session_id other)
          (λ r. record r { updated_at = now }) rows (λ r k. refl))
        (touched_id (has_content_hash session_id other)
          (find (has_content_hash session_id hash) rows))

  id_of-upsert :
      (new_id id : ℕ) (c : ChunkInput) (hash : String) (rows : List ChunkRow)
      → id_of session_id hash rows ≡ some id
      → id_of session_id hash (upsert_session_chunk new_id session_id now c rows).1 ≡ some id
  unfolding upsert_session_chunk
  id_of-upsert new_id id c hash rows h =
      elim (Option-cases (find (has_content_hash session_id c.content_hash) rows)) [
        | inr (old, e) ↦ rw (e, upsert_session_chunk) (touched hash c.content_hash rows ∙ h)
        | inl e ↦ elim (Option-cases (find (has_content_hash session_id hash) rows)) [
          | inl gone ↦ let h' = rw gone at h in absurd (cc)
          | inr (r, there) ↦
              rw
                (
                  e,
                  upsert_session_chunk,
                  find-append_some (has_content_hash session_id hash) rows _ r there,
                )
                (rw there at h)
        ]
      ]

  id_of-upsert_own :
      (new_id : ℕ) (c : ChunkInput) (rows : List ChunkRow)
      → id_of session_id c.content_hash (upsert_session_chunk new_id session_id now c rows).1
        ≡ some (upsert_session_chunk new_id session_id now c rows).0
  unfolding upsert_session_chunk
  id_of-upsert_own new_id c rows =
      elim (Option-cases (find (has_content_hash session_id c.content_hash) rows)) [
        | inr (old, e) ↦
            rw (e, upsert_session_chunk)
              (touched c.content_hash c.content_hash rows ∙ ap (Option.map (λ r. r.id)) e)
        | inl e ↦
            rw
              (
                e,
                upsert_session_chunk,
                find-append (has_content_hash session_id c.content_hash) rows _ e,
                ==_refl session_id,
                eq_refl c.content_hash,
              )
              refl
      ]

  module _ (ids : ℕ → ℕ) (fails : ℕ → Bool) (works : (n : ℕ) → fails n ≡ false) where
    upsert_all_next :
        (n : ℕ) (c : ChunkInput) (cs : List ChunkInput) (rows : List ChunkRow)
        → let first = upsert_session_chunk (ids n) session_id now c rows in
          let rest = upsert_all fails ids session_id now (suc n) cs first.1 in
          upsert_all fails ids session_id now n (c ∷ cs) rows
          ≡ (Option.map (λ more. first.0 ∷ more) rest.0, rest.1)
    unfolding upsert_all
    upsert_all_next n c cs rows = rw (works n) refl

    id_of-upsert_all :
        (cs : List ChunkInput) (n id : ℕ) (hash : String) (rows : List ChunkRow)
        → id_of session_id hash rows ≡ some id
        → id_of session_id hash (upsert_all fails ids session_id now n cs rows).1 ≡ some id
    unfolding upsert_all
    id_of-upsert_all [] n id hash rows h = h
    id_of-upsert_all (c ∷ cs) n id hash rows h = rw (works n) (
        id_of-upsert_all cs (suc n) id hash (upsert_session_chunk (ids n) session_id now c rows).1
          (id_of-upsert (ids n) id c hash rows h))

    pub upsert_all-Stored :
        (cs : List ChunkInput) (n : ℕ) (rows : List ChunkRow)
        → (found : List ℕ) × (((upsert_all fails ids session_id now n cs rows).0 ≡ some found)
            × (Stored session_id cs found (upsert_all fails ids session_id now n cs rows).1
                × (length found ≡ length cs)))
    unfolding upsert_all Stored
    upsert_all-Stored [] n rows = ([], (refl, (tt, refl)))
    upsert_all-Stored (c ∷ cs) n rows =
        let (id, rows') = upsert_session_chunk (ids n) session_id now c rows in
        let (found, (e, (stored, same))) = upsert_all-Stored cs (suc n) rows' in
        (
          id ∷ found,
          (
            rw (works n, e) refl,
            (
              rw (works n) (
                id_of-upsert_all cs (suc n) id c.content_hash rows'
                    (id_of-upsert_own (ids n) c rows),
                stored,
              ),
              omega arith,
            ),
          ),
        )
