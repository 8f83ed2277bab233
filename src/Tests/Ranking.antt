-- ===== src/Tests/Ranking.antt =====
-- The ranking of two chunks, of which the second scores higher by the boost.
use talkback.Prelude.{
  ℕ, ◌≡◌, ◌*◌, ◌/◌, Bool, false, some, List, [], ◌∷◌, refl, ltb, select, All, inl, inr, Bool-cases,
  if◌then◌else◌, arith,
}
use mathlib.Core.List.{Permᴰ}
use talkback.Prelude.Int.{pos}
use talkback.Rag.Retrieval.{
  ChunkWithEmbedding, RetrievedChunk, Ranking, retrieved, scored_list, top, limit_of,
  retrieve_top_k_with_scores,
}
use talkback.Rag.Retrieval.Best.{
  Best, Sorts, IsScoreOrder, IsStrictWeakOrder, IsSortedBy, retrieve_top_k_with_scores-Best,
}

insert_by : {A : Type 0} → (A → A → Bool) → A → List A → List A
insert_by less x [] = x ∷ []
insert_by less x (y ∷ ys) =
    let rest = insert_by less x ys in if less y x then y ∷ rest else x ∷ y ∷ ys

sort_by : {A : Type 0} → (A → A → Bool) → List A → List A
unfolding insert_by
sort_by less [] = []
sort_by less (x ∷ xs) = insert_by less x (sort_by less xs)

Permᴰ-self : {A : Type 0} (xs : List A) → Permᴰ xs xs
Permᴰ-self [] = Permᴰ.nil
Permᴰ-self (x ∷ xs) = Permᴰ.cons refl (Permᴰ-self xs)

insert_by-Perm :
    {A : Type 0} (less : A → A → Bool) (x : A) (ys : List A) → Permᴰ (insert_by less x ys) (x ∷ ys)
unfolding insert_by
insert_by-Perm less x [] = Permᴰ.cons refl Permᴰ.nil
insert_by-Perm less x (y ∷ ys) = elim (Bool-cases (less y x)) [
  | inl e ↦ rw e (Permᴰ.trans (Permᴰ.cons refl (insert_by-Perm less x ys)) (Permᴰ.swap refl refl))
  | inr e ↦ rw e (Permᴰ-self (x ∷ y ∷ ys))
]

sort_by-Perm : {A : Type 0} (less : A → A → Bool) (xs : List A) → Permᴰ (sort_by less xs) xs
unfolding sort_by
sort_by-Perm less [] = Permᴰ.nil
sort_by-Perm less (x ∷ xs) =
    Permᴰ.trans (insert_by-Perm less x (sort_by less xs)) (Permᴰ.cons refl (sort_by-Perm less xs))

-- Every element of the list with one more is not less than `z`.
insert_by-All :
    {A : Type 0} (less : A → A → Bool) (z x : A) (ys : List A)
    → less x z ≡ false
    → All (λ y. less y z ≡ false) ys
    → All (λ y. less y z ≡ false) (insert_by less x ys)
unfolding insert_by
insert_by-All less z x [] h k = (h, tt)
insert_by-All less z x (y ∷ ys) h k = elim (Bool-cases (less y x)) [
  | inl e ↦ rw e (k.0, insert_by-All less z x ys h k.1)
  | inr e ↦ rw e (h, k)
]

All-falls :
    {A : Type 0} (less : A → A → Bool) (x y : A) (ys : List A)
    → IsStrictWeakOrder less
    → less y x ≡ false
    → All (λ z. less z y ≡ false) ys
    → All (λ z. less z x ≡ false) ys
All-falls less x y [] order h k = tt
All-falls less x y (z ∷ zs) order h k = (order.falls z y x k.0 h, All-falls less x y zs order h k.1)

insert_by-IsSortedBy :
    {A : Type 0} (less : A → A → Bool) (x : A) (ys : List A)
    → IsStrictWeakOrder less
    → IsSortedBy less ys
    → IsSortedBy less (insert_by less x ys)
unfolding insert_by IsSortedBy
insert_by-IsSortedBy less x [] order h = (tt, tt)
insert_by-IsSortedBy less x (y ∷ ys) order h = elim (Bool-cases (less y x)) [
  | inl e ↦ rw e (
    insert_by-All less y x ys (order.asymmetric y x e) h.0,
    insert_by-IsSortedBy less x ys order h.1,
  )
  | inr e ↦ rw e ((e, All-falls less x y ys order e h.0), h)
]

sort_by-IsSortedBy :
    {A : Type 0} (less : A → A → Bool) (xs : List A)
    → IsStrictWeakOrder less
    → IsSortedBy less (sort_by less xs)
unfolding sort_by IsSortedBy
sort_by-IsSortedBy less [] order = tt
sort_by-IsSortedBy less (x ∷ xs) order =
    insert_by-IsSortedBy less x (sort_by less xs) order (sort_by-IsSortedBy less xs order)

abbrev first_number : List ℕ → ℕ
first_number [] = 0
first_number (x ∷ xs) = x

-- A similarity that is the first number, scores in tenths, and an insertion sort.
abbrev ranking : Ranking
ranking = record {
  Number = ℕ;
  Score = ℕ;
  cosine_similarity = λ question embedding. first_number embedding;
  times = λ a b. a * b / 10;
  constant = λ n d. n * 10 / d;
  is_greater = λ a b. ltb b a;
  sort_slice = sort_by;
}

abbrev chunk : ℕ → ℕ → ChunkWithEmbedding ℕ
chunk id score = record {
  chunk = record {
    id = id;
    session_id = 2;
    source_type = "transcript";
    source_id = some id;
    chunk_idx = 0;
    text = "text";
  };
  embedding = score ∷ [];
}

abbrev chunks : List (ChunkWithEmbedding ℕ)
chunks = chunk 1 50 ∷ chunk 2 45 ∷ []

ranking-IsScoreOrder : IsScoreOrder ranking
ranking-IsScoreOrder = record {
  asymmetric = λ a b h. ground arith;
  falls = λ a b c h k. ground arith;
}

ranking-Sorts : Sorts ranking
ranking-Sorts = record { permutes = sort_by-Perm; sorted = sort_by-IsSortedBy }

best_first :
    top ranking (pos 1) (scored_list ranking (1 ∷ []) (some 2) chunks)
    ≡ record { chunk = (chunk 2 45).chunk; score = 54 } ∷ []
unfolding top scored_list select sort_by insert_by limit_of
best_first = refl

retrieve_top_k_with_scores-Best_example :
    (best : List (RetrievedChunk ℕ)) × ((retrieve_top_k_with_scores ranking
          (some chunks)
          (1 ∷ [])
          (pos 1)
          (some 2)
        ≡ retrieved best)
      × Best ranking (pos 1) (scored_list ranking (1 ∷ []) (some 2) chunks) best)
retrieve_top_k_with_scores-Best_example =
    retrieve_top_k_with_scores-Best ranking chunks (pos 1) (some 2) 1 [] ranking-IsScoreOrder
      ranking-Sorts
