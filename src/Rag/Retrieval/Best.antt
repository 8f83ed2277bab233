-- ===== src/Rag/Retrieval/Best.antt =====
-- The chunks returned are the best ones.
use talkback.Prelude.{
  ℕ, ◌≡◌, min, Bool, true, false, Option, some, List, [], ◌∷◌, ◌++◌, refl, sym, ◌∙◌, length, take,
  drop, All, take-append-drop, length-take, select, arith,
}
use mathlib.Core.Path.{subst}
use mathlib.Core.List.{Permᴰ}
use talkback.Prelude.Int.{ℤ}
use talkback.Rag.Retrieval.{
  ChunkWithEmbedding, RetrievedChunk, Ranking, retrieved, limit_of, has_higher_score, scored_list,
  top, retrieve_top_k_with_scores,
}

-- The orders that sort.Slice accepts.
pub record IsStrictWeakOrder {A : Type 0} (less : A → A → Bool) : Type 0 where
  pub asymmetric : (x y : A) → less x y ≡ true → less y x ≡ false
  pub falls : (x y z : A) → less x y ≡ false → less y z ≡ false → less x z ≡ false

-- No later element is less than an earlier one.
unfoldable pub IsSortedBy : {A : Type 0} → (A → A → Bool) → List A → Type 0
IsSortedBy less [] = Unit
IsSortedBy less (x ∷ xs) = All (λ y. less y x ≡ false) xs × IsSortedBy less xs

module _ (ranking : Ranking) where
  -- No later element scores higher.
  unfoldable pub Descending : List (RetrievedChunk ranking.Score) → Type 0
  Descending [] = Unit
  Descending (x ∷ xs) = All (λ y. ranking.is_greater y.score x.score ≡ false) xs × Descending xs

  -- The order of the scores is total but for equal scores: none is the float NaN.
  pub record IsScoreOrder : Type 0 where
    pub asymmetric :
        (a b : ranking.Score) → ranking.is_greater a b ≡ true → ranking.is_greater b a ≡ false
    pub falls :
        (a b c : ranking.Score)
        → ranking.is_greater a b ≡ false
        → ranking.is_greater b c ≡ false
        → ranking.is_greater a c ≡ false

  -- What sort.Slice promises of every list and every strict weak order.
  pub record Sorts : Type 0 where
    pub permutes :
        (less : RetrievedChunk ranking.Score → RetrievedChunk ranking.Score → Bool)
        → (xs : List (RetrievedChunk ranking.Score)) → Permᴰ (ranking.sort_slice less xs) xs
    pub sorted :
        (less : RetrievedChunk ranking.Score → RetrievedChunk ranking.Score → Bool)
        → (xs : List (RetrievedChunk ranking.Score)) → IsStrictWeakOrder less
        → IsSortedBy less (ranking.sort_slice less xs)

  -- The `best` of a list: as many as asked for or as there are, in order, and none of the rest scores
  -- higher than one of them.
  pub record Best (k : ℤ) (whole best : List (RetrievedChunk ranking.Score)) : Type 0 where
    pub rest : List (RetrievedChunk ranking.Score)
    pub split : Permᴰ (best ++ rest) whole
    pub ordered : Descending best
    pub above : All (λ x. All (λ y. ranking.is_greater y.score x.score ≡ false) rest) best
    pub count : length best ≡ min (limit_of k) (length whole)

  Permᴰ-length : {xs ys : List (RetrievedChunk ranking.Score)} → Permᴰ xs ys → length xs ≡ length ys
  Permᴰ-length Permᴰ.nil = refl
  Permᴰ-length (Permᴰ.cons e p) = rw (Permᴰ-length p)
  Permᴰ-length (Permᴰ.swap e f) = refl
  Permᴰ-length (Permᴰ.trans p q) = Permᴰ-length p ∙ Permᴰ-length q

  All-first :
      (P : RetrievedChunk ranking.Score → Type 0) (xs ys : List (RetrievedChunk ranking.Score))
      → All P (xs ++ ys)
      → All P xs × All P ys
  All-first P [] ys h = (tt, h)
  All-first P (x ∷ xs) ys h = let (a, b) = All-first P xs ys h.1 in ((h.0, a), b)

  Descending-append :
      (xs ys : List (RetrievedChunk ranking.Score))
      → Descending (xs ++ ys)
      → Descending xs × All (λ x. All (λ y. ranking.is_greater y.score x.score ≡ false) ys) xs
  unfolding Descending
  Descending-append [] ys h = (tt, tt)
  Descending-append (x ∷ xs) ys h =
      let (below, after) = All-first (λ y. ranking.is_greater y.score x.score ≡ false) xs ys h.0 in
      let (ordered, above) = Descending-append xs ys h.1 in ((below, ordered), (after, above))

  -- The comparator puts the higher score first.
  IsSortedBy-Descending :
      (xs : List (RetrievedChunk ranking.Score))
      → IsSortedBy (has_higher_score ranking) xs
      → Descending xs
  unfolding IsSortedBy Descending
  IsSortedBy-Descending [] h = tt
  IsSortedBy-Descending (x ∷ xs) h = (h.0, IsSortedBy-Descending xs h.1)

  has_higher_score-IsStrictWeakOrder : IsScoreOrder → IsStrictWeakOrder (has_higher_score ranking)
  has_higher_score-IsStrictWeakOrder order = record {
    asymmetric = λ x y. order.asymmetric x.score y.score;
    falls = λ x y z. order.falls x.score y.score z.score;
  }

  top-Best :
      (k : ℤ) (whole : List (RetrievedChunk ranking.Score))
      → IsScoreOrder
      → Sorts
      → Best k whole (top ranking k whole)
  unfolding top
  top-Best k whole order sorts =
      let less = has_higher_score ranking in
      let sorted = ranking.sort_slice less whole in
      let permutes = sorts.permutes less whole in
      let descends =
        IsSortedBy-Descending sorted
          (sorts.sorted less whole (has_higher_score-IsStrictWeakOrder order)) in
      let n = min (limit_of k) (length whole) in
      let same = take-append-drop n sorted in
      let parts =
        Descending-append (take n sorted) (drop n sorted) (subst Descending (sym same) descends) in
      record {
        rest = drop n sorted;
        split = subst (λ xs. Permᴰ xs whole) (sym same) permutes;
        ordered = parts.0;
        above = parts.1;
        count = omega (arith, length-take n sorted, Permᴰ-length permutes);
      }

-- If the scores are ordered and the sort of the standard library sorts, then for a question with an
-- embedding and chunks that can be listed, the retrieval returns, of the chunks whose embedding is as
-- long as the question's, with the scores that the loop gives them, as many as asked for (10 if the
-- number is not positive) or all, the highest score first, and no chunk left out scores higher than
-- one returned.
pub retrieve_top_k_with_scores-Best :
    (ranking : Ranking) (chunks : List (ChunkWithEmbedding ranking.Number)) (k : ℤ)
    (primary : Option ℕ) (x : ranking.Number) (question : List ranking.Number)
    → IsScoreOrder ranking
    → Sorts ranking
    → (best : List (RetrievedChunk ranking.Score)) × ((retrieve_top_k_with_scores ranking
            (some chunks)
            (x ∷ question)
            k
            primary
          ≡ retrieved best)
        × Best ranking k (scored_list ranking (x ∷ question) primary chunks) best)
unfolding retrieve_top_k_with_scores scored_list select Descending
retrieve_top_k_with_scores-Best ranking [] k primary x question order sorts = (
  [],
  (refl, record { rest = []; split = Permᴰ.nil; ordered = tt; above = tt; count = omega arith }),
)
retrieve_top_k_with_scores-Best ranking (c ∷ chunks) k primary x question order sorts = (
  _,
  (refl, top-Best ranking k (scored_list ranking (x ∷ question) primary (c ∷ chunks)) order sorts),
)
