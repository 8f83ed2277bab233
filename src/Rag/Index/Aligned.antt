-- ===== src/Rag/Index/Aligned.antt =====
-- One vector for each text.
use talkback.Prelude.{
  ℕ, zero, suc, ◌+◌, ◌≡◌, ◌≤◌, ◌⊎◌, String, some, List, [], ◌∷◌, ◌++◌, refl, sym, ap, ◌∙◌, map, inl,
  inr, length, take, drop, take-append-drop, length-drop, arith,
}
use talkback.Rag.Index.{Vectors, rate_limited, vectors, embed_batch, embed_loop, embed}

module _ {V : Type 0} (vector : String → V) (answer : ℕ → List String → Vectors V) where
  map-append : (xs ys : List String) → map vector (xs ++ ys) ≡ map vector xs ++ map vector ys
  map-append [] ys = refl
  map-append (x ∷ xs) ys = rw (map-append xs ys)

  -- The provider gives each text its vector, in order, or refuses every second call at most.
  abbrev pub Answers : Type 0
  Answers =
      (n : ℕ) (texts : List String)
      → (answer n texts ≡ vectors (map vector texts))
        ⊎ ((answer n texts ≡ rate_limited) × (answer (n + 1) texts ≡ vectors (map vector texts)))

  embed_loop-map :
      Answers
      → (fuel n : ℕ) (texts : List String) → length texts ≤ fuel
      → embed_loop answer n fuel texts ≡ some (map vector texts)
  unfolding embed_loop embed_batch
  embed_loop-map h fuel n [] le = refl
  embed_loop-map h zero n (t ∷ texts) le = absurd (omega arith)
  embed_loop-map h (suc fuel) n (t ∷ texts) le =
      let batch = take 32 (t ∷ texts) in
      let rest =
        embed_loop-map h fuel (n + 2) (drop 32 (t ∷ texts))
          (omega (arith, length-drop 32 (t ∷ texts))) in
      let whole : map vector batch ++ map vector (drop 32 (t ∷ texts)) ≡ map vector (t ∷ texts) =
        sym (map-append batch (drop 32 (t ∷ texts)))
        ∙ ap (map vector) (take-append-drop 32 (t ∷ texts)) in
      elim (h n batch) [
        | inl e ↦ rw (e, embed_loop, rest) (ap (λ vs. some vs) whole)
        | inr (limited, e) ↦ rw (limited, e, embed_loop, rest) (ap (λ vs. some vs) whole)
      ]

-- Where the provider gives each text its vector, in order, or refuses a batch with a 429 once, the
-- embedding of any number of texts ends and gives each text its vector, in order.
pub embed-map :
    {V : Type 0} (vector : String → V) (answer : ℕ → List String → Vectors V)
    → Answers vector answer
    → (texts : List String) → embed answer texts ≡ some (map vector texts)
unfolding embed
embed-map vector answer h texts =
    embed_loop-map vector answer h (length texts) 0 texts (omega arith)
