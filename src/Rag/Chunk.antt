-- ===== src/Rag/Chunk.antt =====
-- The two functions chunkText (internal/rag/chunker.go and internal/utils/retrieval.go). A text is
-- the list of its bytes, at any type of bytes.
pub mod Cover
use talkback.Prelude.{
  ℕ, zero, suc, ◌+◌, ◌-◌, min, Bool, true, false, Option, none, some, List, [], ◌∷◌, ltb, leb,
  length, take, drop,
}
use mathlib.Core.Option

module _ {ℓ} {A : Type ℓ} where
  -- text[start:end], at start ≤ end ≤ len(text).
  abbrev pub slice : List A → ℕ → ℕ → List A
  slice text start end_ = take (end_ - start) (drop start text)

  -- The loop of internal/rag/chunker.go from `start` on. `none` is the panic of a negative index,
  -- and the end of the fuel, which stands for a loop without end.
  unfoldable pub chunk_loop : ℕ → ℕ → List A → ℕ → ℕ → Option (List (List A))
  chunk_loop chunk_size overlap text zero start = none
  chunk_loop chunk_size overlap text (suc fuel) start =
      let end_ = min (start + chunk_size) (length text) in
      elim (ltb start (length text)) [
        | false ↦ some []
        | true ↦ elim (leb (length text) end_) [
          | true ↦ some (slice text start end_ ∷ [])
          | false ↦ elim (ltb end_ overlap) [
            | true ↦ none
            | false ↦
                Option.map (λ rest. slice text start end_ ∷ rest)
                  (chunk_loop chunk_size overlap text fuel (end_ - overlap))
          ]
        ]
      ]

  unfoldable pub chunk_text : ℕ → ℕ → List A → Option (List (List A))
  chunk_text chunk_size overlap text = elim (leb (length text) chunk_size) [
    | true ↦ some (text ∷ [])
    | false ↦ chunk_loop chunk_size overlap text (length text) 0
  ]

  -- The loop of internal/utils/retrieval.go, which moves `start` by a fixed step.
  unfoldable pub step_loop : ℕ → ℕ → List A → ℕ → ℕ → Option (List (List A))
  step_loop chunk_size overlap text zero start = none
  step_loop chunk_size overlap text (suc fuel) start =
      let end_ = min (start + chunk_size) (length text) in
      elim (ltb start (length text)) [
        | false ↦ some []
        | true ↦ elim (leb (length text) end_) [
          | true ↦ some (slice text start end_ ∷ [])
          | false ↦ elim (ltb (start + chunk_size) overlap) [
            | true ↦ none
            | false ↦
                Option.map (λ rest. slice text start end_ ∷ rest)
                  (step_loop chunk_size overlap text fuel (start + chunk_size - overlap))
          ]
        ]
      ]

  unfoldable pub chunk_text_by_steps : ℕ → ℕ → List A → Option (List (List A))
  chunk_text_by_steps chunk_size overlap text = elim (leb (length text) chunk_size) [
    | true ↦ some (text ∷ [])
    | false ↦ step_loop chunk_size overlap text (length text) 0
  ]
