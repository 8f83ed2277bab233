-- ===== src/Rag/Chunk/Cover.antt =====
-- The chunks of a text are short, cover it, and overlap exactly; both loops give the same.
use talkback.Prelude.{
  ℕ, zero, suc, ◌+◌, ◌-◌, ◌≤◌, ◌<◌, min, true, Option, some, List, [], ◌∷◌, ◌++◌, Bool-cases, inl,
  inr, ltb, leb, length, take, drop, length-take, length-drop, take-append-drop, All, arith, ◌≡◌,
  refl, ap, sym, ◌∙◌,
}
use mathlib.Core.Option
use talkback.Rag.Chunk.{slice, chunk_loop, chunk_text, step_loop, chunk_text_by_steps}

module _ {ℓ} {A : Type ℓ} where
  -- The text that the chunks come from: of all but the first, the overlap is left out.
  abbrev pub tails : ℕ → List (List A) → List A
  tails overlap [] = []
  tails overlap (c ∷ cs) = drop overlap c ++ tails overlap cs

  abbrev pub joined : ℕ → List (List A) → List A
  joined overlap [] = []
  joined overlap (c ∷ cs) = c ++ tails overlap cs

  drop-nil : (n : ℕ) → drop {A = A} n [] ≡ []
  drop-nil zero = refl
  drop-nil (suc n) = refl

  drop-drop : (m n : ℕ) (xs : List A) → drop m (drop n xs) ≡ drop (n + m) xs
  drop-drop m zero xs = ap (λ k. drop k xs) (omega arith)
  drop-drop m (suc n) [] = drop-nil m ∙ sym (drop-nil (suc n + m))
  drop-drop m (suc n) (x ∷ xs) =
      drop-drop m n xs ∙ ap (λ k. drop k (x ∷ xs)) {x = suc (n + m)} (omega arith)

  drop-append : (m : ℕ) (xs ys : List A) → m ≤ length xs → drop m (xs ++ ys) ≡ drop m xs ++ ys
  drop-append zero xs ys h = refl
  drop-append (suc m) [] ys h = absurd (omega (arith, h))
  drop-append (suc m) (x ∷ xs) ys h = drop-append m xs ys (omega (arith, h))

  append-nil : (xs : List A) → xs ++ [] ≡ xs
  append-nil [] = refl
  append-nil (x ∷ xs) = ap (λ ys. x ∷ ys) (append-nil xs)

  -- The next chunk starts at `n - overlap`; together with what stands before, nothing is lost.
  slice-joined :
      (overlap m n : ℕ) (text : List A)
      → m ≤ n - overlap
      → overlap ≤ n
      → slice text m n ++ drop overlap (drop (n - overlap) text) ≡ drop m text
  slice-joined overlap m n text h o =
      let back : n - overlap + overlap ≡ n = omega (arith, o) in
      let on : m + (n - m) ≡ n = omega (arith, h) in
      let same : drop overlap (drop (n - overlap) text) ≡ drop (n - m) (drop m text) =
        drop-drop overlap (n - overlap) text
        ∙ ap (λ k. drop k text) (back ∙ sym on)
        ∙ sym (drop-drop (n - m) m text) in
      rw same (take-append-drop (n - m) (drop m text))

  take_all : (n : ℕ) (xs : List A) → length xs ≤ n → take n xs ++ [] ≡ xs
  take_all zero [] h = refl
  take_all zero (x ∷ xs) h = absurd (omega (arith, h))
  take_all (suc n) [] h = refl
  take_all (suc n) (x ∷ xs) h = ap (λ ys. x ∷ ys) (take_all n xs (omega (arith, h)))

  module _ (chunk_size overlap : ℕ) (text : List A) where
    -- What the loop gives from `start` on.
    abbrev Covers : ℕ → Option (List (List A)) → Type ℓ
    Covers start out =
        (c : List A) × ((cs : List (List A)) × ((out ≡ some (c ∷ cs))
            × ((c ++ tails overlap cs ≡ drop start text)
                × ((overlap < length c) × All (λ d. length d ≤ chunk_size) (c ∷ cs)))))

    length-slice : (m n : ℕ) → n ≤ length text → length (slice text m n) ≡ n - m
    length-slice m n h = omega (arith, h, length-take (n - m) (drop m text), length-drop m text)

    -- The two ways the loop goes on.
    chunk_loop_last :
        (fuel start : ℕ)
        → start < length text
        → length text ≤ start + chunk_size
        → chunk_loop chunk_size overlap text (suc fuel) start
          ≡ some (slice text start (length text) ∷ [])
    unfolding chunk_loop
    chunk_loop_last fuel start h l = ground arith

    chunk_loop_next :
        (fuel start : ℕ)
        → start + chunk_size < length text
        → overlap ≤ start + chunk_size
        → chunk_loop chunk_size overlap text (suc fuel) start
          ≡ Option.map
              (λ rest. slice text start (start + chunk_size) ∷ rest)
              (chunk_loop chunk_size overlap text fuel (start + chunk_size - overlap))
    unfolding chunk_loop
    chunk_loop_next fuel start h l = ground arith

    chunk_loop-Covers :
        (fuel start : ℕ)
        → overlap < chunk_size
        → start + overlap < length text
        → length text ≤ start + fuel
        → Covers start (chunk_loop chunk_size overlap text fuel start)
    chunk_loop-Covers zero start small inside enough = absurd (omega (arith, inside, enough))
    chunk_loop-Covers (suc fuel) start small inside enough =
        elim (Bool-cases (ltb (start + chunk_size) (length text))) [
          | inl more ↦
              let n : ℕ = start + chunk_size in
              let whole = length-slice start n (ground (arith, more)) in
              let (c, (cs, (e, (j, (o, a))))) =
                chunk_loop-Covers fuel (n - overlap) small (ground (arith, more, small))
                  (ground (arith, enough, small)) in
              (
                slice text start n,
                (
                  c ∷ cs,
                  (
                    rw (
                      chunk_loop_next fuel start (ground (arith, more)) (ground (arith, small)),
                      e,
                    ),
                    (
                      ap (λ ys. slice text start n ++ ys)
                            (sym (drop-append overlap c (tails overlap cs) (ground (arith, o)))
                              ∙ ap (drop overlap) j)
                          ∙ slice-joined overlap start n text (ground (arith, small))
                              (ground (arith, small)),
                      (ground (arith, more, small, whole), (ground (arith, whole), a)),
                    ),
                  ),
                ),
              )
          | inr last ↦
              let whole = length-slice start (length text) (omega arith) in
              (
                slice text start (length text),
                (
                  [],
                  (
                    chunk_loop_last fuel start (ground (arith, inside)) (ground (arith, last)),
                    (
                      take_all (length text - start) (drop start text)
                          (omega (arith, length-drop start text)),
                      (ground (arith, inside, whole), (ground (arith, last, whole), tt)),
                    ),
                  ),
                ),
              )
        ]

  -- With an overlap shorter than a chunk, the text is cut without a panic and without end: no chunk
  -- is longer than the size, and the first chunk followed by the others, each without as many bytes
  -- at its start as the overlap has, is the text.
  pub chunk_text_lem :
      (chunk_size overlap : ℕ) (text : List A)
      → overlap < chunk_size
      → (cs : List (List A)) × ((chunk_text chunk_size overlap text ≡ some cs)
          × ((joined overlap cs ≡ text) × All (λ c. length c ≤ chunk_size) cs))
  unfolding chunk_text
  chunk_text_lem chunk_size overlap text small = elim (Bool-cases (leb (length text) chunk_size)) [
    | inl short ↦
        (text ∷ [], (rw (short, chunk_text), (append-nil text, (ground (arith, short), tt))))
    | inr long ↦
        let (c, (cs, (e, (j, (o, a))))) =
          chunk_loop-Covers chunk_size overlap text (length text) 0 small
            (ground (arith, long, small)) (omega arith) in
        (c ∷ cs, (rw (long, chunk_text, e), (j, a)))
  ]

  step_loop_eq :
      (chunk_size overlap : ℕ) (text : List A) (fuel start : ℕ)
      → step_loop chunk_size overlap text fuel start ≡ chunk_loop chunk_size overlap text fuel start
  unfolding step_loop chunk_loop
  step_loop_eq chunk_size overlap text zero start = refl
  step_loop_eq chunk_size overlap text (suc fuel) start =
      elim (Bool-cases (ltb start (length text))) [
        | inr over ↦ rw (over, step_loop, chunk_loop)
        | inl inside ↦ elim (Bool-cases (leb (length text) (start + chunk_size))) [
          | inl last ↦
              let here : min (start + chunk_size) (length text) ≡ length text =
                ground (arith, last) in
              let all : leb (length text) (length text) ≡ true = ground arith in
              rw (inside, here, all, step_loop, chunk_loop)
          | inr more ↦
              let here : min (start + chunk_size) (length text) ≡ start + chunk_size =
                ground (arith, more) in
              let next = start + chunk_size - overlap in
              let rest = step_loop_eq chunk_size overlap text fuel next in
              elim (Bool-cases (ltb (start + chunk_size) overlap)) [
                | inl panics ↦ rw (inside, here, more, here, panics, step_loop, chunk_loop)
                | inr goes_on ↦
                    rw (inside, here, more, here, goes_on, step_loop, chunk_loop, here, rest)
              ]
        ]
      ]

  -- The chunks of the retrieval by words are those of the retrieval by embeddings, at every size,
  -- overlap and text, the panics and the loops without end included.
  chunk_text_by_steps_eq :
      (chunk_size overlap : ℕ) (text : List A)
      → chunk_text_by_steps chunk_size overlap text ≡ chunk_text chunk_size overlap text
  unfolding chunk_text chunk_text_by_steps
  chunk_text_by_steps_eq chunk_size overlap text =
      elim (Bool-cases (leb (length text) chunk_size)) [
        | inl short ↦ rw (short, chunk_text, chunk_text_by_steps)
        | inr long ↦ rw (
          long,
          chunk_text,
          chunk_text_by_steps,
          step_loop_eq chunk_size overlap text (length text) 0,
        )
      ]
