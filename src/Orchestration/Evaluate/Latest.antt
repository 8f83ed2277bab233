-- ===== src/Orchestration/Evaluate/Latest.antt =====
-- The answer of a question that an evaluation looks at (GetLatestAnswerByQuestionID,
-- internal/database/questions.go).
use mathlib.Core.List.{Memᴰ}
use talkback.Prelude.{
  ℕ, ◌≡◌, ◌≤◌, false, Option, none, some, List, [], ◌∷◌, refl, inl, inr, Bool-cases, Option-cases,
  ◌==◌, ltb, select, arith, All,
}
use talkback.Orchestration.Model.{Answer}
use talkback.Orchestration.Evaluate.{Db, newest, get_latest_answer_by_question_id}

-- One of the answers of the question, and none of them is later; or it has no answer.
unfoldable pub IsLatest : ℕ → List Answer → Option Answer → Type 0
IsLatest question_id answers none = All (λ b. (b.question_id == question_id) ≡ false) answers
IsLatest question_id answers (some a) =
    Memᴰ a answers
    × ((a.question_id ≡ question_id)
        × All (λ b. b.question_id ≡ question_id → b.created_at ≤ a.created_at) answers)

IsLatest-other :
    (question_id : ℕ) (a : Answer) (answers : List Answer) (found : Option Answer)
    → (a.question_id == question_id) ≡ false
    → IsLatest question_id answers found
    → IsLatest question_id (a ∷ answers) found
unfolding IsLatest
IsLatest-other question_id a answers none e h = (e, h)
IsLatest-other question_id a answers (some b) e h =
    (Memᴰ.tail h.0, (h.1.0, ((λ same. absurd (ground arith)), h.1.1)))

All-later :
    (question_id : ℕ) (a b : Answer) (answers : List Answer)
    → b.created_at ≤ a.created_at
    → All (λ c. c.question_id ≡ question_id → c.created_at ≤ b.created_at) answers
    → All (λ c. c.question_id ≡ question_id → c.created_at ≤ a.created_at) answers
All-later question_id a b [] h all = tt
All-later question_id a b (c ∷ cs) h all =
    ((λ same. let first = all.0 same in omega arith), All-later question_id a b cs h all.1)

All-none :
    (question_id : ℕ) (a : Answer) (answers : List Answer)
    → All (λ c. (c.question_id == question_id) ≡ false) answers
    → All (λ c. c.question_id ≡ question_id → c.created_at ≤ a.created_at) answers
All-none question_id a [] all = tt
All-none question_id a (c ∷ cs) all =
    ((λ same. let first = all.0 in absurd (ground arith)), All-none question_id a cs all.1)

newest-IsLatest :
    (question_id : ℕ) (answers : List Answer)
    → IsLatest question_id answers (newest (select (λ a. a.question_id == question_id) answers))
unfolding newest select IsLatest
newest-IsLatest question_id [] = tt
newest-IsLatest question_id (a ∷ rows) =
    let of_question = select (λ a. a.question_id == question_id) rows in
    let rest = newest-IsLatest question_id rows in
    elim (Bool-cases (a.question_id == question_id)) [
      | inr e ↦ rw e (IsLatest-other question_id a rows (newest of_question) e rest)
      | inl e ↦
          let own : a.question_id ≡ question_id = ground arith in
          elim (Option-cases (newest of_question)) [
            | inl f ↦
                let nothing = rw f at rest in
                rw (e, f)
                  (
                    Memᴰ.head refl,
                    (own, ((λ same. omega arith), All-none question_id a rows nothing)),
                  )
            | inr (b, f) ↦
                let (m, (k, all)) = rw f at rest in
                elim (Bool-cases (ltb a.created_at b.created_at)) [
                  | inl l ↦ rw (e, f, l) (Memᴰ.tail m, (k, ((λ same. ground arith), all)))
                  | inr l ↦
                      rw (e, f, l)
                        (
                          Memᴰ.head refl,
                          (
                            own,
                            (
                              (λ same. omega arith),
                              All-later question_id a b rows (ground arith) all,
                            ),
                          ),
                        )
                ]
          ]
    ]

pub get_latest_answer_by_question_id-IsLatest :
    (question_id : ℕ) (db : Db)
    → IsLatest question_id db.answers (get_latest_answer_by_question_id question_id db)
unfolding get_latest_answer_by_question_id
get_latest_answer_by_question_id-IsLatest question_id db = newest-IsLatest question_id db.answers
