-- ===== src/Prelude/Table.antt =====
-- A table as the list of its rows, and the SQL statements the repository uses, by predicate.
use mathlib.Core.Bool.{Bool, true, false}
use mathlib.Core.List.{List, [], ◌∷◌, ◌++◌}
use mathlib.Core.Option.{Option, none, some}
use mathlib.Core.Logic.{inl, inr}
use mathlib.Core.Option
use mathlib.Core.Path.{◌≡◌, refl}
use native.Mathlib.Omega.{arith}
use talkback.Prelude.Lists.{All}
use talkback.Prelude.Tests.{if◌then◌else◌, Bool-cases}

module _ {ℓ} {A : Type ℓ} where
  -- UPDATE t SET f WHERE p
  unfoldable pub update_where : (A → Bool) → (A → A) → List A → List A
  update_where p f [] = []
  update_where p f (r ∷ rs) = (if p r then f r else r) ∷ update_where p f rs

  -- SELECT … WHERE p LIMIT 1
  unfoldable pub find : (A → Bool) → List A → Option A
  find p [] = none
  find p (r ∷ rs) = if p r then some r else find p rs

  -- SELECT … WHERE p
  unfoldable pub select : (A → Bool) → List A → List A
  select p [] = []
  select p (r ∷ rs) = let rest = select p rs in if p r then r ∷ rest else rest

module _ {ℓ} {A : Type ℓ} where
  -- A lookup by a key that the update keeps finds the same row, updated.
  pub find-update_where :
      (q p : A → Bool) (f : A → A) (rs : List A)
      → ((r : A) → p r ≡ true → q (f r) ≡ q r)
      → find q (update_where p f rs) ≡ Option.map (λ r. if p r then f r else r) (find q rs)
  unfolding find update_where
  find-update_where q p f [] h = refl
  find-update_where q p f (r ∷ rs) h = ground (arith, h r, find-update_where q p f rs h)

  pub find-true : (q : A → Bool) (rs : List A) (r : A) → find q rs ≡ some r → q r ≡ true
  unfolding find
  find-true q [] r h = cc
  find-true q (x ∷ rs) r h = ground (arith, find-true q rs r)

  pub find-append :
      (q : A → Bool) (rs : List A) (r : A)
      → find q rs ≡ none
      → find q (rs ++ r ∷ []) ≡ (if q r then some r else none)
  unfolding find
  find-append q [] r h = refl
  find-append q (x ∷ rs) r h = ground (arith, find-append q rs r)

  pub find-append_some :
      (q : A → Bool) (rs ss : List A) (r : A) → find q rs ≡ some r → find q (rs ++ ss) ≡ some r
  unfolding find
  find-append_some q [] ss r h = cc
  find-append_some q (x ∷ rs) ss r h = ground (arith, find-append_some q rs ss r)

  pub find-none-All : (q : A → Bool) (rs : List A) → find q rs ≡ none → All (λ r. q r ≡ false) rs
  unfolding find
  find-none-All q [] h = tt
  find-none-All q (x ∷ rs) h = ground (arith, find-none-All q rs)

module _ {ℓ κ λ'} {A : Type ℓ} (P : A → Type κ) (Q : A → Type λ') (p : A → Bool) (f : A → A) where
  -- From what holds of all rows to what holds of all rows after an update.
  pub All-update_where :
      (rs : List A)
      → ((r : A) → p r ≡ true → P r → Q (f r))
      → ((r : A) → p r ≡ false → P r → Q r)
      → All P rs
      → All Q (update_where p f rs)
  unfolding update_where
  All-update_where [] hit miss h = tt
  All-update_where (r ∷ rs) hit miss h = (
    elim (Bool-cases (p r)) [ inl e ↦ rw e (hit r e h.0) | inr e ↦ rw e (miss r e h.0) ],
    All-update_where rs hit miss h.1,
  )

module _ {ℓ} {A : Type ℓ} (q : A → Bool) where
  pub select-append : (rs ss : List A) → select q (rs ++ ss) ≡ select q rs ++ select q ss
  unfolding select
  select-append [] ss = refl
  select-append (r ∷ rs) ss = ground (arith, select-append rs ss)

module _ {ℓ} {A : Type ℓ} (q p : A → Bool) (f : A → A) where
  -- Rows that an update takes out of a selection.
  pub select-update_where_out :
      (rs : List A)
      → ((r : A) → p r ≡ true → q (f r) ≡ false)
      → ((r : A) → p r ≡ false → q r ≡ false)
      → select q (update_where p f rs) ≡ []
  unfolding select update_where
  select-update_where_out [] hit miss = refl
  select-update_where_out (r ∷ rs) hit miss =
      ground (arith, hit r, miss r, select-update_where_out rs hit miss)

  -- Rows that are not selected, before the update or after.
  pub select-update_where_beside :
      (rs : List A)
      → ((r : A) → p r ≡ true → (q r ≡ false) × (q (f r) ≡ false))
      → select q (update_where p f rs) ≡ select q rs
  unfolding select update_where
  select-update_where_beside [] beside = refl
  select-update_where_beside (r ∷ rs) beside =
      ground (arith, beside r, select-update_where_beside rs beside)
