-- ===== src/Processing/Pipeline/Rules.antt =====
-- What holds when a step of a run ends the run, and when the run goes on: one rule for each way to
-- build a step (the combinators of internal/processing/pipeline.go's model).
use talkback.Prelude.{String, Bool, true, false, Option, none, some, ◌≡◌, refl, ap, if◌then◌else◌}
use talkback.Processing.Media.{Media}
use talkback.Processing.Pipeline.{
  World, Answer, refused, answered, Flow, ended, goes_on, M, ◌>>=◌, ◌>>◌, pure, read, write, quit,
  got, choose, require, when, on_some, on_insert, try_insert, on_media_with,
}

-- `G` holds where the run goes on, `Q` where it has ended.
abbrev pub Ends : (World → Type 0) → (World → Type 0) → {A : Type 0} → Flow A → Type 0
Ends G Q (ended w) = Q w
Ends G Q (goes_on a w) = G w

-- From `P` the step ends or goes on so.
pub record Safe (P G Q : World → Type 0) {A : Type 0} (m : M A) : Type 0 where
  pub at : (w : World) → P w → Ends G Q (m w)

-- What holds where a step that never goes on does so.
abbrev pub Never : World → Type 0
Never w = ⊥

-- An insertion keeps `P` where it does not fail.
pub record Inserts (P : World → Type 0) (insert : Media → Option Media) : Type 0 where
  pub at :
      (w : World) (media : Media)
      → insert w.media ≡ some media
      → P w
      → P (record w { media = media })

-- A statement that returns a value keeps `P`.
pub record Returns (P : World → Type 0) {A : Type 0} (f : Media → Media × A) : Type 0 where
  pub at : (w : World) → P w → P (record w { media = (f w.media).0 })

module _ {P Q : World → Type 0} {A : Type 0} where
  pub Safe-pure : (a : A) → Safe P P Q (pure a)
  unfolding pure
  Safe-pure a = record { at = λ w h. h }

  pub Safe-read : (f : World → A) → Safe P P Q (read f)
  unfolding read
  Safe-read f = record { at = λ w h. h }

  pub Safe-got :
      (answer : Answer A) (out : String → M A)
      → ((e : String) → Safe P P Q (out e))
      → Safe P P Q (got answer out)
  unfolding got
  Safe-got (answered a) out k = Safe-pure a
  Safe-got (refused e) out k = k e

  pub Safe-on_media_with : (f : Media → Media × A) → Returns P f → Safe P P Q (on_media_with f)
  unfolding on_media_with
  Safe-on_media_with f keeps = record { at = λ w h. keeps.at w h }

module _ {P Q : World → Type 0} where
  pub Safe-write : (f : World → World) → ((w : World) → P w → P (f w)) → Safe P P Q (write f)
  unfolding write
  Safe-write f keeps = record { at = λ w h. keeps w h }

module _ {P G Q : World → Type 0} {A : Type 0} where
  pub Safe-quit : (f : World → World) → ((w : World) → P w → Q (f w)) → Safe P G Q {A = A} (quit f)
  unfolding quit
  Safe-quit f ends = record { at = λ w h. ends w h }

  pub Safe-choose : (b : Bool) (m n : M A) → Safe P G Q m → Safe P G Q n → Safe P G Q (choose b m n)
  unfolding choose
  Safe-choose true m n km kn = km
  Safe-choose false m n km kn = kn

  pub Safe-on_some :
      {B : Type 0} (o : Option B) (out : M A) (f : B → M A)
      → Safe P G Q out
      → ((b : B) → Safe P G Q (f b))
      → Safe P G Q (on_some o out f)
  unfolding on_some
  Safe-on_some none out f k kf = k
  Safe-on_some (some a) out f k kf = kf a

  pub Safe-on_insert :
      (fails : Bool) (insert : Media → Option Media) (out k : M A)
      → Inserts P insert
      → Safe P G Q out
      → Safe P G Q k
      → Safe P G Q (on_insert fails insert out k)
  unfolding on_insert
  Safe-on_insert fails insert out k keeps ko kk = record {
    at = λ w h. go w h (if fails then none else insert w.media) (made fails w);
  }
    where
      made :
          (b : Bool) (w : World) (media : Media)
          → (if b then none else insert w.media) ≡ some media
          → insert w.media ≡ some media
      made true w media e = cc
      made false w media e = e

      go :
          (w : World)
          → P w
          → (o : Option Media) → ((media : Media) → o ≡ some media → insert w.media ≡ some media)
          → Ends G Q (elim o [ none ↦ out w | some media ↦ k (record w { media = media }) ])
      go w h none e = ko.at w h
      go w h (some media) e = kk.at (record w { media = media }) (keeps.at w media (e media refl) h)

  -- An insertion that a unique index refuses.
  pub Safe-on_insert_clash :
      (fails : Bool) (insert : Media → Option Media) (out k : M A)
      → ((w : World) → P w → insert w.media ≡ none)
      → Safe P G Q out
      → Safe P G Q (on_insert fails insert out k)
  unfolding on_insert
  Safe-on_insert_clash fails insert out k clash ko = record {
    at = λ w h. go w h (if fails then none else insert w.media) (made fails w h);
  }
    where
      made : (b : Bool) (w : World) → P w → (if b then none else insert w.media) ≡ none
      made true w h = refl
      made false w h = clash w h

      go :
          (w : World)
          → P w
          → (o : Option Media) → o ≡ none
          → Ends G Q (elim o [ none ↦ out w | some media ↦ k (record w { media = media }) ])
      go w h none e = ko.at w h
      go w h (some media) e = absurd (cc)

module _ {P G Q : World → Type 0} {A B : Type 0} where
  pub Safe-bind :
      (m : M A) (f : A → M B) → Safe P P Q m → ((a : A) → Safe P G Q (f a)) → Safe P G Q (m >>= f)
  unfolding ◌>>=◌
  Safe-bind m f km kf = record { at = λ w h. go (m w) (km.at w h) }
    where
      go :
          (flow : Flow A)
          → Ends P Q flow
          → Ends G Q (elim flow [ ended w ↦ ended w | goes_on a w ↦ f a w ])
      go (ended w) h = h
      go (goes_on a w) h = (kf a).at w h

module _ {P G Q : World → Type 0} {B : Type 0} where
  pub Safe-then : (m : M (Unit {0})) (k : M B) → Safe P P Q m → Safe P G Q k → Safe P G Q (m >> k)
  unfolding ◌>>◌
  Safe-then m k km kk = Safe-bind m (λ _. k) km (λ _. kk)

module _ {P Q : World → Type 0} where
  pub Safe-require : (b : Bool) (out : M (Unit {0})) → Safe P P Q out → Safe P P Q (require b out)
  unfolding require
  Safe-require b out k = Safe-choose b (pure tt) out (Safe-pure tt) k

  pub Safe-when : (b : Bool) (m : M (Unit {0})) → Safe P P Q m → Safe P P Q (when b m)
  unfolding when
  Safe-when b m k = Safe-choose b m (pure tt) k (Safe-pure tt)

  pub Safe-try_insert :
      (fails : Bool) (insert : Media → Option Media) (out : M (Unit {0}))
      → Inserts P insert
      → Safe P P Q out
      → Safe P P Q (try_insert fails insert out)
  unfolding try_insert
  Safe-try_insert fails insert out keeps k =
      Safe-on_insert fails insert out (pure tt) keeps k (Safe-pure tt)

pub ruleset safe_rules = (
  Safe-pure, Safe-read, Safe-choose, Safe-require, Safe-when, Safe-got, Safe-on_some,
  Safe-on_insert, Safe-try_insert, Safe-on_media_with, Safe-bind, Safe-then,
)

-- A step that never goes on may stand where others do.
pub Safe-Never : {P Q : World → Type 0} {A : Type 0} (m : M A) → Safe P Never Q m → Safe P P Q m
Safe-Never {P} {Q} {A} m k = record { at = λ w h. go (m w) (k.at w h) }
  where
    go : (flow : Flow A) → Ends Never Q flow → Ends P Q flow
    go (ended w) h = h
    go (goes_on a w) h = absurd h

-- The steps that follow one whose outcome is known.
pub bind-goes_on :
    {A B : Type 0} (m : M A) (f : A → M B) (a : A) (w w' : World)
    → m w ≡ goes_on a w'
    → (m >>= f) w ≡ f a w'
unfolding ◌>>=◌
bind-goes_on m f a w w' e = ap (λ flow. elim flow [ ended w ↦ ended w | goes_on a w ↦ f a w ]) e

pub then-goes_on :
    {B : Type 0} (m : M (Unit {0})) (k : M B) (w w' : World)
    → m w ≡ goes_on tt w'
    → (m >> k) w ≡ k w'
unfolding ◌>>◌
then-goes_on m k w w' e = bind-goes_on m (λ _. k) tt w w' e

pub then-same :
    {B : Type 0} (m n : M (Unit {0})) (k : M B) (w w' : World)
    → m w ≡ n w'
    → (m >> k) w ≡ (n >> k) w'
unfolding ◌>>◌ ◌>>=◌
then-same m n k w w' e = ap (λ flow. elim flow [ ended w ↦ ended w | goes_on a w ↦ k w ]) e

-- What follows a step that never goes on is never reached.
module _ {P Q : World → Type 0} {A B : Type 0} where
  pub Safe-bind_Never : (m : M A) (f : A → M B) → Safe P Never Q m → Safe P Never Q (m >>= f)
  unfolding ◌>>=◌
  Safe-bind_Never m f km = record { at = λ w h. go (m w) (km.at w h) }
    where
      go :
          (flow : Flow A)
          → Ends Never Q flow
          → Ends Never Q (elim flow [ ended w ↦ ended w | goes_on a w ↦ f a w ])
      go (ended w) h = h
      go (goes_on a w) h = absurd h

module _ {P Q : World → Type 0} {B : Type 0} where
  pub Safe-then_Never : (m : M (Unit {0})) (k : M B) → Safe P Never Q m → Safe P Never Q (m >> k)
  unfolding ◌>>◌
  Safe-then_Never m k km = Safe-bind_Never m (λ _. k) km
