-- ===== src/Prelude/Tables.antt =====
-- Rows of a table: those that pass a test, and no two with the same key.
use mathlib.Core.Path.{◌≡◌, refl}
use mathlib.Core.Bool.{Bool, true, false, not, ◌&&◌, ◌||◌}
use mathlib.Core.List.{List, [], ◌∷◌, ◌++◌}
use native.Mathlib.Omega.{arith}
use csl.Prelude.Tests.{if◌then◌else◌}
use csl.Prelude.Lists.{all, any}

module _ {ℓ} {A : Type ℓ} where
  unfoldable pub filter : (A → Bool) → List A → List A
  filter p [] = []
  filter p (x ∷ xs) = let rest = filter p xs in if p x then x ∷ rest else rest

  -- No two rows are the same.
  unfoldable pub distinct_by : (A → A → Bool) → List A → Bool
  distinct_by same [] = true
  distinct_by same (x ∷ xs) = not (any (same x) xs) && distinct_by same xs

  pub any-snoc : (p : A → Bool) (xs : List A) (y : A) → any p (xs ++ (y ∷ [])) ≡ any p xs || p y
  unfolding any
  any-snoc p [] y = ground arith
  any-snoc p (x ∷ xs) y = ground (arith, any-snoc p xs y)

  pub all-snoc : (p : A → Bool) (xs : List A) (y : A) → all p (xs ++ (y ∷ [])) ≡ all p xs && p y
  unfolding all
  all-snoc p [] y = ground arith
  all-snoc p (x ∷ xs) y = ground (arith, all-snoc p xs y)

  pub all_mono :
      (p q : A → Bool)
      → ((x : A) → p x ≡ true → q x ≡ true)
      → (xs : List A) → all p xs ≡ true
      → all q xs ≡ true
  unfolding all
  all_mono p q f [] h = refl
  all_mono p q f (x ∷ xs) h = ground (arith, f x, all_mono p q f xs)

  pub any-filter-false :
      (p q : A → Bool) (xs : List A) → any q xs ≡ false → any q (filter p xs) ≡ false
  unfolding any filter
  any-filter-false p q [] h = refl
  any-filter-false p q (x ∷ xs) h = ground (arith, any-filter-false p q xs)

  pub any-filter :
      (p q : A → Bool)
      → ((x : A) → q x ≡ true → p x ≡ true)
      → (xs : List A) → any q (filter p xs) ≡ any q xs
  unfolding any filter
  any-filter p q f [] = refl
  any-filter p q f (x ∷ xs) = ground (arith, f x, any-filter p q f xs)

  pub any-filter_none :
      (p q : A → Bool)
      → ((x : A) → q x ≡ true → p x ≡ false)
      → (xs : List A) → any q (filter p xs) ≡ false
  unfolding any filter
  any-filter_none p q f [] = refl
  any-filter_none p q f (x ∷ xs) = ground (arith, f x, any-filter_none p q f xs)

  pub all-filter : (p q : A → Bool) (xs : List A) → all q xs ≡ true → all q (filter p xs) ≡ true
  unfolding all filter
  all-filter p q [] h = refl
  all-filter p q (x ∷ xs) h = ground (arith, all-filter p q xs)

  -- What holds of the rows that pass is to hold of those that are kept only.
  pub all-filter_mono :
      (p q r : A → Bool)
      → ((x : A) → p x ≡ true → q x ≡ true → r x ≡ true)
      → (xs : List A) → all q xs ≡ true
      → all r (filter p xs) ≡ true
  unfolding all filter
  all-filter_mono p q r f [] h = refl
  all-filter_mono p q r f (x ∷ xs) h = ground (arith, f x, all-filter_mono p q r f xs)

  pub distinct_by-filter :
      (p : A → Bool) (same : A → A → Bool) (xs : List A)
      → distinct_by same xs ≡ true
      → distinct_by same (filter p xs) ≡ true
  unfolding distinct_by filter
  distinct_by-filter p same [] h = refl
  distinct_by-filter p same (x ∷ xs) h =
      ground (arith, any-filter-false p (same x) xs, distinct_by-filter p same xs)

  pub distinct_by-snoc :
      (same : A → A → Bool) (xs : List A) (y : A)
      → distinct_by same xs ≡ true
      → any (λ x. same x y) xs ≡ false
      → distinct_by same (xs ++ (y ∷ [])) ≡ true
  unfolding distinct_by any
  distinct_by-snoc same [] y h k = refl
  distinct_by-snoc same (x ∷ xs) y h k =
      ground (arith, any-snoc (same x) xs y, distinct_by-snoc same xs y)
