-- ===== src/Common/Sorting.antt =====
-- `sorted` of the language: insertion by a Boolean order, equal elements in their old order.
use nebula_sd.Common.Tests.{if◌then◌else◌}
use nebula_sd.Common.Lists.{sum_of}
use Prim.Native.Nat.{ℕ, ◌+◌}
use mathlib.Core.Path.{◌≡◌, refl}
use mathlib.Core.Bool.{Bool}
use mathlib.Core.List.{List, [], ◌∷◌}
use native.Mathlib.Omega.{arith}

module _ {ℓ} {A : Type ℓ} (le : A → A → Bool) where
  insert_sorted : A → List A → List A
  insert_sorted a [] = a ∷ []
  insert_sorted a (x ∷ xs) = if le a x then a ∷ x ∷ xs else x ∷ insert_sorted a xs

  unfoldable pub sorted : List A → List A
  unfolding insert_sorted
  sorted [] = []
  sorted (x ∷ xs) = insert_sorted x (sorted xs)

  sum_of-insert_sorted :
      (f : A → ℕ) (a : A) (xs : List A) → sum_of f (insert_sorted a xs) ≡ f a + sum_of f xs
  unfolding insert_sorted
  sum_of-insert_sorted f a [] = refl
  sum_of-insert_sorted f a (x ∷ xs) = ground (arith, sum_of-insert_sorted f a xs)

  pub sum_of-sorted : (f : A → ℕ) (xs : List A) → sum_of f (sorted xs) ≡ sum_of f xs
  unfolding sorted
  sum_of-sorted f [] = refl
  sum_of-sorted f (x ∷ xs) = omega (arith, sum_of-insert_sorted f x (sorted xs), sum_of-sorted f xs)
