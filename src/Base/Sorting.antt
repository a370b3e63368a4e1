-- ===== src/Base/Sorting.antt =====
-- `sorted(xs, key=...)`: a stable sort by an order of the keys.
use Prim.Native.Nat.{suc}
use mathlib.Core.Path.{◌≡◌, refl}
use mathlib.Core.Logic.{inl, inr}
use mathlib.Core.Bool.{Bool}
use mathlib.Core.List.{List, [], ◌∷◌}
use native.Mathlib.Omega.{arith}
use enterprise_data_access_a.Base.Tests.{if◌then◌else◌}
use enterprise_data_access_a.Base.Lists.{◌∈◌, length}

module _ {ℓ} {A : Type ℓ} (before : A → A → Bool) where
  -- An element goes in front of the first that is not before it.
  unfoldable pub insert_by : A → List A → List A
  insert_by a [] = a ∷ []
  insert_by a (x ∷ xs) = let later = x ∷ insert_by a xs in if before x a then later else a ∷ x ∷ xs

  unfoldable pub sort_by : List A → List A
  unfolding insert_by
  sort_by [] = []
  sort_by (x ∷ xs) = insert_by x (sort_by xs)

  mem-insert_by : (a b : A) (xs : List A) → a ∈ insert_by b xs → a ∈ (b ∷ xs)
  unfolding insert_by
  mem-insert_by a b [] m = m
  mem-insert_by a b (x ∷ xs) m = ground (arith, mem-insert_by a b xs)

  -- Sorting adds nothing.
  pub mem-sort_by : (a : A) (xs : List A) → a ∈ sort_by xs → a ∈ xs
  unfolding sort_by
  mem-sort_by a [] m = m
  mem-sort_by a (x ∷ xs) m = elim (mem-insert_by a x (sort_by xs) m) [
    | inl e ↦ inl e
    | inr m' ↦ inr (mem-sort_by a xs m')
  ]

  length-insert_by : (a : A) (xs : List A) → length (insert_by a xs) ≡ suc (length xs)
  unfolding insert_by
  length-insert_by a [] = refl
  length-insert_by a (x ∷ xs) = ground (arith, length-insert_by a xs)

  pub length-sort_by : (xs : List A) → length (sort_by xs) ≡ length xs
  unfolding sort_by
  length-sort_by [] = refl
  length-sort_by (x ∷ xs) = omega (arith, length-insert_by x (sort_by xs), length-sort_by xs)
