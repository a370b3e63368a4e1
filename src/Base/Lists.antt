-- ===== src/Base/Lists.antt =====
-- Lists under Boolean tests, with membership as a type that computes.
use Prim.Native.Nat.{ℕ, suc, ◌+◌}
use Prim.Native.String.{String}
use mathlib.Core.Path.{sym, subst, ◌≡◌, refl}
use mathlib.Core.Logic.{◌⊎◌, inl, inr}
use mathlib.Core.Bool.{Bool, true, false, ◌&&◌, ◌||◌}
use mathlib.Core.Option.{Option, none, some}
use mathlib.Core.List.{List, [], ◌∷◌, ◌++◌}
use native.Mathlib.Omega.{arith}
use text.Mathlib.Text.{◌==◌}
use text.Mathlib.TextEquality.{eq_iff}
use enterprise_data_access_a.Base.Tests.{if◌then◌else◌, Bool-cases}

-- No element, at every level.
pub data Empty {ℓ} : Type ℓ where

infix 50 ◌∈◌
abbrev pub ◌∈◌ {ℓ} : {A : Type ℓ} → A → List A → Type ℓ
a ∈ [] = Empty
a ∈ (x ∷ xs) = (a ≡ x) ⊎ (a ∈ xs)

module _ {ℓ} {A : Type ℓ} where
  abbrev pub length : List A → ℕ
  length [] = 0
  length (x ∷ xs) = suc (length xs)

  abbrev pub any : (A → Bool) → List A → Bool
  any p [] = false
  any p (x ∷ xs) = p x || any p xs

  abbrev pub all : (A → Bool) → List A → Bool
  all p [] = true
  all p (x ∷ xs) = p x && all p xs

  -- The elements that pass the test, in order.
  abbrev pub filter : (A → Bool) → List A → List A
  filter p [] = []
  filter p (x ∷ xs) = let rest = filter p xs in if p x then x ∷ rest else rest

  -- The first element that passes the test.
  abbrev pub find : (A → Bool) → List A → Option A
  find p [] = none
  find p (x ∷ xs) = let rest = find p xs in if p x then some x else rest

  abbrev pub head? : List A → Option A
  head? [] = none
  head? (x ∷ xs) = some x

  abbrev pub All {κ} : (A → Type κ) → List A → Type κ
  All P [] = Unit
  All P (x ∷ xs) = P x × All P xs

  pub length-append : (xs ys : List A) → length (xs ++ ys) ≡ length xs + length ys
  length-append [] ys = omega arith
  length-append (x ∷ xs) ys = omega (arith, length-append xs ys)

  pub any-append : (p : A → Bool) (xs ys : List A) → any p (xs ++ ys) ≡ (any p xs || any p ys)
  any-append p [] ys = refl
  any-append p (x ∷ xs) ys = ground (arith, any-append p xs ys)

  pub find-some :
      (p : A → Bool) (xs : List A) (a : A) → find p xs ≡ some a → (p a ≡ true) × (a ∈ xs)
  find-some p [] a h = cc
  find-some p (x ∷ xs) a h = ground (arith, find-some p xs a)

  -- What is found nowhere fails the test everywhere.
  pub find-none : (p : A → Bool) (xs : List A) (a : A) → find p xs ≡ none → a ∈ xs → p a ≡ false
  find-none p [] a h m = elim m [ ]
  find-none p (x ∷ xs) a h m = ground (arith, find-none p xs a)

  pub mem-append_left : (a : A) (xs ys : List A) → a ∈ xs → a ∈ (xs ++ ys)
  mem-append_left a [] ys m = elim m [ ]
  mem-append_left a (x ∷ xs) ys (inl e) = inl e
  mem-append_left a (x ∷ xs) ys (inr m) = inr (mem-append_left a xs ys m)

  pub mem-append_right : (a : A) (xs ys : List A) → a ∈ ys → a ∈ (xs ++ ys)
  mem-append_right a [] ys m = m
  mem-append_right a (x ∷ xs) ys m = inr (mem-append_right a xs ys m)

  pub mem-append_cases : (a : A) (xs ys : List A) → a ∈ (xs ++ ys) → (a ∈ xs) ⊎ (a ∈ ys)
  mem-append_cases a [] ys m = inr m
  mem-append_cases a (x ∷ xs) ys (inl e) = inl (inl e)
  mem-append_cases a (x ∷ xs) ys (inr m) = elim (mem-append_cases a xs ys m) [
    | inl l ↦ inl (inr l)
    | inr r ↦ inr r
  ]

  pub mem-filter : (p : A → Bool) (a : A) (xs : List A) → a ∈ filter p xs → (p a ≡ true) × (a ∈ xs)
  mem-filter p a [] m = elim m [ ]
  mem-filter p a (x ∷ xs) m = ground (arith, mem-filter p a xs)

  pub mem-filter_of : (p : A → Bool) (a : A) (xs : List A) → p a ≡ true → a ∈ xs → a ∈ filter p xs
  mem-filter_of p a [] h m = m
  mem-filter_of p a (x ∷ xs) h m = ground (arith, mem-filter_of p a xs)

  -- What passes a test somewhere.
  pub any-witness :
      (p : A → Bool) (xs : List A) → any p xs ≡ true → (a : A) × (a ∈ xs) × (p a ≡ true)
  any-witness p [] h = cc
  any-witness p (x ∷ xs) h = elim (Bool-cases (p x)) [
    | inl here ↦ (x, inl refl, here)
    | inr there ↦ let (a, m, e) = any-witness p xs (rw there at h) in (a, inr m, e)
  ]

  pub all-mem {κ} : (P : A → Type κ) (xs : List A) (a : A) → All P xs → a ∈ xs → P a
  all-mem P [] a all m = elim m [ ]
  all-mem P (x ∷ xs) a all (inl e) = subst P (sym e) all.0
  all-mem P (x ∷ xs) a all (inr m) = all-mem P xs a all.1 m

-- `x in xs` for texts.
abbrev pub elem : String → List String → Bool
elem a xs = any (λ x. x == a) xs

pub mem_of_elem : (a : String) (xs : List String) → elem a xs ≡ true → a ∈ xs
mem_of_elem a [] h = cc
mem_of_elem a (x ∷ xs) h = ground (arith, eq_iff x a, mem_of_elem a xs)

pub elem_of_mem : (a : String) (xs : List String) → a ∈ xs → elem a xs ≡ true
elem_of_mem a [] m = elim m [ ]
elem_of_mem a (x ∷ xs) m = ground (arith, eq_iff x a, elem_of_mem a xs)
