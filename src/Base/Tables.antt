-- ===== src/Base/Tables.antt =====
-- Tables as lists of rows: the update of the first row that passes a test, and what writes leave
-- of the rows that a test keeps.
use mathlib.Core.Path.{◌≡◌, refl, subst, sym, ap, ◌∙◌}
use mathlib.Core.Logic.{inl, inr}
use mathlib.Core.Bool.{Bool, true, false}
use mathlib.Core.Option.{none, some}
use mathlib.Core.List.{List, [], ◌∷◌, ◌++◌, map}
use native.Mathlib.Omega.{arith}
use enterprise_data_access_a.Base.Tests.{if◌then◌else◌, Bool-cases}
use enterprise_data_access_a.Base.Lists.{filter, find, All}

module _ {ℓ} {A : Type ℓ} where
  -- The first row that passes the test is changed.
  unfoldable pub update_first : (A → Bool) → (A → A) → List A → List A
  update_first p f [] = []
  update_first p f (x ∷ xs) = let rest = update_first p f xs in if p x then f x ∷ xs else x ∷ rest

  pub some-injective : {x a : A} → some x ≡ some a → x ≡ a
  some-injective h = cc

  -- The row that an update has changed is found again.
  pub find-update_first :
      (p : A → Bool) (f : A → A) (xs : List A) (a : A)
      → find p xs ≡ some a
      → p (f a) ≡ true
      → find p (update_first p f xs) ≡ some (f a)
  unfolding update_first
  find-update_first p f [] a h k = cc
  find-update_first p f (x ∷ xs) a h k = elim (Bool-cases (p x)) [
    | inl e ↦ let same : x ≡ a = some-injective (rw e at h) in rw (e, same) (rw k refl)
    | inr e ↦ rw (e, e) (find-update_first p f xs a (rw e at h) k)
  ]

  -- What is found stays found when a row is added.
  pub find-append_some :
      (p : A → Bool) (xs ys : List A) (a : A) → find p xs ≡ some a → find p (xs ++ ys) ≡ some a
  find-append_some p [] ys a h = cc
  find-append_some p (x ∷ xs) ys a h = ground (arith, find-append_some p xs ys a)

  -- A row that is added where none was found.
  pub find-append_none :
      (p : A → Bool) (xs : List A) (a : A)
      → find p xs ≡ none
      → p a ≡ true
      → find p (xs ++ a ∷ []) ≡ some a
  find-append_none p [] a h k = ground (arith, k)
  find-append_none p (x ∷ xs) a h k = ground (arith, find-append_none p xs a)

  pub filter-append :
      (keep : A → Bool) (xs ys : List A) → filter keep (xs ++ ys) ≡ filter keep xs ++ filter keep ys
  filter-append keep [] ys = refl
  filter-append keep (x ∷ xs) ys = ground (arith, filter-append keep xs ys)

  -- A new row that is not kept.
  pub filter-add :
      (keep : A → Bool) (xs : List A) (x : A)
      → keep x ≡ false
      → filter keep (xs ++ x ∷ []) ≡ filter keep xs
  filter-add keep [] x h = ground (arith, h)
  filter-add keep (y ∷ xs) x h = ground (arith, filter-add keep xs x h)

  -- A row that is kept neither before nor after.
  pub filter-update_first :
      (keep p : A → Bool) (f : A → A) (xs : List A) (a : A)
      → find p xs ≡ some a
      → keep a ≡ false
      → keep (f a) ≡ false
      → filter keep (update_first p f xs) ≡ filter keep xs
  unfolding update_first
  filter-update_first keep p f [] a e k k' = cc
  filter-update_first keep p f (x ∷ xs) a e k k' = ground (arith, filter-update_first keep p f xs a)

  -- The same, where no row that passes the test is kept.
  pub filter-update_unkept :
      (keep p : A → Bool) (f : A → A) (xs : List A)
      → ((a : A) → p a ≡ true → (keep a ≡ false) × (keep (f a) ≡ false))
      → filter keep (update_first p f xs) ≡ filter keep xs
  unfolding update_first
  filter-update_unkept keep p f [] h = refl
  filter-update_unkept keep p f (x ∷ xs) h = elim (Bool-cases (p x)) [
    | inl e ↦ rw (e, (h x e).0, (h x e).1)
    | inr e ↦ rw (e, filter-update_unkept keep p f xs h)
  ]

  -- Rows that are deleted, none of which is kept.
  pub filter-filter :
      (keep p : A → Bool) (xs : List A)
      → ((a : A) → keep a ≡ true → p a ≡ true)
      → filter keep (filter p xs) ≡ filter keep xs
  filter-filter keep p [] h = refl
  filter-filter keep p (x ∷ xs) h = elim (Bool-cases (keep x)) [
    | inl k ↦ rw (h x k) (rw (k, filter-filter keep p xs h))
    | inr k ↦ ground (arith, filter-filter keep p xs h)
  ]

  -- An update of each row that neither changes what is kept nor a kept row.
  pub filter-map :
      (keep : A → Bool) (f : A → A) (xs : List A)
      → ((a : A) → keep (f a) ≡ keep a)
      → ((a : A) → keep a ≡ true → f a ≡ a)
      → filter keep (map f xs) ≡ filter keep xs
  filter-map keep f [] h h' = refl
  filter-map keep f (x ∷ xs) h h' = elim (Bool-cases (keep x)) [
    | inl k ↦ rw (h x, k, h' x k, filter-map keep f xs h h')
    | inr k ↦ rw (h x, k, filter-map keep f xs h h')
  ]

  -- A filter that keeps fewer sees only what a filter that keeps more has left.
  pub filter-of_filter :
      (keep more : A → Bool) (xs ys : List A)
      → ((a : A) → keep a ≡ true → more a ≡ true)
      → filter more xs ≡ filter more ys
      → filter keep xs ≡ filter keep ys
  filter-of_filter keep more xs ys h e =
      sym (filter-filter keep more xs h) ∙ ap (filter keep) e ∙ filter-filter keep more ys h

  pub All-append {κ} : (P : A → Type κ) (xs ys : List A) → All P xs → All P ys → All P (xs ++ ys)
  All-append P [] ys h k = k
  All-append P (x ∷ xs) ys h k = (h.0, All-append P xs ys h.1 k)

  -- What holds of all rows and of the changed one.
  pub All-update_found {κ} :
      (P : A → Type κ) (p : A → Bool) (f : A → A) (xs : List A) (a : A)
      → find p xs ≡ some a
      → (P a → P (f a))
      → All P xs
      → All P (update_first p f xs)
  unfolding update_first
  All-update_found P p f [] a found h all = tt
  All-update_found P p f (x ∷ xs) a found h all = elim (Bool-cases (p x)) [
    | inl e ↦
        let same : x ≡ a = some-injective (rw e at found) in
        rw e (subst (λ y. P (f y)) (sym same) (h (subst P same all.0)), all.1)
    | inr e ↦ rw e (all.0, All-update_found P p f xs a (rw e at found) h all.1)
  ]

  pub All-map_of {κ κ'} :
      (P : A → Type κ) (Q : A → Type κ') (xs : List A) → ((a : A) → P a → Q a) → All P xs → All Q xs
  All-map_of P Q [] h all = tt
  All-map_of P Q (x ∷ xs) h all = (h x all.0, All-map_of P Q xs h all.1)
