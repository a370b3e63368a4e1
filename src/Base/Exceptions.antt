-- ===== src/Base/Exceptions.antt =====
-- Python exceptions as values. `Exception` has a constructor for each exception class of the
-- program; its text is the literal part of the message, without the interpolated values.
use Prim.Native.Nat.{ℕ}
use Prim.Native.String.{String}
use mathlib.Core.Path.{◌≡◌, refl}
use mathlib.Core.Logic.{◌⊎◌, inl, inr}
use mathlib.Core.Bool.{Bool, true, false, not, ◌&&◌}
use mathlib.Core.List.{List, [], ◌∷◌}
use native.Mathlib.Omega.{arith}
use enterprise_data_access_a.Base.Tests.{if◌then◌else◌}
use enterprise_data_access_a.Base.Lists.{any, All}

pub data Exception : Type 0 where
  policy_error : String → Exception
  grant_error : String → Exception
  action_error : String → Exception
  invalid_session : String → Exception
  ingest_error : ℕ → String → Exception
  value_error : String → Exception
  permission_error : String → Exception
  key_error : String → Exception
  type_error : Exception
  index_error : Exception

-- What a call returned or raised.
pub data Result {ℓ} (A : Type ℓ) : Type ℓ where
  err : Exception → Result A
  ok : A → Result A

-- An exception skips what follows.
infixl 5 ◌>>=◌
abbrev pub ◌>>=◌ {ℓ κ} : {A : Type ℓ} {B : Type κ} → Result A → (A → Result B) → Result B
err raised >>= next = err raised
ok value >>= next = next value

infixl 5 ◌>>◌
abbrev pub ◌>>◌ {ℓ κ} : {A : Type ℓ} {B : Type κ} → Result A → Result B → Result B
first >> second = first >>= λ _. second

-- `if c: raise e`
abbrev pub raise_if : Bool → Exception → Result (Unit {0})
raise_if true e = err e
raise_if false e = ok tt

abbrev pub is_ok {ℓ} : {A : Type ℓ} → Result A → Bool
is_ok (ok a) = true
is_ok (err e) = false

pub is_ok→eq {ℓ} : {A : Type ℓ} (r : Result A) → is_ok r ≡ true → (a : A) × (r ≡ ok a)
is_ok→eq (ok a) h = (a, refl)
is_ok→eq (err e) h = cc

pub Result-cases {ℓ} :
    {A : Type ℓ} (r : Result A) → ((a : A) × (r ≡ ok a)) ⊎ ((e : Exception) × (r ≡ err e))
Result-cases (ok a) = inl (a, refl)
Result-cases (err e) = inr (e, refl)

pub ok-injective {ℓ} : {A : Type ℓ} {a b : A} → ok a ≡ ok b → a ≡ b
ok-injective h = cc

-- Inversion of a successful bind.
pub >>=-eq-ok {ℓ κ} :
    {A : Type ℓ} {B : Type κ} (call : Result A) (next : A → Result B) {value : B}
    → (call >>= next) ≡ ok value
    → (returned : A) × (call ≡ ok returned) × (next returned ≡ ok value)
>>=-eq-ok (err raised) next h = cc
>>=-eq-ok (ok returned) next h = (returned, refl, h)

-- What follows `if b: raise e`, where it was reached.
pub raise_if-passed {κ} :
    {B : Type κ} (b : Bool) (e : Exception) (f : Unit {0} → Result B) {x : B}
    → (raise_if b e >>= f) ≡ ok x
    → (b ≡ false) × (f tt ≡ ok x)
raise_if-passed true e f h = cc
raise_if-passed false e f h = (refl, h)

-- `[f(x) for x in xs]` and `[x for x in xs if p(x)]`, where a call may raise.
module _ {ℓ} {A B : Type ℓ} where
  abbrev pub map_result : (A → Result B) → List A → Result (List B)
  map_result f [] = ok []
  map_result f (x ∷ xs) = do y ← f x; ys ← map_result f xs; ok (y ∷ ys)

-- The call returned true.
abbrev pub holds : Result Bool → Bool
holds (ok b) = b
holds (err e) = false

module _ {ℓ} {A : Type ℓ} where
  abbrev keep : Bool → A → List A → List A
  keep b x xs = if b then x ∷ xs else xs

  abbrev pub filter_result : (A → Result Bool) → List A → Result (List A)
  filter_result p [] = ok []
  filter_result p (x ∷ xs) = do b ← p x; ys ← filter_result p xs; ok (keep b x ys)

  abbrev pub is_empty : List A → Bool
  is_empty [] = true
  is_empty (x ∷ xs) = false

  -- Of a filter that raises nothing: it is empty unless some element passes.
  pub filter_result-is_empty :
      (p : A → Result Bool) (xs ys : List A)
      → filter_result p xs ≡ ok ys
      → not (is_empty ys) ≡ any (λ x. holds (p x)) xs
  filter_result-is_empty p [] ys h = ground (arith, h)
  filter_result-is_empty p (x ∷ xs) ys h =
      let first = >>=-eq-ok (p x) _ h in
      let second = >>=-eq-ok (filter_result p xs) _ first.2 in
      ground (arith, first.1, second.1, second.2, filter_result-is_empty p xs second.0)

  pub any-filter_result :
      (p : A → Result Bool) (q : A → Bool) (xs ys : List A)
      → filter_result p xs ≡ ok ys
      → any q ys ≡ any (λ x. holds (p x) && q x) xs
  any-filter_result p q [] ys h = ground (arith, h)
  any-filter_result p q (x ∷ xs) ys h =
      let first = >>=-eq-ok (p x) _ h in
      let second = >>=-eq-ok (filter_result p xs) _ first.2 in
      ground (arith, first.1, second.1, second.2, any-filter_result p q xs second.0)

  -- What raises nothing on the elements returns on the list, and keeps what holds of them.
  pub filter_result-is_ok {κ} :
      (P : A → Type κ) (p : A → Result Bool) (xs : List A)
      → ((x : A) → P x → is_ok (p x) ≡ true)
      → All P xs
      → (ys : List A) × (filter_result p xs ≡ ok ys) × All P ys
  filter_result-is_ok P p [] h all = ([], refl, tt)
  filter_result-is_ok P p (x ∷ xs) h all =
      let (b, eb) = is_ok→eq (p x) (h x all.0) in
      let (ys, eys, kept) = filter_result-is_ok P p xs h all.1 in
      (keep b x ys, rw (eb, eys), keep-All b ys kept)
    where
      keep-All : (b : Bool) (ys : List A) → All P ys → All P (keep b x ys)
      keep-All true ys k = (all.0, k)
      keep-All false ys k = k

module _ {ℓ} {A B : Type ℓ} where
  pub map_result-is_ok {κ} :
      (P : A → Type κ) (f : A → Result B) (xs : List A)
      → ((x : A) → P x → is_ok (f x) ≡ true)
      → All P xs
      → is_ok (map_result f xs) ≡ true
  map_result-is_ok P f [] h all = refl
  map_result-is_ok P f (x ∷ xs) h all = ground (arith, h x all.0, map_result-is_ok P f xs h all.1)

-- A run of `if c: raise e` statements.
abbrev pub run_checks : List (Bool × Exception) → Result (Unit {0})
run_checks [] = ok tt
run_checks ((b, e) ∷ rest) = let later = run_checks rest in if b then err e else later

pub run_checks-ok :
    (checks : List (Bool × Exception)) → run_checks checks ≡ ok tt → All (λ c. c.0 ≡ false) checks
run_checks-ok [] h = tt
run_checks-ok ((b, e) ∷ rest) h = ground (arith, h, run_checks-ok rest)
