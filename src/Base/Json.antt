-- ===== src/Base/Json.antt =====
-- JSON values as Python reads them: `==` between values, truth, `d[k]` and `d.get(k)`.
-- Numbers are integers. The keys of an object are listed in insertion order.
use Prim.Native.Nat.{ℕ, suc}
use Prim.Native.String.{String}
use mathlib.Core.Bool.{Bool, true, false, ◌&&◌}
use mathlib.Core.Option.{Option, none, some}
use mathlib.Core.List.{List, [], ◌∷◌}
use text.Mathlib.Text.{◌==◌}
use enterprise_data_access_a.Base.Tests.{if◌then◌else◌, eqb, nonempty}
use enterprise_data_access_a.Base.Int.{ℤ, pos, eqb_ℤ}
use enterprise_data_access_a.Base.Exceptions.{Result, ok, err, key_error, type_error}

mutual
  pub data Value : Type 0 where
    null : Value
    bool : Bool → Value
    num : ℤ → Value
    str : String → Value
    obj : Fields → Value
    arr : Items → Value

  -- The pairs of an object.
  pub data Fields : Type 0 where
    field : String → Value → Fields → Fields
    end : Fields

  pub data Items : Type 0 where
    cons : Value → Items → Items
    nil : Items

-- A Boolean is the number 0 or 1.
abbrev pub int_of : Bool → ℤ
int_of b = if b then pos 1 else pos 0

-- The value under a key.
abbrev pub lookup : String → Fields → Option Value
lookup k end = none
lookup k (field j v fs) = let rest = lookup k fs in if j == k then some v else rest

abbrev pub size : Fields → ℕ
size end = 0
size (field k v fs) = suc (size fs)

abbrev pub items : Items → List Value
items nil = []
items (cons v xs) = v ∷ items xs

abbrev pub of_list : List Value → Items
of_list [] = nil
of_list (v ∷ vs) = cons v (of_list vs)

-- `{k: v, ...}`
abbrev pub dict : List (String × Value) → Fields
dict [] = end
dict ((k, v) ∷ kvs) = field k v (dict kvs)

abbrev pub keys : Fields → List String
keys end = []
keys (field k v fs) = k ∷ keys fs

-- `v == w`: `True == 1`, lists item by item, objects whatever the order of their keys.
unfoldable mutual
  pub py_eq : Value → Value → Bool
  py_eq null null = true
  py_eq (bool a) (bool b) = eqb_ℤ (int_of a) (int_of b)
  py_eq (bool a) (num n) = eqb_ℤ (int_of a) n
  py_eq (num n) (bool b) = eqb_ℤ n (int_of b)
  py_eq (num n) (num m) = eqb_ℤ n m
  py_eq (str s) (str t) = s == t
  py_eq (arr xs) (arr ys) = eq_items xs ys
  py_eq (obj fs) (obj gs) = eqb (size fs) (size gs) && eq_fields fs gs
  py_eq _ _ = false

  pub eq_items : Items → Items → Bool
  eq_items nil nil = true
  eq_items (cons v xs) (cons w ys) = py_eq v w && eq_items xs ys
  eq_items _ _ = false

  -- every key of the first is in the second, with an equal value
  pub eq_fields : Fields → Fields → Bool
  eq_fields end gs = true
  eq_fields (field k v fs) gs =
      elim (lookup k gs) [ none ↦ false | some w ↦ py_eq v w ] && eq_fields fs gs

-- `bool(v)`
abbrev pub truthy : Value → Bool
truthy null = false
truthy (bool b) = b
truthy (num n) = if eqb_ℤ n (pos 0) then false else true
truthy (str s) = nonempty s
truthy (arr nil) = false
truthy (arr (cons v xs)) = true
truthy (obj end) = false
truthy (obj (field k v fs)) = true

-- `d.get(k)` and `d.get(k, default)`
abbrev pub get_or : Fields → String → Value → Value
get_or fs k d = elim (lookup k fs) [ none ↦ d | some v ↦ v ]

abbrev pub get : Fields → String → Value
get fs k = get_or fs k null

-- `d[k]`, where `d` may be of any type
abbrev pub at_key : Value → String → Result Value
at_key (obj fs) k = elim (lookup k fs) [ none ↦ err (key_error k) | some v ↦ ok v ]
at_key v k = err type_error
