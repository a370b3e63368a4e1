-- ===== src/Broker/Ttl.antt =====
-- The lifetime that the obligations leave: no longer than the default or any `max_ttl_seconds`.
use enterprise_data_access_a.Base.{
  ℕ, ◌≤◌, Bool, true, false, ◌||◌, ◌≡◌, ◌∈◌, inl, inr, List, [], ◌∷◌, ok, err, >>=-eq-ok, arith,
  any,
}
use mathlib.Core.Path.{subst}
use enterprise_data_access_a.Base.Int.{ℤ, pos, negsuc, ◌≤ℤ◌, ≤ℤ_trans}
use enterprise_data_access_a.Base.Json.{Value, str, at_key, py_eq}
use enterprise_data_access_a.Broker.{
  add_seconds, min_ℤ, as_int, bound_ttl, apply_obligation, apply_obligations,
}

pub add_seconds_mono : (t : ℕ) (a b : ℤ) → a ≤ℤ b → add_seconds t a ≤ add_seconds t b
add_seconds_mono t (pos a) (pos b) h = omega arith
add_seconds_mono t (pos a) (negsuc b) h = omega arith
add_seconds_mono t (negsuc a) (pos b) h = omega arith
add_seconds_mono t (negsuc a) (negsuc b) h = omega arith

min_ℤ-le_left : (a b : ℤ) → min_ℤ a b ≤ℤ a
min_ℤ-le_left a b = ground arith

min_ℤ-le_right : (a b : ℤ) → min_ℤ a b ≤ℤ b
min_ℤ-le_right a b = ground arith

-- An obligation that bounds the lifetime by a number of seconds.
pub record Bounds (o : Value) (n : ℤ) : Type 0 where
  pub kind : Value
  pub has_kind : at_key o "type" ≡ ok kind
  pub is_bound : py_eq kind (str "max_ttl_seconds") ≡ true
  pub value : Value
  pub has_value : at_key o "value" ≡ ok value
  pub number : as_int value ≡ ok n

-- An obligation that makes the grant read-only.
abbrev pub is_read_only : Value → Bool
is_read_only o = elim (at_key o "type") [ ok kind ↦ py_eq kind (str "read_only") | err e ↦ false ]

bound_ttl-le :
    (ttl : ℤ) (b : Bool) (o : Value) (ttl' : ℤ) → bound_ttl ttl b o ≡ ok ttl' → ttl' ≤ℤ ttl
unfolding bound_ttl
bound_ttl-le ttl false o ttl' h = ground (arith, h)
bound_ttl-le ttl true o ttl' h =
    let v = >>=-eq-ok (at_key o "value") _ h in
    let n = >>=-eq-ok (as_int v.0) _ v.2 in ground (arith, n.2, min_ℤ-le_left ttl n.0)

bound_ttl-le_bound :
    (ttl n : ℤ) (o value : Value) (ttl' : ℤ)
    → at_key o "value" ≡ ok value
    → as_int value ≡ ok n
    → bound_ttl ttl true o ≡ ok ttl'
    → ttl' ≤ℤ n
unfolding bound_ttl
bound_ttl-le_bound ttl n o value ttl' hv hn h = ground (arith, hv, hn, h, min_ℤ-le_right ttl n)

-- What one obligation does to the lifetime and the mark.
apply_obligation-facts :
    (ttl : ℤ) (read_only : Bool) (o : Value) (ttl' : ℤ) (ro : Bool)
    → apply_obligation (ttl, read_only) o ≡ ok (ttl', ro)
    → (ttl' ≤ℤ ttl) × ((n : ℤ) → Bounds o n → ttl' ≤ℤ n) × (ro ≡ (read_only || is_read_only o))
unfolding apply_obligation
apply_obligation-facts ttl read_only o ttl' ro h =
    let kind = >>=-eq-ok (at_key o "type") _ h in
    let step = >>=-eq-ok (bound_ttl ttl (py_eq kind.0 (str "max_ttl_seconds")) o) _ kind.2 in
    (
      ground (arith, step.2, bound_ttl-le ttl _ o step.0 step.1),
      λ n b.
          let bound : py_eq kind.0 (str "max_ttl_seconds") ≡ true =
            cc (kind.1, b.has_kind, b.is_bound) in
          ground (
            arith,
            step.2,
            bound_ttl-le_bound ttl n o b.value step.0 b.has_value b.number (rw bound at step.1),
          ),
      ground (arith, step.2, kind.1),
    )

pub apply_obligations-facts :
    (os : List Value) (ttl : ℤ) (read_only : Bool) (ttl' : ℤ) (ro : Bool)
    → apply_obligations (ttl, read_only) os ≡ ok (ttl', ro)
    → (ttl' ≤ℤ ttl)
      × ((o : Value) (n : ℤ) → o ∈ os → Bounds o n → ttl' ≤ℤ n)
      × (ro ≡ (read_only || any is_read_only os))
unfolding apply_obligations
apply_obligations-facts [] ttl read_only ttl' ro h =
    (ground (arith, h), λ o n m b. elim m [ ], ground (arith, h))
apply_obligations-facts (o ∷ os) ttl read_only ttl' ro h =
    let step = >>=-eq-ok (apply_obligation (ttl, read_only) o) _ h in
    let here = apply_obligation-facts ttl read_only o step.0.0 step.0.1 step.1 in
    let rest = apply_obligations-facts os step.0.0 step.0.1 ttl' ro step.2 in
    (
      ≤ℤ_trans ttl' step.0.0 ttl rest.0 here.0,
      λ p n m b. elim m [
        | inl e ↦ ≤ℤ_trans ttl' step.0.0 n rest.0 (here.1 n (subst (λ v. Bounds v n) e b))
        | inr later ↦ rest.1 p n later b
      ],
      ground (arith, here.2, rest.2),
    )
