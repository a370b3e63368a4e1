-- ===== src/Objects/Attributes.antt =====
-- The attributes that a context of beta/src/eda/objects.py shows of an object.
use Prim.Native.String.{◌++◌ as concat}
use mathlib.Core.Path.{subst, sym}
use enterprise_data_access_a.Base.{
  ℕ, String, false, not, ◌||◌, some, ◌==◌, ◌≡◌, ◌≢◌, refl, inl, inr, ◌⊎◌, if◌then◌else◌, Bool-cases,
  eq_iff, arith, ok, type_error, ok-injective, raise_if-passed, some-injective,
}
use enterprise_data_access_a.Base.Json.{Value, str, obj, Fields, end, field, lookup}
use enterprise_data_access_a.Models.{Db, ObjectNode, Grant}
use enterprise_data_access_a.Config.{Settings}
use enterprise_data_access_a.Objects.{is_restricted, restricted_of, settable}
use enterprise_data_access_a.Objects.Traversal.{permits, shown_fields, shown_attrs}
use enterprise_data_access_a.Objects.Reach.{Capable, permits-Capable}

module _ (settings : Settings) (asked_at : String → String → ℕ) (db : Db) (grant : Grant) where
  -- A value under a key of an object's attributes, as it may be shown: redacted, or as it is where
  -- the field is not restricted or the subject has the field's own capability.
  abbrev pub IsShownField : ObjectNode → Fields → String → Value → Type 0
  IsShownField o attrs k w =
      (k ≢ "restricted_fields")
      × ((w ≡ str "REDACTED")
          ⊎ ((lookup k attrs ≡ some w)
              × ((is_restricted o k ≡ false)
                  ⊎ Capable settings asked_at db grant o (concat "context:field:" k))))

  -- Attributes as they may be shown: all redacted, or for a subject who may read them field by
  -- field.
  abbrev pub IsShownAttrs : ObjectNode → Value → Type 0
  IsShownAttrs o v =
      (v ≡ str "REDACTED")
      ⊎ (Capable settings asked_at db grant o "context:read"
          × ((fs : Fields) × (v ≡ obj fs)
              × ((k : String) (w : Value) → lookup k fs ≡ some w → IsShownField o o.attrs k w)))

  IsShownField-field :
      (o : ObjectNode) (j k : String) (v w : Value) (fs : Fields)
      → j == k ≡ false
      → IsShownField o fs k w
      → IsShownField o (field j v fs) k w
  IsShownField-field o j k v w fs other (n, inl r) = (n, inl r)
  IsShownField-field o j k v w fs other (n, inr (e, c)) = (n, inr (rw (other) e, c))

  veil-cases :
      (o : ObjectNode) (k : String) (v w : Value)
      → (if not (is_restricted o k)
            || permits settings asked_at db grant o (concat "context:field:" k)
          then v
          else str "REDACTED")
        ≡ w
      → (w ≡ str "REDACTED")
        ⊎ ((v ≡ w)
            × ((is_restricted o k ≡ false)
                ⊎ Capable settings asked_at db grant o (concat "context:field:" k)))
  veil-cases o k v w h = elim (Bool-cases (is_restricted o k)) [
    | inr free ↦ inr (rw (free) at h, inl free)
    | inl restricted ↦
        elim (Bool-cases (permits settings asked_at db grant o (concat "context:field:" k))) [
          | inl allowed ↦ inr (
            rw (restricted, allowed) at h,
            inr (permits-Capable settings asked_at db grant o _ allowed),
          )
          | inr refused ↦ inl (sym (rw (restricted, refused) at h))
        ]
  ]

  shown_fields-IsShownField :
      (o : ObjectNode) (fs : Fields) (k : String) (w : Value)
      → lookup k (shown_fields settings asked_at db grant o fs) ≡ some w
      → IsShownField o fs k w
  unfolding shown_fields
  shown_fields-IsShownField o end k w h = absurd (cc)
  shown_fields-IsShownField o (field j v fs) k w h = elim (Bool-cases (j == "restricted_fields")) [
    | inl hidden ↦
        let (n, rest) = shown_fields-IsShownField o fs k w (rw (hidden) at h) in
        IsShownField-field o j k v w fs
          (ground (arith, eq_iff j k, eq_iff j "restricted_fields", n, hidden)) (n, rest)
    | inr plain ↦ elim (Bool-cases (j == k)) [
      | inr other ↦
          IsShownField-field o j k v w fs other
            (shown_fields-IsShownField o fs k w (rw (plain, other) at h))
      | inl same ↦
          let at_k : j ≡ k = (eq_iff j k).0 same in
          let kept : k ≢ "restricted_fields" =
            ground (arith, plain, eq_iff j "restricted_fields", at_k) in
          let shown = veil-cases o j v w (some-injective (rw (plain, same) at h)) in
          (
            kept,
            elim shown [
              | inl redacted ↦ inl redacted
              | inr (e, c) ↦ inr (
                rw (same, e) refl,
                subst
                    (λ a.
                      (is_restricted o a ≡ false)
                      ⊎ Capable settings asked_at db grant o (concat "context:field:" a))
                    at_k c,
              )
            ],
          )
    ]
  ]

  pub shown_attrs-IsShownAttrs :
      (o : ObjectNode) (v : Value)
      → shown_attrs settings asked_at db grant o ≡ ok v
      → IsShownAttrs o v
  unfolding shown_attrs
  shown_attrs-IsShownAttrs o v h =
      elim (Bool-cases (permits settings asked_at db grant o "context:read")) [
        | inr refused ↦ inl (sym (ok-injective (rw (refused) at h)))
        | inl allowed ↦
            let (fine, h') =
              raise_if-passed (not (settable (restricted_of o))) type_error
                (λ u. ok (obj (shown_fields settings asked_at db grant o o.attrs)))
                (rw (allowed) at h) in
            inr (
              permits-Capable settings asked_at db grant o _ allowed,
              (
                shown_fields settings asked_at db grant o o.attrs,
                sym (ok-injective h'),
                shown_fields-IsShownField o o.attrs,
              ),
            )
      ]
