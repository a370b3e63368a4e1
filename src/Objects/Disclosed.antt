-- ===== src/Objects/Disclosed.antt =====
-- What a context of beta/src/eda/objects.py discloses, and on what authority.
use mathlib.Core.Path.{subst, sym}
use enterprise_data_access_a.Base.{
  ℕ, ◌≤◌, String, Bool, true, ◌&&◌, List, [], ◌∷◌, ◌==◌, ◌≡◌, refl, ◌∈◌, inl, inr, filter, if-cases,
  mem-filter, eq_iff, arith, Result, ok, ◌>>=◌, >>=-eq-ok, truthy_text, opt_eq, opt_eq→eq,
  and_split, eq_refl, opt_eq_refl, mem-filter_of,
}
use enterprise_data_access_a.Base.Int.{ℤ, pos, negsuc}
use enterprise_data_access_a.Models.{Db, ObjectNode, Grant}
use enterprise_data_access_a.Config.{Settings}
use enterprise_data_access_a.Broker.{validate_grant}
use enterprise_data_access_a.Broker.Checks.{Covers, validate_grant_iff}
use enterprise_data_access_a.Objects.{ContextView, Context, available}
use enterprise_data_access_a.Objects.Traversal.{
  permits, context_of, context_within, scoped_context, first_action, depth_of,
}
use enterprise_data_access_a.Objects.Reach.{IsDiscoverable, permits-Capable}
use enterprise_data_access_a.Objects.Shown.{IsContext, context_from-IsContext}

-- The one object of the grant's tenant with this name.
pub record IsRoot (db : Db) (grant : Grant) (resource : String) (root : ObjectNode) : Type 0 where
  pub named : root.name ≡ resource
  pub only :
      (o : ObjectNode)
      → o ∈ db.objects
      → o.name ≡ resource
      → o.tenant_id ≡ grant.tenant_id
      → o ≡ root

module _ (settings : Settings) (asked_at : String → String → ℕ) (db : Db) (grant : Grant) where
  -- A context that a request for a resource is shown.
  pub record IsDisclosed (now : ℕ) (resource : String) (max_hops : ℤ) (c : ContextView)
      : Type 0 where
    pub action : String
    pub covers : Covers grant action resource now
    pub tenant : truthy_text grant.tenant_id ≡ true
    pub hops : ℕ
    pub depth : max_hops ≡ pos hops
    pub shallow : hops ≤ 4
    pub root : ObjectNode
    pub is_root : IsRoot db grant resource root
    pub discoverable : IsDiscoverable settings asked_at db grant root
    pub context : IsContext settings asked_at db grant root hops c

  -- A row that a request asks for.
  abbrev is_candidate : String → ObjectNode → Bool
  is_candidate resource o = o.name == resource && opt_eq o.tenant_id grant.tenant_id

  candidate-IsRoot :
      (resource : String) (root : ObjectNode)
      → filter (is_candidate resource) db.objects ≡ root ∷ []
      → (root ∈ db.objects) × (root.tenant_id ≡ grant.tenant_id) × IsRoot db grant resource root
  candidate-IsRoot resource root h =
      let one : root ∈ filter (is_candidate resource) db.objects =
        subst (λ os. root ∈ os) (sym h) (inl refl) in
      let (test, stored) = mem-filter (is_candidate resource) root db.objects one in
      let (name', tenant') = and_split _ _ test in
      (
        stored,
        opt_eq→eq _ _ tenant',
        record {
          named = (eq_iff _ _).0 name';
          only = λ o m n t.
              let passes : is_candidate resource o ≡ true = rw (n, t, eq_refl, opt_eq_refl) refl in
              let m' = mem-filter_of (is_candidate resource) o db.objects passes m in
              elim (subst (λ os. o ∈ os) h m') [ inl e ↦ e | inr none' ↦ elim none' [ ] ];
        },
      )

  -- What a context shows is around the request's one candidate.
  context_of-IsContext :
      (resource : String) (os : List ObjectNode) (max_hops : ℕ) (c : ContextView)
      → filter (is_candidate resource) db.objects ≡ os
      → context_of settings asked_at db grant resource os max_hops ≡ ok (available c)
      → (root : ObjectNode) × IsRoot db grant resource root
        × IsDiscoverable settings asked_at db grant root
        × IsContext settings asked_at db grant root max_hops c
  unfolding context_of
  context_of-IsContext resource [] max_hops c e h = absurd (cc)
  context_of-IsContext resource (a ∷ b ∷ os) max_hops c e h = absurd (cc)
  context_of-IsContext resource (root ∷ []) max_hops c e h =
      elim (if-cases (permits settings asked_at db grant root "context:discover") _ _ h) [
        | inr (hidden, h') ↦ absurd (cc)
        | inl (seen, h') ↦
            let (stored, tenant, is_root) = candidate-IsRoot resource root e in
            let d : IsDiscoverable settings asked_at db grant root = record {
              stored = stored;
              tenant = tenant;
              discover = permits-Capable settings asked_at db grant root _ seen;
            } in
            (
              root,
              is_root,
              d,
              context_from-IsContext settings asked_at db grant root max_hops c d h',
            )
      ]

  depth_of-IsShallow :
      (max_hops : ℤ) (n : ℕ)
      → depth_of settings asked_at db grant max_hops ≡ ok n
      → (max_hops ≡ pos n) × (n ≤ 4)
  depth_of-IsShallow (pos m) n h = ground arith
  depth_of-IsShallow (negsuc m) n h = absurd (cc)

  -- A context that is returned discloses only what its grant and its subject are entitled to: the
  -- grant is live and covers its first action on the resource; the root is the one object of the
  -- grant's tenant with the resource's name; every object shown belongs to the tenant, is
  -- discoverable by the subject and is as many hops from the root, at most four, as the view says,
  -- over relations between discoverable objects of the tenant that the subject may see; every
  -- relation shown is such a relation; attributes are redacted unless the subject may read them,
  -- and restricted or secret fields unless it holds the field's own capability; at most 1000
  -- objects are shown. Each capability is a proven path of the access graph.
  pub scoped_context-IsDisclosed :
      (now : ℕ) (resource : String) (max_hops : ℤ) (c : ContextView)
      → scoped_context settings asked_at db grant now resource max_hops ≡ ok (available c)
      → IsDisclosed now resource max_hops c
  unfolding scoped_context context_within
  scoped_context-IsDisclosed now resource max_hops c h =
      let rest : ℕ → Result Context = λ n. context_within settings asked_at db grant resource n in
      let (action, first, h1) =
        >>=-eq-ok (first_action settings asked_at db grant grant.scope.actions)
          (λ a. validate_grant grant a resource now >>= λ u.
            depth_of settings asked_at db grant max_hops >>= rest)
          h in
      let (u, valid, h2) =
        >>=-eq-ok (validate_grant grant action resource now)
          (λ u. depth_of settings asked_at db grant max_hops >>= rest) h1 in
      let (n, deep, h3) = >>=-eq-ok (depth_of settings asked_at db grant max_hops) rest h2 in
      let (depth', shallow') = depth_of-IsShallow max_hops n deep in
      elim (if-cases (truthy_text grant.tenant_id) _ _ h3) [
        | inr (missing, bad) ↦ absurd (cc)
        | inl (tenant', shown) ↦
            let (root', is_root', d, context') = context_of-IsContext resource _ n c refl shown in
            record {
              action = action;
              covers = (validate_grant_iff grant action resource now).0 valid;
              tenant = tenant';
              hops = n;
              depth = depth';
              shallow = shallow';
              root = root';
              is_root = is_root';
              discoverable = d;
              context = context';
            }
      ]
