-- ===== src/Graph/Confined.antt =====
-- What each edge of a returned path satisfies: tenancy, provenance and freshness.
use enterprise_data_access_a.Base.{
  not-true, Empty, ℕ, ◌≤◌, ◌-◌, String, Bool, true, false, ◌||◌, ◌&&◌, Option, none, some, List, [],
  ◌∷◌, ◌==◌, ◌≡◌, refl, ◌∈◌, inl, inr, ◌⊎◌, is_none, find, arith, eq_iff, All, Option-cases,
  mem-filter, and_split, opt_eq, opt_eq→eq, any-witness, find-some,
}
use enterprise_data_access_a.Models.{Db, AccessEdge, AccessNode, RelationshipSource, seconds}
use enterprise_data_access_a.Graph.{
  View, AccessPath, usable, visible, has_id, resolve_path, fresh, is_traversable, is_unsupported,
  unsupported_source, is_recent, path_of,
}
use enterprise_data_access_a.Graph.Sound.{resolve_path-IsAuthorized}

-- A stamp is no later than now and no older than the allowed age.
abbrev pub Recent : View → Option ℕ → Type 0
Recent view none = Empty
Recent view (some t) = (t ≤ view.now) × (view.now - t ≤ seconds view.max_age)

Recent-of : (view : View) (o : Option ℕ) → is_recent view o ≡ true → Recent view o
Recent-of view none h = cc
Recent-of view (some t) h = ground arith

-- A row without a source counts in demonstrations only; any other names a registered, enabled
-- source of its own tenant, and both have been seen recently.
abbrev pub IsTrusted : Db → View → Option String → Option String → Option ℕ → Type 0
IsTrusted db view none tenant_id observed_at = view.demo_enabled ≡ true
IsTrusted db view (some id) tenant_id observed_at =
    (s : RelationshipSource) × (s ∈ db.sources)
    × (s.id ≡ id)
    × (s.enabled ≡ true)
    × (tenant_id ≡ some s.tenant_id)
    × Recent view observed_at
    × Recent view s.last_sync_at

fresh-IsTrusted :
    (db : Db) (view : View) (source tenant_id : Option String) (observed_at : Option ℕ)
    → fresh db view source tenant_id observed_at ≡ true
    → IsTrusted db view source tenant_id observed_at
unfolding fresh
fresh-IsTrusted db view none tenant_id observed_at h = h
fresh-IsTrusted db view (some id) tenant_id observed_at h =
    elim (Option-cases (find (λ s. s.id == id) db.sources)) [
      | inl unknown ↦ let bad : ◌≡◌ {A = Bool} false true = rw (unknown, fresh) at h in cc
      | inr (s, found) ↦
          let tests : (s.enabled
                && (opt_eq tenant_id (some s.tenant_id)
                    && (is_recent view observed_at && is_recent view s.last_sync_at)))
              ≡ true =
            rw (found, fresh) at h in
          let (on, rest) = and_split _ _ tests in
          let (same, recent) = and_split _ _ rest in
          let (seen, synced) = and_split _ _ recent in
          let (named, stored) = find-some (λ s. s.id == id) db.sources s found in
          (
            s,
            stored,
            (eq_iff s.id id).0 named,
            on,
            opt_eq→eq _ _ same,
            Recent-of view _ seen,
            Recent-of view _ synced,
          )
    ]

tenant-cases :
    (asked own : Option String)
    → (is_none asked || (is_none own || opt_eq own asked)) ≡ true
    → (asked ≡ none) ⊎ ((own ≡ none) ⊎ (own ≡ asked))
tenant-cases none own h = inl refl
tenant-cases (some a) none h = inr (inl refl)
tenant-cases (some a) (some b) h = inr (inr (opt_eq→eq (some b) (some a) h))

-- A node that the path may visit.
pub record IsVisited (db : Db) (view : View) (id : String) : Type 0 where
  pub node : AccessNode
  pub stored : node ∈ db.nodes
  pub named : node.id ≡ id
  pub tenant : (view.tenant ≡ none) ⊎ ((node.tenant_id ≡ none) ⊎ (node.tenant_id ≡ view.tenant))
  pub trusted : IsTrusted db view node.source_id node.tenant_id node.observed_at

has_id-IsVisited :
    (db : Db) (view : View) (id : String)
    → has_id db view id (visible db view) ≡ true
    → IsVisited db view id
unfolding visible
has_id-IsVisited db view id h =
    let (n, m, e) = any-witness (λ n. n.id == id) _ h in
    let (fresh', m') = mem-filter _ n _ m in
    let (tenant', stored) = mem-filter _ n _ m' in
    record {
      node = n;
      stored = stored;
      named = (eq_iff n.id id).0 e;
      tenant = tenant-cases view.tenant n.tenant_id tenant';
      trusted = fresh-IsTrusted db view n.source_id n.tenant_id n.observed_at fresh';
    }

-- An edge of a path: a relation that transfers authority, between two visited nodes, from a trusted
-- row, with no condition or effect that the search cannot judge on it or on its source.
pub record IsConfined (db : Db) (view : View) (e : AccessEdge) : Type 0 where
  pub transfers : is_traversable e.relation ≡ true
  pub src : IsVisited db view e.src_id
  pub dst : IsVisited db view e.dst_id
  pub trusted : IsTrusted db view e.source_id e.tenant_id e.observed_at
  pub supported : is_unsupported e ≡ false
  pub supported_source : unsupported_source db view e ≡ false

usable-IsConfined :
    (db : Db) (view : View) (e : AccessEdge) → usable db view e ≡ true → IsConfined db view e
unfolding usable
usable-IsConfined db view e h =
    let (transfers', h1) = and_split _ _ h in
    let (from, h2) = and_split _ _ h1 in
    let (to, h3) = and_split _ _ h2 in
    let (fresh', h4) = and_split _ _ h3 in
    let (source', own) = and_split _ _ h4 in
    record {
      transfers = transfers';
      src = has_id-IsVisited db view e.src_id from;
      dst = has_id-IsVisited db view e.dst_id to;
      trusted = fresh-IsTrusted db view e.source_id e.tenant_id e.observed_at fresh';
      supported = not-true own;
      supported_source = not-true source';
    }

All-IsConfined :
    (db : Db) (view : View) (es : List AccessEdge)
    → All (λ e. usable db view e ≡ true) es
    → All (IsConfined db view) es
All-IsConfined db view [] h = tt
All-IsConfined db view (e ∷ es) h = (usable-IsConfined db view e h.0, All-IsConfined db view es h.1)

-- Every edge of a returned path stays in the tenant that was asked for (or in no tenant), at both
-- ends; every row behind it comes from a registered, enabled source of its tenant and is recent,
-- or has no source in a demonstration; and no edge or source of an edge carries a condition, an
-- unsupported mark or an effect other than allow.
pub resolve_path-IsConfined :
    (db : Db) (view : View) (subject action resource : String) (p : AccessPath)
    → resolve_path db view subject action resource ≡ some p
    → (trail : List AccessEdge) × (p ≡ path_of db view trail) × All (IsConfined db view) trail
resolve_path-IsConfined db view subject action resource p h =
    let a = resolve_path-IsAuthorized db view subject action resource p h in
    (a.trail, a.path, All-IsConfined db view a.trail a.proven.usable_edges)
