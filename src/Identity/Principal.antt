-- ===== src/Identity/Principal.antt =====
-- Which principal `map_principal` returns.
use enterprise_data_access_a.Base.{
  ℕ, ◌-◌, ◌≤◌, String, Bool, true, Option, none, some, List, [], ◌∷◌, ◌≡◌, refl, sym, ◌∈◌, inl, inr,
  ◌⊎◌, arith, eq_iff, opt_eq→eq, mem-filter, mem-filter_of, truthy_text, ◌==◌, filter, Option-cases,
  if-cases, find, find-some,
}
use mathlib.Core.Path.{subst}
use enterprise_data_access_a.Models.{Db, AccessNode, RelationshipSource, seconds}
use enterprise_data_access_a.Config.{Settings}
use enterprise_data_access_a.Identity.{
  SessionInfo, map_principal, lookup_key, matches, sole, honored, is_honored, is_live,
}

-- A source that vouches for a node.
pub record Vouches (settings : Settings) (db : Db) (now : ℕ) (tenant : Option String)
    (n : AccessNode) : Type 0 where
  pub source : RelationshipSource
  pub is_stored : source ∈ db.sources
  pub is_its_source : n.source_id ≡ some source.id
  pub is_enabled : source.enabled ≡ true
  pub same_tenant : some source.tenant_id ≡ tenant
  pub synced_at : ℕ
  pub was_synced : source.last_sync_at ≡ some synced_at
  pub not_ahead : synced_at ≤ now
  pub not_stale : now - synced_at ≤ seconds settings.source_max_age_seconds

-- A node is the principal of a session.
pub record IsPrincipal (settings : Settings) (db : Db) (now : ℕ) (session : SessionInfo)
    (n : AccessNode) : Type 0 where
  pub external_id : String
  pub source_bound : Option String
  pub has_external_id :
      (id : String) × (session.external_id ≡ some id)
      × (lookup_key settings session id ≡ some (external_id, source_bound))
  pub has_tenant : truthy_text session.tenant ≡ true
  pub is_stored : n ∈ db.nodes
  pub is_user : n.kind ≡ "user"
  pub in_tenant : n.tenant_id ≡ session.tenant
  pub is_named : n.external_id ≡ some external_id
  pub is_only :
      (m : AccessNode)
      → m ∈ db.nodes
      → matches (external_id, source_bound) session.tenant m ≡ true
      → n ≡ m
  pub is_trusted :
      ((n.source_id ≡ none) × (session.issuer ≡ "dev")) ⊎ Vouches settings db now session.tenant n

is_live-Vouches :
    (settings : Settings) (db : Db) (now : ℕ) (tenant : Option String) (n : AccessNode)
    (id : String) (s : RelationshipSource)
    → n.source_id ≡ some id
    → find (λ s. s.id == id) db.sources ≡ some s
    → is_live settings.source_max_age_seconds now tenant (some s) ≡ true
    → Vouches settings db now tenant n
is_live-Vouches settings db now tenant n id s hs found h =
    let (named, stored) = find-some (λ s. s.id == id) db.sources s found in
    elim (Option-cases s.last_sync_at) [
      | inl e ↦ ground (arith, h, e)
      | inr (t, e) ↦ record {
        source = s;
        is_stored = stored;
        is_its_source = ground (arith, hs, named, eq_iff s.id id);
        is_enabled = ground (arith, h);
        same_tenant = opt_eq→eq (some s.tenant_id) tenant (ground (arith, h));
        synced_at = t;
        was_synced = e;
        not_ahead = ground (arith, h, e);
        not_stale = ground (arith, h, e);
      }
    ]

is_honored-trusted :
    (settings : Settings) (db : Db) (now : ℕ) (session : SessionInfo) (n : AccessNode)
    → is_honored settings db now session n ≡ true
    → ((n.source_id ≡ none) × (session.issuer ≡ "dev")) ⊎ Vouches settings db now session.tenant n
is_honored-trusted settings db now session n h = elim (Option-cases n.source_id) [
  | inl e ↦ inl (e, ground (arith, h, e, eq_iff session.issuer "dev"))
  | inr (id, e) ↦ elim (Option-cases (find (λ s. s.id == id) db.sources)) [
    | inl missing ↦ ground (arith, h, e, missing)
    | inr (s, found) ↦ inr (
        is_live-Vouches settings db now session.tenant n id s e found (ground (arith, h, e, found)))
  ]
]

sole-eq : {A : Type 0} (xs : List A) (a : A) → sole xs ≡ some a → xs ≡ a ∷ []
sole-eq [] a h = cc
sole-eq (x ∷ []) a h = cc
sole-eq (x ∷ y ∷ xs) a h = cc

honored-some :
    (settings : Settings) (db : Db) (now : ℕ) (session : SessionInfo) (found : Option AccessNode)
    (n : AccessNode)
    → honored settings db now session found ≡ some n
    → (found ≡ some n) × (is_honored settings db now session n ≡ true)
honored-some settings db now session none n h = cc
honored-some settings db now session (some m) n h =
    elim (if-cases (is_honored settings db now session m) (some m) none h) [
      | inl (is_so, e) ↦ (e, cc)
      | inr (_, e) ↦ cc
    ]

-- The one row that a query selects.
only-facts :
    (p : AccessNode → Bool) (ns : List AccessNode) (n : AccessNode)
    → sole (filter p ns) ≡ some n
    → (p n ≡ true) × (n ∈ ns) × ((m : AccessNode) → m ∈ ns → p m ≡ true → n ≡ m)
only-facts p ns n h =
    let one = sole-eq (filter p ns) n h in
    let (fits, stored) = mem-filter p n ns (subst (λ xs. n ∈ xs) (sym one) (inl refl)) in
    (
      fits,
      stored,
      λ m at ok_m. elim (subst (λ xs. m ∈ xs) one (mem-filter_of p m ns ok_m at)) [
        | inl e ↦ sym e
        | inr later ↦ elim later [ ]
      ],
    )

-- If `map_principal` returns a node, it is a stored user of the session's tenant, the only row that
-- the lookup selects for the session's external identifier, and either a seeded node in a dev
-- session or one whose source is enabled, of the tenant, and synchronised within the allowed age.
pub map_principal-IsPrincipal :
    (settings : Settings) (db : Db) (now : ℕ) (session : SessionInfo) (n : AccessNode)
    → map_principal settings db now session ≡ some n
    → IsPrincipal settings db now session n
unfolding map_principal
map_principal-IsPrincipal settings db now session n h = elim (Option-cases session.external_id) [
  | inl e ↦ ground (arith, h, e)
  | inr (id, e) ↦ elim (Option-cases (lookup_key settings session id)) [
    | inl no_key ↦ ground (arith, h, e, no_key)
    | inr (key, is_key) ↦
        let (found, trusted) =
          honored-some settings db now session (sole (filter (matches key session.tenant) db.nodes))
            n (ground (arith, h, e, is_key)) in
        let (fits, stored, only) = only-facts (matches key session.tenant) db.nodes n found in
        record {
          external_id = key.0;
          source_bound = key.1;
          has_external_id = (id, e, is_key);
          has_tenant = ground (arith, h);
          is_stored = stored;
          is_user = ground (arith, fits, eq_iff n.kind "user");
          in_tenant = opt_eq→eq n.tenant_id session.tenant (ground (arith, fits));
          is_named = opt_eq→eq n.external_id (some key.0) (ground (arith, fits));
          is_only = only;
          is_trusted = is_honored-trusted settings db now session n trusted;
        }
  ]
]
