-- ===== src/Objects/Reach.antt =====
-- How a context reaches an object: hop by hop over relations that may be disclosed. And what the
-- traversal of beta/src/eda/objects.py keeps of it.
use Prim.Native.String.{◌++◌ as concat}
use enterprise_data_access_a.Base.{
  ℕ, suc, ◌≤◌, String, true, some, List, [], ◌∷◌, ◌==◌, ◌≡◌, ◌∈◌, inl, inr, length, All,
  Option-cases, Bool-cases, and_split, opt_eq→eq, eq_iff, find-some, arith,
}
use enterprise_data_access_a.Models.{Db, ObjectNode, ObjectEdge, Grant}
use enterprise_data_access_a.Config.{Settings}
use enterprise_data_access_a.Graph.{AccessPath, capability_path}
use enterprise_data_access_a.Graph.Sound.{IsAuthorized, resolve_path-IsAuthorized}
use enterprise_data_access_a.Objects.{EdgeView, Found, Expansion, view_edge, set_edge, by_id}
use enterprise_data_access_a.Objects.Traversal.{view_for, permits, is_shown}

module _ (settings : Settings) (asked_at : String → String → ℕ) (db : Db) (grant : Grant) where
  -- The grant's subject has authority for a capability on an object, by a path of its tenant.
  abbrev pub Capable : ObjectNode → String → Type 0
  Capable o capability =
      (p : AccessPath) × IsAuthorized db (view_for settings asked_at db grant o capability)
        grant.subject capability o.name p

  -- An object of the grant's tenant that its subject may discover.
  pub record IsDiscoverable (o : ObjectNode) : Type 0 where
    pub stored : o ∈ db.objects
    pub tenant : o.tenant_id ≡ grant.tenant_id
    pub discover : Capable o "context:discover"

  -- A relation that may be shown, between two such objects.
  pub record IsRelated (e : ObjectEdge) (source target : ObjectNode) : Type 0 where
    pub stored : e ∈ db.object_edges
    pub src : source.id ≡ e.src_id
    pub dst : target.id ≡ e.dst_id
    pub source_discoverable : IsDiscoverable source
    pub target_discoverable : IsDiscoverable target
    pub relation : Capable source (concat "context:relation:" e.relation)

  -- Being so many hops away from a root, along or against relations that may be shown.
  pub data Reach (root : String) : String → ℕ → Type 0 where
    here : Reach root root 0
    along :
        {e : ObjectEdge} {s t : ObjectNode} {n : ℕ}
        → IsRelated e s t
        → Reach root s.id n
        → Reach root t.id (suc n)
    against :
        {e : ObjectEdge} {s t : ObjectNode} {n : ℕ}
        → IsRelated e s t
        → Reach root t.id n
        → Reach root s.id (suc n)

  pub permits-Capable :
      (o : ObjectNode) (capability : String)
      → permits settings asked_at db grant o capability ≡ true
      → Capable o capability
  unfolding permits capability_path
  permits-Capable o capability h =
      elim (Option-cases (
        capability_path db (view_for settings asked_at db grant o capability) grant.subject
          capability o.name)) [
            | inl none' ↦ absurd (ground (arith, none', h))
            | inr (p, found) ↦ (
              p,
              resolve_path-IsAuthorized db (view_for settings asked_at db grant o capability)
                  grant.subject capability o.name p found,
            )
          ]

  pub is_shown-IsRelated :
      (e : ObjectEdge) (source target : ObjectNode)
      → e ∈ db.object_edges
      → by_id db e.src_id ≡ some source
      → by_id db e.dst_id ≡ some target
      → is_shown settings asked_at db grant e source target ≡ true
      → IsRelated e source target
  unfolding is_shown
  is_shown-IsRelated e source target m hs ht h =
      let (tenants, caps) = and_split _ _ h in
      let (tenant_s, tenant_t) = and_split _ _ tenants in
      let (discovers, relation') = and_split _ _ caps in
      let (discover_s, discover_t) = and_split _ _ discovers in
      let (id_s, stored_s) = find-some (λ o. o.id == e.src_id) db.objects source hs in
      let (id_t, stored_t) = find-some (λ o. o.id == e.dst_id) db.objects target ht in
      record {
        stored = m;
        src = (eq_iff _ _).0 id_s;
        dst = (eq_iff _ _).0 id_t;
        source_discoverable = record {
          stored = stored_s;
          tenant = opt_eq→eq _ _ tenant_s;
          discover = permits-Capable source _ discover_s;
        };
        target_discoverable = record {
          stored = stored_t;
          tenant = opt_eq→eq _ _ tenant_t;
          discover = permits-Capable target _ discover_t;
        };
        relation = permits-Capable source _ relation';
      }

  module _ (root : String) where
    -- What the traversal holds: objects within so many hops, edges that may be shown, and a
    -- frontier at the hop that is being made.
    abbrev pub IsFound : ℕ → Found → Type 0
    IsFound hop f = IsDiscoverable f.node × Reach root f.node.id f.distance × (f.distance ≤ hop)

    abbrev pub IsShown : String × EdgeView → Type 0
    IsShown kv =
        (e : ObjectEdge) × (s : ObjectNode) × (t : ObjectNode) × IsRelated e s t
        × (kv.1 ≡ view_edge e s t)

    pub record IsExpansion (hop : ℕ) (x : Expansion) : Type 0 where
      pub nodes : All (IsFound hop) x.nodes
      pub frontier : All (λ id. Reach root id hop) x.frontier
      pub edges : All IsShown x.visible_edges
      pub few : length x.nodes ≤ 1000

    pub set_edge-IsShown :
        (id : String) (view : EdgeView) (kvs : List (String × EdgeView))
        → ((k : String) → IsShown (k, view))
        → All IsShown kvs
        → All IsShown (set_edge id view kvs)
    unfolding set_edge
    set_edge-IsShown id view [] h all = (h id, tt)
    set_edge-IsShown id view ((k, v) ∷ kvs) h all = elim (Bool-cases (k == id)) [
      | inl same ↦ rw (same) (h k, all.1)
      | inr other ↦ rw (other) (all.0, set_edge-IsShown id view kvs h all.1)
    ]
