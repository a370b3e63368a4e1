-- ===== src/Ingestion/Separate.antt =====
-- Collectors are kept apart: what a batch of one source leaves of the rows of others, and where its
-- own rows stand.
use mathlib.Core.Path.{◌≡◌, refl, ◌∙◌}
use enterprise_data_access_a.Base.{
  String, Bool, true, false, not, ◌&&◌, Option, none, some, List, [], ◌∷◌, ◌++◌, elem, starts_with,
  opt_eq, arith, filter, All, All-map_of,
}
use enterprise_data_access_a.Models.{Db, AccessNode, AccessEdge, RelationshipSource}
use enterprise_data_access_a.Graph.{is_traversable}
use enterprise_data_access_a.Ingestion.{Relationship, EntityRef, allowed_kinds, get_node_row}

module _ (source : RelationshipSource) where
  abbrev pub own_node : AccessNode → Bool
  own_node n = opt_eq n.source_id (some source.id)

  abbrev pub own_edge : AccessEdge → Bool
  own_edge e = opt_eq e.source_id (some source.id)

  -- The node of an identifier is the source's.
  abbrev pub owned : List AccessNode → String → Bool
  owned ns id = elim (get_node_row id ns) [ none ↦ false | some n ↦ own_node n ]

  abbrev pub in_namespace : Option String → Bool
  in_namespace none = false
  in_namespace (some x) = starts_with x source.allowed_namespace

  -- A node of the source has its tenant, an allowed kind and a name in its namespace.
  pub record NodeInPlace (n : AccessNode) : Type 0 where
    pub tenant : n.tenant_id ≡ some source.tenant_id
    pub kind : elem n.kind allowed_kinds ≡ true
    pub namespace : in_namespace n.external_id ≡ true

  -- An edge of the source has an allowed relation and joins two nodes of the source.
  pub record EdgeInPlace (ns : List AccessNode) (e : AccessEdge) : Type 0 where
    pub relation : is_traversable e.relation ≡ true
    pub from_own : owned ns e.src_id ≡ true
    pub to_own : owned ns e.dst_id ≡ true

  -- Every row of the source is in place.
  pub record IsInPlace (db : Db) : Type 0 where
    pub nodes_in_place : All (λ n. own_node n ≡ true → NodeInPlace n) db.nodes
    pub edges_in_place : All (λ e. own_edge e ≡ true → EdgeInPlace db.nodes e) db.edges

  -- What a step of a batch leaves: the nodes of others, every edge of others that does not join two
  -- nodes of the source, and the places of the source's own rows.
  pub record IsSeparate (db db' : Db) : Type 0 where
    pub foreign_nodes :
        filter (λ n. not (own_node n)) db'.nodes ≡ filter (λ n. not (own_node n)) db.nodes
    pub owned_kept : (id : String) → owned db.nodes id ≡ true → owned db'.nodes id ≡ true
    pub foreign_edges :
        (keep : AccessEdge → Bool)
        → ((e : AccessEdge) → keep e ≡ true → own_edge e ≡ false)
        → ((e : AccessEdge)
            → keep e ≡ true
            → (owned db'.nodes e.src_id && owned db'.nodes e.dst_id) ≡ false)
        → filter keep db'.edges ≡ filter keep db.edges
    pub stays : IsInPlace db → IsInPlace db'

  pub IsSeparate-refl : (db : Db) → IsSeparate db db
  IsSeparate-refl db = record {
    foreign_nodes = refl;
    owned_kept = λ id h. h;
    foreign_edges = λ keep h k. refl;
    stays = λ h. h;
  }

  weaker :
      (a b a' b' : Bool)
      → (a ≡ true → a' ≡ true)
      → (b ≡ true → b' ≡ true)
      → (a' && b') ≡ false
      → (a && b) ≡ false
  weaker true true a' b' h k e = ground (arith, h refl, k refl)
  weaker true false a' b' h k e = refl
  weaker false b a' b' h k e = refl

  pub IsSeparate-trans : (x y z : Db) → IsSeparate x y → IsSeparate y z → IsSeparate x z
  IsSeparate-trans x y z h k = record {
    foreign_nodes = k.foreign_nodes ∙ h.foreign_nodes;
    owned_kept = λ id o. k.owned_kept id (h.owned_kept id o);
    foreign_edges = λ keep own both.
        k.foreign_edges keep own both
        ∙ h.foreign_edges keep own (λ e kept.
          weaker (owned y.nodes e.src_id) (owned y.nodes e.dst_id) _ _ (k.owned_kept e.src_id)
            (k.owned_kept e.dst_id) (both e kept));
    stays = λ c. k.stays (h.stays c);
  }

  pub find-append :
      (id : String) (ns ms : List AccessNode) → owned ns id ≡ true → owned (ns ++ ms) id ≡ true
  find-append id [] ms h = cc
  find-append id (n ∷ ns) ms h = ground (arith, find-append id ns ms)

  pub edges_stay :
      (ns ns' : List AccessNode) (es : List AccessEdge)
      → ((id : String) → owned ns id ≡ true → owned ns' id ≡ true)
      → All (λ e. own_edge e ≡ true → EdgeInPlace ns e) es
      → All (λ e. own_edge e ≡ true → EdgeInPlace ns' e) es
  edges_stay ns ns' es h all =
      All-map_of _ _ es
        (λ e old own.
          let p = old own in
          record {
            relation = p.relation;
            from_own = h e.src_id p.from_own;
            to_own = h e.dst_id p.to_own;
          })
        all

  pub both_true : (a b : Bool) → a ≡ true → b ≡ true → (a && b) ≡ true
  both_true a b h k = ground (arith, h, k)

  -- A valid reference.
  pub record IsValid (ref : EntityRef) : Type 0 where
    pub kind : elem ref.kind allowed_kinds ≡ true
    pub namespace : starts_with ref.id source.allowed_namespace ≡ true

  -- What `_validate` has found of a relationship.
  pub record IsSound (rel : Relationship) : Type 0 where
    pub subject_valid : IsValid rel.subject
    pub target_valid : IsValid rel.target
    pub relation_valid : is_traversable rel.relation ≡ true
