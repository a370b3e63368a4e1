-- ===== src/Objects/Shown.antt =====
-- The objects and relations that a context of beta/src/eda/objects.py shows around its root.
use mathlib.Core.Path.{subst, sym}
use enterprise_data_access_a.Base.{
  ℕ, ◌+◌, ◌≤◌, String, List, [], ◌∷◌, map, ◌≡◌, refl, ◌∈◌, inl, inr, length, All, arith, ok, ◌>>=◌,
  ok-injective, >>=-eq-ok, mem-sort_by, sort_by, length-sort_by, all-mem,
}
use enterprise_data_access_a.Base.Json.{Value}
use enterprise_data_access_a.Models.{Db, ObjectNode, ObjectEdge, Grant}
use enterprise_data_access_a.Config.{Settings}
use enterprise_data_access_a.Objects.{
  NodeView, EdgeView, ContextView, available, Found, Expansion, label, view_edge, closer,
  edge_before,
}
use enterprise_data_access_a.Objects.Traversal.{shown_attrs, view_nodes, traverse, context_from}
use enterprise_data_access_a.Objects.Reach.{
  IsDiscoverable, IsRelated, Reach, here, IsFound, IsShown, IsExpansion,
}
use enterprise_data_access_a.Objects.Traversed.{traverse-IsExpansion}
use enterprise_data_access_a.Objects.Attributes.{IsShownAttrs, shown_attrs-IsShownAttrs}

module _ (settings : Settings) (asked_at : String → String → ℕ) (db : Db) (grant : Grant) where
  -- An object as it may be shown from a root.
  pub record IsShownNode (root : String) (max_hops : ℕ) (v : NodeView) : Type 0 where
    pub node : ObjectNode
    pub discoverable : IsDiscoverable settings asked_at db grant node
    pub kind : v.kind ≡ node.kind
    pub name : v.name ≡ node.name
    pub reached : Reach settings asked_at db grant root node.id v.distance
    pub near : v.distance ≤ max_hops
    pub attrs : IsShownAttrs settings asked_at db grant node v.attrs

  -- A context around a root.
  pub record IsContext (root : ObjectNode) (max_hops : ℕ) (c : ContextView) : Type 0 where
    pub named : c.root ≡ label root
    pub nodes : (v : NodeView) → v ∈ c.nodes → IsShownNode root.id max_hops v
    pub edges :
        (v : EdgeView)
        → v ∈ c.edges
        → (e : ObjectEdge) × (s : ObjectNode) × (t : ObjectNode) × IsRelated settings asked_at db
            grant e s t
          × (v ≡ view_edge e s t)
    pub few : length c.nodes ≤ 1000
    pub depth : c.max_hops ≡ max_hops
    pub read_only : c.read_only ≡ grant.scope.read_only

  abbrev AllShown : String → ℕ → List Found → List NodeView → Type 0
  AllShown root max_hops fs vs =
      (length vs ≡ length fs) × ((v : NodeView) → v ∈ vs → IsShownNode root max_hops v)

  abbrev view_of : Found → Value → NodeView
  view_of f attrs = record {
    kind = f.node.kind;
    name = f.node.name;
    attrs = attrs;
    distance = f.distance;
  }

  view_of-IsShownNode :
      (root : String) (max_hops : ℕ) (f : Found) (attrs : Value)
      → IsFound settings asked_at db grant root max_hops f
      → shown_attrs settings asked_at db grant f.node ≡ ok attrs
      → IsShownNode root max_hops (view_of f attrs)
  view_of-IsShownNode root max_hops f attrs (d, r, near') shown = record {
    node = f.node;
    discoverable = d;
    kind = refl;
    name = refl;
    reached = r;
    near = near';
    attrs = shown_attrs-IsShownAttrs settings asked_at db grant f.node attrs shown;
  }

  view_nodes-AllShown :
      (root : String) (max_hops : ℕ) (fs : List Found) (vs : List NodeView)
      → ((f : Found) → f ∈ fs → IsFound settings asked_at db grant root max_hops f)
      → view_nodes settings asked_at db grant fs ≡ ok vs
      → AllShown root max_hops fs vs
  unfolding view_nodes
  view_nodes-AllShown root max_hops [] vs all h =
      subst (AllShown root max_hops []) (ok-injective h) (refl, λ v m. elim m [ ])
  view_nodes-AllShown root max_hops (f ∷ fs) vs all h =
      let (attrs, shown, h1) =
        >>=-eq-ok (shown_attrs settings asked_at db grant f.node)
          (λ a. view_nodes settings asked_at db grant fs >>= λ views. ok (view_of f a ∷ views)) h in
      let (views, rest, h2) =
        >>=-eq-ok (view_nodes settings asked_at db grant fs) (λ views. ok (view_of f attrs ∷ views))
          h1 in
      let (same, others) = view_nodes-AllShown root max_hops fs views (λ g m. all g (inr m)) rest in
      let first = view_of-IsShownNode root max_hops f attrs (all f (inl refl)) shown in
      subst (AllShown root max_hops (f ∷ fs)) (ok-injective h2) (
        omega (arith, same),
        λ v m. elim m [
          | inl e ↦ subst (IsShownNode root max_hops) (sym e) first
          | inr m' ↦ others v m'
        ],
      )

  edge-IsShown :
      (root : String) (kvs : List (String × EdgeView)) (v : EdgeView)
      → All (IsShown settings asked_at db grant root) kvs
      → v ∈ map (λ kv. kv.1) kvs
      → (e : ObjectEdge) × (s : ObjectNode) × (t : ObjectNode) × IsRelated settings asked_at db
          grant e s t
        × (v ≡ view_edge e s t)
  edge-IsShown root [] v all m = elim m [ ]
  edge-IsShown root (kv ∷ kvs) v (this, all) (inl e) =
      let (f, s, t, r, eq) = this in (f, s, t, r, cc)
  edge-IsShown root (kv ∷ kvs) v (this, all) (inr m) = edge-IsShown root kvs v all m

  pub context_from-IsContext :
      (root : ObjectNode) (max_hops : ℕ) (c : ContextView)
      → IsDiscoverable settings asked_at db grant root
      → context_from settings asked_at db grant root max_hops ≡ ok (available c)
      → IsContext root max_hops c
  unfolding context_from
  context_from-IsContext root max_hops c d h =
      let start : Expansion = record {
        nodes = record { node = root; distance = 0 } ∷ [];
        frontier = root.id ∷ [];
        visible_edges = [];
      } in
      let shown : Expansion → List NodeView → ContextView = λ x views. record {
        root = label root;
        nodes = views;
        edges = sort_by edge_before (map (λ kv. kv.1) x.visible_edges);
        max_hops = max_hops;
        read_only = grant.scope.read_only;
      } in
      let (x, walked, h1) =
        >>=-eq-ok (traverse settings asked_at db grant max_hops 1 start)
          (λ x. view_nodes settings asked_at db grant (sort_by closer x.nodes) >>= λ views.
            ok (available (shown x views)))
          h in
      let (views, viewed, h2) =
        >>=-eq-ok (view_nodes settings asked_at db grant (sort_by closer x.nodes))
          (λ views. ok (available (shown x views))) h1 in
      let add_zero : 0 + max_hops ≡ max_hops = omega arith in
      let i : IsExpansion settings asked_at db grant root.id max_hops x =
        subst (λ k. IsExpansion settings asked_at db grant root.id k x) add_zero
          (traverse-IsExpansion settings asked_at db grant root.id max_hops 0 start x
            (record {
              nodes = ((d, here, omega arith), tt);
              frontier = (here, tt);
              edges = tt;
              few = omega arith;
            })
            walked) in
      let (many, nodes') =
        view_nodes-AllShown root.id max_hops (sort_by closer x.nodes) views
          (λ f m. all-mem _ x.nodes f i.nodes (mem-sort_by closer f x.nodes m)) viewed in
      let eq : shown x views ≡ c = ground (arith, ok-injective h2) in
      subst (IsContext root max_hops) eq (record {
        named = refl;
        nodes = nodes';
        edges =
            λ v m. edge-IsShown root.id x.visible_edges v i.edges (mem-sort_by edge_before v _ m);
        few = omega (arith, many, length-sort_by closer x.nodes, i.few);
        depth = refl;
        read_only = refl;
      })
