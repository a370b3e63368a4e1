-- ===== src/Objects/Traversal.antt =====
-- `scoped_context` of beta/src/eda/objects.py: the traversal, and what it shows of what it finds.
use Prim.Native.String.{◌++◌ as concat}
use enterprise_data_access_a.Base.{
  ℕ, zero, suc, String, Bool, not, ◌&&◌, ◌||◌, Option, some, List, [], ◌∷◌, ◌++◌, map, ◌==◌,
  if◌then◌else◌, is_some, truthy_text, any, filter, length, ltb, leb, opt_eq, sort_by, Result, ok,
  err, ◌>>=◌, ◌>>◌, raise_if, value_error, type_error, index_error,
}
use enterprise_data_access_a.Base.Int.{ℤ, pos, negsuc}
use enterprise_data_access_a.Base.Json.{Value, str, obj, Fields, end, field}
use enterprise_data_access_a.Models.{Db, ObjectNode, ObjectEdge, Grant}
use enterprise_data_access_a.Config.{Settings, demo_enabled}
use enterprise_data_access_a.Graph.{View, capability_path}
use enterprise_data_access_a.Broker.{validate_grant}
use enterprise_data_access_a.Objects.{
  by_id, NodeView, Context, Found, Expansion, label, view_edge, set_edge, closer, edge_before,
  settable, restricted_of, is_restricted, available, unavailable,
}

-- `checked` asks for each capability on each object once, so the instant at which it is asked is a
-- function of the two.
module _ (settings : Settings) (asked_at : String → String → ℕ) (db : Db) (grant : Grant) where
  abbrev pub view_for : ObjectNode → String → View
  view_for o capability = record {
    demo_enabled = demo_enabled settings;
    max_age = settings.source_max_age_seconds;
    now = asked_at o.id capability;
    tenant = grant.tenant_id;
  }

  -- `permits`
  unfoldable pub permits : ObjectNode → String → Bool
  permits o capability =
      is_some (capability_path db (view_for o capability) grant.subject capability o.name)

  -- The guards on an edge and its ends, each of which continues the loop.
  unfoldable pub is_shown : ObjectEdge → ObjectNode → ObjectNode → Bool
  unfolding permits
  is_shown edge source target =
      (opt_eq source.tenant_id grant.tenant_id && opt_eq target.tenant_id grant.tenant_id)
      && ((permits source "context:discover" && permits target "context:discover")
          && permits source (concat "context:relation:" edge.relation))

  -- `other` joins the next frontier when it is new.
  unfoldable pub join : ℕ → ObjectNode → Expansion → Result Expansion
  join hop other x =
      let nodes' = x.nodes ++ record { node = other; distance = hop } ∷ [] in
      if any (λ f. f.node.id == other.id) x.nodes
      then ok x
      else if ltb 1000 (length nodes')
      then err (value_error "context exceeds object limit")
      else ok (record x { nodes = nodes'; frontier = x.frontier ++ other.id ∷ [] })

  -- One edge of an object, with the rows at its ends.
  unfoldable pub follow :
      ℕ → String → ObjectEdge → Option ObjectNode → Option ObjectNode → Expansion → Result Expansion
  unfolding is_shown join set_edge
  follow hop id edge (some source) (some target) x =
      if is_shown edge source target
      then join hop (if source.id == id then target else source) (record x {
        visible_edges = set_edge edge.id (view_edge edge source target) x.visible_edges;
      })
      else ok x
  follow hop id edge _ _ x = ok x

  unfoldable pub follow_all : ℕ → String → List ObjectEdge → Expansion → Result Expansion
  unfolding follow
  follow_all hop id [] x = ok x
  follow_all hop id (e ∷ es) x = do
    x' ← follow hop id e (by_id db e.src_id) (by_id db e.dst_id) x
    follow_all hop id es x'

  abbrev pub edges_of : String → List ObjectEdge
  edges_of id = filter (λ e. e.src_id == id || e.dst_id == id) db.object_edges

  -- The edges of an object; the query stops at 1001, which is already too many.
  unfoldable pub expand : ℕ → String → Expansion → Result Expansion
  unfolding follow_all
  expand hop id x = do
    raise_if (ltb 1000 (length (edges_of id))) (value_error "context expansion exceeds limit")
    follow_all hop id (edges_of id) x

  unfoldable pub expand_all : ℕ → List String → Expansion → Result Expansion
  unfolding expand
  expand_all hop [] x = ok x
  expand_all hop (id ∷ ids) x = do x' ← expand hop id x; expand_all hop ids x'

  -- The hops that are left, from the given one on.
  unfoldable pub traverse : ℕ → ℕ → Expansion → Result Expansion
  unfolding expand_all
  traverse zero hop x = ok x
  traverse (suc left) hop x = do
    x' ← expand_all hop x.frontier (record x { frontier = [] })
    traverse left (suc hop) x'

  -- The fields that are shown of an object whose attributes may be read.
  unfoldable pub shown_fields : ObjectNode → Fields → Fields
  unfolding permits
  shown_fields o end = end
  shown_fields o (field k v fs) =
      let rest = shown_fields o fs in
      if k == "restricted_fields"
      then rest
      else field k
          (if not (is_restricted o k) || permits o (concat "context:field:" k)
            then v
            else str "REDACTED")
          rest

  unfoldable pub shown_attrs : ObjectNode → Result Value
  unfolding shown_fields
  shown_attrs o =
      if permits o "context:read"
      then (do
        raise_if (not (settable (restricted_of o))) type_error
        ok (obj (shown_fields o o.attrs)))
      else ok (str "REDACTED")

  unfoldable pub view_nodes : List Found → Result (List NodeView)
  unfolding shown_attrs
  view_nodes [] = ok []
  view_nodes (f ∷ fs) = do
    attrs ← shown_attrs f.node
    views ← view_nodes fs
    ok (
        record { kind = f.node.kind; name = f.node.name; attrs = attrs; distance = f.distance }
        ∷ views)

  -- What lies behind the root.
  unfoldable pub context_from : ObjectNode → ℕ → Result Context
  unfolding traverse view_nodes
  context_from root max_hops = do
    x ← traverse max_hops 1 (record {
      nodes = record { node = root; distance = 0 } ∷ [];
      frontier = root.id ∷ [];
      visible_edges = [];
    })
    views ← view_nodes (sort_by closer x.nodes)
    ok (
        available (record {
          root = label root;
          nodes = views;
          edges = sort_by edge_before (map (λ kv. kv.1) x.visible_edges);
          max_hops = max_hops;
          read_only = grant.scope.read_only;
        }))

  -- `candidates`: exactly one row, or nothing is disclosed.
  unfoldable pub context_of : String → List ObjectNode → ℕ → Result Context
  unfolding context_from
  context_of resource (root ∷ []) max_hops =
      if permits root "context:discover"
      then context_from root max_hops
      else ok (unavailable resource)
  context_of resource _ max_hops = ok (unavailable resource)

  -- `scope["actions"][0]`
  abbrev pub first_action : List String → Result String
  first_action [] = err index_error
  first_action (a ∷ as') = ok a

  abbrev pub depth_of : ℤ → Result ℕ
  depth_of (pos n) =
      if leb n 4 then ok n else err (value_error "context depth must be between 0 and 4")
  depth_of (negsuc n) = err (value_error "context depth must be between 0 and 4")

  -- A grant without a tenant discloses nothing.
  unfoldable pub context_within : String → ℕ → Result Context
  unfolding context_of
  context_within resource max_hops =
      if truthy_text grant.tenant_id
      then context_of resource
          (filter (λ o. o.name == resource && opt_eq o.tenant_id grant.tenant_id) db.objects)
          max_hops
      else ok (unavailable resource)

  -- `scoped_context`; `now` is the clock as `validate_grant` reads it.
  unfoldable pub scoped_context : ℕ → String → ℤ → Result Context
  unfolding context_within
  scoped_context now resource max_hops = do
    action ← first_action grant.scope.actions
    validate_grant grant action resource now
    depth ← depth_of max_hops
    context_within resource depth
