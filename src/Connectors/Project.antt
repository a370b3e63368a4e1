-- ===== src/Connectors/Project.antt =====
-- `_project` of beta/src/eda/connectors/sync.py: the rows of a source in the object graph and the
-- access graph are deleted and made again from its live facts.
use enterprise_data_access_a.Base.{
  ℕ, suc, String, Bool, true, false, not, ◌&&◌, ◌||◌, some, List, [], ◌∷◌, ◌++◌, ◌==◌, filter,
  if◌then◌else◌, elem, any, opt_eq, length,
}
use enterprise_data_access_a.Base.Int.{pos}
use enterprise_data_access_a.Base.Json.{
  Value, num, str, Fields, end, field, get, get_or, truthy, py_eq,
}
use enterprise_data_access_a.Models.{
  Db, AccessNode, AccessEdge, ObjectNode, ObjectEdge, RelationshipSource, object, relationship,
  ObjectRecord, RelationshipRecord, Manifest, inventory_only, platform_relations, ConnectorFact,
}
use enterprise_data_access_a.Graph.{is_traversable}
use enterprise_data_access_a.Ingestion.{allowed_kinds}
use enterprise_data_access_a.Connectors.{Env, canonical_id, row_id}
use enterprise_data_access_a.Connectors.Facts.{of_generation}

-- `{**attributes, k: v}`: the key keeps its place if it is there.
unfoldable pub put_key : String → Value → Fields → Fields
put_key k v end = field k v end
put_key k v (field j w fs) =
    let rest = put_key k v fs in if j == k then field j v fs else field j w rest

-- The object records and the relationship records among the facts.
abbrev pub objects_of : List ConnectorFact → List ObjectRecord
objects_of [] = []
objects_of (f ∷ fs) =
    let rest = objects_of fs in elim f.payload [ object o ↦ o ∷ rest | relationship r ↦ rest ]

abbrev pub relationships_of : List ConnectorFact → List RelationshipRecord
relationships_of [] = []
relationships_of (f ∷ fs) =
    let rest = relationships_of fs in elim f.payload [ object o ↦ rest | relationship r ↦ r ∷ rest ]

-- The facts that assert something which the search does not support.
abbrev pub is_unsupported_fact : RelationshipRecord → Bool
is_unsupported_fact r =
    truthy (get r.attributes "conditions")
    || (truthy (get r.attributes "unsupported")
        || not (py_eq (get_or r.attributes "effect" (str "allow")) (str "allow")))

abbrev pub is_platform : Manifest → Bool
is_platform m = elim m.permission_semantics [ platform_relations ↦ true | inventory_only ↦ false ]

module _ (env : Env) (source : RelationshipSource) where
  -- Rows that the source has projected.
  abbrev pub marks : Fields → Bool
  marks attrs = py_eq (get attrs "_source_id") (str source.id)

  abbrev pub is_own_object : ObjectNode → Bool
  is_own_object o = opt_eq o.tenant_id (some source.tenant_id) && marks o.attrs

  abbrev pub is_own_link : ObjectEdge → Bool
  is_own_link e = marks e.attrs

  abbrev pub is_own_node : AccessNode → Bool
  is_own_node n = opt_eq n.source_id (some source.id)

  abbrev pub is_own_edge : AccessEdge → Bool
  is_own_edge e = opt_eq e.source_id (some source.id)

  -- The deletions.
  unfoldable pub clear : Db → Db
  clear db = record db {
    edges = filter (λ e. not (is_own_edge e)) db.edges;
    nodes = filter (λ n. not (is_own_node n)) db.nodes;
    objects = filter (λ o. not (is_own_object o)) db.objects;
    object_edges = filter (λ e. not (is_own_link e)) db.object_edges;
  }

  abbrev pub object_row : ObjectRecord → ObjectNode
  object_row o = record {
    id = row_id env source.tenant_id o.ref;
    kind = o.ref.kind;
    name = canonical_id env source.tenant_id o.ref;
    attrs = put_key "observed_at" (num (pos o.observed_at)) (
        put_key "display_name" (str o.display_name) (
          put_key "native_id" (str o.ref.native_id)
            (put_key "_source_id" (str source.id) o.attributes)));
    tenant_id = some source.tenant_id;
  }

  abbrev pub node_row : ObjectRecord → AccessNode
  node_row o = record {
    id = row_id env source.tenant_id o.ref;
    kind = o.ref.kind;
    name = canonical_id env source.tenant_id o.ref;
    attrs = o.attributes;
    tenant_id = some source.tenant_id;
    external_id = some o.ref.native_id;
    source_id = some source.id;
    observed_at = some o.observed_at;
  }

  -- The loop over the object records.
  unfoldable pub project_objects : List ObjectRecord → Db → Db
  project_objects [] db = db
  project_objects (o ∷ os) db = project_objects os (record db {
    objects = db.objects ++ object_row o ∷ [];
    nodes = if elem o.ref.kind allowed_kinds then db.nodes ++ node_row o ∷ [] else db.nodes;
  })

  abbrev pub link_row : String → RelationshipRecord → ObjectEdge
  link_row id r = record {
    id = id;
    src_id = row_id env source.tenant_id r.subject;
    relation = r.relation;
    dst_id = row_id env source.tenant_id r.target;
    attrs = put_key "_source_id" (str source.id) r.attributes;
  }

  abbrev pub has_object : String → Db → Bool
  has_object id db = any (λ o. o.id == id) db.objects

  abbrev pub has_node : String → Db → Bool
  has_node id db = any (λ n. n.id == id) db.nodes

  -- The loop over the relationships that stay in the object graph; `i` numbers the new rows.
  unfoldable pub project_links : ℕ → List RelationshipRecord → Db → Db
  project_links i [] db = db
  project_links i (r ∷ rs) db = project_links (suc i) rs (
      if not (is_traversable r.relation)
        && (has_object (row_id env source.tenant_id r.subject) db
            && has_object (row_id env source.tenant_id r.target) db)
      then record db { object_edges = db.object_edges ++ link_row (env.new_id i) r ∷ [] }
      else db)

  abbrev pub edge_row : String → RelationshipRecord → AccessEdge
  edge_row id r = record {
    id = id;
    src_id = row_id env source.tenant_id r.subject;
    relation = r.relation;
    dst_id = row_id env source.tenant_id r.target;
    attrs = r.attributes;
    tenant_id = some source.tenant_id;
    source_id = some source.id;
    observed_at = some r.observed_at;
  }

  -- The loop over the relationships that confer authority.
  unfoldable pub project_edges : ℕ → List RelationshipRecord → Db → Db
  project_edges i [] db = db
  project_edges i (r ∷ rs) db = project_edges (suc i) rs (
      if is_traversable r.relation
        && (has_node (row_id env source.tenant_id r.subject) db
            && has_node (row_id env source.tenant_id r.target) db)
      then record db { edges = db.edges ++ edge_row (env.new_id i) r ∷ [] }
      else db)

  -- `_project`
  unfoldable pub project : Manifest → Db → Db
  unfolding clear project_objects project_links project_edges
  project manifest db =
      let facts = filter (of_generation source.id "live") db.connector_facts in
      let rels = relationships_of facts in
      let drawn = project_links 0 rels (project_objects (objects_of facts) (clear db)) in
      if not (is_platform manifest) || any is_unsupported_fact rels
      then drawn
      else project_edges (length rels) rels drawn
