-- ===== src/Connectors/Projected.antt =====
-- What the projection of a connector's facts leaves of the rows of others
-- (beta/src/eda/connectors/sync.py, `_project`).
use mathlib.Core.Path.{◌≡◌, refl, ◌∙◌, ap}
use enterprise_data_access_a.Base.{
  elem, ℕ, suc, String, Bool, true, false, not, ◌||◌, some, List, [], ◌∷◌, ◌++◌, ◌==◌, filter,
  if◌then◌else◌, any, length, arith, eq_iff, eq_refl, filter-add, filter-filter, Bool-cases, inl,
  inr,
}
use enterprise_data_access_a.Base.Json.{Value, str, Fields, end, field, lookup, py_eq}
use enterprise_data_access_a.Models.{
  ObjectEdge, ObjectNode, AccessEdge, AccessNode, Db, RelationshipSource, Manifest, ObjectRecord,
  RelationshipRecord,
}
use enterprise_data_access_a.Connectors.{Env}
use enterprise_data_access_a.Ingestion.{allowed_kinds}
use enterprise_data_access_a.Connectors.Facts.{of_generation}
use enterprise_data_access_a.Connectors.Project.{
  is_unsupported_fact, is_platform, objects_of, relationships_of, put_key, clear, project_objects,
  project_links, project_edges, project, is_own_object, is_own_link, is_own_node, is_own_edge,
  object_row, node_row, link_row, edge_row, marks,
}
use enterprise_data_access_a.Connectors.Sync.{publish}
use enterprise_data_access_a.Connectors.Elsewhere.{
  elsewhere, SameElsewhere, sync_source-SameElsewhere,
}

module _ (env : Env) (source : RelationshipSource) where
  clear-SameElsewhere : (db : Db) → SameElsewhere env source db (clear env source db)
  unfolding clear
  clear-SameElsewhere db =
      let keep_node = λ (n : AccessNode). not (is_own_node env source n) in
      let keep_edge = λ (e : AccessEdge). not (is_own_edge env source e) in
      let keep_object = λ (o : ObjectNode). not (is_own_object env source o) in
      let keep_link = λ (e : ObjectEdge). not (is_own_link env source e) in
      λ i. record (elsewhere env source db) {
        nodes = filter-filter keep_node keep_node db.nodes (λ a h. h) i;
        edges = filter-filter keep_edge keep_edge db.edges (λ a h. h) i;
        objects = filter-filter keep_object keep_object db.objects (λ a h. h) i;
        object_edges = filter-filter keep_link keep_link db.object_edges (λ a h. h) i;
      }

  lookup-put_key :
      (j k : String) (v : Value) (fs : Fields)
      → lookup j (put_key k v fs) ≡ (if k == j then some v else lookup j fs)
  unfolding put_key
  lookup-put_key j k v end = refl
  lookup-put_key j k v (field i w fs) =
      ground (arith, lookup-put_key j k v fs, eq_iff i k, eq_iff i j, eq_iff k j)

  marks-lookup :
      (fs : Fields) → lookup "_source_id" fs ≡ some (str source.id) → marks env source fs ≡ true
  unfolding py_eq
  marks-lookup fs h = ground (arith, h, eq_refl source.id)

  object_row-own : (o : ObjectRecord) → is_own_object env source (object_row env source o) ≡ true
  object_row-own o =
      rw (eq_refl source.tenant_id)
        (marks-lookup (object_row env source o).attrs (simp (lookup-put_key, eq_refl)))

  link_row-own :
      (id : String) (r : RelationshipRecord)
      → is_own_link env source (link_row env source id r) ≡ true
  link_row-own id r = marks-lookup (link_row env source id r).attrs (simp (lookup-put_key, eq_refl))

  if-SameElsewhere :
      (b : Bool) (db d : Db)
      → SameElsewhere env source db d
      → SameElsewhere env source db (if b then d else db)
  if-SameElsewhere true db d h = h
  if-SameElsewhere false db d h = refl

  project_objects-SameElsewhere :
      (os : List ObjectRecord) (db : Db)
      → SameElsewhere env source db (project_objects env source os db)
  unfolding project_objects
  project_objects-SameElsewhere [] db = refl
  project_objects-SameElsewhere (o ∷ os) db = project_objects-SameElsewhere os _ ∙ (λ i.
      record (elsewhere env source db) {
        objects =
            filter-add (λ x. not (is_own_object env source x)) db.objects (object_row env source o)
              (rw (object_row-own o) refl) i;
        nodes = nodes_kept (elem o.ref.kind allowed_kinds) i;
      })
    where
      nodes_kept :
          (b : Bool)
          → filter
              (λ n. not (is_own_node env source n))
              (if b then db.nodes ++ node_row env source o ∷ [] else db.nodes)
            ≡ filter (λ n. not (is_own_node env source n)) db.nodes
      nodes_kept true =
          filter-add (λ n. not (is_own_node env source n)) db.nodes (node_row env source o)
            (rw (eq_refl source.id) refl)
      nodes_kept false = refl

  project_links-SameElsewhere :
      (i : ℕ) (rs : List RelationshipRecord) (db : Db)
      → SameElsewhere env source db (project_links env source i rs db)
  unfolding project_links
  project_links-SameElsewhere i [] db = refl
  project_links-SameElsewhere i (r ∷ rs) db =
      project_links-SameElsewhere (suc i) rs _ ∙ if-SameElsewhere _ db _ link
    where
      link : SameElsewhere env source db (record db {
        object_edges = db.object_edges ++ link_row env source (env.new_id i) r ∷ [];
      })
      link =
          ap (λ t. record (elsewhere env source db) { object_edges = t })
            (filter-add (λ e. not (is_own_link env source e)) db.object_edges
              (link_row env source (env.new_id i) r) (rw (link_row-own (env.new_id i) r) refl))

  project_edges-SameElsewhere :
      (i : ℕ) (rs : List RelationshipRecord) (db : Db)
      → SameElsewhere env source db (project_edges env source i rs db)
  unfolding project_edges
  project_edges-SameElsewhere i [] db = refl
  project_edges-SameElsewhere i (r ∷ rs) db =
      project_edges-SameElsewhere (suc i) rs _ ∙ if-SameElsewhere _ db _ edge
    where
      edge :
          SameElsewhere env source db
            (record db { edges = db.edges ++ edge_row env source (env.new_id i) r ∷ [] })
      edge =
          ap (λ t. record (elsewhere env source db) { edges = t })
            (filter-add (λ e. not (is_own_edge env source e)) db.edges
              (edge_row env source (env.new_id i) r) (rw (eq_refl source.id) refl))

  project-SameElsewhere :
      (manifest : Manifest) (db : Db) → SameElsewhere env source db (project env source manifest db)
  unfolding project
  project-SameElsewhere manifest db =
      let facts = filter (of_generation source.id "live") db.connector_facts in
      let rels = relationships_of facts in
      let drawn =
        project_links env source 0 rels
          (project_objects env source (objects_of facts) (clear env source db)) in
      let first : SameElsewhere env source db drawn =
        project_links-SameElsewhere 0 rels _
        ∙ project_objects-SameElsewhere (objects_of facts) _
        ∙ clear-SameElsewhere db in
      elim (Bool-cases (not (is_platform manifest) || any is_unsupported_fact rels)) [
        | inl e ↦ rw e first
        | inr e ↦ rw e (project_edges-SameElsewhere (length rels) rels drawn ∙ first)
      ]

  pub publish-SameElsewhere :
      (manifest : Manifest) (db : Db) → SameElsewhere env source db (publish env source manifest db)
  unfolding publish
  publish-SameElsewhere manifest db =
      sync_source-SameElsewhere env source env.synced_at (project env source manifest db)
      ∙ project-SameElsewhere manifest db
