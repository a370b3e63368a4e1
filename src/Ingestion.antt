-- ===== src/Ingestion.antt =====
-- beta/src/eda/ingestion.py: collectors write relationships to the access graph. `Env` holds what
-- the code reads of its surroundings; a batch has the types of `RelationshipBatch` in api.py, which
-- is its only caller. The detail of an error is the literal part of its texts.
pub mod Endpoint
pub mod Separate
pub mod Steps
pub mod Accepted
use Prim.Native.String.{◌++◌ as concat}
use enterprise_data_access_a.Base.{
  ℕ, ◌+◌, suc, String, Bool, true, false, not, ◌&&◌, ◌||◌, Option, none, some, List, [], ◌∷◌, ◌++◌,
  ◌==◌, find, if◌then◌else◌, is_some, is_empty, length, ltb, eqb, elem, starts_with, nonempty,
  opt_eq, update_first, ingest_error, type_error,
}
use enterprise_data_access_a.Base.Int.{pos}
use enterprise_data_access_a.Base.Json.{Value, num, str, obj, Fields, end, dict}
use enterprise_data_access_a.Models.{
  Db, AccessNode, AccessEdge, RelationshipSource, IngestReceipt, AuditFields,
}
use enterprise_data_access_a.Effects.{Action, pure, gets, modify, fail_if, or_raise, ◌>>=◌, ◌>>◌}
use enterprise_data_access_a.Graph.{is_traversable}
use enterprise_data_access_a.Audit.{Stamp, append}
use enterprise_data_access_a.Policy.Lifecycle.{blank_fields}

-- `EntityRef` and `RelationshipIn`
pub record EntityRef : Type 0 where
  pub kind : String
  pub id : String

pub record Relationship : Type 0 where
  pub subject : EntityRef
  pub relation : String
  pub target : EntityRef
  pub attributes : Fields

-- A `datetime`, with or without a time zone.
pub record Observation : Type 0 where
  pub aware : Bool
  pub instant : ℕ

pub record Env : Type 0 where
  pub sha256 : String → String
  pub digest : Value → String
  pub max_batch : ℕ
  pub now : ℕ → ℕ
  pub new_id : ℕ → String
  pub correlation_id : String
  pub stamp : Stamp

-- `ALLOWED_KINDS`; `ALLOWED_RELATIONS` is `TRAVERSABLE`.
abbrev pub allowed_kinds : List String
allowed_kinds =
    "user" ∷ "group" ∷ "role" ∷ "permission_set" ∷ "service_account" ∷ "account" ∷ "asset" ∷ []

pub hash_secret : (String → String) → String → String
hash_secret sha256 secret = concat "secret-sha256:" (sha256 secret)

abbrev pub get_source : String → Db → Option RelationshipSource
get_source id db = find (λ s. s.id == id) db.sources

-- `register_source`, with the secret given or made.
unfoldable pub register_source :
    (String → String)
    → String
    → String
    → String
    → String
    → String
    → Bool
    → ℕ
    → Action (RelationshipSource × String)
unfolding hash_secret
register_source sha256 source_id tenant_id provider allowed_namespace secret enabled now = do
  existing ← gets (get_source source_id)
  fail_if (is_some existing) (ingest_error 409 "source already exists")
  let source : RelationshipSource = record {
    id = source_id;
    tenant_id = tenant_id;
    provider = provider;
    collector_identity = hash_secret sha256 secret;
    allowed_namespace = allowed_namespace;
    enabled = enabled;
    last_sync_at = none;
    created_at = now;
  }
  modify (λ db. record db { sources = db.sources ++ source ∷ [] })
  pure (source, secret)

-- The one test of `authenticate_collector`.
unfoldable pub authorized_collector : (String → String) → String → RelationshipSource → Bool
unfolding hash_secret
authorized_collector sha256 bearer source =
    source.collector_identity == hash_secret sha256 bearer && source.enabled

abbrev pub collector :
    (String → String) → String → Option RelationshipSource → Option RelationshipSource
collector sha256 bearer none = none
collector sha256 bearer (some s) = if authorized_collector sha256 bearer s then some s else none

unfoldable pub authenticate_collector :
    (String → String) → String → String → Action RelationshipSource
unfolding authorized_collector
authenticate_collector sha256 source_id bearer = do
  found ← gets (get_source source_id)
  or_raise (collector sha256 bearer found)
      (ingest_error 403 "collector not authorized for this source")

abbrev message_if : Bool → String → List String
message_if b s = if b then s ∷ [] else []

-- The errors of one side of a relationship.
pub side_errors : String → EntityRef → List String
side_errors ns ref =
    message_if (not (elem ref.kind allowed_kinds)) "kind not allowed"
    ++ (if not (nonempty ref.id)
        then "id missing" ∷ []
        else message_if (not (starts_with ref.id ns)) "id outside source namespace")

pub relationship_errors : String → Relationship → List String
unfolding side_errors
relationship_errors ns rel =
    side_errors ns rel.subject
    ++ (side_errors ns rel.target
        ++ message_if (not (is_traversable rel.relation)) "relation not allowed")

pub batch_errors : String → List Relationship → List String
batch_errors ns [] = []
batch_errors ns (rel ∷ rels) = relationship_errors ns rel ++ batch_errors ns rels

-- `_validate`
pub validate_batch : RelationshipSource → List Relationship → ℕ → List String
unfolding batch_errors
validate_batch source rels max_batch =
    message_if (eqb (length rels) 0) "empty batch"
    ++ (if ltb max_batch (length rels)
        then "batch exceeds limit" ∷ []
        else message_if (not source.enabled) "source disabled"
          ++ batch_errors source.allowed_namespace rels)

-- The texts of a list as one detail.
pub detail : List String → String
detail [] = ""
detail (e ∷ es) = concat e (concat "; " (detail es))

abbrev pub get_node_row : String → List AccessNode → Option AccessNode
get_node_row id ns = find (λ n. n.id == id) ns

abbrev pub has_external : String → Option String → AccessNode → Bool
has_external external_id tenant n =
    opt_eq n.external_id (some external_id) && opt_eq n.tenant_id tenant

-- The cache of a batch: the identifiers of the nodes by external identifier.
abbrev pub Cache : Type 0
Cache = List (String × String)

abbrev pub cached : String → Cache → Option String
cached external_id [] = none
cached external_id ((e, id) ∷ cache) =
    let rest = cached external_id cache in if e == external_id then some id else rest

-- What the loop over the batch carries.
pub record Tally : Type 0 where
  pub cache : Cache
  pub nodes_created : ℕ
  pub edges_created : ℕ
  pub edges_updated : ℕ

abbrev pub new_node : RelationshipSource → ℕ → EntityRef → String → AccessNode
new_node source at ref id = record {
  id = id;
  kind = ref.kind;
  name = ref.id;
  attrs = end;
  tenant_id = some source.tenant_id;
  external_id = some ref.id;
  source_id = some source.id;
  observed_at = some at;
}

abbrev pub add_node_row : AccessNode → Db → Db
add_node_row n db = record db { nodes = db.nodes ++ n ∷ [] }

module _ (env : Env) (source : RelationshipSource) (at : ℕ) where
  -- The identifier of a node, that it is new, and the cache: `if external_id in cache`.
  pub locate_in : EntityRef → Option String → Option AccessNode → Tally → Action (String × Tally)
  locate_in ref (some id) row t = pure (id, t)
  locate_in ref none (some n) t = pure (n.id, record t { cache = (ref.id, n.id) ∷ t.cache })
  locate_in ref none none t = do
    let id = env.new_id (t.nodes_created + t.edges_created)
    modify (add_node_row (new_node source at ref id))
    pure (id, record t { cache = (ref.id, id) ∷ t.cache; nodes_created = suc t.nodes_created })

  pub locate : EntityRef → Tally → Action (String × Tally)
  unfolding locate_in
  locate ref t = do
    row ← gets (λ db. find (has_external ref.id (some source.tenant_id)) db.nodes)
    locate_in ref (cached ref.id t.cache) row t

  abbrev pub is_own : AccessNode → Bool
  is_own n = opt_eq n.source_id (some source.id)

  abbrev pub touch : AccessNode → AccessNode
  touch n = record n { source_id = some source.id; observed_at = some at }

  -- What follows the lookup in `_upsert_node`: the checks and the observation.
  pub claim : EntityRef → String → Action (Unit {0})
  claim ref id = do
    row ← gets (λ db. get_node_row id db.nodes)
    node ← or_raise row type_error
    fail_if (not (is_own node)) (ingest_error 403 "source cannot overwrite another source node")
    fail_if (not (node.kind == ref.kind)) (ingest_error 422 "already exists as another kind")
    modify (λ db. record db { nodes = update_first (λ n. n.id == id) touch db.nodes })

  -- `_upsert_node`
  unfoldable pub upsert_node : EntityRef → Tally → Action (String × Tally)
  unfolding locate claim
  upsert_node ref t = do (id, t') ← locate ref t; claim ref id; pure (id, t')

  abbrev pub same_edge : String → String → String → AccessEdge → Bool
  same_edge src relation dst e = e.src_id == src && (e.relation == relation && e.dst_id == dst)

  abbrev pub new_edge : String → String → Relationship → String → AccessEdge
  new_edge src dst rel id = record {
    id = id;
    src_id = src;
    relation = rel.relation;
    dst_id = dst;
    attrs = rel.attributes;
    tenant_id = some source.tenant_id;
    source_id = some source.id;
    observed_at = some at;
  }

  abbrev pub refresh_edge : Relationship → AccessEdge → AccessEdge
  refresh_edge rel e = record e {
    attrs = rel.attributes;
    source_id = some source.id;
    observed_at = some at;
  }

  -- The second half of the loop's body.
  pub put_edge : String → String → Relationship → Option AccessEdge → Tally → Action Tally
  put_edge src dst rel none t = do
    let id = env.new_id (t.nodes_created + t.edges_created)
    modify (λ db. record db { edges = db.edges ++ new_edge src dst rel id ∷ [] })
    pure (record t { edges_created = suc t.edges_created })
  put_edge src dst rel (some e) t = do
    modify (λ db. record db {
      edges = update_first (same_edge src rel.relation dst) (refresh_edge rel) db.edges;
    })
    pure (record t { edges_updated = suc t.edges_updated })

  -- The body of the loop.
  unfoldable pub apply_relationship : Relationship → Tally → Action Tally
  unfolding upsert_node put_edge
  apply_relationship rel t = do
    (src, t1) ← upsert_node rel.subject t
    (dst, t2) ← upsert_node rel.target t1
    edge ← gets (λ db. find (same_edge src rel.relation dst) db.edges)
    put_edge src dst rel edge t2

  unfoldable pub apply_batch : List Relationship → Tally → Action Tally
  unfolding apply_relationship
  apply_batch [] t = pure t
  apply_batch (rel ∷ rels) t = do t' ← apply_relationship rel t; apply_batch rels t'
