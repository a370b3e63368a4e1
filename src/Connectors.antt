-- ===== src/Connectors.antt =====
-- beta/src/eda/connectors: the envelopes of contracts.py and their keys, the registration of a
-- manifest and the validation of facts in sync.py. `digest` is SHA-256 over canonical JSON, and
-- `digest32` its first 32 characters, which `canonical[4:36]` reads behind the prefix `eda:`.
pub mod Facts
pub mod Project
pub mod Sync
pub mod Elsewhere
pub mod Projected
pub mod Confined
pub mod Protocol
pub mod Entries
pub mod Writes
pub mod Operations
pub mod Refined
pub mod Kept
pub mod Recorded
pub mod Grown
pub mod Replayed
use Prim.Native.String.{◌++◌ as concat}
use enterprise_data_access_a.Base.{
  ℕ, suc, String, Bool, true, false, not, ◌&&◌, ◌||◌, Option, none, some, List, [], ◌∷◌, ◌++◌, map,
  ◌==◌, find, if◌then◌else◌, is_some, is_empty, length, ltb, all, any, elem, starts_with, nonempty,
  ingest_error, value_error, Result, ok, run_checks, Exception,
}
use enterprise_data_access_a.Base.Json.{
  Value, null, str, obj, arr, Fields, dict, of_list, items, get_or,
}
use enterprise_data_access_a.Models.{
  Db, RelationshipSource, AuditFields, Reference, ObjectRecord, RelationshipRecord, Payload, object,
  relationship, Manifest, SyncMessage, Operation, begin, page, complete, abort, delta, Coverage,
  partial_coverage, ConnectorState,
}
use enterprise_data_access_a.Effects.{
  Action, pure, gets, modify, fail_if, or_raise, lift, ◌>>=◌, ◌>>◌,
}
use enterprise_data_access_a.Audit.{Stamp, append}
use enterprise_data_access_a.Policy.Lifecycle.{blank_fields}
use enterprise_data_access_a.Ingestion.{get_source}

-- What a call reads of its surroundings: pydantic's dumps, the size of their JSON text in bytes, the
-- clock by the number of the reading, and new identifiers.
pub record Env : Type 0 where
  pub sha256 : String → String
  pub digest : Value → String
  pub digest32 : Value → String
  pub dump : SyncMessage → Value
  pub dump_manifest : Manifest → Value
  pub size : Value → ℕ
  pub now : ℕ → ℕ
  pub synced_at : ℕ
  pub new_id : ℕ → String
  pub correlation_id : String
  pub stamp : Stamp

abbrev pub reference_json : String → Reference → Value
reference_json tenant ref =
    arr (of_list (str tenant ∷ str ref.source_id ∷ str ref.kind ∷ str ref.native_id ∷ []))

-- The references of a record: an object's own one, or both ends of a relationship.
abbrev pub refs_of : Payload → List Reference
refs_of (object o) = o.ref ∷ []
refs_of (relationship r) = r.subject ∷ r.target ∷ []

abbrev pub observed_of : Payload → ℕ
observed_of (object o) = o.observed_at
observed_of (relationship r) = r.observed_at

abbrev pub attributes_of : Payload → Fields
attributes_of (object o) = o.attributes
attributes_of (relationship r) = r.attributes

-- `operation in {"begin", "complete", "abort"}`
abbrev pub is_control : Operation → Bool
is_control begin = true
is_control complete = true
is_control abort = true
is_control _ = false

abbrev pub is_delta : Operation → Bool
is_delta delta = true
is_delta _ = false

abbrev truthy_id : Option String → Bool
truthy_id none = false
truthy_id (some s) = nonempty s

-- `SyncMessage.shape`
abbrev pub shape_checks : SyncMessage → List (Bool × Exception)
shape_checks m =
    (
      not (is_delta m.operation) && not (truthy_id m.snapshot_id),
      value_error "snapshot_id required for snapshot operations",
    )
    ∷ (
      is_delta m.operation && truthy_id m.snapshot_id,
      value_error "delta cannot belong to a snapshot",
    )
    ∷ (
      is_control m.operation
          && not (is_empty m.objects && (is_empty m.relationships && is_empty m.tombstones)),
      value_error "control messages cannot contain facts",
    )
    ∷ (
      not (is_delta m.operation) && not (is_empty m.tombstones),
      value_error "only delta accepts tombstones",
    )
    ∷ []

unfoldable pub shape : SyncMessage → Result (Unit {0})
shape m = run_checks (shape_checks m)

-- `manifest.foreign_references.get(source_id, [])`
abbrev pub allowed_relations : String → List (String × List String) → List String
allowed_relations id [] = []
allowed_relations id ((s, rels) ∷ rest) =
    let later = allowed_relations id rest in if s == id then rels else later

-- `actions`: a list of texts that are not empty
abbrev pub is_action : Value → Bool
is_action (str s) = nonempty s
is_action _ = false

abbrev pub are_actions : Value → Bool
are_actions (arr xs) = all is_action (items xs)
are_actions _ = false

-- `record.relation`, which only a relationship has
abbrev pub relation_of : Payload → Option String
relation_of (object o) = none
relation_of (relationship r) = some r.relation

abbrev pub relation_in : Option String → List String → Bool
relation_in none rels = false
relation_in (some r) rels = elem r rels

module _ (env : Env) where
  -- `Reference.canonical_id`, and the identifier of its rows
  pub canonical_id : String → Reference → String
  canonical_id tenant ref = concat "eda:" (env.digest (reference_json tenant ref))

  unfoldable pub row_id : String → Reference → String
  row_id tenant ref = env.digest32 (reference_json tenant ref)

  -- `ObjectRecord.key` and `RelationshipRecord.key`
  unfoldable pub key : String → Payload → String
  unfolding canonical_id
  key tenant (object o) = canonical_id tenant o.ref
  key tenant (relationship r) = concat "rel:" (
      env.digest (
        arr (
          of_list (
            str (canonical_id tenant r.subject)
            ∷ str r.relation
            ∷ str (canonical_id tenant r.target)
            ∷ []))))

  -- A reference of another source, which has to be known, enabled and allowed.
  abbrev pub is_foreign_allowed :
      RelationshipSource → Manifest → Option String → String → Option RelationshipSource → Bool
  is_foreign_allowed source manifest relation id none = false
  is_foreign_allowed source manifest relation id (some other) =
      other.tenant_id == source.tenant_id
      && (other.enabled && relation_in relation (allowed_relations id manifest.foreign_references))

  -- The check of one reference.
  abbrev pub is_permitted :
      RelationshipSource → Manifest → Option String → Reference → Option RelationshipSource → Bool
  is_permitted source manifest relation ref other =
      if ref.source_id == source.id
      then elem ref.kind manifest.object_kinds && starts_with ref.native_id source.allowed_namespace
      else is_foreign_allowed source manifest relation ref.source_id other

  abbrev pub refusal : RelationshipSource → Reference → Exception
  refusal source ref =
      if ref.source_id == source.id
      then ingest_error 403 "object outside source manifest/namespace"
      else ingest_error 403 "foreign reference not permitted"

  unfoldable pub check_reference :
      RelationshipSource → Manifest → Option String → Reference → Action (Unit {0})
  check_reference source manifest relation ref = do
    other ← gets (get_source ref.source_id)
    fail_if (not (is_permitted source manifest relation ref other)) (refusal source ref)

  unfoldable pub check_references :
      RelationshipSource → Manifest → Option String → List Reference → Action (Unit {0})
  unfolding check_reference
  check_references source manifest relation [] = pure tt
  check_references source manifest relation (ref ∷ refs) = do
    check_reference source manifest relation ref
    check_references source manifest relation refs

  -- The checks of `_validate_fact` in front of the references.
  abbrev pub record_checks : RelationshipSource → Manifest → Payload → List (Bool × Exception)
  record_checks source manifest (object o) =
      (not (o.ref.source_id == source.id), ingest_error 403 "cannot overwrite foreign object") ∷ []
  record_checks source manifest (relationship r) =
      (
        not (elem r.relation manifest.relations),
        ingest_error 403 "relationship assertion not permitted",
      )
      ∷ (
        r.relation == "role_allows"
            && not (are_actions (get_or r.attributes "actions" (arr (of_list [])))),
        ingest_error 422 "actions must be non-empty strings in a list",
      )
      ∷ []

  -- `_validate_fact`, which reads the clock `now`
  unfoldable pub validate_fact : RelationshipSource → Manifest → ℕ → Payload → Action (Unit {0})
  unfolding check_references
  validate_fact source manifest now fact = do
    fail_if (ltb now (observed_of fact)) (ingest_error 422 "future evidence timestamp")
    lift (run_checks (record_checks source manifest fact))
    check_references source manifest (relation_of fact) (refs_of fact)

  -- The loop over a message's facts; the `i`-th round reads the clock `env.now i`.
  unfoldable pub validate_facts :
      RelationshipSource → Manifest → ℕ → List Payload → Action (Unit {0})
  unfolding validate_fact
  validate_facts source manifest i [] = pure tt
  validate_facts source manifest i (fact ∷ facts) = do
    validate_fact source manifest (env.now i) fact
    validate_facts source manifest (suc i) facts

  abbrev pub get_state : String → Db → Option ConnectorState
  get_state id db = find (λ s. s.source_id == id) db.connector_states

  -- A foreign source of a manifest exists within the tenant.
  abbrev pub in_tenant : RelationshipSource → Option RelationshipSource → Bool
  in_tenant source none = false
  in_tenant source (some other) = other.tenant_id == source.tenant_id

  abbrev pub foreign_known : RelationshipSource → List (String × List String) → Db → Bool
  foreign_known source refs db = all (λ r. in_tenant source (get_source r.0 db)) refs

  abbrev pub registration_fields : RelationshipSource → Manifest → AuditFields
  registration_fields source manifest = record blank_fields {
    correlation_id = env.correlation_id;
    subject = "administrator";
    event = "connector_registration";
    action = some "register_manifest";
    target = some source.id;
    result = "accepted";
    tenant_id = some source.tenant_id;
    context_summary =
        obj (dict (("manifest_digest", str (env.digest (env.dump_manifest manifest))) ∷ []));
  }

  abbrev pub new_state : RelationshipSource → Manifest → ConnectorState
  new_state source manifest = record {
    source_id = source.id;
    manifest = manifest;
    sequence = 0;
    snapshot_id = none;
    coverage = partial_coverage;
  }

  -- `register`
  unfoldable pub register : RelationshipSource → Manifest → Action (Unit {0})
  register source manifest = do
    state ← gets (get_state source.id)
    fail_if (is_some state) (ingest_error 409 "connector already configured")
    known ← gets (foreign_known source manifest.foreign_references)
    fail_if (not known) (ingest_error 422 "foreign source must exist within tenant")
    modify (λ db. record db {
      connector_states = db.connector_states ++ new_state source manifest ∷ [];
      audit = append env.digest db.audit env.stamp (registration_fields source manifest);
    })
