-- ===== src/Examples/Collectors.antt =====
-- A batch of a collector and the messages of a connector.
use mathlib.Core.Path.{◌≡◌, refl}
use enterprise_data_access_a.Base.{true, false, none, some, [], ◌∷◌, ok, update_first}
use enterprise_data_access_a.Base.Json.{end, null}
use enterprise_data_access_a.Models.{
  Db, empty_db, RelationshipSource, Manifest, SyncMessage, begin, abort, snapshot, changes,
  platform_relations, partial_coverage, ConnectorState,
}
use enterprise_data_access_a.Ingestion.{Relationship}
use enterprise_data_access_a.Ingestion
use enterprise_data_access_a.Ingestion.Endpoint.{ingest_relationships}
use enterprise_data_access_a.Ingestion.Separate.{IsSeparate}
use enterprise_data_access_a.Ingestion.Accepted.{ingest_relationships-IsSeparate}
use enterprise_data_access_a.Connectors
use enterprise_data_access_a.Connectors.Sync.{Answer, sync_connector, swap_sequence}
use enterprise_data_access_a.Connectors.Elsewhere.{elsewhere}
use enterprise_data_access_a.Connectors.Confined.{sync_connector-SameElsewhere}
use enterprise_data_access_a.Connectors.Protocol.{Inventory, Shows, entries}
use enterprise_data_access_a.Connectors.Refined.{after, sync_connector-refines}
use enterprise_data_access_a.Connectors.Replayed.{
  here, sent, later_env, repeated, sync_connector-replay,
}

abbrev source : RelationshipSource
source = record {
  id = "okta";
  tenant_id = "local";
  provider = "okta";
  collector_identity = "secret-sha256:b";
  allowed_namespace = "okta:";
  enabled = true;
  last_sync_at = none;
  created_at = 1;
}

abbrev db : Db
db = record empty_db { sources = source ∷ [] }

abbrev batch_env : Ingestion.Env
batch_env = record {
  sha256 = λ s. s;
  digest = λ v. "h";
  max_batch = 10;
  now = λ i. 5;
  new_id = λ i. "n";
  correlation_id = "c1";
  stamp = record { id = "1"; ts = 5 };
}

abbrev membership : Relationship
membership = record {
  subject = record { kind = "user"; id = "okta:ada" };
  relation = "member_of";
  target = record { kind = "group"; id = "okta:ops" };
  attributes = end;
}

ingest_relationships-IsSeparate_example :
    IsSeparate source db (ingest_relationships batch_env "okta" "b" "" (membership ∷ []) none db).1
ingest_relationships-IsSeparate_example =
    ingest_relationships-IsSeparate source batch_env "okta" "b" "" (membership ∷ []) none db refl

abbrev env : Connectors.Env
env = record {
  sha256 = λ s. s;
  digest = λ v. "h";
  digest32 = λ v. "h";
  dump = λ m. null;
  dump_manifest = λ m. null;
  size = λ v. 2;
  now = λ i. 5;
  synced_at = 5;
  new_id = λ i. "n";
  correlation_id = "c1";
  stamp = record { id = "1"; ts = 5 };
}

abbrev manifest : Manifest
manifest = record {
  connector_type = "okta";
  object_kinds = "user" ∷ [];
  relations = "member_of" ∷ [];
  capabilities = snapshot ∷ changes ∷ [];
  foreign_references = [];
  permission_semantics = platform_relations;
  limitations = [];
}

abbrev state : ConnectorState
state = record {
  source_id = "okta";
  manifest = manifest;
  sequence = 0;
  snapshot_id = none;
  coverage = partial_coverage;
}

abbrev ready : Db
ready = record db { connector_states = state ∷ [] }

abbrev opening : SyncMessage
opening = record {
  sequence = 1;
  operation = begin;
  snapshot_id = some "s1";
  objects = [];
  relationships = [];
  tombstones = [];
  coverage = partial_coverage;
}

abbrev giving_up : SyncMessage
giving_up = record opening { sequence = 2; operation = abort }

sync_connector-SameElsewhere_example :
    elsewhere env source (sync_connector env "okta" "b" opening ready).1
    ≡ elsewhere env source ready
sync_connector-SameElsewhere_example =
    sync_connector-SameElsewhere env "okta" "b" opening ready source refl

abbrev inventory : Inventory
inventory = record { sequence = 0; active = none; staged = []; live = [] }

ready-Shows : Shows "okta" env inventory ready
unfolding entries
ready-Shows = record { state = state; found = refl; shown = refl; placed = refl; proper = refl }

sync_connector-refines_example :
    Shows "okta" env
      (after env source opening (sync_connector env "okta" "b" opening ready).0 inventory)
      (sync_connector env "okta" "b" opening ready).1
sync_connector-refines_example =
    sync_connector-refines env "okta" "b" opening ready source inventory refl ready-Shows

abbrev opened : Db
opened = (sync_connector env "okta" "b" opening ready).1

abbrev answer : Answer
answer = record {
  result = record {
    source_id = "okta";
    sequence = 1;
    operation = begin;
    coverage = partial_coverage;
  };
  replayed = false;
}

opens : sync_connector env "okta" "b" opening ready ≡ (ok answer, opened)
unfolding sync_connector swap_sequence update_first
opens = refl

sync_connector-replay_example :
    sync_connector
      (later_env env (λ i. 9) 9 (λ i. "m") "c2" (record { id = "2"; ts = 9 }))
      "okta"
      "b"
      opening
      (sync_connector env "okta" "b" giving_up opened).1
    ≡ (ok (repeated answer), (sync_connector env "okta" "b" giving_up opened).1)
sync_connector-replay_example =
    sync_connector-replay env (λ i. 9) 9 (λ i. "m") "c2" (record { id = "2"; ts = 9 }) opening
      "okta" "b" ready opened (sync_connector env "okta" "b" giving_up opened).1 answer opens
      (sent env "okta" "b" giving_up here)
