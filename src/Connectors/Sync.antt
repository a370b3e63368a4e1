-- ===== src/Connectors/Sync.antt =====
-- `apply_message` of beta/src/eda/connectors/sync.py and its route in beta/src/eda/api.py, which
-- commits a message or rolls it back.
use Prim.Native.String.{◌++◌ as concat}
use enterprise_data_access_a.Base.{
  truthy_text, ℕ, suc, ◌+◌, ◌*◌, String, Bool, true, false, not, ◌&&◌, Option, none, some, List, [],
  ◌∷◌, ◌++◌, map, ◌==◌, find, if◌then◌else◌, any, eqb, ltb, opt_eq, update_first, ingest_error,
  type_error,
}
use enterprise_data_access_a.Base.Int.{pos}
use enterprise_data_access_a.Base.Json.{num, str, obj, dict}
use enterprise_data_access_a.Models.{
  Db, RelationshipSource, AuditFields, Payload, object, relationship, Manifest, Capability,
  snapshot, changes, SyncMessage, SyncResult, Operation, begin, page, complete, abort, delta,
  Coverage, complete_coverage, partial_coverage, ConnectorState, ConnectorReceipt,
}
use enterprise_data_access_a.Effects.{
  Action, pure, lift, gets, modify, fail_if, or_raise, ◌>>=◌, ◌>>◌, transaction,
}
use enterprise_data_access_a.Audit.{append}
use enterprise_data_access_a.Policy.Lifecycle.{blank_fields}
use enterprise_data_access_a.Ingestion.{authenticate_collector}
use enterprise_data_access_a.Ingestion.Endpoint.{sync_source}
use enterprise_data_access_a.Connectors.{Env, get_state, validate_facts, shape, is_delta}
use enterprise_data_access_a.Connectors.Facts.{
  of_generation, upsert_facts, drop_generation, promote_generation, bury, write_facts,
}
use enterprise_data_access_a.Connectors.Project.{project}

-- `"changes" in manifest.capabilities`
abbrev pub is_changes : Capability → Bool
is_changes changes = true
is_changes _ = false

abbrev pub is_snapshot : Capability → Bool
is_snapshot snapshot = true
is_snapshot _ = false

-- `message.snapshot_id`, which `shape` has required.
abbrev pub generation_of : SyncMessage → String
generation_of m = elim m.snapshot_id [ none ↦ "" | some id ↦ id ]

abbrev pub is_complete : Coverage → Bool
is_complete complete_coverage = true
is_complete partial_coverage = false

-- `[*message.objects, *message.relationships]`
abbrev pub facts_of : SyncMessage → List Payload
facts_of m = map object m.objects ++ map relationship m.relationships

abbrev pub operation_text : Operation → String
operation_text begin = "begin"
operation_text page = "page"
operation_text complete = "complete"
operation_text abort = "abort"
operation_text delta = "delta"

abbrev pub coverage_text : Coverage → String
coverage_text complete_coverage = "complete"
coverage_text partial_coverage = "partial"

-- The update that serializes a source: the number of rows, and the table.
unfoldable pub swap_sequence : String → ℕ → ℕ → List ConnectorState → ℕ × List ConnectorState
swap_sequence id old new [] = (0, [])
swap_sequence id old new (s ∷ ss) =
    let rest = swap_sequence id old new ss in
    if s.source_id == id && eqb s.sequence old
    then (suc rest.0, record s { sequence = new } ∷ rest.1)
    else (rest.0, s ∷ rest.1)

-- The row of the source is written.
abbrev pub set_state : String → (ConnectorState → ConnectorState) → Db → Db
set_state id f db = record db {
  connector_states = update_first (λ s. s.source_id == id) f db.connector_states;
}

abbrev pub open_snapshot : Option String → ConnectorState → ConnectorState
open_snapshot id s = record s { snapshot_id = id }

abbrev pub close_snapshot : ConnectorState → ConnectorState
close_snapshot s = record s { snapshot_id = none; coverage = complete_coverage }

-- What a call returns: a result, and whether it is the one of an earlier call.
pub record Answer : Type 0 where
  pub result : SyncResult
  pub replayed : Bool

module _ (env : Env) (source : RelationshipSource) where
  -- `select(ConnectorReceipt)` of a sequence number
  abbrev pub get_receipt : ℕ → Db → Option ConnectorReceipt
  get_receipt sequence db =
      find (λ r. r.source_id == source.id && eqb r.sequence sequence) db.connector_receipts

  -- The live facts are projected, and the source is marked as synchronised.
  unfoldable pub publish : Manifest → Db → Db
  publish manifest db = sync_source source.id env.synced_at (project env source manifest db)

  -- `begin`
  unfoldable pub begin_snapshot : ConnectorState → SyncMessage → Action (Unit {0})
  begin_snapshot state m = do
    fail_if (truthy_text state.snapshot_id)
        (ingest_error 409 "abort or complete active snapshot first")
    staged ← gets (λ db. any (of_generation source.id (generation_of m)) db.connector_facts)
    fail_if staged (ingest_error 409 "snapshot generation already exists")
    modify (set_state source.id (open_snapshot m.snapshot_id))

  -- `page`
  unfoldable pub page_snapshot : SyncMessage → Action (Unit {0})
  unfolding upsert_facts
  page_snapshot m = upsert_facts env source.id source.tenant_id (generation_of m) (facts_of m)

  -- `abort`
  unfoldable pub abort_snapshot : SyncMessage → Action (Unit {0})
  unfolding drop_generation
  abort_snapshot m = do
    modify (write_facts (drop_generation source.id (generation_of m)))
    modify (set_state source.id (open_snapshot none))

  -- `complete`
  unfoldable pub complete_snapshot : Manifest → SyncMessage → Action (Unit {0})
  unfolding drop_generation promote_generation publish
  complete_snapshot manifest m = do
    fail_if (not (is_complete m.coverage))
        (ingest_error 409 "partial snapshot cannot replace live facts")
    modify (write_facts (drop_generation source.id "live"))
    modify (write_facts (promote_generation source.id (generation_of m)))
    modify (set_state source.id close_snapshot)
    modify (publish manifest)

  -- `delta`
  unfoldable pub apply_delta : Manifest → ConnectorState → SyncMessage → Action (Unit {0})
  unfolding bury upsert_facts publish
  apply_delta manifest state m = do
    fail_if (truthy_text state.snapshot_id)
        (ingest_error 409 "delta cannot interleave with snapshot")
    modify (write_facts (bury source.id m.tombstones))
    upsert_facts env source.id source.tenant_id "live" (facts_of m)
    modify (publish manifest)

  -- The operations on an active snapshot ask for its identifier first.
  unfoldable pub perform : Manifest → ConnectorState → SyncMessage → Operation → Action (Unit {0})
  unfolding begin_snapshot page_snapshot abort_snapshot complete_snapshot apply_delta
  perform manifest state m begin = begin_snapshot state m
  perform manifest state m page = do
    fail_if (not (opt_eq state.snapshot_id m.snapshot_id)) (ingest_error 409 "snapshot mismatch")
    page_snapshot m
  perform manifest state m complete = do
    fail_if (not (opt_eq state.snapshot_id m.snapshot_id)) (ingest_error 409 "snapshot mismatch")
    complete_snapshot manifest m
  perform manifest state m abort = do
    fail_if (not (opt_eq state.snapshot_id m.snapshot_id)) (ingest_error 409 "snapshot mismatch")
    abort_snapshot m
  perform manifest state m delta = apply_delta manifest state m

  abbrev pub sync_fields : SyncMessage → Coverage → String → AuditFields
  sync_fields m coverage hashed = record blank_fields {
    correlation_id = env.correlation_id;
    subject = concat "collector:" source.id;
    event = "connector_sync";
    action = some (operation_text m.operation);
    target = some source.id;
    result = "accepted";
    tenant_id = some source.tenant_id;
    context_summary = obj (
        dict (
          ("source_id", str source.id)
          ∷ ("sequence", num (pos m.sequence))
          ∷ ("operation", str (operation_text m.operation))
          ∷ ("coverage", str (coverage_text coverage))
          ∷ ("payload_digest", str hashed)
          ∷ []));
  }

  abbrev pub result_of : SyncMessage → Coverage → SyncResult
  result_of m coverage = record {
    source_id = source.id;
    sequence = m.sequence;
    operation = m.operation;
    coverage = coverage;
  }

  -- The audit record and the receipt of a message.
  unfoldable pub acknowledge : SyncMessage → String → Coverage → Db → Db
  acknowledge m hashed coverage db = record db {
    audit = append env.digest db.audit env.stamp (sync_fields m coverage hashed);
    connector_receipts =
        db.connector_receipts
        ++ record {
          source_id = source.id;
          sequence = m.sequence;
          digest = hashed;
          result = result_of m coverage;
        }
          ∷ [];
  }

  abbrev pub digest_of : SyncMessage → String
  digest_of m = env.digest (env.dump m)

  -- The acknowledgement, with the coverage that the row has come to.
  unfoldable pub finish_message : SyncMessage → Option ConnectorState → Action Answer
  unfolding acknowledge
  finish_message m found = do
    row ← or_raise found type_error
    modify (acknowledge m (digest_of m) row.coverage)
    pure (record { result = result_of m row.coverage; replayed = false })

  -- From the validation of the facts on.
  unfoldable pub apply_operation : ConnectorState → SyncMessage → Action Answer
  unfolding perform finish_message validate_facts
  apply_operation state m = do
    validate_facts env source state.manifest 0 (facts_of m)
    fail_if (opt_eq m.snapshot_id (some "live")) (ingest_error 422 "reserved snapshot identifier")
    perform state.manifest state m m.operation
    row ← gets (get_state env source.id)
    finish_message m row

  -- From the number on: the message is the next one of its source.
  unfoldable pub process : ConnectorState → SyncMessage → Action Answer
  unfolding apply_operation
  process state m = do
    swapped ← gets (λ db. swap_sequence source.id state.sequence m.sequence db.connector_states)
    modify (λ db. record db { connector_states = swapped.1 })
    fail_if (not (eqb swapped.0 1))
        (ingest_error 409 "concurrent sync; retry from acknowledged sequence")
    fail_if (is_delta m.operation && not (any is_changes state.manifest.capabilities))
        (ingest_error 403 "changes capability unavailable")
    fail_if (not (is_delta m.operation) && not (any is_snapshot state.manifest.capabilities))
        (ingest_error 403 "snapshot capability unavailable")
    apply_operation state m

  -- A message whose number has a receipt, or that comes in its turn.
  unfoldable pub replay_or_process : Option ConnectorReceipt → SyncMessage → Action Answer
  unfolding process
  replay_or_process (some r) m = do
    fail_if (not (r.digest == digest_of m))
        (ingest_error 409 "sequence reused with different payload")
    pure (record { result = r.result; replayed = true })
  replay_or_process none m = do
    found ← gets (get_state env source.id)
    state ← or_raise found (ingest_error 409 "connector manifest not registered")
    fail_if (not (eqb m.sequence (state.sequence + 1)))
        (ingest_error 409 "sequence gap or stale event")
    process state m

  abbrev pub max_size : ℕ
  max_size = 2 * 1024 * 1024

  -- `apply_message`
  unfoldable pub apply_message : SyncMessage → Action Answer
  unfolding replay_or_process
  apply_message m = do
    fail_if (not source.enabled) (ingest_error 403 "source disabled")
    fail_if (ltb max_size (env.size (env.dump m))) (ingest_error 413 "sync message exceeds 2 MiB")
    receipt ← gets (get_receipt m.sequence)
    replay_or_process receipt m

-- `sync_connector`: the body is a `SyncMessage`, so its shape has been checked.
unfoldable pub sync_connector : Env → String → String → SyncMessage → Action Answer
unfolding apply_message authenticate_collector shape
sync_connector env source_id bearer m = transaction do
  lift (shape m)
  source ← authenticate_collector env.sha256 source_id bearer
  apply_message env source m
