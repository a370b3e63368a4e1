-- ===== src/Ingestion/Endpoint.antt =====
-- `ingest` of beta/src/eda/ingestion.py with its receipts, and its route in beta/src/eda/api.py,
-- which commits a batch or rolls it back.
use Prim.Native.String.{◌++◌ as concat}
use enterprise_data_access_a.Base.{
  ℕ, String, Bool, true, false, not, ◌&&◌, ◌||◌, Option, none, some, List, [], ◌∷◌, ◌++◌, ◌==◌,
  find, if◌then◌else◌, is_some, is_empty, length, ltb, update_first, nonempty, ingest_error,
}
use enterprise_data_access_a.Base.Int.{pos}
use enterprise_data_access_a.Base.Json.{Value, num, str, obj, dict}
use enterprise_data_access_a.Models.{
  Db, RelationshipSource, IngestReceipt, AuditFields, ConnectorState,
}
use enterprise_data_access_a.Effects.{Action, pure, gets, modify, fail_if, ◌>>=◌, ◌>>◌, transaction}
use enterprise_data_access_a.Audit.{append}
use enterprise_data_access_a.Policy.Lifecycle.{blank_fields}
use enterprise_data_access_a.Ingestion.{
  Env, Relationship, Observation, Tally, validate_batch, detail, apply_batch,
  authenticate_collector,
}

abbrev pub start : Tally
start = record { cache = []; nodes_created = 0; edges_created = 0; edges_updated = 0 }

pub summary_of : RelationshipSource → List Relationship → ℕ → Tally → Value
summary_of source rels at t = obj (
    dict (
      ("source_id", str source.id)
      ∷ ("tenant_id", str source.tenant_id)
      ∷ ("relationships", num (pos (length rels)))
      ∷ ("nodes_created", num (pos t.nodes_created))
      ∷ ("edges_created", num (pos t.edges_created))
      ∷ ("edges_updated", num (pos t.edges_updated))
      ∷ ("observed_at", num (pos at))
      ∷ []))

-- `observed_at or datetime.now(timezone.utc)`
abbrev pub observed : Env → Option Observation → Observation
observed env none = record { aware = true; instant = env.now 0 }
observed env (some o) = o

abbrev pub sync_source : String → ℕ → Db → Db
sync_source id at db = record db {
  sources = update_first (λ s. s.id == id) (λ s. record s { last_sync_at = some at }) db.sources;
}

module _ (env : Env) where
  abbrev pub ingest_fields : RelationshipSource → Value → AuditFields
  ingest_fields source summary = record blank_fields {
    correlation_id = env.correlation_id;
    subject = concat "collector:" source.id;
    event = "relationship_ingest";
    action = some "ingest:relationships";
    target = some source.id;
    result = "accepted";
    context_summary = summary;
    tenant_id = some source.tenant_id;
  }

  -- What `ingest` does once the batch has passed.
  unfoldable pub accept : RelationshipSource → List Relationship → ℕ → Action Value
  unfolding apply_batch summary_of
  accept source rels at = do
    t ← apply_batch env source at rels start
    modify (sync_source source.id at)
    let summary = summary_of source rels at t
    modify (λ db. record db {
      audit = append env.digest db.audit env.stamp (ingest_fields source summary);
    })
    pure summary

  abbrev pub connector_of : RelationshipSource → Db → Option ConnectorState
  connector_of source db = find (λ s. s.source_id == source.id) db.connector_states

  abbrev pub is_untimely : Observation → Bool
  is_untimely o = not o.aware || ltb (env.now 1) o.instant

  -- `ingest`, with the configured limit on the batch
  unfoldable pub ingest : RelationshipSource → List Relationship → Option Observation → Action Value
  unfolding accept
  ingest source rels observed_at = do
    state ← gets (connector_of source)
    fail_if (is_some state) (ingest_error 409 "versioned connector must use sync endpoint")
    let errors = validate_batch source rels env.max_batch
    fail_if (not (is_empty errors)) (ingest_error 422 (detail errors))
    let o = observed env observed_at
    fail_if (is_untimely o)
        (ingest_error 422 "observation time must be timezone-aware and not in the future")
    accept source rels o.instant

  abbrev pub find_receipt : String → String → Db → Option IngestReceipt
  find_receipt source_id key db =
      find (λ r. r.source_id == source_id && r.idempotency_key == key) db.ingest_receipts

  abbrev pub store_receipt : String → String → Value → Db → Db
  store_receipt source_id key summary db = record db {
    ingest_receipts =
        db.ingest_receipts
        ++ record { source_id = source_id; idempotency_key = key; summary = summary } ∷ [];
  }

  -- The answer of the route: a summary, and whether it is the replay of an earlier one.
  pub record Reply : Type 0 where
    pub summary : Value
    pub idempotent_replay : Bool

  abbrev pub receipt_for : String → String → Db → Option IngestReceipt
  receipt_for source_id key db = if nonempty key then find_receipt source_id key db else none

  abbrev pub keep_receipt : String → String → Value → Db → Db
  keep_receipt source_id key summary db =
      if nonempty key then store_receipt source_id key summary db else db

  unfoldable pub ingest_or_replay :
      RelationshipSource
      → String
      → String
      → List Relationship
      → Option Observation
      → Option IngestReceipt
      → Action Reply
  unfolding ingest
  ingest_or_replay source source_id key rels observed_at (some r) =
      pure (record { summary = r.summary; idempotent_replay = true })
  ingest_or_replay source source_id key rels observed_at none = do
    summary ← ingest source rels observed_at
    modify (keep_receipt source_id key summary)
    pure (record { summary = summary; idempotent_replay = false })

  -- `ingest_relationships`; a header that is not sent is the empty key
  unfoldable pub ingest_relationships :
      String → String → String → List Relationship → Option Observation → Action Reply
  unfolding ingest_or_replay authenticate_collector
  ingest_relationships source_id bearer key rels observed_at = transaction do
    source ← authenticate_collector env.sha256 source_id bearer
    receipt ← gets (receipt_for source_id key)
    ingest_or_replay source source_id key rels observed_at receipt
