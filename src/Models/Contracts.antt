-- ===== src/Models/Contracts.antt =====
-- The envelopes that connectors send (beta/src/eda/connectors/contracts.py) and the rows that keep
-- them (beta/src/eda/models.py). A JSON column holds the record whose dump the code stores, since
-- `model_validate` of a dump is the record again. The column `kind` of a fact is the constructor of
-- its payload; row identifiers that nothing reads are left out.
use enterprise_data_access_a.Base.{ℕ, String, Option, List}
use enterprise_data_access_a.Base.Json.{Fields, Value}

pub record Reference : Type 0 where
  pub source_id : String
  pub native_id : String
  pub kind : String

pub record ObjectRecord : Type 0 where
  pub ref : Reference
  pub display_name : String
  pub observed_at : ℕ
  pub attributes : Fields

pub record RelationshipRecord : Type 0 where
  pub subject : Reference
  pub relation : String
  pub target : Reference
  pub observed_at : ℕ
  pub attributes : Fields

-- A record of either kind.
pub data Payload : Type 0 where
  object : ObjectRecord → Payload
  relationship : RelationshipRecord → Payload

pub data Capability : Type 0 where
  snapshot changes context permissions : Capability

pub data Semantics : Type 0 where
  inventory_only platform_relations : Semantics

-- A manifest; `foreign_references` lists the relations that each foreign source allows.
pub record Manifest : Type 0 where
  pub connector_type : String
  pub object_kinds : List String
  pub relations : List String
  pub capabilities : List Capability
  pub foreign_references : List (String × List String)
  pub permission_semantics : Semantics
  pub limitations : List String

pub data Operation : Type 0 where
  begin page complete abort delta : Operation

pub data Coverage : Type 0 where
  complete_coverage partial_coverage : Coverage

pub record SyncMessage : Type 0 where
  pub sequence : ℕ
  pub operation : Operation
  pub snapshot_id : Option String
  pub objects : List ObjectRecord
  pub relationships : List RelationshipRecord
  pub tombstones : List String
  pub coverage : Coverage

-- What `apply_message` returns and a receipt keeps.
pub record SyncResult : Type 0 where
  pub source_id : String
  pub sequence : ℕ
  pub operation : Operation
  pub coverage : Coverage

pub record ConnectorState : Type 0 where
  pub source_id : String
  pub manifest : Manifest
  pub sequence : ℕ
  pub snapshot_id : Option String
  pub coverage : Coverage

pub record ConnectorFact : Type 0 where
  pub source_id : String
  pub fact_key : String
  pub generation : String
  pub payload : Payload

pub record ConnectorReceipt : Type 0 where
  pub source_id : String
  pub sequence : ℕ
  pub digest : String
  pub result : SyncResult

-- The receipt of a batch under an idempotency key (beta/src/eda/ingestion.py).
pub record IngestReceipt : Type 0 where
  pub source_id : String
  pub idempotency_key : String
  pub summary : Value
