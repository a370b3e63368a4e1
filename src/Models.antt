-- ===== src/Models.antt =====
-- The rows of the control plane's database (beta/src/eda/models.py) and the database as a record
-- of tables. A table is the list of its rows in the order of insertion; a query that returns one
-- row of several returns the first. An instant is a number of microseconds since the epoch, UTC.
mod Graph
mod Authority
mod Evidence
mod Contracts
pub use Graph.*
pub use Authority.*
pub use Evidence.*
pub use Contracts.*
use enterprise_data_access_a.Base.{ℕ, ◌*◌, String, List, []}

-- A span of seconds, in microseconds.
abbrev pub seconds : ℕ → ℕ
seconds n = n * 1000000

pub record Db : Type 0 where
  pub nodes : List AccessNode
  pub edges : List AccessEdge
  pub sources : List RelationshipSource
  pub objects : List ObjectNode
  pub object_edges : List ObjectEdge
  pub policies : List PolicyRecord
  pub grants : List Grant
  pub approvals : List Approval
  pub audit : List AuditRecord
  pub executions : List Execution
  pub ingest_receipts : List IngestReceipt
  pub connector_states : List ConnectorState
  pub connector_facts : List ConnectorFact
  pub connector_receipts : List ConnectorReceipt

abbrev pub empty_db : Db
empty_db = record {
  nodes = [];
  edges = [];
  sources = [];
  objects = [];
  object_edges = [];
  policies = [];
  grants = [];
  approvals = [];
  audit = [];
  executions = [];
  ingest_receipts = [];
  connector_states = [];
  connector_facts = [];
  connector_receipts = [];
}
