-- ===== src/Execution.antt =====
-- beta/src/eda/execution.py: durable operations. The database row of an operation is written before
-- its effects; what a crash leaves authorized or running is marked, never repeated. `digest32` is
-- the first half of SHA-256 over the canonical JSON text.
pub mod Recovery
use enterprise_data_access_a.Base.{
  ℕ, suc, ◌+◌, String, Bool, true, false, ◌&&◌, Option, none, some, List, [], ◌∷◌, ◌++◌,
  if◌then◌else◌, ltb, find, ◌==◌,
}
use enterprise_data_access_a.Base.Json.{Value, str, bool, arr, obj, of_list, dict}
use enterprise_data_access_a.Models.{
  Db, Execution, ExecutionState, authorized, running, succeeded, outcome_unknown, AuditFields,
  AuditRecord,
}
use enterprise_data_access_a.Audit.{Stamp, append, opt_str}
use enterprise_data_access_a.Policy.Lifecycle.{blank_fields}

-- `operation_id`
abbrev pub operation_id : (Value → String) → Option String → String → String → String
operation_id digest32 tenant subject key =
    digest32 (arr (of_list (opt_str tenant ∷ str subject ∷ str key ∷ [])))

abbrev pub state_text : ExecutionState → String
state_text authorized = "authorized"
state_text running = "running"
state_text succeeded = "succeeded"
state_text outcome_unknown = "outcome_unknown"

abbrev replayed_outcome : ExecutionState → String
replayed_outcome succeeded = "allowed"
replayed_outcome s = state_text s

-- What `handle_request` answers: the trace, of whose stages only a replay lists its own.
pub record Response : Type 0 where
  pub correlation_id : String
  pub outcome : String
  pub error : Option String
  pub stages : List (String × Value)

-- `replay`
abbrev pub replay : Execution → Response
replay x = record {
  correlation_id = x.correlation_id;
  outcome = replayed_outcome x.state;
  error = none;
  stages =
      (
        "execution",
        obj (
            dict (
              ("id", str x.id)
              ∷ ("state", str (state_text x.state))
              ∷ ("replayed", bool true)
              ∷ [])),
      )
      ∷ [];
}

abbrev pub is_unfinished : ExecutionState → Bool
is_unfinished authorized = true
is_unfinished running = true
is_unfinished _ = false

-- The rows that `mark_interrupted` selects.
abbrev pub is_interrupted : ℕ → Execution → Bool
is_interrupted before x = is_unfinished x.state && ltb x.updated_at before

abbrev pub recovery_fields : Execution → AuditFields
recovery_fields x = record blank_fields {
  correlation_id = x.correlation_id;
  subject = "recovery";
  event = "execution_recovery";
  action = some "mark_interrupted";
  target = some x.id;
  result = "outcome_unknown";
  tenant_id = x.tenant_id;
}

abbrev pub mark : ℕ → Execution → Execution
mark now x = record x { state = outcome_unknown; updated_at = now }

-- The rows, the log and the number of marked rows.
pub record Recovered : Type 0 where
  pub rows : List Execution
  pub log : List AuditRecord
  pub count : ℕ

-- The loop of `mark_interrupted`; its `i`-th round reads the clock `now i` and the stamp `stamps i`.
module _ (digest : Value → String) (before : ℕ) (now : ℕ → ℕ) (stamps : ℕ → Stamp) where
  pub mark_rows : ℕ → List Execution → List AuditRecord → Recovered
  mark_rows i [] log = record { rows = []; log = log; count = 0 }
  mark_rows i (x ∷ xs) log =
      let marked = mark_rows (suc i) xs (append digest log (stamps i) (recovery_fields x)) in
      let kept = mark_rows i xs log in
      if is_interrupted before x
      then record {
        rows = mark (now i) x ∷ marked.rows;
        log = marked.log;
        count = suc marked.count;
      }
      else record { rows = x ∷ kept.rows; log = kept.log; count = kept.count }

  pub mark_interrupted : Db → ℕ × Db
  unfolding mark_rows
  mark_interrupted db =
      let done = mark_rows 0 db.executions db.audit in
      (done.count, record db { executions = done.rows; audit = done.log })
