-- ===== src/Models/Evidence.antt =====
-- Audit records and executions (beta/src/eda/models.py). A JSON column that is NULL is `null`.
use enterprise_data_access_a.Base.{ℕ, String, Option}
use enterprise_data_access_a.Base.Json.{Value}

-- The columns of an audit record that its writer supplies.
pub record AuditFields : Type 0 where
  pub correlation_id : String
  pub tenant_id : Option String
  pub subject : String
  pub session_id : String
  pub event : String
  pub action : Option String
  pub target : Option String
  pub access_path : Value
  pub policy_input : Value
  pub policy_decision : Value
  pub policy_version : Option String
  pub approval : Value
  pub grant : Value
  pub api_calls : Value
  pub context_summary : Value
  pub result : String
  pub error : Option String

pub record AuditRecord : Type 0 where
  pub seq : ℕ
  pub id : String
  pub hash_version : ℕ
  pub ts : ℕ
  pub fields : AuditFields
  pub open fields use *
  pub prev_hash : String
  pub hash : String

pub data ExecutionState : Type 0 where
  authorized running succeeded outcome_unknown : ExecutionState

pub record Execution : Type 0 where
  pub id : String
  pub tenant_id : Option String
  pub subject : String
  pub request_hash : String
  pub policy_version : String
  pub correlation_id : String
  pub state : ExecutionState
  pub created_at : ℕ
  pub updated_at : ℕ
  pub result : Value
