-- ===== src/Models/Authority.antt =====
-- Policy documents, grants and approvals (beta/src/eda/models.py). A status column is an
-- enumeration of the values that the code writes.
use enterprise_data_access_a.Base.{ℕ, String, Bool, true, false, Option, List}
use enterprise_data_access_a.Base.Json.{Fields, Value}

pub data PolicyStatus : Type 0 where
  draft active retired : PolicyStatus

pub record PolicyRecord : Type 0 where
  pub id : String
  pub version : String
  pub document : Fields
  pub status : PolicyStatus
  pub checksum : String
  pub created_by : String
  pub created_at : ℕ
  pub activated_at : Option ℕ

-- `status == "active"`, `"draft"`, `"retired"`
abbrev pub is_active : PolicyRecord → Bool
is_active p = elim p.status [ active ↦ true | _ ↦ false ]

abbrev pub is_retired : PolicyRecord → Bool
is_retired p = elim p.status [ retired ↦ true | _ ↦ false ]

pub record Scope : Type 0 where
  pub actions : List String
  pub resources : List String
  pub read_only : Bool

pub record Grant : Type 0 where
  pub id : String
  pub subject : String
  pub scope : Scope
  pub session_tags : Fields
  pub broker_kind : String
  pub credential_ref : String
  pub issued_at : ℕ
  pub expires_at : ℕ
  pub revoked : Bool
  pub correlation_id : String
  pub tenant_id : Option String

pub data ApprovalStatus : Type 0 where
  pending approved rejected consumed : ApprovalStatus

pub record Approval : Type 0 where
  pub id : String
  pub subject : String
  pub action : String
  pub resource : String
  pub inputs_hash : String
  pub required_capability : String
  pub justification : Fields
  pub status : ApprovalStatus
  pub approver : Option String
  pub approver_path : Value
  pub decided_at : Option ℕ
  pub expires_at : ℕ
  pub consumed_at : Option ℕ
  pub created_at : ℕ
  pub correlation_id : String
  pub tenant_id : Option String

abbrev pub is_approved : ApprovalStatus → Bool
is_approved approved = true
is_approved _ = false

abbrev pub is_pending : ApprovalStatus → Bool
is_pending pending = true
is_pending _ = false
