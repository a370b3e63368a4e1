-- ===== src/Models/Graph.antt =====
-- The access graph's and the object graph's rows (beta/src/eda/models.py).
use enterprise_data_access_a.Base.{ℕ, String, Bool, Option}
use enterprise_data_access_a.Base.Json.{Fields}

pub record AccessNode : Type 0 where
  pub id : String
  pub kind : String
  pub name : String
  pub attrs : Fields
  pub tenant_id : Option String
  pub external_id : Option String
  pub source_id : Option String
  pub observed_at : Option ℕ

pub record AccessEdge : Type 0 where
  pub id : String
  pub src_id : String
  pub relation : String
  pub dst_id : String
  pub attrs : Fields
  pub tenant_id : Option String
  pub source_id : Option String
  pub observed_at : Option ℕ

pub record RelationshipSource : Type 0 where
  pub id : String
  pub tenant_id : String
  pub provider : String
  pub collector_identity : String
  pub allowed_namespace : String
  pub enabled : Bool
  pub last_sync_at : Option ℕ
  pub created_at : ℕ

pub record ObjectNode : Type 0 where
  pub id : String
  pub kind : String
  pub name : String
  pub attrs : Fields
  pub tenant_id : Option String

pub record ObjectEdge : Type 0 where
  pub id : String
  pub src_id : String
  pub relation : String
  pub dst_id : String
  pub attrs : Fields
