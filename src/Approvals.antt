-- ===== src/Approvals.antt =====
-- The approvals of beta/src/eda/gateway.py: the request for one, the decision, and the write that
-- spends it. A decision is its own authorization: the approver needs an access path that confers
-- the capability of the approval.
pub mod Decided
pub mod Spent
use Prim.Native.String.{◌++◌ as concat}
use enterprise_data_access_a.Base.{
  ℕ, suc, ◌+◌, String, Bool, true, false, not, ◌&&◌, Option, none, some, List, [], ◌∷◌, ◌++◌, ◌==◌,
  if◌then◌else◌, find, ltb, leb, opt_eq, Result, ok, err, value_error, permission_error, is_none,
  is_some,
}
use enterprise_data_access_a.Base.Json.{Value, null, str, arr, obj, Fields, dict, of_list, py_eq}
use enterprise_data_access_a.Models.{
  Db, Approval, ApprovalStatus, pending, approved, rejected, consumed, is_pending, is_approved,
  AuditFields, AccessNode, seconds,
}
use enterprise_data_access_a.Audit.{Stamp, append, opt_str}
use enterprise_data_access_a.Effects.{Action, pure, gets, or_raise, modify, fail_if, ◌>>=◌, ◌>>◌}
use enterprise_data_access_a.Graph.{View, AccessPath, capability_path}
use enterprise_data_access_a.Policy.Lifecycle.{blank_fields}

-- The row of an identifier is written; the primary key names one row.
unfoldable pub update_approval : String → (Approval → Approval) → List Approval → List Approval
update_approval id f [] = []
update_approval id f (a ∷ as') =
    let rest = update_approval id f as' in if a.id == id then f a ∷ rest else a ∷ rest

-- `db.get(Approval, id)`
abbrev pub get_approval : String → List Approval → Option Approval
get_approval id as' = find (λ a. a.id == id) as'

abbrev pub status_text : ApprovalStatus → String
status_text pending = "pending"
status_text approved = "approved"
status_text rejected = "rejected"
status_text consumed = "consumed"

abbrev pub as_json : AccessPath → Value
as_json path = arr (of_list path.hops)

abbrev pub outcome : Bool → ApprovalStatus
outcome approve = if approve then approved else rejected

-- The four assignments to the row.
abbrev pub decided : Bool → AccessNode → AccessPath → ℕ → Approval → Approval
decided approve approver path now a = record a {
  status = outcome approve;
  approver = some approver.name;
  approver_path = as_json path;
  decided_at = some now;
}

pub decision_fields : Approval → AccessNode → AccessPath → Bool → AuditFields
decision_fields a approver path approve = record blank_fields {
  correlation_id = a.correlation_id;
  subject = approver.name;
  event = "approval_decision";
  action = some a.action;
  target = some a.resource;
  access_path = as_json path;
  approval = obj (
      dict (
        ("approval_id", str a.id)
        ∷ ("status", str (status_text (outcome approve)))
        ∷ ("approver", str approver.name)
        ∷ ("required_capability", str a.required_capability)
        ∷ []));
  result = status_text (outcome approve);
  tenant_id = a.tenant_id;
}

-- The approver's path for the approval's own capability, resource and tenant.
pub approver_path : View → Db → AccessNode → Approval → Option AccessPath
approver_path view db approver a =
    capability_path db (record view { tenant = a.tenant_id }) approver.name a.required_capability
      a.resource

-- The assignments and the audit record of a decision.
pub write_decision :
    (Value → String) → Approval → AccessNode → AccessPath → Bool → ℕ → Stamp → Db → Db
unfolding decision_fields
write_decision digest a approver path approve now stamp db = record db {
  approvals = update_approval a.id (decided approve approver path now) db.approvals;
  audit = append digest db.audit stamp (decision_fields a approver path approve);
}

-- `decide_approval`: `view.now` is the clock of the checks, `now` that of the decision.
pub decide_approval :
    (Value → String) → View → String → AccessNode → Bool → ℕ → Stamp → Action Approval
unfolding write_decision approver_path
decide_approval digest view id approver approve now stamp = do
  found ← gets (λ db. get_approval id db.approvals)
  a ← or_raise found (value_error "unknown approval")
  fail_if (not (is_pending a.status)) (value_error "approval already ")
  fail_if (approver.name == a.subject) (value_error "self-approval is not permitted")
  fail_if (ltb a.expires_at view.now) (value_error "approval request expired")
  proof ← gets (λ db. approver_path view db approver a)
  path ← or_raise proof (permission_error "approver holds no access path conferring ")
  modify (write_decision digest a approver path approve now stamp)
  pure (decided approve approver path now a)

-- What a request is bound to: `request_hash` and the columns that `handle_request` compares.
pub record Request : Type 0 where
  pub subject : String
  pub tenant : Option String
  pub action : String
  pub resource : String
  pub request_hash : String
  pub justification : Fields

-- The approval that `handle_request` adds where the policy asks for one.
unfoldable pub new_approval : Request → String → ℕ → ℕ → ℕ → String → Approval
new_approval r id created_at now ttl correlation_id = record {
  id = id;
  subject = r.subject;
  action = r.action;
  resource = r.resource;
  inputs_hash = r.request_hash;
  required_capability = concat "approval:" r.action;
  justification = r.justification;
  status = pending;
  approver = none;
  approver_path = null;
  decided_at = none;
  expires_at = now + seconds ttl;
  consumed_at = none;
  created_at = created_at;
  correlation_id = correlation_id;
  tenant_id = r.tenant;
}

-- The approver, where the decision has recorded one, still holds the capability.
pub approver_holds : View → Db → Option String → Approval → String → Option String → Bool
approver_holds view db none a resource tenant = false
approver_holds view db (some name) a resource tenant =
    is_some
      (capability_path db (record view { tenant = tenant }) name a.required_capability resource)

-- `approval_valid`
unfoldable pub approval_valid : View → Db → Request → Option Approval → Bool
unfolding approver_holds
approval_valid view db r none = false
approval_valid view db r (some a) =
    is_approved a.status
    && (a.subject == r.subject
        && (a.action == r.action
            && (a.resource == r.resource
                && (a.inputs_hash == r.request_hash
                    && (py_eq (obj a.justification) (obj r.justification)
                        && (approver_holds view db a.approver a r.resource r.tenant
                            && (opt_eq a.tenant_id r.tenant && leb view.now a.expires_at)))))))

-- `update(Approval).where(id == ..., status == "approved").values(status="consumed", ...)`: the row
-- count, and the rows.
unfoldable pub consume : String → ℕ → List Approval → ℕ × List Approval
consume id now [] = (0, [])
consume id now (a ∷ as') =
    let rest = consume id now as' in
    if a.id == id && is_approved a.status
    then (suc rest.0, record a { status = consumed; consumed_at = some now } ∷ rest.1)
    else (rest.0, a ∷ rest.1)
