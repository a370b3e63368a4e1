-- ===== src/Gateway.antt =====
-- `handle_request` of beta/src/eda/gateway.py: what it reads, builds and answers up to the durable
-- intent. Gateway/Flow composes these steps, Gateway/Handle those behind them. What the code reads
-- of its surroundings stands in `Env`: the identity provider, the libraries, the clock by the number
-- of the reading, and new identifiers.
pub mod Flow
pub mod Intent
pub mod Authorized
pub mod Default
pub mod Refused
pub mod Finish
pub mod Handle
pub mod Ran
pub mod Fresh
pub mod Handled
pub mod Closed
use Prim.Native.String.{◌++◌ as concat}
use enterprise_data_access_a.Base.{
  ℕ, suc, String, Bool, true, false, not, ◌&&◌, Option, none, some, List, [], ◌∷◌, ◌++◌, map, ◌==◌,
  if◌then◌else◌, find, eqb, is_some, is_none, all, nonempty, Result, ok, err, Exception, ◌>>=◌,
  ◌>>◌, policy_error, grant_error, action_error, invalid_session, ingest_error, value_error,
  permission_error, key_error, type_error, index_error,
}
use enterprise_data_access_a.Base.Int.{ℤ, pos}
use enterprise_data_access_a.Base.Json.{
  Value, null, bool, num, str, arr, obj, Fields, end, field, dict, of_list, truthy, lookup,
}
use enterprise_data_access_a.Models.{
  Db, AccessNode, ObjectNode, Approval, Execution, authorized, AuditFields,
}
use enterprise_data_access_a.Config.{Settings, demo_enabled}
use enterprise_data_access_a.Audit.{Stamp, append, opt_str}
use enterprise_data_access_a.Graph.{View, AccessPath, resolve_path}
use enterprise_data_access_a.Identity.{SessionInfo, map_principal}
use enterprise_data_access_a.Actions.{
  ActionDef, InputModel, Handler, Risk, low, medium, high, get_action, check_compatibility,
  validate_inputs,
}
use enterprise_data_access_a.Approvals.{
  Request, get_approval, new_approval, approval_valid, consume, as_json, status_text,
}
use enterprise_data_access_a.Execution.{Response, operation_id, replay}
use enterprise_data_access_a.Policy.{
  PolicyInput, Decision, Outcome, input_json, allowed, denied, approval_required,
}
use enterprise_data_access_a.Policy.Lifecycle.{blank_fields, active_policy, evaluate}

pub record Env : Type 0 where
  pub settings : Settings
  pub verify : String → Result SessionInfo
  pub digest : Value → String
  pub digest32 : Value → String
  pub parse : InputModel → Fields → Option Fields
  pub schema : InputModel → Value
  pub handler_path : Handler → String
  pub correlation_id : String
  pub policy_id : String
  pub approval_id : String
  pub now : ℕ → ℕ
  pub stamp : Stamp

-- The arguments of `handle_request`.
pub record Call : Type 0 where
  pub bearer_token : String
  pub action_name : String
  pub resource : String
  pub inputs : Fields
  pub justification : Fields
  pub approval_id : Option String
  pub idempotency_key : Option String

-- What is behind the authorization, for the steps that follow.
pub record Authority : Type 0 where
  pub session : SessionInfo
  pub principal : AccessNode
  pub action : ActionDef
  pub validated_inputs : Fields
  pub decision : Decision
  pub approval : Option Approval
  pub operation : Option Execution
  pub columns : AuditFields

-- How this part ends: with an answer, with an exception that nothing here catches, or authorized.
pub data Ending : Type 0 where
  answered : Response → Ending
  raised : Exception → Ending
  goes_on : Authority → Ending

-- `str(exc)`, its literal part
pub message : Exception → String
message (policy_error s) = s
message (grant_error s) = s
message (action_error s) = s
message (invalid_session s) = s
message (ingest_error n s) = s
message (value_error s) = s
message (permission_error s) = s
message (key_error s) = s
message type_error = ""
message index_error = ""

abbrev risk_text : Risk → String
risk_text low = "low"
risk_text medium = "medium"
risk_text high = "high"

abbrev pub opt_or : Option String → String → String
opt_or none d = d
opt_or (some s) d = if nonempty s then s else d

-- A session's risk: a number or unknown.
abbrev risk_of : Value → Option ℤ
risk_of (num n) = some n
risk_of _ = none

abbrev strings : List String → Value
strings ss = arr (of_list (map str ss))

abbrev path_json : Option AccessPath → Value
path_json none = null
path_json (some p) = as_json p

abbrev approval_json : Option Approval → Value
approval_json none = null
approval_json (some a) = obj (
    dict (
      ("approval_id", str a.id)
      ∷ ("status", str (status_text a.status))
      ∷ ("approver", opt_str a.approver)
      ∷ ("approver_path", a.approver_path)
      ∷ []))

abbrev pub decision_json : Decision → Value
decision_json d = obj (
    dict (
      (
        "decision",
        str (elim d.decision [
          | allowed ↦ "allowed"
          | denied ↦ "denied"
          | approval_required ↦ "approval_required"
        ]),
      )
      ∷ ("policy_version", str d.policy_version)
      ∷ ("matched_rules", arr (of_list d.matched_rules))
      ∷ ("obligations", arr (of_list d.obligations))
      ∷ ("reason", d.reason)
      ∷ ("input_hash", str d.input_hash)
      ∷ []))

abbrev pub reason_text : Value → Option String
reason_text (str s) = some s
reason_text _ = none

module _ (env : Env) (call : Call) where
  abbrev pub view_at : ℕ → Option String → View
  view_at i tenant = record {
    demo_enabled = demo_enabled env.settings;
    max_age = env.settings.source_max_age_seconds;
    now = env.now i;
    tenant = tenant;
  }

  -- `finish` before there is an operation: the audit record and the answer, without its stages.
  pub finish : String → Option String → AuditFields → Db → Ending × Db
  finish result error columns db = (
    answered (record {
      correlation_id = env.correlation_id;
      outcome = result;
      error = error;
      stages = [];
    }),
    record db {
      audit =
          append env.digest db.audit env.stamp (record columns {
            correlation_id = env.correlation_id;
            result = result;
            error = error;
          });
    },
  )

  -- `base_audit`
  abbrev pub base_audit : String → SessionInfo → AuditFields
  base_audit subject session = record blank_fields {
    subject = subject;
    session_id = session.session_id;
    event = "request";
    action = some call.action_name;
    target = some call.resource;
    tenant_id = session.tenant;
  }

  abbrev pub unknown_audit : AuditFields
  unknown_audit = record blank_fields {
    subject = "unknown";
    event = "request";
    action = some call.action_name;
    target = some call.resource;
  }

  abbrev pub target_of : Db → Option ObjectNode
  target_of db = find (λ o. o.name == call.resource) db.objects

  abbrev pub kind_of : Option ObjectNode → Option String
  kind_of none = none
  kind_of (some o) = some o.kind

  abbrev attrs_of : Option ObjectNode → Fields
  attrs_of none = end
  attrs_of (some o) = o.attrs

  -- `{"name": resource, **attrs}`
  abbrev with_name : Fields → Fields
  with_name attrs = elim (lookup "name" attrs) [
    | none ↦ field "name" (str call.resource) attrs
    | some _ ↦ attrs
  ]

  -- Step 2: the action and its inputs.
  unfoldable pub check_request : Db → Result (ActionDef × Fields)
  check_request db = do
    action ← get_action call.action_name
    check_compatibility action (kind_of (target_of db))
    validated ← validate_inputs env.parse action call.inputs
    ok (action, validated)

  -- Step 3: the path, where every additional authority has one too.
  unfoldable pub proven : Db → AccessNode → SessionInfo → ActionDef → Option AccessPath
  proven db principal session action =
      if all
        (λ a. is_some (resolve_path db (view_at 2 session.tenant) principal.name a call.resource))
        action.additional_cloud_actions
      then resolve_path db (view_at 1 session.tenant) principal.name action.cloud_action
          call.resource
      else none

  -- What an approval and an operation are bound to.
  pub request_hash : AccessNode → SessionInfo → ActionDef → Fields → String → String
  request_hash principal session action validated version = env.digest (
      obj (
        dict (
          ("subject", str principal.name)
          ∷ ("tenant", opt_str session.tenant)
          ∷ ("action", str action.name)
          ∷ ("handler", str (env.handler_path action.handler))
          ∷ ("cloud_action", str action.cloud_action)
          ∷ ("read_only", bool action.read_only)
          ∷ ("risk", str (risk_text action.risk))
          ∷ ("outputs", strings action.allowed_outputs)
          ∷ ("additional_actions", strings action.additional_cloud_actions)
          ∷ ("schema", env.schema action.input_model)
          ∷ ("timeout", num (pos action.timeout_seconds))
          ∷ ("resource", str call.resource)
          ∷ ("inputs", obj validated)
          ∷ ("justification", obj call.justification)
          ∷ ("policy_version", str version)
          ∷ [])))

  abbrev pub request_of : AccessNode → SessionInfo → String → Request
  request_of principal session hash = record {
    subject = principal.name;
    tenant = session.tenant;
    action = call.action_name;
    resource = call.resource;
    request_hash = hash;
    justification = call.justification;
  }

  abbrev pub lookup_approval : Db → Option Approval
  lookup_approval db = elim call.approval_id [
    | none ↦ none
    | some id ↦ if nonempty id then get_approval id db.approvals else none
  ]

  -- Step 5: the policy's input.
  pub policy_input :
      Db → AccessNode → SessionInfo → ActionDef → Option AccessPath → Bool → PolicyInput
  policy_input db principal session action path valid = record {
    subject = principal.name;
    mfa = truthy session.mfa;
    risk_score = risk_of session.risk_score;
    action_name = action.name;
    cloud_action = action.cloud_action;
    read_only = action.read_only;
    risk = risk_text action.risk;
    resource = with_name (attrs_of (target_of db));
    access_path_exists = is_some path;
    justification = call.justification;
    approval_present = valid;
  }

  abbrev pub policy_audit :
      AccessNode
      → SessionInfo
      → Option AccessPath
      → PolicyInput
      → Decision
      → Option Approval
      → AuditFields
  policy_audit principal session path inp decision approval =
      record (base_audit principal.name session) {
        access_path = path_json path;
        policy_input = input_json inp;
        policy_decision = decision_json decision;
        policy_version = some decision.policy_version;
        approval = approval_json approval;
      }

  abbrev pub operation_key : AccessNode → SessionInfo → String
  operation_key principal session =
      operation_id env.digest32 session.tenant principal.name
        (opt_or call.idempotency_key env.correlation_id)
