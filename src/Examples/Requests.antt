-- ===== src/Examples/Requests.antt =====
-- A request that passes the gateway: ada views a host under a policy of one rule.
use mathlib.Core.Path.{◌≡◌, refl}
use enterprise_data_access_a.Base.{false, true, none, some, [], ◌∷◌, ok}
use enterprise_data_access_a.Base.Fnmatch.{fnmatch}
use enterprise_data_access_a.Base.Json.{
  py_eq, Fields, end, obj, arr, of_list, dict, str, bool, null,
}
use enterprise_data_access_a.Models.{
  AuditFields, Db, empty_db, AccessNode, AccessEdge, PolicyRecord, active,
}
use enterprise_data_access_a.Config.{default_settings, demo_enabled}
use enterprise_data_access_a.Identity.{SessionInfo, map_principal, lookup_key}
use enterprise_data_access_a.Actions.{view_asset, get_action, check_compatibility, validate_inputs}
use enterprise_data_access_a.Graph.{
  resolve_path, resolve_between, search, visible, path_of, permits, get_node, usable, out_edges,
  fresh, unsupported_source, is_unsupported, conferred, actions_of, sorted_set, extensions,
  is_traversable, insert_sorted, texts, source_of,
}
use enterprise_data_access_a.Policy.{
  conditions_hold, condition_holds, iterate, risk_above, rule_matches, Decision, allowed,
  evaluate_document, condition,
}
use enterprise_data_access_a.Policy.Lifecycle.{evaluate, active_policy}
use enterprise_data_access_a.Gateway.{
  policy_audit, policy_input, view_at, check_request, proven, Env, Call, Authority, goes_on,
}
use enterprise_data_access_a.Gateway.Flow.{authorize}
use enterprise_data_access_a.Approvals.{approval_valid}
use enterprise_data_access_a.Policy.Document.{default_policy, max_ttl, obligation}
use enterprise_data_access_a.Gateway.Refused.{HasEnded, authorize-HasEnded}

abbrev pub session : SessionInfo
session = record {
  session_id = "s1";
  subject = "ada";
  mfa = bool true;
  risk_score = null;
  tags = obj end;
  expires_at = null;
  issuer = "dev";
  tenant = some "local";
  external_id = some "dev:ada";
  groups = [];
}

abbrev pub env : Env
env = record {
  settings = default_settings;
  verify = λ token. ok session;
  digest = λ v. "h";
  digest32 = λ v. "h";
  parse = λ model fs. some fs;
  schema = λ model. null;
  handler_path = λ handler. "h";
  correlation_id = "c1";
  policy_id = "p2";
  approval_id = "a1";
  now = λ i. 5;
  stamp = record { id = "1"; ts = 5 };
}

abbrev pub call : Call
call = record {
  bearer_token = "t";
  action_name = "view_asset";
  resource = "web-1";
  inputs = end;
  justification = end;
  approval_id = none;
  idempotency_key = none;
}

abbrev pub ada : AccessNode
ada = record {
  id = "u";
  kind = "user";
  name = "ada";
  attrs = end;
  tenant_id = some "local";
  external_id = some "dev:ada";
  source_id = none;
  observed_at = none;
}

abbrev web : AccessNode
web = record {
  id = "w";
  kind = "asset";
  name = "web-1";
  attrs = end;
  tenant_id = some "local";
  external_id = none;
  source_id = none;
  observed_at = none;
}

abbrev pub allows : AccessEdge
allows = record {
  id = "e";
  src_id = "u";
  relation = "role_allows";
  dst_id = "w";
  attrs = dict (("actions", arr (of_list (str "*" ∷ []))) ∷ []);
  tenant_id = none;
  source_id = none;
  observed_at = none;
}

abbrev document : Fields
document = dict (
    ("version", str "v1")
    ∷ (
      "rules",
      arr (
          of_list (
            obj (
              dict (
                ("id", str "r")
                ∷ ("effect", str "allow")
                ∷ ("description", str "d")
                ∷ ("when", obj (dict (("access_path_exists", bool true) ∷ [])))
                ∷ []))
            ∷ [])),
    )
    ∷ [])

abbrev policy : PolicyRecord
policy = record {
  id = "p1";
  version = "v1";
  document = document;
  status = active;
  checksum = "h";
  created_by = "ada";
  created_at = 1;
  activated_at = some 1;
}

abbrev pub db : Db
db = record empty_db { nodes = ada ∷ web ∷ []; edges = allows ∷ []; policies = policy ∷ [] }

abbrev pub decision : Decision
decision = record {
  decision = allowed;
  policy_version = "v1";
  matched_rules = obj (dict (("id", str "r") ∷ ("effect", str "allow") ∷ [])) ∷ [];
  obligations = [];
  reason = str "d";
  input_hash = "h";
}

-- The columns of the audit record.
abbrev pub columns_of : Db → Decision → AuditFields
columns_of d says =
    let path = some (path_of d (view_at env call 1 (some "local")) (allows ∷ [])) in
    policy_audit env call ada session path
      (policy_input env call d ada session view_asset path false) says none

abbrev pub authority : Authority
authority = record {
  session = session;
  principal = ada;
  action = view_asset;
  validated_inputs = end;
  decision = decision;
  approval = none;
  operation = none;
  columns = columns_of db decision;
}

pub passes : authorize env call db ≡ (goes_on authority, db)
unfolding authorize map_principal check_request get_action check_compatibility validate_inputs
    active_policy evaluate evaluate_document conditions_hold condition_holds condition py_eq proven
    resolve_path get_node fresh demo_enabled fnmatch actions_of conferred extensions insert_sorted
    is_traversable is_unsupported out_edges path_of permits resolve_between search sorted_set
    source_of texts unsupported_source usable visible lookup_key iterate risk_above rule_matches
    approval_valid
passes = refl

-- The same under the default policy.
abbrev default_row : PolicyRecord
default_row = record policy { document = default_policy }

abbrev default_db : Db
default_db = record db { policies = default_row ∷ [] }

abbrev default_decision : Decision
default_decision = record decision {
  matched_rules = obj (dict (("id", str "allow-read-only") ∷ ("effect", str "allow") ∷ [])) ∷ [];
  obligations = max_ttl 900 ∷ obligation "read_only" ∷ [];
  reason = str "Read-only actions over a proven path are allowed, short TTL.";
}

abbrev default_authority : Authority
default_authority = record authority {
  decision = default_decision;
  columns = columns_of default_db default_decision;
}

-- A request for an action that is refused.
abbrev stopped_call : Call
stopped_call = record call { action_name = "stop_instance" }

authorize-HasEnded_example : HasEnded default_db (authorize env stopped_call default_db)
authorize-HasEnded_example = authorize-HasEnded env stopped_call default_db
