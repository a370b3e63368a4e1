-- ===== src/Examples/Handling.antt =====
-- Two requests from their token to their end: ada views a host, and fails to open a ticket.
use mathlib.Core.Path.{◌≡◌, refl}
use enterprise_data_access_a.Base.{action_error, false, none, some, [], ◌∷◌, ok}
use enterprise_data_access_a.Base.Int.{pos}
use enterprise_data_access_a.Base.Json.{Fields, end, dict, str, null, field, arr, of_list, py_eq}
use enterprise_data_access_a.Base.Fnmatch.{fnmatch}
use enterprise_data_access_a.Models.{Db, AuditFields, Grant, Execution}
use enterprise_data_access_a.Config.{demo_enabled}
use enterprise_data_access_a.Broker.{
  Provider, grant_of, issue_grant, apply_obligations, apply_obligation, first_occurrences, scope_of,
  validate_grant, fetch_credentials,
}
use enterprise_data_access_a.Objects.{unavailable}
use enterprise_data_access_a.Actions.{
  view_asset, open_ticket, run_handler, only_keys, check_compatibility, validate_inputs, get_action,
}
use enterprise_data_access_a.Actions.Execute.{
  Executed, executed, execute, prepare, validate_all, run_action, perform,
}
use enterprise_data_access_a.Gateway.{
  message, Call, Authority, goes_on, check_request, proven, policy_audit, policy_input, view_at,
}
use enterprise_data_access_a.Gateway.Flow.{authorize, operation_of}
use enterprise_data_access_a.Gateway.Finish.{
  Later, Trace, World, finish_with, close, update_operation, put_key,
}
use enterprise_data_access_a.Gateway.Handle.{
  order_of, handle_request, after_authorization, with_tags, with_grant, with_context,
  with_operation, with_fresh, with_policy, is_stale, has_lost, start_running, run, changed,
  conclude_execution,
}
use enterprise_data_access_a.Gateway.Closed.{IsClosed, handle_request-IsClosed}
use enterprise_data_access_a.Broker.Store.{put, remove, fetch, fetched, entry}
use enterprise_data_access_a.Objects.Traversal.{scoped_context, context_within, context_of}
use enterprise_data_access_a.Identity.{map_principal, lookup_key}
use enterprise_data_access_a.Policy.Lifecycle.{active_policy, evaluate}
use enterprise_data_access_a.Policy.{
  evaluate_document, conditions_hold, condition_holds, condition, iterate, risk_above, rule_matches,
}
use enterprise_data_access_a.Graph.{
  resolve_path, get_node, fresh, actions_of, conferred, extensions, insert_sorted, is_traversable,
  is_unsupported, out_edges, path_of, permits, resolve_between, search, sorted_set, source_of,
  texts, unsupported_source, usable, visible,
}
use enterprise_data_access_a.Approvals.{approval_valid}
use enterprise_data_access_a.Audit.{append}
use enterprise_data_access_a.Actions.Runner.{run_controlled}
use enterprise_data_access_a.Examples.Requests.{
  ada, allows, decision, env, call, db, session, authority,
}
use enterprise_data_access_a.Examples.Executing.{surroundings}

abbrev provider : Provider
provider = record { kind = "fixed"; issue_credentials = λ subject scope ttl tags. ok (null, 6) }

abbrev later : Later
later = record {
  provider = provider;
  grant_id = "g1";
  credential_ref = "vault:1";
  asked_at = λ id capability. 5;
  verify_again = λ token. ok session;
  policy_id = "p3";
  surroundings = surroundings;
  isoformat = λ t. "t";
  stamp = record { id = "2"; ts = 5 };
}

abbrev world : World
world = record { db = db; vault = [] }

abbrev tags : Fields
tags = dict (("session_id", str "s1") ∷ ("correlation_id", str "c1") ∷ [])

abbrev grant : Grant
grant = grant_of (order_of env later call authority tags) "fixed" (pos 900) false

abbrev viewed : Executed
viewed =
    executed view_asset "web-1" "direct"
      (record { outputs = field "viewed" (str "web-1") end; api_calls = arr (of_list []) })

abbrev trace : Trace
trace = record {
  response = record { correlation_id = "c1"; outcome = "allowed"; error = none; stages = [] };
  grant = some grant;
  context = some (unavailable "web-1");
  action_result = some viewed;
}

abbrev ended : World
ended = (after_authorization env later call none [] (goes_on authority, db)).1

-- A ticket, which is opened by a process that does not answer.
abbrev ticket_call : Call
ticket_call = record call { action_name = "open_ticket" }

abbrev ticket_columns : AuditFields
ticket_columns =
    let path = some (path_of db (view_at env ticket_call 1 (some "local")) (allows ∷ [])) in
    policy_audit env ticket_call ada session path
      (policy_input env ticket_call db ada session open_ticket path false) decision none

abbrev operation : Execution
operation = operation_of env ticket_call ada session "h" decision

abbrev ticket_authority : Authority
ticket_authority = record authority {
  action = open_ticket;
  operation = some operation;
  columns = ticket_columns;
}

abbrev ticket_db : Db
ticket_db = record db {
  executions = operation ∷ [];
  audit =
      append env.digest [] env.stamp
        (record ticket_columns { correlation_id = "c1"; result = "authorized" });
}

ticket_passes : authorize env ticket_call db ≡ (goes_on ticket_authority, ticket_db)
unfolding authorize map_principal check_request get_action check_compatibility validate_inputs
    active_policy evaluate evaluate_document conditions_hold condition_holds condition py_eq proven
    resolve_path get_node fresh demo_enabled fnmatch actions_of conferred extensions insert_sorted
    is_traversable is_unsupported out_edges path_of permits resolve_between search sorted_set
    source_of texts unsupported_source usable visible lookup_key iterate risk_above rule_matches
    approval_valid
ticket_passes = refl

abbrev ticket_trace : Trace
ticket_trace = record {
  response = record {
    correlation_id = "c1";
    outcome = "error";
    error = some (message (action_error "controlled runner: "));
    stages = [];
  };
  grant =
      some
        (grant_of (order_of env later ticket_call ticket_authority tags) "fixed" (pos 900) false);
  context = some (unavailable "web-1");
  action_result = none;
}

abbrev ticket_ended : World
ticket_ended =
    (after_authorization env later ticket_call none [] (goes_on ticket_authority, ticket_db)).1

ticket_handled : handle_request env later ticket_call world ≡ (ok ticket_trace, ticket_ended)
unfolding first_occurrences grant_of scope_of put remove handle_request after_authorization
    with_tags with_grant with_context with_operation with_fresh with_policy is_stale has_lost
    start_running run changed conclude_execution finish_with close update_operation put_key
    issue_grant apply_obligations apply_obligation validate_grant fetch_credentials fetch fetched
    entry scoped_context context_within context_of execute prepare validate_all run_action perform
    run_handler only_keys check_compatibility validate_inputs run_controlled map_principal
    check_request get_action active_policy evaluate evaluate_document conditions_hold
    condition_holds condition py_eq proven resolve_path get_node fresh demo_enabled fnmatch
    actions_of conferred extensions insert_sorted is_traversable is_unsupported out_edges path_of
    permits resolve_between search sorted_set source_of texts unsupported_source usable visible
    lookup_key iterate risk_above rule_matches approval_valid
ticket_handled = rw (ticket_passes) refl

handle_request-IsClosed_example :
    IsClosed env later ticket_call ticket_authority ticket_db.audit ticket_trace ticket_ended
handle_request-IsClosed_example =
    handle_request-IsClosed env later ticket_call world ticket_authority ticket_db ticket_trace
      ticket_ended ticket_passes ticket_handled
