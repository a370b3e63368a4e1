-- ===== src/Gateway/Handle.antt =====
-- `handle_request` of beta/src/eda/gateway.py behind the durable intent: the grant, the scoped
-- context, the fresh checks of an operation, its execution and how it ends; and the whole of it.
-- The clock's readings go on from those of the authorization.
use enterprise_data_access_a.Base.{
  String, Bool, false, not, ◌||◌, Option, none, some, [], ◌∷◌, ◌++◌, ◌==◌, if◌then◌else◌, is_none,
  ltb, Result, ok, err, type_error,
}
use enterprise_data_access_a.Base.Int.{pos}
use enterprise_data_access_a.Base.Json.{str, obj, Fields}
use enterprise_data_access_a.Models.{
  Db, Grant, Approval, Execution, running, AuditFields, PolicyRecord,
}
use enterprise_data_access_a.Graph.{resolve_path}
use enterprise_data_access_a.Identity.{SessionInfo, map_principal}
use enterprise_data_access_a.Actions.Execute.{Executed, execute}
use enterprise_data_access_a.Approvals.{approver_holds}
use enterprise_data_access_a.Broker.{Order, issue_grant}
use enterprise_data_access_a.Broker.Store.{Vault}
use enterprise_data_access_a.Objects.{Context}
use enterprise_data_access_a.Objects.Traversal.{scoped_context}
use enterprise_data_access_a.Policy.Lifecycle.{active_policy}
use enterprise_data_access_a.Gateway.{
  Env, Call, Authority, Ending, answered, raised, goes_on, message, view_at, kind_of, target_of,
}
use enterprise_data_access_a.Gateway.Flow.{authorize}
use enterprise_data_access_a.Gateway.Finish.{
  Later, Trace, World, put_key, redacted, context_summary, is_grant_error, is_execution_error,
  update_operation, finish_with,
}

module _ (env : Env) (later : Later) (call : Call) where
  -- `{**session.tags, "session_id": ..., "correlation_id": ...}`
  abbrev pub session_tags : Authority → Result Fields
  session_tags a = elim a.session.tags [
    | obj tags ↦ ok (
        put_key "correlation_id" (str env.correlation_id)
          (put_key "session_id" (str a.session.session_id) tags))
    | _ ↦ err type_error
  ]

  abbrev pub order_of : Authority → Fields → Order
  order_of a tags = record {
    subject = a.principal.name;
    action = a.action.cloud_action;
    resource = call.resource;
    obligations = a.decision.obligations;
    session_tags = tags;
    correlation_id = env.correlation_id;
    tenant_id = a.session.tenant;
    additional_actions = a.action.additional_cloud_actions;
    default_ttl = env.settings.grant_default_ttl_seconds;
    now = env.now 7;
    grant_id = later.grant_id;
    credential_ref = later.credential_ref;
  }

  abbrev pub with_grant_column : Authority → Grant → AuditFields
  with_grant_column a grant = record a.columns { grant = redacted later.isoformat grant }

  abbrev pub with_result_columns : Authority → Grant → Context → Executed → AuditFields
  with_result_columns a grant context x = record (with_grant_column a grant) {
    api_calls = x.outcome.api_calls;
    context_summary = context_summary context;
  }

  -- How an execution ends a request.
  unfoldable pub conclude_execution :
      Authority → Grant → Context → Result Executed → World → Result Trace × World
  unfolding finish_with
  conclude_execution a grant context (err e) w =
      if is_execution_error e
      then finish_with env later call a (some grant) (some context) none (some (message e))
          (with_grant_column a grant) w
      else (err e, w)
  conclude_execution a grant context (ok x) w =
      finish_with env later call a (some grant) (some context) (some x) none
        (with_result_columns a grant context x) w

  -- Step 8, the action layer.
  unfoldable pub run : Option String → Authority → Grant → Context → World → Result Trace × World
  unfolding conclude_execution
  run kind a grant context w =
      let (r, vault) =
        execute later.surroundings w.db a.action grant call.resource kind a.validated_inputs
          w.vault in
      conclude_execution a grant context r (record w { vault = vault })

  unfoldable pub changed : Authority → Grant → Context → World → Result Trace × World
  unfolding finish_with
  changed a grant context w =
      finish_with env later call a (some grant) (some context) none
        (some "authority changed before execution") a.columns w

  -- The approval has expired since, or its approver has lost the capability.
  unfoldable pub is_stale : Authority → Db → Option Approval → Bool
  is_stale a db none = false
  is_stale a db (some x) =
      ltb x.expires_at (env.now 13)
      || not
          (approver_holds (view_at env call 14 none) db x.approver x call.resource a.session.tenant)

  -- The checks behind the active policy.
  unfoldable pub with_policy :
      Option String
      → Authority
      → Grant
      → Context
      → Result PolicyRecord × Db
      → Vault
      → Result Trace × World
  unfolding run changed is_stale
  with_policy kind a grant context (err e, db) vault = (err e, record { db = db; vault = vault })
  with_policy kind a grant context (ok row, db) vault =
      if not (row.version == a.decision.policy_version) || is_stale a db a.approval
      then changed a grant context (record { db = db; vault = vault })
      else run kind a grant context (record { db = db; vault = vault })

  -- The principal or its path is gone.
  unfoldable pub has_lost : Authority → SessionInfo → Db → Bool
  has_lost a session db =
      is_none (map_principal env.settings db (env.now 10) session)
      || is_none (
          resolve_path db (view_at env call 11 a.session.tenant) a.principal.name
            a.action.cloud_action call.resource)

  -- The session that was verified again.
  unfoldable pub with_fresh :
      Option String
      → Authority
      → Grant
      → Context
      → Result SessionInfo
      → World
      → Result Trace × World
  unfolding with_policy changed has_lost
  with_fresh kind a grant context (err e) w = (err e, w)
  with_fresh kind a grant context (ok session) w =
      if has_lost a session w.db
      then changed a grant context w
      else with_policy kind a grant context
          (active_policy env.digest (env.settings.environment == "production") later.policy_id
            (env.now 12) w.db)
          w.vault

  unfoldable pub start_running : Execution → Db → Db
  unfolding update_operation
  start_running op db = record db {
    executions =
        update_operation op.id (λ x. record x { state = running; updated_at = env.now 9 })
          db.executions;
  }

  -- An operation is running and checked again; a read goes on at once.
  unfoldable pub with_operation :
      Option String → Authority → Grant → Context → Option Execution → World → Result Trace × World
  unfolding with_fresh run start_running
  with_operation kind a grant context none w = run kind a grant context w
  with_operation kind a grant context (some op) w =
      with_fresh kind a grant context (later.verify_again call.bearer_token)
        (record w { db = start_running op w.db })

  -- Step 7.
  unfoldable pub with_context :
      Option String → Authority → Grant → Result Context → World → Result Trace × World
  unfolding with_operation
  with_context kind a grant (err e) w = (err e, w)
  with_context kind a grant (ok context) w = with_operation kind a grant context a.operation w

  -- The grant, whose row is added.
  unfoldable pub with_grant :
      Option String → Authority → Result (Grant × Vault) → World → Result Trace × World
  unfolding with_context finish_with
  with_grant kind a (err e) w =
      if is_grant_error e
      then finish_with env later call a none none none (some (message e)) a.columns w
      else (err e, w)
  with_grant kind a (ok (grant, vault)) w =
      let db = record w.db { grants = w.db.grants ++ grant ∷ [] } in
      with_context kind a grant
        (scoped_context env.settings later.asked_at db grant (env.now 8) call.resource (pos 2))
        (record { db = db; vault = vault })

  -- Step 6.
  unfoldable pub with_tags :
      Option String → Authority → Result Fields → World → Result Trace × World
  unfolding with_grant
  with_tags kind a (err e) w = (err e, w)
  with_tags kind a (ok tags) w =
      with_grant kind a (issue_grant later.provider (order_of a tags) w.vault) w

  unfoldable pub after_authorization : Option String → Vault → Ending × Db → Result Trace × World
  unfolding with_tags
  after_authorization kind vault (answered response, db) = (
    ok (record { response = response; grant = none; context = none; action_result = none }),
    record { db = db; vault = vault },
  )
  after_authorization kind vault (raised e, db) = (err e, record { db = db; vault = vault })
  after_authorization kind vault (goes_on a, db) =
      with_tags kind a (session_tags a) (record { db = db; vault = vault })

  -- `handle_request`
  unfoldable pub handle_request : World → Result Trace × World
  unfolding after_authorization
  handle_request w =
      after_authorization (kind_of env call (target_of env call w.db)) w.vault
        (authorize env call w.db)
