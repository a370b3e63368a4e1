-- ===== src/Gateway/Handled.antt =====
-- What a request went through whose action `handle_request` of beta/src/eda/gateway.py ran.
use mathlib.Core.Path.{◌≡◌}
use enterprise_data_access_a.Base.{false, some, [], ◌∷◌, ◌++◌, ok}
use enterprise_data_access_a.Base.Int.{pos}
use enterprise_data_access_a.Base.Json.{Fields}
use enterprise_data_access_a.Models.{Db, Grant, Execution}
use enterprise_data_access_a.Actions.Execute.{Executed}
use enterprise_data_access_a.Actions.Executed.{IsExecuted}
use enterprise_data_access_a.Broker.Store.{Vault}
use enterprise_data_access_a.Broker.Issued.{IsIssued}
use enterprise_data_access_a.Objects.{Context}
use enterprise_data_access_a.Objects.Traversal.{scoped_context}
use enterprise_data_access_a.Gateway.{Env, Call, Authority, kind_of, target_of}
use enterprise_data_access_a.Gateway.Authorized.{IsAuthorized}
use enterprise_data_access_a.Gateway.Finish.{Later, Trace, World}
use enterprise_data_access_a.Gateway.Handle.{order_of, start_running}
use enterprise_data_access_a.Gateway.Fresh.{IsFresh}

module _ (env : Env) (later : Later) (call : Call) where
  -- A request whose action was executed with a result.
  pub record IsHandled (w : World) (t : Trace) (x : Executed) : Type 0 where
    pub authority : Authority
    pub recorded : Db
    pub is_authorized : IsAuthorized env call w.db authority recorded
    pub tags : Fields
    pub grant : Grant
    pub vault : Vault
    pub is_issued : IsIssued (order_of env later call authority tags) grant vault
    pub context : Context
    pub is_context :
        scoped_context env.settings later.asked_at
          (record recorded { grants = recorded.grants ++ grant ∷ [] })
          grant
          (env.now 8)
          call.resource
          (pos 2)
        ≡ ok context
    pub is_fresh :
        authority.action.read_only ≡ false
        → (op : Execution) × (authority.operation ≡ some op)
          × IsFresh env later call authority (
              start_running env later call op
                (record recorded { grants = recorded.grants ++ grant ∷ [] }))
    pub is_executed :
        IsExecuted later.surroundings authority.action grant call.resource
          (kind_of env call (target_of env call w.db))
          x
    pub is_answer :
        (t.response.outcome ≡ "allowed") × (t.grant ≡ some grant) × (t.context ≡ some context)
