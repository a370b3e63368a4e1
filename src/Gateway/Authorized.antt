-- ===== src/Gateway/Authorized.antt =====
-- What a request went through that `handle_request` lets pass to the broker.
use mathlib.Core.Path.{◌≡◌}
use enterprise_data_access_a.Base.{String, Bool, true, false, Option, none, some, ◌∈◌, ok, ◌==◌}
use enterprise_data_access_a.Models.{Db, Approval, Execution, authorized}
use enterprise_data_access_a.Identity.Principal.{IsPrincipal}
use enterprise_data_access_a.Actions.{registry}
use enterprise_data_access_a.Approvals.{approval_valid, consume}
use enterprise_data_access_a.Graph.{AccessPath}
use enterprise_data_access_a.Policy.{allowed}
use enterprise_data_access_a.Policy.Lifecycle.{evaluate, active_policy}
use enterprise_data_access_a.Gateway.{
  Env, Call, Authority, view_at, proven, request_of, policy_input,
}

module _ (env : Env) (call : Call) where
  -- The policy's decision on a request, and the approval that it rests on.
  pub record IsDecided (db : Db) (a : Authority) : Type 0 where
    pub before : Db
    pub after : Db
    pub hash : String
    pub path : Option AccessPath
    pub valid : Bool
    pub is_before :
        before
        ≡ (active_policy env.digest
            (env.settings.environment == "production")
            env.policy_id
            (env.now 3)
            db).1
    pub is_path : path ≡ proven env call db a.principal a.session a.action
    pub is_valid :
        valid
        ≡ approval_valid
            (view_at env call 3 none)
            before
            (request_of env call a.principal a.session hash)
            a.approval
    pub is_decision :
        evaluate env.digest
          (env.settings.environment == "production")
          env.policy_id
          (env.now 3)
          (policy_input env call before a.principal a.session a.action path valid)
          before
        ≡ (ok a.decision, after)
    pub is_allowed : a.decision.decision ≡ allowed
    pub is_spent :
        valid ≡ true
        → (x : Approval) × (a.approval ≡ some x)
          × ((consume x.id (env.now 4) after.approvals).0 ≡ 1)

  -- What holds of a request that goes on to the broker.
  pub record IsAuthorized (db : Db) (a : Authority) (db' : Db) : Type 0 where
    pub is_verified : env.verify call.bearer_token ≡ ok a.session
    pub is_principal : IsPrincipal env.settings db (env.now 0) a.session a.principal
    pub is_registered : (a.action ∈ registry) × (a.action.name ≡ call.action_name)
    pub is_decided : IsDecided db a
    pub is_recorded :
        a.action.read_only ≡ false
        → (x : Execution) × (a.operation ≡ some x) × (x ∈ db'.executions) × (x.state ≡ authorized)
