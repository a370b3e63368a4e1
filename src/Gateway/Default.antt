-- ===== src/Gateway/Default.antt =====
-- What the default policy of beta/src/eda/policy.py makes of `handle_request`: from the answer back
-- to the access graph and the approval.
use mathlib.Core.Path.{◌≡◌}
use enterprise_data_access_a.Base.{String, true, false, none, some}
use enterprise_data_access_a.Base.Json.{truthy}
use enterprise_data_access_a.Models.{Db, Approval}
use enterprise_data_access_a.Graph.{AccessPath}
use enterprise_data_access_a.Graph.Sound.{IsAuthorized as HasPath}
use enterprise_data_access_a.Approvals.{approval_valid}
use enterprise_data_access_a.Gateway.{Env, Call, Authority, view_at, request_of}

module _ (env : Env) (call : Call) where
  -- The guarantee of a request that goes on under the default policy.
  pub record IsGuarded (db : Db) (a : Authority) : Type 0 where
    pub proof : AccessPath
    pub is_proven :
        HasPath db
          (view_at env call 1 a.session.tenant)
          a.principal.name
          a.action.cloud_action
          call.resource
          proof
    pub has_mfa : truthy a.session.mfa ≡ true
    pub is_approved :
        a.action.read_only ≡ false
        → (x : Approval) × (hash : String) × (a.approval ≡ some x)
          × (approval_valid
                (view_at env call 3 none)
                db
                (request_of env call a.principal a.session hash)
                (some x)
              ≡ true)
