-- ===== src/Gateway/Flow.antt =====
-- The steps of `handle_request` (beta/src/eda/gateway.py) up to the durable intent: identity,
-- action, access path, approval, policy, the spending of the approval and the row of the operation.
use Prim.Native.String.{◌++◌ as concat}
use enterprise_data_access_a.Base.{
  String, Bool, true, false, Option, none, some, [], ◌∷◌, ◌++◌, ◌==◌, if◌then◌else◌, find, eqb,
  Result, ok, err, Exception, policy_error, invalid_session,
}
use enterprise_data_access_a.Base.Json.{null, Fields}
use enterprise_data_access_a.Models.{Db, AccessNode, Approval, Execution, authorized, AuditFields}
use enterprise_data_access_a.Audit.{append}
use enterprise_data_access_a.Graph.{AccessPath}
use enterprise_data_access_a.Identity.{SessionInfo, map_principal}
use enterprise_data_access_a.Actions.{ActionDef}
use enterprise_data_access_a.Approvals.{Request, new_approval, approval_valid, consume}
use enterprise_data_access_a.Execution.{replay}
use enterprise_data_access_a.Policy.{
  PolicyInput, Decision, Outcome, allowed, denied, approval_required,
}
use enterprise_data_access_a.Policy.Lifecycle.{active_policy, evaluate}
use enterprise_data_access_a.Gateway.{
  Env, Call, Authority, Ending, answered, raised, goes_on, message, opt_or, reason_text, view_at,
  finish, base_audit, unknown_audit, check_request, proven, request_hash, request_of,
  lookup_approval, policy_input, policy_audit, operation_key,
}

-- The three ways to go on from a decision.
abbrev pub by_outcome : {X : Type 0} → Outcome → X → X → X → X
by_outcome denied x y z = x
by_outcome approval_required x y z = y
by_outcome allowed x y z = z

module _ (env : Env) (call : Call) where
  -- The row of an operation that is authorized.
  abbrev pub operation_of : AccessNode → SessionInfo → String → Decision → Execution
  operation_of principal session hash decision = record {
    id = operation_key env call principal session;
    tenant_id = session.tenant;
    subject = principal.name;
    request_hash = hash;
    policy_version = decision.policy_version;
    correlation_id = env.correlation_id;
    state = authorized;
    created_at = env.now 5;
    updated_at = env.now 5;
    result = null;
  }

  -- The row of the operation and its audit record, for an action that writes.
  unfoldable pub intent :
      AccessNode
      → SessionInfo
      → ActionDef
      → Fields
      → String
      → Decision
      → Option Approval
      → AuditFields
      → Db
      → Ending × Db
  intent principal session action validated hash decision approval columns db =
      let authority : Option Execution → Authority = λ operation. record {
        session = session;
        principal = principal;
        action = action;
        validated_inputs = validated;
        decision = decision;
        approval = approval;
        operation = operation;
        columns = columns;
      } in
      let operation = operation_of principal session hash decision in
      if action.read_only then (goes_on (authority none), db) else (
        goes_on (authority (some operation)),
        record db {
          executions = db.executions ++ operation ∷ [];
          audit =
              append env.digest db.audit env.stamp
                (record columns { correlation_id = env.correlation_id; result = "authorized" });
        },
      )

  -- Step 5b: the approval is spent by one request.
  unfoldable pub spend : Option Approval → Bool → Db → Option Db
  spend none valid db = some db
  spend (some a) false db = some db
  spend (some a) true db =
      let done = consume a.id (env.now 4) db.approvals in
      if eqb done.0 1 then some (record db { approvals = done.1 }) else none

  -- What follows the attempt to spend the approval.
  unfoldable pub proceed :
      AccessNode
      → SessionInfo
      → ActionDef
      → Fields
      → String
      → Decision
      → Option Approval
      → AuditFields
      → Db
      → Option Db
      → Ending × Db
  unfolding intent finish
  proceed principal session action validated hash decision approval columns db none =
      finish env call "denied" (some "approval already consumed by a concurrent request") columns db
  proceed principal session action validated hash decision approval columns db (some db') =
      intent principal session action validated hash decision approval columns db'

  -- The approval that a pending request asks for is added.
  unfoldable pub ask : Request → Db → Db
  ask request db = record db {
    approvals =
        db.approvals
        ++ new_approval request env.approval_id (env.now 6) (env.now 6)
            env.settings.approval_ttl_seconds env.correlation_id
          ∷ [];
  }

  -- What follows the decision.
  unfoldable pub conclude :
      AccessNode
      → SessionInfo
      → ActionDef
      → Fields
      → String
      → Option AccessPath
      → PolicyInput
      → Option Approval
      → Decision
      → Db
      → Ending × Db
  unfolding proceed spend finish ask
  conclude principal session action validated hash path inp approval decision db =
      let columns = policy_audit env call principal session path inp decision approval in
      by_outcome decision.decision
        (finish env call "denied" (reason_text decision.reason) columns db)
        (finish env call "approval_required" none columns
          (ask (request_of env call principal session hash) db))
        (proceed principal session action validated hash decision approval columns db
          (spend approval inp.approval_present db))

  abbrev pub is_policy_error : Exception → Bool
  is_policy_error (policy_error s) = true
  is_policy_error _ = false

  abbrev pub is_invalid_session : Exception → Bool
  is_invalid_session (invalid_session s) = true
  is_invalid_session _ = false

  -- `except PolicyError`, in front of what follows a policy call.
  unfoldable pub after_policy :
      {A : Type 0} → String → AuditFields → Result A × Db → (A → Db → Ending × Db) → Ending × Db
  unfolding finish
  after_policy prefix columns (ok a, db) next = next a db
  after_policy prefix columns (err e, db) next =
      if is_policy_error e
      then finish env call "denied" (some (concat prefix (message e))) columns db
      else (raised e, db)

  -- Steps 4 and 5: the approval's validity and the policy's decision.
  unfoldable pub decide :
      AccessNode → SessionInfo → ActionDef → Fields → String → Option AccessPath → Db → Ending × Db
  unfolding conclude after_policy policy_input
  decide principal session action validated hash path db =
      let approval = lookup_approval env call db in
      let valid =
        approval_valid (view_at env call 3 none) db (request_of env call principal session hash)
          approval in
      let inp = policy_input env call db principal session action path valid in
      after_policy "policy integrity: " (base_audit env call principal.name session)
        (evaluate env.digest (env.settings.environment == "production") env.policy_id (env.now 3)
          inp db)
        (conclude principal session action validated hash path inp approval)

  -- An operation that exists is replayed, or conflicts.
  unfoldable pub resume :
      AccessNode
      → SessionInfo
      → ActionDef
      → Fields
      → String
      → Option AccessPath
      → Option Execution
      → Db
      → Ending × Db
  unfolding decide finish
  resume principal session action validated hash path none db =
      decide principal session action validated hash path db
  resume principal session action validated hash path (some x) db =
      if x.request_hash == hash
      then (answered (replay x), db)
      else finish env call "denied"
          (some "idempotency key conflicts with request or policy version")
          (base_audit env call principal.name session) db

  abbrev pub existing : AccessNode → SessionInfo → ActionDef → Db → Option Execution
  existing principal session action db =
      if action.read_only
      then none
      else find (λ x. x.id == operation_key env call principal session) db.executions

  -- Step 3, and what follows the active policy.
  unfoldable pub with_action :
      SessionInfo → AccessNode → Result (ActionDef × Fields) → Db → Ending × Db
  unfolding resume after_policy request_hash finish
  with_action session principal (err e) db =
      finish env call "denied" (some (message e)) (base_audit env call principal.name session) db
  with_action session principal (ok (action, validated)) db =
      after_policy "" (base_audit env call principal.name session)
        (active_policy env.digest (env.settings.environment == "production") env.policy_id
          (env.now 3) db)
        (λ row d.
          resume principal session action validated
            (request_hash env call principal session action validated row.version)
            (proven env call db principal session action) (existing principal session action d) d)

  -- Step 2.
  unfoldable pub with_principal : SessionInfo → Option AccessNode → Db → Ending × Db
  unfolding with_action finish
  with_principal session none db =
      finish env call "denied"
        (some "identity: no mapped graph principal for this identity (fail closed)")
        (base_audit env call (opt_or session.external_id session.subject) session) db
  with_principal session (some principal) db =
      with_action session principal (check_request env call db) db

  -- Step 1.
  unfoldable pub with_session : Result SessionInfo → Db → Ending × Db
  unfolding with_principal finish
  with_session (err e) db =
      if is_invalid_session e
      then finish env call "denied" (some (concat "identity: " (message e)))
          (unknown_audit env call) db
      else (raised e, db)
  with_session (ok session) db =
      with_principal session (map_principal env.settings db (env.now 0) session) db

  -- `handle_request` up to the durable intent.
  unfoldable pub authorize : Db → Ending × Db
  unfolding with_session
  authorize db = with_session (env.verify call.bearer_token) db
