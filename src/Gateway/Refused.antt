-- ===== src/Gateway/Refused.antt =====
-- What a request leaves behind that `handle_request` answers before the broker: no grant and no
-- operation.
use Prim.Native.String.{◌++◌ as concat}
use mathlib.Core.Path.{◌≡◌, refl, sym, ◌∙◌, subst}
use enterprise_data_access_a.Base.{
  ℕ, String, Bool, true, false, Option, none, some, arith, if◌then◌else◌, ◌==◌, Result, ok, err,
}
use enterprise_data_access_a.Base.Json.{Fields, Value}
use enterprise_data_access_a.Models.{Db, AccessNode, Approval, Execution, AuditFields}
use enterprise_data_access_a.Identity.{SessionInfo, map_principal}
use enterprise_data_access_a.Approvals.{approval_valid}
use enterprise_data_access_a.Actions.{ActionDef}
use enterprise_data_access_a.Graph.{AccessPath}
use enterprise_data_access_a.Policy.{
  PolicyInput, Decision, Outcome, allowed, denied, approval_required,
}
use enterprise_data_access_a.Policy.Lifecycle.{evaluate, active_policy, find_active}
use enterprise_data_access_a.Policy.Lifecycle.Steps.{active_policy-same, evaluate-same}
use enterprise_data_access_a.Gateway.{
  message, lookup_approval, view_at, policy_input, proven, request_hash, check_request,
  unknown_audit, opt_or, base_audit, policy_audit, request_of, Env, Call, Ending, answered, raised,
  goes_on, finish,
}
use enterprise_data_access_a.Gateway.Flow.{
  existing, by_outcome, is_policy_error, is_invalid_session, after_policy, authorize, with_session,
  with_principal, with_action, resume, decide, conclude, proceed, intent, spend, ask,
}

-- The tables of grants and operations, and those of the graphs, are the same.
pub record IsUntouched (db db' : Db) : Type 0 where
  pub same_grants : db'.grants ≡ db.grants
  pub same_executions : db'.executions ≡ db.executions
  pub same_nodes : db'.nodes ≡ db.nodes
  pub same_edges : db'.edges ≡ db.edges

-- A request has ended, or goes on.
abbrev pub HasEnded : Db → Ending × Db → Type 0
HasEnded db (answered r, db') = IsUntouched db db'
HasEnded db (raised e, db') = IsUntouched db db'
HasEnded db (goes_on a, db') = Unit

IsUntouched-refl : (db : Db) → IsUntouched db db
IsUntouched-refl db = record {
  same_grants = refl;
  same_executions = refl;
  same_nodes = refl;
  same_edges = refl;
}

HasEnded-trans : (db d : Db) (r : Ending × Db) → IsUntouched db d → HasEnded d r → HasEnded db r
HasEnded-trans db d (answered r, e) u h = record {
  same_grants = h.same_grants ∙ u.same_grants;
  same_executions = h.same_executions ∙ u.same_executions;
  same_nodes = h.same_nodes ∙ u.same_nodes;
  same_edges = h.same_edges ∙ u.same_edges;
}
HasEnded-trans db d (raised x, e) u h = record {
  same_grants = h.same_grants ∙ u.same_grants;
  same_executions = h.same_executions ∙ u.same_executions;
  same_nodes = h.same_nodes ∙ u.same_nodes;
  same_edges = h.same_edges ∙ u.same_edges;
}
HasEnded-trans db d (goes_on a, e) u h = tt

find_active-IsUntouched :
    (digest : Value → String) (production : Bool) (id : String) (now : ℕ) (db : Db)
    → IsUntouched db (find_active digest production id now db).1
unfolding find_active
find_active-IsUntouched digest production id now db = record {
  same_grants = ground arith;
  same_executions = ground arith;
  same_nodes = ground arith;
  same_edges = ground arith;
}

active_policy-IsUntouched :
    (digest : Value → String) (production : Bool) (id : String) (now : ℕ) (db : Db)
    → IsUntouched db (active_policy digest production id now db).1
active_policy-IsUntouched digest production id now db =
    subst (IsUntouched db) (sym (active_policy-same digest production id now db))
      (find_active-IsUntouched digest production id now db)

evaluate-IsUntouched :
    (digest : Value → String) (production : Bool) (id : String) (now : ℕ) (inp : PolicyInput)
    (db : Db)
    → IsUntouched db (evaluate digest production id now inp db).1
evaluate-IsUntouched digest production id now inp db =
    subst (IsUntouched db) (sym (evaluate-same digest production id now inp db))
      (find_active-IsUntouched digest production id now db)

by_outcome-HasEnded :
    (o : Outcome) (db : Db) (x y z : Ending × Db)
    → HasEnded db x
    → HasEnded db y
    → HasEnded db z
    → HasEnded db (by_outcome o x y z)
by_outcome-HasEnded denied db x y z hx hy hz = hx
by_outcome-HasEnded approval_required db x y z hx hy hz = hy
by_outcome-HasEnded allowed db x y z hx hy hz = hz

if-HasEnded :
    (b : Bool) (db : Db) (x y : Ending × Db)
    → HasEnded db x
    → HasEnded db y
    → HasEnded db (if b then x else y)
if-HasEnded true db x y hx hy = hx
if-HasEnded false db x y hx hy = hy

module _ (env : Env) (call : Call) where
  finish-HasEnded :
      (result : String) (error : Option String) (columns : AuditFields) (db : Db)
      → HasEnded db (finish env call result error columns db)
  unfolding finish
  finish-HasEnded result error columns db = record {
    same_grants = refl;
    same_executions = refl;
    same_nodes = refl;
    same_edges = refl;
  }

  proceed-HasEnded :
      (p : AccessNode) (s : SessionInfo) (action : ActionDef) (v : Fields) (hash : String)
      (d : Decision) (o : Option Approval) (columns : AuditFields) (db : Db) (spent : Option Db)
      → HasEnded db (proceed env call p s action v hash d o columns db spent)
  unfolding proceed intent
  proceed-HasEnded p s action v hash d o columns db none = finish-HasEnded _ _ columns db
  proceed-HasEnded p s action v hash d o columns db (some e) =
      if-HasEnded action.read_only db _ _ tt tt

  conclude-HasEnded :
      (p : AccessNode) (s : SessionInfo) (action : ActionDef) (v : Fields) (hash : String)
      (path : Option AccessPath) (inp : PolicyInput) (o : Option Approval) (d : Decision) (db : Db)
      → HasEnded db (conclude env call p s action v hash path inp o d db)
  unfolding conclude ask
  conclude-HasEnded p s action v hash path inp o d db =
      let columns = policy_audit env call p s path inp d o in
      by_outcome-HasEnded d.decision db _ _ _ (finish-HasEnded _ _ columns db)
        (HasEnded-trans db (ask env call (request_of env call p s hash) db)
          (finish env call "approval_required" none columns
            (ask env call (request_of env call p s hash) db))
          (record {
            same_grants = refl;
            same_executions = refl;
            same_nodes = refl;
            same_edges = refl;
          })
          (finish-HasEnded "approval_required" none columns
            (ask env call (request_of env call p s hash) db)))
        (proceed-HasEnded p s action v hash d o columns db
          (spend env call o inp.approval_present db))

  after_policy-HasEnded :
      {A : Type 0} (prefix : String) (columns : AuditFields) (r : Result A × Db)
      (next : A → Db → Ending × Db) (db : Db)
      → IsUntouched db r.1
      → ((a : A) (d : Db) → HasEnded d (next a d))
      → HasEnded db (after_policy env call prefix columns r next)
  unfolding after_policy
  after_policy-HasEnded prefix columns (ok a, d) next db u h =
      HasEnded-trans db d (next a d) u (h a d)
  after_policy-HasEnded prefix columns (err e, d) next db u h =
      if-HasEnded (is_policy_error env call e) db _ _
        (HasEnded-trans db d (finish env call "denied" (some (concat prefix (message e))) columns d)
          u (finish-HasEnded "denied" (some (concat prefix (message e))) columns d))
        u

  decide-HasEnded :
      (p : AccessNode) (s : SessionInfo) (action : ActionDef) (v : Fields) (hash : String)
      (path : Option AccessPath) (db : Db)
      → HasEnded db (decide env call p s action v hash path db)
  unfolding decide
  decide-HasEnded p s action v hash path db =
      let o = lookup_approval env call db in
      let valid = approval_valid (view_at env call 3 none) db (request_of env call p s hash) o in
      let inp = policy_input env call db p s action path valid in
      let production = env.settings.environment == "production" in
      after_policy-HasEnded "policy integrity: " (base_audit env call p.name s)
        (evaluate env.digest production env.policy_id (env.now 3) inp db)
        (conclude env call p s action v hash path inp o) db
        (evaluate-IsUntouched env.digest production env.policy_id (env.now 3) inp db)
        (conclude-HasEnded p s action v hash path inp o)

  resume-HasEnded :
      (p : AccessNode) (s : SessionInfo) (action : ActionDef) (v : Fields) (hash : String)
      (path : Option AccessPath) (o : Option Execution) (db : Db)
      → HasEnded db (resume env call p s action v hash path o db)
  unfolding resume
  resume-HasEnded p s action v hash path none db = decide-HasEnded p s action v hash path db
  resume-HasEnded p s action v hash path (some x) db =
      if-HasEnded (x.request_hash == hash) db _ _ (IsUntouched-refl db)
        (finish-HasEnded _ _ (base_audit env call p.name s) db)

  with_action-HasEnded :
      (s : SessionInfo) (p : AccessNode) (r : Result (ActionDef × Fields)) (db : Db)
      → HasEnded db (with_action env call s p r db)
  unfolding with_action
  with_action-HasEnded s p (err e) db = finish-HasEnded _ _ (base_audit env call p.name s) db
  with_action-HasEnded s p (ok (action, v)) db =
      let production = env.settings.environment == "production" in
      let path = proven env call db p s action in
      after_policy-HasEnded "" (base_audit env call p.name s)
        (active_policy env.digest production env.policy_id (env.now 3) db)
        (λ row d.
          resume env call p s action v (request_hash env call p s action v row.version) path
            (existing env call p s action d) d)
        db (active_policy-IsUntouched env.digest production env.policy_id (env.now 3) db)
        (λ row d.
          resume-HasEnded p s action v (request_hash env call p s action v row.version) path
            (existing env call p s action d) d)

  with_principal-HasEnded :
      (s : SessionInfo) (o : Option AccessNode) (db : Db)
      → HasEnded db (with_principal env call s o db)
  unfolding with_principal
  with_principal-HasEnded s none db =
      finish-HasEnded _ _ (base_audit env call (opt_or s.external_id s.subject) s) db
  with_principal-HasEnded s (some p) db = with_action-HasEnded s p (check_request env call db) db

  with_session-HasEnded :
      (r : Result SessionInfo) (db : Db) → HasEnded db (with_session env call r db)
  unfolding with_session
  with_session-HasEnded (err e) db =
      if-HasEnded (is_invalid_session env call e) db _ _
        (finish-HasEnded _ _ (unknown_audit env call) db) (IsUntouched-refl db)
  with_session-HasEnded (ok s) db =
      with_principal-HasEnded s (map_principal env.settings db (env.now 0) s) db

  -- A request that is answered, or that raises, in front of the broker leaves the grants, the
  -- operations and the access graph as they were.
  pub authorize-HasEnded : (db : Db) → HasEnded db (authorize env call db)
  unfolding authorize
  authorize-HasEnded db = with_session-HasEnded (env.verify call.bearer_token) db
