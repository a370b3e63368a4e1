-- ===== src/Gateway/Finish.antt =====
-- How `handle_request` of beta/src/eda/gateway.py ends behind the durable intent: the trace, what
-- closes an operation, and `finish`.
use Prim.Native.String.{slice, ◌++◌ as concat}
use enterprise_data_access_a.Base.{
  ℕ, String, Bool, true, false, Option, none, some, List, [], ◌∷◌, map, ◌==◌, if◌then◌else◌, length,
  Result, ok, Exception, grant_error, action_error,
}
use enterprise_data_access_a.Base.Int.{pos}
use enterprise_data_access_a.Base.Json.{
  Value, bool, num, str, arr, obj, Fields, end, field, dict, of_list,
}
use enterprise_data_access_a.Models.{
  Db, Grant, Execution, ExecutionState, succeeded, outcome_unknown, AuditFields,
}
use enterprise_data_access_a.Audit.{Stamp, append, opt_str}
use enterprise_data_access_a.Identity.{SessionInfo}
use enterprise_data_access_a.Actions.Execute.{Surroundings, Executed}
use enterprise_data_access_a.Broker.{Provider}
use enterprise_data_access_a.Broker.Store.{Vault}
use enterprise_data_access_a.Execution.{Response}
use enterprise_data_access_a.Objects.{Context, unavailable, available}
use enterprise_data_access_a.Gateway.{Env, Call, Authority}

-- What these steps read of their surroundings.
pub record Later : Type 0 where
  pub provider : Provider
  pub grant_id : String
  pub credential_ref : String
  pub asked_at : String → String → ℕ
  pub verify_again : String → Result SessionInfo
  pub policy_id : String
  pub surroundings : Surroundings
  pub isoformat : ℕ → String
  pub stamp : Stamp

-- The answer, with the stages of the trace that these steps add.
pub record Trace : Type 0 where
  pub response : Response
  pub grant : Option Grant
  pub context : Option Context
  pub action_result : Option Executed

-- The database and the process's vault.
pub record World : Type 0 where
  pub db : Db
  pub vault : Vault

-- `{**d, k: v}`
unfoldable pub put_key : String → Value → Fields → Fields
put_key k v end = field k v end
put_key k v (field j w fs) =
    let rest = put_key k v fs in if j == k then field j v fs else field j w rest

abbrev pub redacted : (ℕ → String) → Grant → Value
redacted isoformat g = obj (
    dict (
      ("grant_id", str g.id)
      ∷ ("subject", str g.subject)
      ∷ (
        "scope",
        obj (
            dict (
              ("actions", arr (of_list (map str g.scope.actions)))
              ∷ ("resources", arr (of_list (map str g.scope.resources)))
              ∷ ("read_only", bool g.scope.read_only)
              ∷ [])),
      )
      ∷ ("session_tags", obj g.session_tags)
      ∷ ("broker_kind", str g.broker_kind)
      ∷ ("issued_at", str (isoformat g.issued_at))
      ∷ ("expires_at", str (isoformat g.expires_at))
      ∷ ("tenant_id", opt_str g.tenant_id)
      ∷ ("credentials", str "VAULTED")
      ∷ ("credential_ref", str (concat (slice g.credential_ref 0 14) "..."))
      ∷ []))

abbrev summary : String → ℕ → ℕ → Value
summary root nodes edges =
    obj (dict (("root", str root) ∷ ("nodes", num (pos nodes)) ∷ ("edges", num (pos edges)) ∷ []))

-- `context_summary`
abbrev pub context_summary : Context → Value
context_summary (unavailable resource) = summary resource 0 0
context_summary (available c) = summary c.root (length c.nodes) (length c.edges)

-- The exceptions that end a request in an answer: of the broker, and of an execution.
abbrev pub is_grant_error : Exception → Bool
is_grant_error (grant_error s) = true
is_grant_error _ = false

abbrev pub is_execution_error : Exception → Bool
is_execution_error (grant_error s) = true
is_execution_error (action_error s) = true
is_execution_error _ = false

-- `operation.state = ...` and its other columns, on the row with its identifier.
unfoldable pub update_operation : String → (Execution → Execution) → List Execution → List Execution
update_operation id f = map (λ x. if x.id == id then f x else x)

abbrev pub end_state : Option Executed → ExecutionState
end_state none = outcome_unknown
end_state (some x) = succeeded

abbrev pub end_text : Option Executed → String
end_text none = "error"
end_text (some x) = "allowed"

module _ (env : Env) (later : Later) (call : Call) where
  -- `operation.state`, `updated_at` and `result`, where there is an operation.
  unfoldable pub close : Option Execution → Option Executed → Option String → Db → Db
  unfolding update_operation
  close none result error db = db
  close (some op) result error db = record db {
    executions =
        update_operation op.id
          (λ x. record x {
            state = end_state result;
            updated_at = env.now 15;
            result =
                obj (dict (("outcome", str (end_text result)) ∷ ("error", opt_str error) ∷ []));
          })
          db.executions;
  }

  -- `finish`: "allowed" with a result, "error" without.
  unfoldable pub finish_with :
      Authority
      → Option Grant
      → Option Context
      → Option Executed
      → Option String
      → AuditFields
      → World
      → Result Trace × World
  unfolding close
  finish_with a grant context result error columns w =
      let db = close a.operation result error w.db in
      (
        ok (record {
          response = record {
            correlation_id = env.correlation_id;
            outcome = end_text result;
            error = error;
            stages = [];
          };
          grant = grant;
          context = context;
          action_result = result;
        }),
        record w {
          db = record db {
            audit = append env.digest db.audit later.stamp (record columns {
              correlation_id = env.correlation_id;
              result = end_text result;
              error = error;
            });
          };
        },
      )
