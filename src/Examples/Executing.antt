-- ===== src/Examples/Executing.antt =====
-- Executions at a concrete grant.
use mathlib.Core.Path.{◌≡◌, refl}
use enterprise_data_access_a.Base.{
  ℕ, ◌+◌, String, true, false, none, some, [], ◌∷◌, ok, inl, length, filter,
}
use enterprise_data_access_a.Base.Json.{
  Value, Fields, end, obj, dict, str, null, bool, arr, of_list, field,
}
use enterprise_data_access_a.Models.{Db, empty_db, Grant, Execution, running, succeeded}
use enterprise_data_access_a.Audit.{Stamp, verify_chain}
use enterprise_data_access_a.Broker.Store.{Vault}
use enterprise_data_access_a.Actions.{view_asset, only_keys, run_handler, Outcome}
use enterprise_data_access_a.Actions.Registry.{registry-only_keys}
use enterprise_data_access_a.Actions.Runner.{
  run_controlled, IsClean, run_controlled-IsClean, reject_credentials, leaks, occurs,
}
use enterprise_data_access_a.Actions.Execute.{Surroundings, Executed, executed}
use enterprise_data_access_a.Execution.{is_interrupted, mark_interrupted}
use enterprise_data_access_a.Execution.Recovery.{
  AllMarked, mark_interrupted-outcome, mark_interrupted-verify_chain,
}

abbrev digest : Value → String
digest v = "h"

abbrev encode : Value → String
encode v = "{}"

abbrev byte_size : String → ℕ
byte_size s = 2

abbrev pub surroundings : Surroundings
surroundings = record {
  is_aws = false;
  max_output_bytes = 100;
  validated_at = λ i. 5;
  fetched_at = 5;
  parse = λ model fs. some fs;
  process = λ handler credentials resource inputs timeout. none;
  encode = encode;
  byte_size = byte_size;
  ticket = λ resource summary. "TKT-0001";
  client = λ credentials. record {
    describe_instances = λ ids. end;
    describe_security_groups = λ ids. end;
  };
}

abbrev grant : Grant
grant = record {
  id = "g1";
  subject = "ada";
  scope = record {
    actions = "ec2:DescribeInstances" ∷ [];
    resources = "web-1" ∷ [];
    read_only = true;
  };
  session_tags = end;
  broker_kind = "mock_sts";
  credential_ref = "vault:1";
  issued_at = 1;
  expires_at = 9;
  revoked = false;
  correlation_id = "c1";
  tenant_id = none;
}

abbrev vault : Vault
vault = record { ref = "vault:1"; credentials = null; expires_at = 9 } ∷ []

abbrev viewed : Executed
viewed =
    executed view_asset "web-1" "direct"
      (record { outputs = field "viewed" (str "web-1") end; api_calls = arr (of_list []) })

registry-only_keys_example :
    only_keys view_asset.allowed_outputs
      (run_handler (λ r s. "TKT-0001") view_asset.handler "web-1" end).outputs
    ≡ (run_handler (λ r s. "TKT-0001") view_asset.handler "web-1" end).outputs
registry-only_keys_example =
    registry-only_keys view_asset (λ r s. "TKT-0001") "web-1" end (inl refl)

abbrev credentials : Fields
credentials = dict (("SecretAccessKey", str "s3cr3t") ∷ [])

abbrev answer : Fields
answer = dict (
    ("ok", bool true)
    ∷ ("outputs", obj (dict (("summary", str "done") ∷ ("extra", str "x") ∷ [])))
    ∷ ("api_calls", arr (of_list []))
    ∷ [])

abbrev clean : Outcome
clean = record { outputs = field "summary" (str "done") end; api_calls = arr (of_list []) }

let_through :
    run_controlled encode byte_size 100 ("summary" ∷ []) credentials (some answer) ≡ ok clean
unfolding run_controlled reject_credentials only_keys leaks occurs
let_through = refl

run_controlled-IsClean_example : IsClean encode byte_size ("summary" ∷ []) credentials clean
run_controlled-IsClean_example =
    run_controlled-IsClean encode byte_size 100 ("summary" ∷ []) credentials (some answer) clean
      let_through

abbrev operation : Execution
operation = record {
  id = "x1";
  tenant_id = none;
  subject = "ada";
  request_hash = "h";
  policy_version = "v1";
  correlation_id = "c1";
  state = running;
  created_at = 1;
  updated_at = 2;
  result = null;
}

abbrev db : Db
db = record empty_db {
  executions = operation ∷ record operation { id = "x2"; state = succeeded } ∷ [];
}

abbrev stamps : ℕ → Stamp
stamps i = record { id = "1"; ts = 5 }

mark_interrupted-outcome_example :
    ((mark_interrupted digest 4 (λ i. 6) stamps db).0
      ≡ length (filter (is_interrupted 4) db.executions))
    × AllMarked 4 (λ i. 6) db.executions (mark_interrupted digest 4 (λ i. 6) stamps db).1.executions
    × (length (mark_interrupted digest 4 (λ i. 6) stamps db).1.audit
        ≡ length db.audit + length (filter (is_interrupted 4) db.executions))
mark_interrupted-outcome_example = mark_interrupted-outcome digest 4 (λ i. 6) stamps db

valid_log : (verify_chain digest db.audit).valid ≡ true
unfolding verify_chain
valid_log = refl

mark_interrupted-verify_chain_example :
    (verify_chain digest (mark_interrupted digest 4 (λ i. 6) stamps db).1.audit).valid ≡ true
mark_interrupted-verify_chain_example =
    mark_interrupted-verify_chain digest 4 (λ i. 6) stamps db valid_log
