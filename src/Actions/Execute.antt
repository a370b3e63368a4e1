-- ===== src/Actions/Execute.antt =====
-- `execute` of beta/src/eda/actions.py: the checks, the credentials, and the three ways to run.
use enterprise_data_access_a.Base.{
  ℕ, suc, String, Bool, true, not, ◌&&◌, Option, none, some, List, [], ◌∷◌, ◌==◌, if◌then◌else◌,
  find, elem, opt_eq, Result, ok, err, action_error, ◌>>=◌, ◌>>◌, raise_if,
}
use enterprise_data_access_a.Base.Json.{Value, str, Fields, get_or}
use enterprise_data_access_a.Models.{Db, Grant, ObjectNode}
use enterprise_data_access_a.Broker.{validate_grant, fetch_credentials}
use enterprise_data_access_a.Broker.Store.{Vault}
use enterprise_data_access_a.Identity.{after_prefix}
use enterprise_data_access_a.Actions.{
  ActionDef, InputModel, Handler, high, Outcome, only_keys, run_handler, check_compatibility,
  validate_inputs,
}
use enterprise_data_access_a.Actions.Runner.{run_controlled, fields_of}
use enterprise_data_access_a.Actions.Native.{Client, inspect_native}

-- What `execute` reads of its surroundings: the settings, the clock at each check of the grant and
-- at the vault, and the libraries.
pub record Surroundings : Type 0 where
  pub is_aws : Bool
  pub max_output_bytes : ℕ
  pub validated_at : ℕ → ℕ
  pub fetched_at : ℕ
  pub parse : InputModel → Fields → Option Fields
  pub process : Handler → Value → String → Fields → ℕ → Option Fields
  pub encode : Value → String
  pub byte_size : String → ℕ
  pub ticket : String → String → String
  pub client : Value → Client

-- What `execute` returns.
pub record Executed : Type 0 where
  pub action : String
  pub resource : String
  pub execution_mode : String
  pub outcome : Outcome
  pub rollback : String
  pub blast_radius : String

-- The checks of the additional actions, one after the other.
unfoldable pub validate_all : Grant → List String → String → (ℕ → ℕ) → ℕ → Result (Unit {0})
validate_all grant [] resource now i = ok tt
validate_all grant (a ∷ as') resource now i = do
  validate_grant grant a resource (now i)
  validate_all grant as' resource now (suc i)

-- `action.risk == "high" or not action.read_only`
abbrev pub is_controlled : ActionDef → Bool
is_controlled action = elim action.risk [ high ↦ true | _ ↦ not action.read_only ]

abbrev pub is_native : Surroundings → ActionDef → Bool
is_native s action = s.is_aws && action.name == "inspect_instance"

-- `s.removeprefix("aws:")`
abbrev without_aws : String → String
without_aws s = elim (after_prefix "aws:" s) [ none ↦ s | some rest ↦ rest ]

abbrev text_of : Value → String
text_of (str s) = s
text_of _ = ""

abbrev pub native_id : ObjectNode → String
native_id target = without_aws (text_of (get_or target.attrs "native_id" (str "")))

abbrev pub executed : ActionDef → String → String → Outcome → Executed
executed action resource mode out = record {
  action = action.name;
  resource = resource;
  execution_mode = mode;
  outcome = out;
  rollback = action.rollback;
  blast_radius = action.blast_radius;
}

module _ (s : Surroundings) (db : Db) (action : ActionDef) (grant : Grant) (resource : String) where
  -- The statements in front of the handler, up to the credentials.
  unfoldable pub prepare : Option String → Fields → Result Fields
  unfolding validate_all
  prepare kind inputs = do
    raise_if (s.is_aws && not (elem action.name ("inspect_instance" ∷ "view_asset" ∷ [])))
        (action_error "native write adapters are not yet qualified")
    check_compatibility action kind
    validated ← validate_inputs s.parse action inputs
    validate_grant grant action.cloud_action resource (s.validated_at 0)
    validate_all grant action.additional_cloud_actions resource s.validated_at 1
    ok validated

  unfoldable pub run_native : Value → Option ObjectNode → Result Executed
  run_native credentials none = err (action_error "native target metadata unavailable")
  run_native credentials (some target) = do
    out ← inspect_native (s.client credentials) (native_id target)
    ok (executed action resource "native_read" out)

  -- `runner.run_controlled(...)`
  abbrev pub in_runner : Fields → Value → Result Outcome
  in_runner validated credentials =
      run_controlled s.encode s.byte_size s.max_output_bytes action.allowed_outputs
        (fields_of credentials)
        (s.process action.handler credentials resource validated action.timeout_seconds)

  -- What the process answers is checked, or a read runs here and its outputs are filtered.
  unfoldable pub run_action : Fields → Value → Result Executed
  unfolding run_native
  run_action validated credentials =
      if is_native s action
      then run_native credentials
          (find (λ o. o.name == resource && opt_eq o.tenant_id grant.tenant_id) db.objects)
      else (if is_controlled action
          then (do
            out ← in_runner validated credentials
            ok (executed action resource "controlled_runner" out))
          else let raw = run_handler s.ticket action.handler resource validated in
            ok (
              executed action resource "direct" (record {
                outputs = only_keys action.allowed_outputs raw.outputs;
                api_calls = raw.api_calls;
              })))

  unfoldable pub perform : Fields → Result Value × Vault → Result Executed × Vault
  unfolding run_action
  perform validated (err e, vault) = (err e, vault)
  perform validated (ok credentials, vault) = (run_action validated credentials, vault)

  -- `execute`
  unfoldable pub execute : Option String → Fields → Vault → Result Executed × Vault
  unfolding perform
  execute kind inputs vault = elim (prepare kind inputs) [
    | err e ↦ (err e, vault)
    | ok validated ↦ perform validated (fetch_credentials grant s.fetched_at vault)
  ]
