-- ===== src/Actions.antt =====
-- beta/src/eda/actions.py: the closed registry of actions, what they apply to, and their execution
-- under a grant. The schema validation of pydantic is the argument `parse`, the runner's process
-- `run`; the outputs are the JSON objects that a handler or the process returns.
pub mod Runner
pub mod Native
pub mod Execute
pub mod Executed
pub mod Registry
use Prim.Native.String.{◌++◌ as concat}
use enterprise_data_access_a.Base.{
  ℕ, String, Bool, true, false, not, ◌&&◌, ◌||◌, Option, none, some, List, [], ◌∷◌, ◌==◌,
  if◌then◌else◌, find, any, elem, leb, map, Result, ok, err, Exception, action_error, ◌>>=◌, ◌>>◌,
  raise_if, is_ok,
}
use enterprise_data_access_a.Base.Json.{
  Value, null, str, arr, obj, Items, Fields, end, field, dict, of_list, get_or, get,
}
use enterprise_data_access_a.Models.{Grant}
use enterprise_data_access_a.Broker.{validate_grant, fetch_credentials}
use enterprise_data_access_a.Broker.Store.{Vault}

-- The three input schemas.
pub data InputModel : Type 0 where
  no_inputs open_ticket_inputs rotate_secret_inputs disable_access_inputs : InputModel

pub data Risk : Type 0 where
  low medium high : Risk

-- The five handlers.
pub data Handler : Type 0 where
  h_view_asset h_inspect_instance h_open_ticket h_rotate_secret h_disable_access : Handler

-- `ActionDef`
pub record ActionDef : Type 0 where
  pub name : String
  pub description : String
  pub cloud_action : String
  pub read_only : Bool
  pub risk : Risk
  pub blast_radius : String
  pub resource_kinds : List String
  pub additional_cloud_actions : List String
  pub provider : String
  pub input_model : InputModel
  pub allowed_outputs : List String
  pub rollback : String
  pub timeout_seconds : ℕ
  pub handler : Handler

abbrev pub view_asset : ActionDef
view_asset = record {
  name = "view_asset";
  description = "View an asset and its scoped object-graph context.";
  cloud_action = "ec2:DescribeInstances";
  read_only = true;
  risk = low;
  blast_radius = "none (read)";
  resource_kinds = "*" ∷ [];
  additional_cloud_actions = [];
  provider = "aws";
  input_model = no_inputs;
  allowed_outputs = "viewed" ∷ [];
  rollback = "n/a (read-only)";
  timeout_seconds = 30;
  handler = h_view_asset;
}

abbrev pub inspect_instance : ActionDef
inspect_instance = record {
  name = "inspect_instance";
  description = "Read-only investigation of an EC2 instance (incident workflow).";
  cloud_action = "ec2:DescribeInstances";
  read_only = true;
  risk = low;
  blast_radius = "none (read)";
  resource_kinds = "ec2_instance" ∷ [];
  additional_cloud_actions = "ec2:DescribeSecurityGroups" ∷ [];
  provider = "aws";
  input_model = no_inputs;
  allowed_outputs = "instance" ∷ "state" ∷ "security_groups" ∷ "launch_time" ∷ "mode" ∷ [];
  rollback = "n/a (read-only)";
  timeout_seconds = 30;
  handler = h_inspect_instance;
}

abbrev pub open_ticket : ActionDef
open_ticket = record {
  name = "open_ticket";
  description = "Open a tracking ticket linked to an object.";
  cloud_action = "ticketing:CreateTicket";
  read_only = false;
  risk = low;
  blast_radius = "one ticket record";
  resource_kinds = "*" ∷ [];
  additional_cloud_actions = [];
  provider = "ticketing";
  input_model = open_ticket_inputs;
  allowed_outputs = "ticket_id" ∷ "summary" ∷ [];
  rollback = "close ticket";
  timeout_seconds = 30;
  handler = h_open_ticket;
}

abbrev pub rotate_secret : ActionDef
rotate_secret = record {
  name = "rotate_secret";
  description = "Rotate a secret. High risk: dependent workloads must re-read it.";
  cloud_action = "secretsmanager:RotateSecret";
  read_only = false;
  risk = high;
  blast_radius = "all consumers of the secret";
  resource_kinds = "secret" ∷ [];
  additional_cloud_actions = [];
  provider = "aws";
  input_model = rotate_secret_inputs;
  allowed_outputs = "secret" ∷ "rotation" ∷ "executed_via" ∷ [];
  rollback = "restore previous secret version";
  timeout_seconds = 30;
  handler = h_rotate_secret;
}

abbrev pub disable_access : ActionDef
disable_access = record {
  name = "disable_access";
  description = "Disable a principal's access (containment).";
  cloud_action = "iam:DeactivateAccessKey";
  read_only = false;
  risk = high;
  blast_radius = "one principal's sessions";
  resource_kinds = "identity" ∷ "user" ∷ [];
  additional_cloud_actions = [];
  provider = "iam";
  input_model = disable_access_inputs;
  allowed_outputs = "target" ∷ "access" ∷ "executed_via" ∷ [];
  rollback = "reactivate key";
  timeout_seconds = 30;
  handler = h_disable_access;
}

-- `REGISTRY`
abbrev pub registry : List ActionDef
registry = view_asset ∷ inspect_instance ∷ open_ticket ∷ rotate_secret ∷ disable_access ∷ []

-- `get_action`
unfoldable pub get_action : String → Result ActionDef
get_action name = elim (find (λ a. a.name == name) registry) [
  | none ↦ err (action_error "unknown action ")
  | some a ↦ ok a
]

-- `check_compatibility`
unfoldable pub check_compatibility : ActionDef → Option String → Result (Unit {0})
check_compatibility action kind = if elem "*" action.resource_kinds then ok tt else elim kind [
  | none ↦ err (action_error "requires resource kind ")
  | some k ↦
      raise_if (not (elem k action.resource_kinds))
        (action_error "does not apply to resource kind ")
]

-- `validate_inputs`
unfoldable pub validate_inputs :
    (InputModel → Fields → Option Fields) → ActionDef → Fields → Result Fields
validate_inputs parse action inputs = elim (parse action.input_model inputs) [
  | none ↦ err (action_error "invalid inputs for ")
  | some fs ↦ ok fs
]

-- `{k: v for k, v in outputs.items() if k in allowed}`
unfoldable pub only_keys : List String → Fields → Fields
only_keys allowed end = end
only_keys allowed (field k v fs) =
    let rest = only_keys allowed fs in if elem k allowed then field k v rest else rest

abbrev call : String → String → Fields → Value
call service name params =
    obj (dict (("service", str service) ∷ ("call", str name) ∷ ("params", obj params) ∷ []))

abbrev one : String → Value → Fields
one k v = field k v end

-- The outputs and the API calls of a handler; the ticket's number is a hash that Python salts anew
-- in each process.
pub record Outcome : Type 0 where
  pub outputs : Fields
  pub api_calls : Value

unfoldable pub run_handler : (String → String → String) → Handler → String → Fields → Outcome
run_handler ticket h_view_asset resource inputs = record {
  outputs = one "viewed" (str resource);
  api_calls = arr Items.nil;
}
run_handler ticket h_inspect_instance resource inputs = record {
  outputs = dict (
      ("instance", str resource)
      ∷ ("state", str "running")
      ∷ ("security_groups", arr (of_list (str "sg-prod-web" ∷ [])))
      ∷ ("launch_time", str "2026-05-30T08:12:00Z")
      ∷ ("mode", str "read_only_inspection")
      ∷ []);
  api_calls = arr (
      of_list (
        call "ec2" "DescribeInstances" (one "InstanceIds" (arr (of_list (str resource ∷ []))))
        ∷ call "ec2" "DescribeSecurityGroups" (one "Filters" (str "instance"))
        ∷ []));
}
run_handler ticket h_open_ticket resource inputs = record {
  outputs = dict (
      (
        "ticket_id",
        str (ticket resource (elim (get_or inputs "summary" (str "")) [ str s ↦ s | _ ↦ "" ])),
      )
      ∷ ("summary", get_or inputs "summary" (str ""))
      ∷ []);
  api_calls = arr (of_list (call "ticketing" "CreateTicket" (one "resource" (str resource)) ∷ []));
}
run_handler ticket h_rotate_secret resource inputs = record {
  outputs = dict (
      ("secret", str resource)
      ∷ ("rotation", str "initiated")
      ∷ ("executed_via", str "controlled_runner")
      ∷ []);
  api_calls =
      arr (of_list (call "secretsmanager" "RotateSecret" (one "SecretId" (str resource)) ∷ []));
}
run_handler ticket h_disable_access resource inputs = record {
  outputs = dict (
      ("target", str resource)
      ∷ ("access", str "disabled")
      ∷ ("executed_via", str "controlled_runner")
      ∷ []);
  api_calls = arr (of_list (call "iam" "DeactivateAccessKey" (one "Target" (str resource)) ∷ []));
}
