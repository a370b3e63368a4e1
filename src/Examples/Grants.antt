-- ===== src/Examples/Grants.antt =====
-- Grants and their credentials at concrete orders.
use mathlib.Core.Path.{◌≡◌, refl}
use enterprise_data_access_a.Base.{false, some, [], ◌∷◌, ok, ◌↔◌, ◌≢◌}
use enterprise_data_access_a.Base.Int.{pos}
use enterprise_data_access_a.Base.Json.{Value, py_eq, end, obj, dict, str, num, null}
use enterprise_data_access_a.Models.{Grant}
use enterprise_data_access_a.Broker.{
  Order, Provider, issue_grant, grant_of, apply_obligations, validate_grant, revoke_grant,
  fetch_credentials, apply_obligation,
}
use enterprise_data_access_a.Broker.Store.{Vault, put, fetch}
use enterprise_data_access_a.Broker.Issued.{IsIssued, issue_grant-IsIssued}
use enterprise_data_access_a.Broker.Checks.{Covers, validate_grant_iff, revoke_grant_final}

abbrev bound : Value
bound = obj (dict (("type", str "max_ttl_seconds") ∷ ("value", num (pos 600)) ∷ []))

abbrev order : Order
order = record {
  subject = "ada";
  action = "ec2:DescribeInstances";
  resource = "web-1";
  obligations = bound ∷ [];
  session_tags = end;
  correlation_id = "c1";
  tenant_id = some "local";
  additional_actions = "ec2:DescribeSecurityGroups" ∷ [];
  default_ttl = 900;
  now = 7;
  grant_id = "g1";
  credential_ref = "vault:1";
}

-- Credentials that expire with the grant.
abbrev provider : Provider
provider = record {
  kind = "fixed";
  issue_credentials = λ subject scope ttl tags. ok (null, 600000007);
}

abbrev grant : Grant
grant = grant_of order "fixed" (pos 600) false

abbrev vault : Vault
vault = put "vault:1" null 600000007 []

issued : issue_grant provider order [] ≡ ok (grant, vault)
unfolding issue_grant apply_obligations apply_obligation py_eq
issued = refl

issue_grant-IsIssued_example : IsIssued order grant vault
issue_grant-IsIssued_example = issue_grant-IsIssued provider order [] grant vault issued

validate_grant_iff_example :
    (validate_grant grant "ec2:DescribeInstances" "web-1" 8 ≡ ok tt)
    ↔ Covers grant "ec2:DescribeInstances" "web-1" 8
validate_grant_iff_example = validate_grant_iff grant "ec2:DescribeInstances" "web-1" 8

revoke_grant_final_example :
    let (g', vault') = revoke_grant grant vault in
    (validate_grant g' "ec2:DescribeInstances" "web-1" 8 ≢ ok tt)
    × ((c : Value) → (fetch_credentials g' 8 vault').0 ≢ ok c)
    × ((c : Value) → (fetch grant.credential_ref 8 vault').0 ≢ ok c)
revoke_grant_final_example = revoke_grant_final grant vault "ec2:DescribeInstances" "web-1" 8
