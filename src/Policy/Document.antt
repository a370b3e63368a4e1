-- ===== src/Policy/Document.antt =====
-- `DEFAULT_POLICY`, `validate_document` and the proposal's simulation of beta/src/eda/policy.py.
use enterprise_data_access_a.Base.{ℕ, String, true, false, List, [], ◌∷◌}
use enterprise_data_access_a.Base.Int.{pos}
use enterprise_data_access_a.Base.Json.{Value, bool, num, str, arr, obj, Fields, dict, of_list}

-- A rule as the document writes it; `extra` holds what only some rules have.
abbrev rule_with : String → String → String → List (String × Value) → List (String × Value) → Value
rule_with id description effect when extra = obj (
    dict (
      ("id", str id)
      ∷ ("description", str description)
      ∷ ("effect", str effect)
      ∷ ("when", obj (dict when))
      ∷ extra))

abbrev rule : String → String → String → List (String × Value) → Value
rule id description effect when = rule_with id description effect when []

abbrev obligations : List Value → List (String × Value)
obligations os = ("obligations", arr (of_list os)) ∷ []

abbrev pub obligation : String → Value
obligation kind = obj (dict (("type", str kind) ∷ []))

abbrev pub max_ttl : ℕ → Value
max_ttl n = obj (dict (("type", str "max_ttl_seconds") ∷ ("value", num (pos n)) ∷ []))

abbrev pub deny_unknown_risk_write : Value
deny_unknown_risk_write =
    rule "deny-unknown-risk-write" "Unknown session risk cannot authorize writes." "deny"
      (("session_risk_unknown", bool true) ∷ ("action_read_only", bool false) ∷ [])

abbrev pub deny_unknown_risk_sensitive : Value
deny_unknown_risk_sensitive =
    rule "deny-unknown-risk-sensitive" "Unknown session risk cannot authorize sensitive access."
      "deny"
      (("session_risk_unknown", bool true) ∷ ("resource_classification", str "sensitive") ∷ [])

abbrev pub deny_no_access_path : Value
deny_no_access_path =
    rule "deny-no-access-path" "No proven authority path means no access, ever." "deny"
      (("access_path_exists", bool false) ∷ [])

abbrev pub deny_missing_mfa : Value
deny_missing_mfa =
    rule "deny-missing-mfa" "All brokered authority requires MFA." "deny"
      (("session_mfa", bool false) ∷ [])

abbrev pub deny_high_risk_session : Value
deny_high_risk_session =
    rule "deny-high-risk-session" "Session risk score above 70 is not honored." "deny"
      (("session_risk_above", num (pos 70)) ∷ [])

abbrev pub deny_prod_without_case : Value
deny_prod_without_case =
    rule "deny-prod-without-case" "Production access requires a case/incident ID." "deny"
      (("resource_environment", str "production") ∷ ("has_case_id", bool false) ∷ [])

abbrev pub approval_for_writes : Value
approval_for_writes =
    rule "approval-for-writes" "Non-read-only actions require human approval." "require_approval"
      (("action_read_only", bool false) ∷ [])

abbrev pub approval_for_sensitive : Value
approval_for_sensitive =
    rule "approval-for-sensitive" "Sensitive-classified resources require human approval."
      "require_approval" (("resource_classification", str "sensitive") ∷ [])

abbrev pub allow_read_only : Value
allow_read_only =
    rule_with "allow-read-only" "Read-only actions over a proven path are allowed, short TTL."
      "allow" (("action_read_only", bool true) ∷ [])
      (obligations (max_ttl 900 ∷ obligation "read_only" ∷ []))

abbrev pub allow_approved_write : Value
allow_approved_write =
    rule_with "allow-approved-write"
      "Writes are allowed once approved; executed via controlled runner." "allow"
      (("action_read_only", bool false) ∷ [])
      (obligations (max_ttl 900 ∷ obligation "controlled_runner" ∷ []))

abbrev pub default_rules : List Value
default_rules =
    deny_unknown_risk_write ∷ deny_unknown_risk_sensitive ∷ deny_no_access_path ∷ deny_missing_mfa
    ∷ deny_high_risk_session ∷ deny_prod_without_case ∷ approval_for_writes ∷ approval_for_sensitive
    ∷ allow_read_only ∷ allow_approved_write ∷ []

abbrev pub default_version : String
default_version = "2026-09-06.1"

-- `DEFAULT_POLICY`
abbrev pub default_policy : Fields
default_policy =
    dict (("version", str default_version) ∷ ("rules", arr (of_list default_rules)) ∷ [])
