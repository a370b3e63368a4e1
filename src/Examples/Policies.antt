-- ===== src/Examples/Policies.antt =====
-- The policy engine at concrete documents, inputs and tables. The digest here is constant.
use mathlib.Core.Path.{◌≡◌, refl}
use enterprise_data_access_a.Base.{String, true, false, not, ◌||◌, none, some, [], ◌∷◌, ok}
use enterprise_data_access_a.Base.Int.{pos}
use enterprise_data_access_a.Base.Json.{Value, obj, at_key, dict, str, arr, of_list}
use enterprise_data_access_a.Models.{Db, empty_db, PolicyRecord, draft, retired, active}
use enterprise_data_access_a.Audit.{Stamp}
use enterprise_data_access_a.Policy.{PolicyInput, Decision, evaluate_document, iterate}
use enterprise_data_access_a.Policy.Combining.{precedence, some_match, evaluate_document-precedence}
use enterprise_data_access_a.Policy.Total.{evaluate_document-total}
use enterprise_data_access_a.Policy.Document.{default_policy, default_rules}
use enterprise_data_access_a.Policy.Default.{
  default_policy_decides, default_rules-IsWellFormed, is_refused, is_sensitive,
}
use enterprise_data_access_a.Policy.Lifecycle.{activate_policy, propose_policy}
use enterprise_data_access_a.Policy.Lifecycle.Sole.{IsConsistent}
use enterprise_data_access_a.Policy.Lifecycle.Steps.{
  Activates, activate_policy-Activates, here, next, propose, activation, Reach-IsConsistent,
}

abbrev digest : Value → String
digest v = "h"

abbrev stamp : Stamp
stamp = record { id = "1"; ts = 5 }

-- A read of a production host with a case, in a session of low risk.
abbrev inp : PolicyInput
inp = record {
  subject = "ada";
  mfa = true;
  risk_score = some (pos 10);
  action_name = "inspect_instance";
  cloud_action = "ec2:DescribeInstances";
  read_only = true;
  risk = "low";
  resource = dict (("environment", str "production") ∷ []);
  access_path_exists = true;
  justification = dict (("case_id", str "INC-1") ∷ []);
  approval_present = false;
}

abbrev Decides : Type 0
Decides =
    (d : Decision) × (evaluate_document "v1" "h" inp default_policy ≡ ok d)
    × (d.decision
        ≡ precedence (is_refused inp) (not inp.read_only || is_sensitive inp) inp.approval_present
            true)

default_policy_decides_example : Decides
default_policy_decides_example = default_policy_decides "v1" "h" inp

abbrev listed : Value
listed = arr (of_list default_rules)

lists_rules : at_key (obj default_policy) "rules" ≡ ok (listed)
lists_rules = refl

has_rules : iterate listed ≡ ok default_rules
unfolding iterate
has_rules = refl

evaluate_document-total_example :
    (d : Decision) × (evaluate_document "v1" "h" inp default_policy ≡ ok d)
evaluate_document-total_example =
    evaluate_document-total "v1" "h" inp default_policy listed default_rules lists_rules has_rules
      default_rules-IsWellFormed

abbrev decided : Decision
decided = (default_policy_decides "v1" "h" inp).0

evaluate_document-precedence_example :
    decided.decision
    ≡ precedence
        (some_match "deny" inp default_rules)
        (some_match "require_approval" inp default_rules)
        inp.approval_present
        (some_match "allow" inp default_rules)
evaluate_document-precedence_example =
    evaluate_document-precedence "v1" "h" inp default_policy listed default_rules decided
      lists_rules has_rules (default_policy_decides "v1" "h" inp).1

abbrev stored : PolicyRecord
stored = record {
  id = "p1";
  version = "v1";
  document = default_policy;
  status = draft;
  checksum = "h";
  created_by = "ada";
  created_at = 1;
  activated_at = none;
}

abbrev with_draft : Db
with_draft = record empty_db { policies = stored ∷ [] }

abbrev with_retired : Db
with_retired = record empty_db {
  policies = record stored { status = retired; activated_at = some 3 } ∷ [];
}

empty_IsConsistent : IsConsistent []
empty_IsConsistent = record { one_active = tt; unique = tt }

draft_IsConsistent : IsConsistent with_draft.policies
draft_IsConsistent = record { one_active = (λ e. refl, tt); unique = (refl, refl, tt) }

activate_policy-Activates_example :
    Activates "v1" 9 with_draft (activate_policy digest "v1" "ada" 9 stamp with_draft)
activate_policy-Activates_example =
    activate_policy-Activates digest "ada" 9 stamp "v1" with_draft draft_IsConsistent

-- A proposal into the empty table, and its activation.
abbrev proposed : Db
proposed = (propose_policy digest default_policy "ada" "p1" 1 empty_db).1

Reach-IsConsistent_example :
    IsConsistent (activate_policy digest "v1" "ada" 9 stamp proposed).1.policies
Reach-IsConsistent_example = Reach-IsConsistent digest {start = empty_db} empty_IsConsistent (
    next (next here (propose empty_db default_policy "ada" "p1" 1 refl))
      (activation proposed "v1" "ada" 9 stamp))

-- A stored document that was edited: its checksum is another's.
abbrev edited_row : PolicyRecord
edited_row = record stored { checksum = "g" }

abbrev with_edited : Db
with_edited = record empty_db { policies = edited_row ∷ [] }

abbrev with_edited_active : Db
with_edited_active = record empty_db { policies = record edited_row { status = active } ∷ [] }
