-- ===== src/Policy/Default.antt =====
-- What the default policy decides, for every input.
use enterprise_data_access_a.Base.{
  [], String, Bool, true, false, not, ◌&&◌, ◌||◌, ◌≡◌, refl, ◌∙◌, ok, All, arith, holds, bool_units,
  none, some, is_none,
}
use enterprise_data_access_a.Base.Int.{pos, ltb_ℤ}
use enterprise_data_access_a.Base.Json.{
  items, end, field, Items, obj, Fields, Value, str, arr, py_eq, get, truthy, of_list,
}
use enterprise_data_access_a.Policy.{
  PolicyInput, Outcome, Decision, rule_matches, condition_holds, condition, conditions_hold,
  effect_is, evaluate_document, obligations_of, iterate,
}
use enterprise_data_access_a.Policy.Total.{AllComparable, IsWellFormed, evaluate_document-total}
use enterprise_data_access_a.Policy.Combining.{some_match, precedence, evaluate_document-precedence}
use enterprise_data_access_a.Policy.Document.{
  default_policy, default_rules, deny_unknown_risk_write, deny_unknown_risk_sensitive,
  deny_no_access_path, deny_missing_mfa, deny_high_risk_session, deny_prod_without_case,
  approval_for_writes, approval_for_sensitive, allow_read_only, allow_approved_write,
}

-- The session's risk is known and above 70.
abbrev pub is_high_risk : PolicyInput → Bool
is_high_risk inp = elim inp.risk_score [ none ↦ false | some r ↦ ltb_ℤ (pos 70) r ]

abbrev pub is_sensitive : PolicyInput → Bool
is_sensitive inp = py_eq (get inp.resource "classification") (str "sensitive")

abbrev pub is_production : PolicyInput → Bool
is_production inp = py_eq (get inp.resource "environment") (str "production")

abbrev pub has_case : PolicyInput → Bool
has_case inp = truthy (get inp.justification "case_id")

-- What the default policy refuses outright.
abbrev pub is_refused : PolicyInput → Bool
is_refused inp =
    is_none inp.risk_score && (not inp.read_only || is_sensitive inp)
    || not inp.access_path_exists
    || not inp.mfa
    || is_high_risk inp
    || is_production inp && not (has_case inp)

-- What a rule makes of an input.
abbrev matches : PolicyInput → Value → Bool
matches inp rule = holds (rule_matches inp rule)

module _ (inp : PolicyInput) where
  deny_unknown_risk_write-matches :
      matches inp deny_unknown_risk_write ≡ (is_none inp.risk_score && not inp.read_only)
  unfolding rule_matches conditions_hold condition_holds condition py_eq
  deny_unknown_risk_write-matches = ground arith

  deny_unknown_risk_sensitive-matches :
      matches inp deny_unknown_risk_sensitive ≡ (is_none inp.risk_score && is_sensitive inp)
  unfolding rule_matches conditions_hold condition_holds condition py_eq
  deny_unknown_risk_sensitive-matches = ground arith

  deny_no_access_path-matches : matches inp deny_no_access_path ≡ (not inp.access_path_exists)
  unfolding rule_matches conditions_hold condition_holds condition py_eq
  deny_no_access_path-matches = ground arith

  deny_missing_mfa-matches : matches inp deny_missing_mfa ≡ (not inp.mfa)
  unfolding rule_matches conditions_hold condition_holds condition py_eq
  deny_missing_mfa-matches = ground arith

  deny_high_risk_session-matches : matches inp deny_high_risk_session ≡ (is_high_risk inp)
  unfolding rule_matches conditions_hold condition_holds condition py_eq
  deny_high_risk_session-matches = ground arith

  deny_prod_without_case-matches :
      matches inp deny_prod_without_case ≡ (is_production inp && not (has_case inp))
  unfolding rule_matches conditions_hold condition_holds condition py_eq
  deny_prod_without_case-matches = ground arith

  approval_for_writes-matches : matches inp approval_for_writes ≡ (not inp.read_only)
  unfolding rule_matches conditions_hold condition_holds condition py_eq
  approval_for_writes-matches = ground arith

  approval_for_sensitive-matches : matches inp approval_for_sensitive ≡ (is_sensitive inp)
  unfolding rule_matches conditions_hold condition_holds condition py_eq
  approval_for_sensitive-matches = ground arith

  allow_read_only-matches : matches inp allow_read_only ≡ (inp.read_only)
  unfolding rule_matches conditions_hold condition_holds condition py_eq
  allow_read_only-matches = ground arith

  allow_approved_write-matches : matches inp allow_approved_write ≡ (not inp.read_only)
  unfolding rule_matches conditions_hold condition_holds condition py_eq
  allow_approved_write-matches = ground arith

  ruleset default_matches = (
    deny_unknown_risk_write-matches, deny_unknown_risk_sensitive-matches,
    deny_no_access_path-matches, deny_missing_mfa-matches, deny_high_risk_session-matches,
    deny_prod_without_case-matches, approval_for_writes-matches, approval_for_sensitive-matches,
    allow_read_only-matches, allow_approved_write-matches,
  )

  deny-default : some_match "deny" inp default_rules ≡ is_refused inp
  unfolding effect_is py_eq
  deny-default = simp (default_matches, bool_units) (ground arith)

  approval-default :
      some_match "require_approval" inp default_rules ≡ (not inp.read_only || is_sensitive inp)
  unfolding effect_is py_eq
  approval-default = simp (default_matches, bool_units) (ground arith)

  allow-default : some_match "allow" inp default_rules ≡ true
  unfolding effect_is py_eq
  allow-default = simp (default_matches, bool_units) (ground arith)

-- A rule as the default policy writes it.
abbrev written : String → String → String → Fields → Fields → Value
written id description effect when extra = obj (
    field "id" (str id) (
      field "description" (str description)
        (field "effect" (str effect) (field "when" (obj when) extra))))

written-IsWellFormed :
    {id description effect : String} {when : Fields}
    → AllComparable when
    → IsWellFormed (written id description effect when end)
unfolding obligations_of iterate
written-IsWellFormed {id} {description} {effect} {when} h = record {
  id = str id;
  has_id = refl;
  effect = str effect;
  has_effect = refl;
  description = description;
  has_description = refl;
  when = when;
  has_when = refl;
  comparable = h;
  obligations = [];
  has_obligations = refl;
}

-- The same with obligations.
obliging-IsWellFormed :
    {id description effect : String} {when : Fields} {os : Items}
    → AllComparable when
    → IsWellFormed (written id description effect when (field "obligations" (arr os) end))
unfolding obligations_of iterate
obliging-IsWellFormed {id} {description} {effect} {when} {os} h = record {
  id = str id;
  has_id = refl;
  effect = str effect;
  has_effect = refl;
  description = description;
  has_description = refl;
  when = when;
  has_when = refl;
  comparable = h;
  obligations = items os;
  has_obligations = refl;
}

pub default_rules-IsWellFormed : All IsWellFormed default_rules
default_rules-IsWellFormed = (
  written-IsWellFormed (ground arith),
  (
    written-IsWellFormed (ground arith),
    (
      written-IsWellFormed (ground arith),
      (
        written-IsWellFormed (ground arith),
        (
          written-IsWellFormed (ground arith),
          (
            written-IsWellFormed (ground arith),
            (
              written-IsWellFormed (ground arith),
              (
                written-IsWellFormed (ground arith),
                (obliging-IsWellFormed (ground arith), (obliging-IsWellFormed (ground arith), tt)),
              ),
            ),
          ),
        ),
      ),
    ),
  ),
)

-- Under the default policy every input gets a decision. It is denied if the risk is unknown and
-- the action writes or the resource is sensitive, if no access path exists, without MFA, above
-- risk 70, or in production without a case; otherwise a write or a sensitive resource without an
-- approval needs one; otherwise it is allowed.
pub default_policy_decides :
    (version input_hash : String) (inp : PolicyInput)
    → (d : Decision) × (evaluate_document version input_hash inp default_policy ≡ ok d)
      × (d.decision
          ≡ precedence
              (is_refused inp)
              (not inp.read_only || is_sensitive inp)
              inp.approval_present
              true)
unfolding iterate
default_policy_decides version input_hash inp =
    let (d, ed) =
      evaluate_document-total version input_hash inp default_policy (arr (of_list default_rules))
        default_rules refl refl default_rules-IsWellFormed in
    (
      d,
      ed,
      ap-precedence (
          evaluate_document-precedence version input_hash inp default_policy
            (arr (of_list default_rules)) default_rules d refl refl ed),
    )
  where
    ap-precedence :
        {o : Outcome}
        → o
          ≡ precedence
              (some_match "deny" inp default_rules)
              (some_match "require_approval" inp default_rules)
              inp.approval_present
              (some_match "allow" inp default_rules)
        → o
          ≡ precedence
              (is_refused inp)
              (not inp.read_only || is_sensitive inp)
              inp.approval_present
              true
    ap-precedence h = h ∙ (λ i.
        precedence (deny-default inp i) (approval-default inp i) inp.approval_present
          (allow-default inp i))
