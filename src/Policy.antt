-- ===== src/Policy.antt =====
-- beta/src/eda/policy.py, the evaluator: conditions, rules, and the combination of the matched
-- rules into a decision. A document and its rules are JSON, read as the code reads them.
pub mod Combining
pub mod Total
pub mod Document
pub mod Default
pub mod Proposal
pub mod Lifecycle
use enterprise_data_access_a.Base.{
  ℕ, String, Bool, true, false, not, ◌&&◌, Option, none, some, List, [], ◌∷◌, ◌++◌, map, ◌==◌,
  if◌then◌else◌, is_none, Result, ok, err, key_error, type_error, ◌>>=◌, map_result, filter_result,
  is_empty,
}
use enterprise_data_access_a.Base.Int.{ℤ, ltb_ℤ}
use enterprise_data_access_a.Base.Json.{
  of_list, Value, null, bool, num, str, arr, obj, Fields, end, field, Items, nil, cons, dict, py_eq,
  truthy, get, get_or, at_key, items, keys, int_of, lookup,
}

abbrev opt_num : Option ℤ → Value
opt_num none = null
opt_num (some n) = num n

-- The dict that the gateway builds for `evaluate`.
pub record PolicyInput : Type 0 where
  pub subject : String
  pub mfa : Bool
  pub risk_score : Option ℤ
  pub action_name : String
  pub cloud_action : String
  pub read_only : Bool
  pub risk : String
  pub resource : Fields
  pub access_path_exists : Bool
  pub justification : Fields
  pub approval_present : Bool

-- The same dict as JSON, which the hash of the input covers.
abbrev pub input_json : PolicyInput → Value
input_json inp = obj (
    dict (
      ("subject", str inp.subject)
      ∷ (
        "session",
        obj (dict (("mfa", bool inp.mfa) ∷ ("risk_score", opt_num inp.risk_score) ∷ [])),
      )
      ∷ (
        "action",
        obj (
            dict (
              ("name", str inp.action_name)
              ∷ ("cloud_action", str inp.cloud_action)
              ∷ ("read_only", bool inp.read_only)
              ∷ ("risk", str inp.risk)
              ∷ [])),
      )
      ∷ ("resource", obj inp.resource)
      ∷ ("access_path_exists", bool inp.access_path_exists)
      ∷ ("justification", obj inp.justification)
      ∷ ("approval_present", bool inp.approval_present)
      ∷ []))

pub data Outcome : Type 0 where
  allowed denied approval_required : Outcome

pub record Decision : Type 0 where
  pub decision : Outcome
  pub policy_version : String
  pub matched_rules : List Value
  pub obligations : List Value
  pub reason : Value
  pub input_hash : String

-- `risk is not None and risk > v`; a Boolean counts as a number, anything else cannot be compared.
unfoldable pub risk_above : Option ℤ → Value → Result Bool
risk_above none v = ok false
risk_above (some r) (num n) = ok (ltb_ℤ n r)
risk_above (some r) (bool b) = ok (ltb_ℤ (int_of b) r)
risk_above (some r) _ = err type_error

-- `_CONDITIONS.get(key)`
unfoldable pub condition : String → Option (PolicyInput → Value → Result Bool)
unfolding risk_above
condition key =
    if key == "access_path_exists"
    then some (λ inp v. ok (py_eq (bool inp.access_path_exists) v))
    else if key == "session_mfa"
    then some (λ inp v. ok (py_eq (bool inp.mfa) v))
    else if key == "session_risk_above"
    then some (λ inp v. risk_above inp.risk_score v)
    else if key == "session_risk_unknown"
    then some (λ inp v. ok (py_eq (bool (is_none inp.risk_score)) v))
    else if key == "action_read_only"
    then some (λ inp v. ok (py_eq (bool inp.read_only) v))
    else if key == "resource_environment"
    then some (λ inp v. ok (py_eq (get inp.resource "environment") v))
    else if key == "resource_classification"
    then some (λ inp v. ok (py_eq (get inp.resource "classification") v))
    else if key == "has_case_id"
    then some (λ inp v. ok (py_eq (bool (truthy (get inp.justification "case_id"))) v))
    else none

-- One condition; an unknown key never passes.
unfoldable pub condition_holds : String → Value → PolicyInput → Result Bool
condition_holds key expected inp = elim (condition key) [
  | none ↦ ok false
  | some test ↦ test inp expected
]

-- The loop over `rule["when"].items()`, which ends at the first condition that fails.
unfoldable pub conditions_hold : Fields → PolicyInput → Result Bool
conditions_hold end inp = ok true
conditions_hold (field key expected rest) inp = do
  holds ← condition_holds key expected inp
  let later = conditions_hold rest inp
  if holds then later else ok false

conditions_of : Value → PolicyInput → Result Bool
conditions_of (obj when) inp = conditions_hold when inp
conditions_of _ inp = err type_error

-- `_rule_matches`
unfoldable pub rule_matches : PolicyInput → Value → Result Bool
unfolding conditions_of
rule_matches inp rule = do when ← at_key rule "when"; conditions_of when inp

characters : String → List Value
characters String.[] = []
characters (String.◌∷◌ c s) = str (String.◌∷◌ c String.[]) ∷ characters s

-- `for x in v`: a list's items, an object's keys, a text's characters.
unfoldable pub iterate : Value → Result (List Value)
unfolding characters
iterate (arr xs) = ok (items xs)
iterate (obj fs) = ok (map str (keys fs))
iterate (str s) = ok (characters s)
iterate _ = err type_error

-- `r["effect"] == effect`
pub effect_is : String → Value → Result Bool
effect_is effect rule = do e ← at_key rule "effect"; ok (py_eq e (str effect))

summarise : Value → Result Value
summarise rule = do
  id ← at_key rule "id"
  effect ← at_key rule "effect"
  ok (obj (field "id" id (field "effect" effect end)))

-- `r.get("obligations", [])`
pub obligations_of : Value → Result (List Value)
unfolding iterate
obligations_of (obj fs) = iterate (get_or fs "obligations" (arr nil))
obligations_of _ = err type_error

-- `[o for r in allows for o in r.get("obligations", [])]`
all_obligations : List Value → Result (List Value)
unfolding obligations_of
all_obligations [] = ok []
all_obligations (r ∷ rs) = do os ← obligations_of r; rest ← all_obligations rs; ok (os ++ rest)

-- `"; ".join(r["description"] for r in rules)`
join_descriptions : List Value → Result (List Value)
join_descriptions [] = ok []
join_descriptions (r ∷ rs) = do
  d ← at_key r "description"
  rest ← join_descriptions rs
  elim d [ str s ↦ ok (str s ∷ rest) | _ ↦ err type_error ]

module _ (version input_hash : String) (inp : PolicyInput) where
  abbrev decision_of : Outcome → List Value → List Value → Value → Decision
  decision_of outcome summary os reason = record {
    decision = outcome;
    policy_version = version;
    matched_rules = summary;
    obligations = os;
    reason = reason;
    input_hash = input_hash;
  }

  -- The last stage: `allows`, or no rule that allows.
  combine_allows : List Value → List Value → Result Decision
  unfolding all_obligations
  combine_allows summary [] = ok (decision_of denied summary [] (str "no matching allow rule"))
  combine_allows summary (r ∷ rs) = do
    os ← all_obligations (r ∷ rs)
    reason ← at_key r "description"
    ok (decision_of allowed summary os reason)

  -- `approvals_needed`: the descriptions that the reason joins stand as a list.
  combine_approvals : List Value → List Value → List Value → Result Decision
  unfolding join_descriptions combine_allows effect_is
  combine_approvals matched summary needed =
      if not (is_empty needed) && not inp.approval_present
      then (do
        reasons ← join_descriptions needed
        ok (decision_of approval_required summary [] (arr (of_list reasons))))
      else (do allows ← filter_result (effect_is "allow") matched; combine_allows summary allows)

  combine_denies : List Value → List Value → List Value → Result Decision
  unfolding combine_approvals effect_is
  combine_denies matched summary [] = do
    needed ← filter_result (effect_is "require_approval") matched
    combine_approvals matched summary needed
  combine_denies matched summary (r ∷ rs) = do
    reason ← at_key r "description"
    ok (decision_of denied summary [] reason)

  -- Explicit deny, then required approval, then allow, then deny.
  pub combine : List Value → Result Decision
  unfolding summarise combine_denies effect_is
  combine matched = do
    summary ← map_result summarise matched
    denies ← filter_result (effect_is "deny") matched
    combine_denies matched summary denies

  -- `evaluate`, behind `active_policy`
  unfoldable pub evaluate_document : Fields → Result Decision
  unfolding iterate rule_matches combine
  evaluate_document document = do
    listed ← at_key (obj document) "rules"
    rules ← iterate listed
    matched ← filter_result (rule_matches inp) rules
    combine matched
