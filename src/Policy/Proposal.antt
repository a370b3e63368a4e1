-- ===== src/Policy/Proposal.antt =====
-- `validate_document`, `_SIMULATION_INPUTS` and the checks that `propose_policy` makes on a document
-- (beta/src/eda/policy.py). An error message is its literal part.
use enterprise_data_access_a.Base.{
  String, Bool, true, false, not, ◌||◌, Option, none, some, List, [], ◌∷◌, ◌++◌, if◌then◌else◌,
  Result, ok, err, type_error, policy_error, ◌>>=◌, ◌>>◌, is_none, is_some, any, is_empty, nonempty,
  raise_if,
}
use enterprise_data_access_a.Base.Int.{ℤ, pos}
use enterprise_data_access_a.Base.Json.{
  Value, null, str, arr, obj, Fields, end, field, nil, cons, dict, items, keys, lookup, get, get_or,
  truthy, py_eq, at_key,
}
use enterprise_data_access_a.Policy.{PolicyInput, condition, rule_matches, iterate}

-- What may stand in a Python set.
abbrev hashable : Value → Bool
hashable (arr xs) = false
hashable (obj fs) = false
hashable _ = true

-- `_VALID_EFFECTS`
abbrev pub valid_effects : List Value
valid_effects = str "allow" ∷ str "deny" ∷ str "require_approval" ∷ []

-- `v in vs`
pub is_in : Value → List Value → Bool
is_in v vs = any (λ w. py_eq w v) vs

pub id_errors : List Value → Value → List String
unfolding is_in
id_errors seen id =
    if not (truthy id)
    then "id missing" ∷ []
    else if is_in id seen
    then "id duplicated" ∷ []
    else []

pub effect_errors : Value → List String
unfolding is_in
effect_errors effect = if is_in effect valid_effects then [] else "effect not allowed" ∷ []

-- `set(when) - set(_CONDITIONS)` is not empty
abbrev pub has_unknown : Fields → Bool
has_unknown when = any (λ key. is_none (condition key)) (keys when)

pub when_errors : Value → List String
when_errors (obj (field key v rest)) =
    if has_unknown (field key v rest) then "unknown condition keys" ∷ [] else []
when_errors _ = "when must be a non-empty object" ∷ []

abbrev pub is_obligation : Value → Bool
is_obligation (obj fs) = is_some (lookup "type" fs)
is_obligation _ = false

pub obligation_errors : List Value → List String
obligation_errors [] = []
obligation_errors (ob ∷ obs) =
    let rest = obligation_errors obs in
    if is_obligation ob then rest else "obligation without a type" ∷ rest

-- The body of the loop over the rules; `rule.get` fails on what is no object.
pub rule_errors : List Value → Value → Result (List String)
unfolding id_errors effect_errors when_errors obligation_errors
rule_errors seen (obj fs) = do
  raise_if (not (hashable (get fs "id")) || not (hashable (get fs "effect"))) type_error
  obs ← iterate (get_or fs "obligations" (arr nil))
  ok (
      id_errors seen (get fs "id")
      ++ (effect_errors (get fs "effect")
          ++ (when_errors (get fs "when") ++ obligation_errors obs)))
rule_errors seen _ = err type_error

-- `rule.get("id")`
abbrev pub id_of : Value → Value
id_of (obj fs) = get fs "id"
id_of _ = null

pub rules_errors : List Value → List Value → Result (List String)
unfolding rule_errors
rules_errors seen [] = ok []
rules_errors seen (r ∷ rs) = do
  here ← rule_errors seen r
  rest ← rules_errors (id_of r ∷ seen) rs
  ok (here ++ rest)

version_errors : Value → List String
version_errors (str s) = if nonempty s then [] else "version must be a non-empty string" ∷ []
version_errors _ = "version must be a non-empty string" ∷ []

abbrev pub validate_document : Fields → Result (List String)
unfolding version_errors rules_errors
validate_document document = elim (get document "rules") [
  | arr (cons r rs) ↦ do
    found ← rules_errors [] (items (cons r rs))
    ok (version_errors (get document "version") ++ found)
  | _ ↦ ok (version_errors (get document "version") ++ "rules must be a non-empty list" ∷ [])
]

-- `_SIMULATION_INPUTS`, in the order of its loops
abbrev sim_input : Bool → Option ℤ → Bool → Value → String → Bool → Fields → Bool → PolicyInput
sim_input mfa risk ro env cls path just ap = record {
  subject = "sim";
  mfa = mfa;
  risk_score = risk;
  action_name = "sim";
  cloud_action = "x:Y";
  read_only = ro;
  risk = "low";
  resource = dict (("name", str "sim") ∷ ("environment", env) ∷ ("classification", str cls) ∷ []);
  access_path_exists = path;
  justification = just;
  approval_present = ap;
}

abbrev both : List Bool
both = true ∷ false ∷ []

abbrev pub for_each {ℓ κ} : {A : Type ℓ} {B : Type κ} → List A → (A → List B) → List B
for_each [] f = []
for_each (x ∷ xs) f = f x ++ for_each xs f

abbrev pub simulation_inputs : List PolicyInput
simulation_inputs = for_each both λ mfa. for_each (none ∷ some (pos 0) ∷ some (pos 99) ∷ []) λ risk.
    for_each both λ ro. for_each (str "production" ∷ null ∷ []) λ env.
      for_each ("sensitive" ∷ "internal" ∷ []) λ cls. for_each both λ path.
        for_each (end ∷ dict (("case_id", str "SIM-1") ∷ []) ∷ [])
          λ just. for_each both λ ap. sim_input mfa risk ro env cls path just ap ∷ []

-- Every rule is matched against every input, and any exception ends the proposal.
pub run_rules : PolicyInput → List Value → Result (Unit {0})
run_rules inp [] = ok tt
run_rules inp (r ∷ rs) = do rule_matches inp r; run_rules inp rs

pub simulate : List PolicyInput → List Value → Result (Unit {0})
unfolding run_rules
simulate [] rules = ok tt
simulate (inp ∷ inps) rules = do run_rules inp rules; simulate inps rules

-- The checks of `propose_policy`, in order; `taken`: a record of the version is there already.
unfoldable pub check_proposal : Fields → Bool → Result (Unit {0})
unfolding simulate
check_proposal document taken = do
  errors ← validate_document document
  raise_if (not (is_empty errors)) (policy_error "invalid document")
  raise_if taken (policy_error "version already exists")
  listed ← at_key (obj document) "rules"
  rules ← iterate listed
  simulate simulation_inputs rules
