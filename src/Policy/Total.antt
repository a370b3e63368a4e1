-- ===== src/Policy/Total.antt =====
-- Evaluation is total on documents whose rules are well formed.
use enterprise_data_access_a.Base.{
  String, true, false, List, [], ◌∷◌, ◌≡◌, refl, ok, ◌==◌, All, arith, is_ok, is_ok→eq,
  filter_result-is_ok, map_result-is_ok,
}
use enterprise_data_access_a.Base.Json.{
  at_key, Value, null, arr, bool, num, str, obj, Fields, end, field,
}
use enterprise_data_access_a.Policy.{
  PolicyInput, Decision, rule_matches, iterate, effect_is, condition_holds, condition,
  conditions_hold, combine, combine_denies, combine_approvals, combine_allows, summarise,
  evaluate_document, obligations_of, all_obligations, join_descriptions,
}

-- The value of a risk condition can be compared with a number.
abbrev pub IsComparable : String → Value → Type 0
IsComparable key (num n) = Unit
IsComparable key (bool b) = Unit
IsComparable key _ = (key == "session_risk_above") ≡ false

abbrev pub AllComparable : Fields → Type 0
AllComparable end = Unit
AllComparable (field key expected rest) = IsComparable key expected × AllComparable rest

-- What the evaluator reads of a rule is there.
pub record IsWellFormed (rule : Value) : Type 0 where
  pub id : Value
  pub has_id : at_key rule "id" ≡ ok id
  pub effect : Value
  pub has_effect : at_key rule "effect" ≡ ok effect
  pub description : String
  pub has_description : at_key rule "description" ≡ ok (str description)
  pub when : Fields
  pub has_when : at_key rule "when" ≡ ok (obj when)
  pub comparable : AllComparable when
  pub obligations : List Value
  pub has_obligations : obligations_of rule ≡ ok obligations

-- A rule that is read without an exception.
condition_holds-is_ok :
    (key : String) (v : Value) (inp : PolicyInput)
    → IsComparable key v
    → is_ok (condition_holds key v inp) ≡ true
unfolding condition_holds condition
condition_holds-is_ok key (num n) inp c = ground arith
condition_holds-is_ok key (bool b) inp c = ground arith
condition_holds-is_ok key (str s) inp c = ground arith
condition_holds-is_ok key null inp c = ground arith
condition_holds-is_ok key (arr xs) inp c = ground arith
condition_holds-is_ok key (obj fs) inp c = ground arith

conditions_hold-is_ok :
    (when : Fields) (inp : PolicyInput)
    → AllComparable when
    → is_ok (conditions_hold when inp) ≡ true
unfolding conditions_hold
conditions_hold-is_ok end inp c = refl
conditions_hold-is_ok (field key v rest) inp c =
    ground (arith, condition_holds-is_ok key v inp c.0, conditions_hold-is_ok rest inp c.1)

module _ (rule : Value) (w : IsWellFormed rule) where
  rule_matches-is_ok : (inp : PolicyInput) → is_ok (rule_matches inp rule) ≡ true
  unfolding rule_matches
  rule_matches-is_ok inp = rw w.has_when (conditions_hold-is_ok w.when inp w.comparable)

  effect_is-is_ok : (effect : String) → is_ok (effect_is effect rule) ≡ true
  unfolding effect_is
  effect_is-is_ok effect = rw w.has_effect refl

  summarise-is_ok : is_ok (summarise rule) ≡ true
  unfolding summarise
  summarise-is_ok = rw (w.has_id, w.has_effect) refl

all_obligations-is_ok :
    (rules : List Value) → All IsWellFormed rules → is_ok (all_obligations rules) ≡ true
unfolding all_obligations
all_obligations-is_ok [] w = refl
all_obligations-is_ok (r ∷ rs) w = ground (arith, w.0.has_obligations, all_obligations-is_ok rs w.1)

join_descriptions-is_ok :
    (rules : List Value) → All IsWellFormed rules → is_ok (join_descriptions rules) ≡ true
unfolding join_descriptions
join_descriptions-is_ok [] w = refl
join_descriptions-is_ok (r ∷ rs) w =
    rw w.0.has_description (ground (arith, join_descriptions-is_ok rs w.1))

module _ (version input_hash : String) (inp : PolicyInput) where
  combine_allows-is_ok :
      (summary allows : List Value)
      → All IsWellFormed allows
      → is_ok (combine_allows version input_hash inp summary allows) ≡ true
  unfolding combine_allows
  combine_allows-is_ok summary [] w = refl
  combine_allows-is_ok summary (r ∷ rs) w =
      rw w.0.has_description (ground (arith, all_obligations-is_ok (r ∷ rs) w))

  combine_approvals-is_ok :
      (matched summary needed : List Value)
      → All IsWellFormed matched
      → All IsWellFormed needed
      → is_ok (combine_approvals version input_hash inp matched summary needed) ≡ true
  unfolding combine_approvals
  combine_approvals-is_ok matched summary needed wm wn =
      let allows =
        filter_result-is_ok IsWellFormed (effect_is "allow") matched
          (λ r w. effect_is-is_ok r w "allow") wm in
      rw allows.1 (
        ground (
          arith,
          join_descriptions-is_ok needed wn,
          combine_allows-is_ok summary allows.0 allows.2,
        ))

  combine_denies-is_ok :
      (matched summary denies : List Value)
      → All IsWellFormed matched
      → All IsWellFormed denies
      → is_ok (combine_denies version input_hash inp matched summary denies) ≡ true
  unfolding combine_denies
  combine_denies-is_ok matched summary [] wm wd =
      let needed =
        filter_result-is_ok IsWellFormed (effect_is "require_approval") matched
          (λ r w. effect_is-is_ok r w "require_approval") wm in
      rw needed.1 (combine_approvals-is_ok matched summary needed.0 wm needed.2)
  combine_denies-is_ok matched summary (r ∷ rs) wm wd = rw wd.0.has_description refl

  combine-is_ok :
      (matched : List Value)
      → All IsWellFormed matched
      → is_ok (combine version input_hash inp matched) ≡ true
  unfolding combine
  combine-is_ok matched wm =
      let denies =
        filter_result-is_ok IsWellFormed (effect_is "deny") matched
          (λ r w. effect_is-is_ok r w "deny") wm in
      let (summary, es) =
        is_ok→eq _ (map_result-is_ok IsWellFormed summarise matched summarise-is_ok wm) in
      rw (es, denies.1) (combine_denies-is_ok matched summary denies.0 wm denies.2)

  -- If every rule that a document lists is well formed, evaluation returns a decision on every
  -- input: no rule raises.
  pub evaluate_document-total :
      (document : Fields) (listed : Value) (rules : List Value)
      → at_key (obj document) "rules" ≡ ok listed
      → iterate listed ≡ ok rules
      → All IsWellFormed rules
      → (d : Decision) × (evaluate_document version input_hash inp document ≡ ok d)
  unfolding evaluate_document
  evaluate_document-total document listed rules el er w =
      let matched =
        filter_result-is_ok IsWellFormed (rule_matches inp) rules
          (λ r wr. rule_matches-is_ok r wr inp) w in
      let (d, ed) = is_ok→eq _ (combine-is_ok matched.0 matched.2) in
      (d, rw el (rw er (rw matched.1 ed)))
