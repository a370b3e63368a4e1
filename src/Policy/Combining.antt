-- ===== src/Policy/Combining.antt =====
-- How matched rules combine: what `evaluate` decides depends only on which effects some matching
-- rule has, and an explicit deny comes before a required approval, which comes before an allow.
use enterprise_data_access_a.Base.{
  String, Bool, false, not, ◌&&◌, List, [], ◌∷◌, ◌≡◌, if◌then◌else◌, ok, ◌>>=◌, map_result,
  filter_result, is_empty, holds, any, filter_result-is_empty, any-filter_result, >>=-eq-ok, arith,
  if-cases, inl, inr,
}
use enterprise_data_access_a.Base.Json.{at_key, Value, obj, Fields}
use enterprise_data_access_a.Policy.{
  PolicyInput, Outcome, allowed, denied, approval_required, Decision, rule_matches, iterate,
  effect_is, combine, combine_denies, combine_approvals, combine_allows, summarise,
  join_descriptions, evaluate_document,
}

-- Some rule of the effect matches the input.
abbrev pub some_match : String → PolicyInput → List Value → Bool
some_match effect inp rules =
    any (λ r. holds (rule_matches inp r) && holds (effect_is effect r)) rules

-- The order of precedence, given what matched.
abbrev pub precedence : Bool → Bool → Bool → Bool → Outcome
precedence deny approval present allow =
    if deny
    then denied
    else if approval && not present
    then approval_required
    else if allow
    then allowed
    else denied

module _ (version input_hash : String) (inp : PolicyInput) where
  combine_allows-decision :
      (summary allows : List Value) (d : Decision)
      → combine_allows version input_hash inp summary allows ≡ ok d
      → d.decision ≡ (if not (is_empty allows) then allowed else denied)
  unfolding combine_allows
  combine_allows-decision summary [] d h = ground (arith, h)
  combine_allows-decision summary (r ∷ rs) d h = ground (arith, h)

  combine_approvals-decision :
      (matched summary needed : List Value) (d : Decision)
      → combine_approvals version input_hash inp matched summary needed ≡ ok d
      → d.decision
        ≡ precedence false
            (not (is_empty needed))
            inp.approval_present
            (any (λ r. holds (effect_is "allow" r)) matched)
  unfolding combine_approvals
  combine_approvals-decision matched summary needed d h =
      elim (if-cases (not (is_empty needed) && not inp.approval_present) _ _ h) [
        | inl (waits, e) ↦
            let reasons = >>=-eq-ok (join_descriptions needed) _ e in
            ground (arith, waits, reasons.2)
        | inr (passes, e) ↦
            let allows = >>=-eq-ok (filter_result (effect_is "allow") matched) _ e in
            ground (
              arith,
              passes,
              filter_result-is_empty (effect_is "allow") matched allows.0 allows.1,
              combine_allows-decision summary allows.0 d allows.2,
            )
      ]

  combine_denies-decision :
      (matched summary denies : List Value) (d : Decision)
      → combine_denies version input_hash inp matched summary denies ≡ ok d
      → d.decision
        ≡ precedence
            (not (is_empty denies))
            (any (λ r. holds (effect_is "require_approval" r)) matched)
            inp.approval_present
            (any (λ r. holds (effect_is "allow" r)) matched)
  unfolding combine_denies
  combine_denies-decision matched summary [] d h =
      let needed = >>=-eq-ok (filter_result (effect_is "require_approval") matched) _ h in
      rw (← filter_result-is_empty (effect_is "require_approval") matched needed.0 needed.1)
        (combine_approvals-decision matched summary needed.0 d needed.2)
  combine_denies-decision matched summary (r ∷ rs) d h =
      let reason = >>=-eq-ok (at_key r "description") _ h in ground (arith, reason.2)

  combine-decision :
      (matched : List Value) (d : Decision)
      → combine version input_hash inp matched ≡ ok d
      → d.decision
        ≡ precedence
            (any (λ r. holds (effect_is "deny" r)) matched)
            (any (λ r. holds (effect_is "require_approval" r)) matched)
            inp.approval_present
            (any (λ r. holds (effect_is "allow" r)) matched)
  unfolding combine
  combine-decision matched d h =
      let summary = >>=-eq-ok (map_result summarise matched) _ h in
      let denies = >>=-eq-ok (filter_result (effect_is "deny") matched) _ summary.2 in
      rw (← filter_result-is_empty (effect_is "deny") matched denies.0 denies.1)
        (combine_denies-decision matched summary.0 denies.0 d denies.2)

  -- If evaluating a document that lists `rules` returns a decision, the decision is: denied if a
  -- matching rule denies; else approval_required if a matching rule requires approval and none is
  -- present; else allowed if a matching rule allows; else denied.
  pub evaluate_document-precedence :
      (document : Fields) (listed : Value) (rules : List Value) (d : Decision)
      → at_key (obj document) "rules" ≡ ok listed
      → iterate listed ≡ ok rules
      → evaluate_document version input_hash inp document ≡ ok d
      → d.decision
        ≡ precedence
            (some_match "deny" inp rules)
            (some_match "require_approval" inp rules)
            inp.approval_present
            (some_match "allow" inp rules)
  unfolding evaluate_document
  evaluate_document-precedence document listed rules d el er h =
      let read : (do
        rs ← iterate listed
        matched ← filter_result (rule_matches inp) rs
        combine version input_hash inp matched)
          ≡ ok d =
        rw el at h in
      let chosen : (do
        matched ← filter_result (rule_matches inp) rules
        combine version input_hash inp matched)
          ≡ ok d =
        rw er at read in
      let matched = >>=-eq-ok (filter_result (rule_matches inp) rules) _ chosen in
      rw
        (
          ← any-filter_result (rule_matches inp) (λ r. holds (effect_is "deny" r)) rules matched.0
              matched.1,
          ← any-filter_result (rule_matches inp) (λ r. holds (effect_is "require_approval" r)) rules
              matched.0 matched.1,
          ← any-filter_result (rule_matches inp) (λ r. holds (effect_is "allow" r)) rules matched.0
              matched.1,
        )
        (combine-decision matched.0 d matched.2)
