-- ===== src/Gateway/Intent.antt =====
-- What the last steps of the authorization set: the authority, the operation, the spent approval.
use mathlib.Core.Path.{◌≡◌, refl, subst, ap, sym}
use enterprise_data_access_a.Base.{
  String, Bool, true, false, Option, none, some, [], ◌∷◌, ◌∈◌, inl, inr, ◌⊎◌, arith, Result, ok,
  err, if-cases, mem-append_right,
}
use enterprise_data_access_a.Base.Json.{Fields}
use enterprise_data_access_a.Models.{Db, AccessNode, Approval, Execution, AuditFields, authorized}
use enterprise_data_access_a.Identity.{SessionInfo}
use enterprise_data_access_a.Actions.{ActionDef}
use enterprise_data_access_a.Approvals.{consume}
use enterprise_data_access_a.Graph.{AccessPath}
use enterprise_data_access_a.Policy.{
  PolicyInput, Decision, Outcome, allowed, denied, approval_required,
}
use enterprise_data_access_a.Gateway.{Env, Call, Authority, Ending, goes_on, finish, policy_audit}
use enterprise_data_access_a.Gateway.Flow.{
  intent, spend, conclude, proceed, by_outcome, after_policy, is_policy_error, operation_of,
}

by_outcome-cases :
    {X : Type 0} (o : Outcome) (x y z : X) {r : X}
    → by_outcome o x y z ≡ r
    → ((o ≡ denied) × (x ≡ r)) ⊎ (((o ≡ approval_required) × (y ≡ r)) ⊎ ((o ≡ allowed) × (z ≡ r)))
by_outcome-cases denied x y z h = inl (refl, h)
by_outcome-cases approval_required x y z h = inr (inl (refl, h))
by_outcome-cases allowed x y z h = inr (inr (refl, h))

goes_on-injective :
    {x y : Authority} {d e : Db}
    → ◌≡◌ {A = Ending × Db} (goes_on x, d) (goes_on y, e)
    → (x ≡ y) × (d ≡ e)
goes_on-injective h = (cc, cc)

module _ (env : Env) (call : Call) where
  pub not_finished :
      (result : String) (error : Option String) (columns : AuditFields) (db : Db) (a : Authority)
      (db' : Db) {P : Type 0}
      → finish env call result error columns db ≡ (goes_on a, db')
      → P
  unfolding finish
  not_finished result error columns db a db' h = cc

  pub after_policy-goes_on :
      {A : Type 0} (prefix : String) (columns : AuditFields) (r : Result A × Db)
      (next : A → Db → Ending × Db) (a : Authority) (db' : Db)
      → after_policy env call prefix columns r next ≡ (goes_on a, db')
      → (x : A) × (d : Db) × (r ≡ (ok x, d)) × (next x d ≡ (goes_on a, db'))
  unfolding after_policy
  after_policy-goes_on prefix columns (ok x, d) next a db' h = (x, d, refl, h)
  after_policy-goes_on prefix columns (err e, d) next a db' h =
      elim (if-cases (is_policy_error env call e) _ _ h) [
        | inl (_, finished) ↦ not_finished _ _ columns d a db' finished
        | inr (_, other) ↦ cc
      ]

  -- The parts of the authority that `intent` sets.
  pub record IsIntent (principal : AccessNode) (session : SessionInfo) (action : ActionDef)
      (decision : Decision) (approval : Option Approval) (a : Authority) (db' : Db) : Type 0 where
    pub same_principal : a.principal ≡ principal
    pub same_session : a.session ≡ session
    pub same_action : a.action ≡ action
    pub same_decision : a.decision ≡ decision
    pub same_approval : a.approval ≡ approval
    pub is_recorded :
        action.read_only ≡ false
        → (x : Execution) × (a.operation ≡ some x) × (x ∈ db'.executions) × (x.state ≡ authorized)

  pub intent-IsIntent :
      (principal : AccessNode) (session : SessionInfo) (action : ActionDef) (validated : Fields)
      (hash : String) (decision : Decision) (approval : Option Approval) (columns : AuditFields)
      (db : Db) (a : Authority) (db' : Db)
      → intent env call principal session action validated hash decision approval columns db
        ≡ (goes_on a, db')
      → IsIntent principal session action decision approval a db'
  unfolding intent
  intent-IsIntent principal session action validated hash decision approval columns db a db' h =
      elim (if-cases action.read_only _ _ h) [
        | inl (reads, e) ↦
            let same = (goes_on-injective e).0 in
            record {
              same_principal = sym (ap (λ y. y.principal) same);
              same_session = sym (ap (λ y. y.session) same);
              same_action = sym (ap (λ y. y.action) same);
              same_decision = sym (ap (λ y. y.decision) same);
              same_approval = sym (ap (λ y. y.approval) same);
              is_recorded = λ writes. cc;
            }
        | inr (writes, e) ↦
            let (same, stored) = goes_on-injective e in
            record {
              same_principal = sym (ap (λ y. y.principal) same);
              same_session = sym (ap (λ y. y.session) same);
              same_action = sym (ap (λ y. y.action) same);
              same_decision = sym (ap (λ y. y.decision) same);
              same_approval = sym (ap (λ y. y.approval) same);
              is_recorded = λ w.
                  let x = operation_of env call principal session hash decision in
                  (
                    x,
                    sym (ap (λ y. y.operation) same),
                    subst (λ d. x ∈ d.executions) stored
                        (mem-append_right x db.executions (x ∷ []) (inl refl)),
                    refl,
                  );
            }
      ]

  proceed-goes_on :
      (principal : AccessNode) (session : SessionInfo) (action : ActionDef) (validated : Fields)
      (hash : String) (decision : Decision) (approval : Option Approval) (columns : AuditFields)
      (db : Db) (o : Option Db) (a : Authority) (db' : Db)
      → proceed env call principal session action validated hash decision approval columns db o
        ≡ (goes_on a, db')
      → (d : Db) × (o ≡ some d)
        × (intent env call principal session action validated hash decision approval columns d
            ≡ (goes_on a, db'))
  unfolding proceed
  proceed-goes_on principal session action validated hash decision approval columns db none a db'
        h =
      not_finished _ _ columns db a db' h
  proceed-goes_on principal session action validated hash decision approval columns db (some d) a
        db' h =
      (d, refl, h)

  pub conclude-allowed :
      (principal : AccessNode) (session : SessionInfo) (action : ActionDef) (validated : Fields)
      (hash : String) (path : Option AccessPath) (inp : PolicyInput) (approval : Option Approval)
      (decision : Decision) (db : Db) (a : Authority) (db' : Db)
      → conclude env call principal session action validated hash path inp approval decision db
        ≡ (goes_on a, db')
      → (decision.decision ≡ allowed)
        × (d : Db) × (spend env call approval inp.approval_present db ≡ some d)
        × (intent env call principal session action validated hash decision approval
              (policy_audit env call principal session path inp decision approval)
              d
            ≡ (goes_on a, db'))
  unfolding conclude
  conclude-allowed principal session action validated hash path inp approval decision db a db' h =
      let columns = policy_audit env call principal session path inp decision approval in
      elim (by_outcome-cases decision.decision _ _ _ h) [
        | inl (_, e) ↦ not_finished _ _ columns db a db' e
        | inr (inl (_, e)) ↦ not_finished _ _ columns _ a db' e
        | inr (inr (go, e)) ↦
            let (d, spent, rest) =
              proceed-goes_on principal session action validated hash decision approval columns db _
                a db' e in
            (go, d, spent, rest)
      ]

  pub spend-spent :
      (approval : Option Approval) (valid : Bool) (db d : Db)
      → spend env call approval valid db ≡ some d
      → (approval ≡ none → valid ≡ false)
      → valid ≡ true
      → (x : Approval) × (approval ≡ some x) × ((consume x.id (env.now 4) db.approvals).0 ≡ 1)
  unfolding spend
  spend-spent none valid db d h no_approval v = ground (arith, no_approval refl, v)
  spend-spent (some x) false db d h no_approval v = cc
  spend-spent (some x) true db d h no_approval v = (x, refl, ground (arith, h))
