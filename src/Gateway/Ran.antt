-- ===== src/Gateway/Ran.antt =====
-- What an action of a request has left that `handle_request` in beta/src/eda/gateway.py ran: its
-- answer, and the call of `execute` behind it.
use mathlib.Core.Path.{◌≡◌, refl, subst, ap, sym, ◌∙◌}
use enterprise_data_access_a.Base.{
  String, Option, none, some, Result, ok, err, if-cases, inl, inr, some-injective, ok-injective,
}
use enterprise_data_access_a.Models.{Db, Grant, AuditFields}
use enterprise_data_access_a.Actions.Execute.{Executed, execute}
use enterprise_data_access_a.Broker.Store.{Vault}
use enterprise_data_access_a.Objects.{Context}
use enterprise_data_access_a.Gateway.{Env, Call, Authority}
use enterprise_data_access_a.Gateway.Finish.{
  Later, Trace, World, finish_with, is_execution_error, end_text,
}
use enterprise_data_access_a.Gateway.Handle.{
  conclude_execution, run, changed, with_grant_column, with_result_columns,
}

module _ (env : Env) (later : Later) (call : Call) where
  abbrev Answers : Authority → Option Grant → Option Context → Option Executed → Trace → Type 0
  Answers a g c r t =
      (t.action_result ≡ r) × (t.grant ≡ g) × (t.context ≡ c) × (t.response.outcome ≡ end_text r)

  -- What `finish` answers.
  finish_with-Answers :
      (a : Authority) (g : Option Grant) (c : Option Context) (r : Option Executed)
      (e : Option String) (columns : AuditFields) (w : World) (t : Trace) (w' : World)
      → finish_with env later call a g c r e columns w ≡ (ok t, w')
      → Answers a g c r t
  unfolding finish_with
  finish_with-Answers a g c r e columns w t w' h =
      subst (Answers a g c r) (ok-injective (ap (λ p. p.0) h)) (refl, refl, refl, refl)

  -- An answer without a result is not one with a result.
  pub finish_with-nothing :
      (a : Authority) (g : Option Grant) (c : Option Context) (e : Option String)
      (columns : AuditFields) (w : World) (t : Trace) (w' : World) (x : Executed) {P : Type 0}
      → finish_with env later call a g c none e columns w ≡ (ok t, w')
      → t.action_result ≡ some x
      → P
  finish_with-nothing a g c e columns w t w' x h hx =
      let same = (finish_with-Answers a g c none e columns w t w' h).0 in cc

  conclude_execution-ok :
      (a : Authority) (g : Grant) (c : Context) (r : Result Executed) (w : World) (t : Trace)
      (w' : World) (x : Executed)
      → conclude_execution env later call a g c r w ≡ (ok t, w')
      → t.action_result ≡ some x
      → (r ≡ ok x) × (t.response.outcome ≡ "allowed") × (t.grant ≡ some g) × (t.context ≡ some c)
  unfolding conclude_execution
  conclude_execution-ok a g c (err e) w t w' x h hx = elim (if-cases (is_execution_error e) _ _ h) [
    | inl (_, ended) ↦
        finish_with-nothing a _ _ _ (with_grant_column env later call a g) w t w' x ended hx
    | inr (_, other) ↦ absurd (cc)
  ]
  conclude_execution-ok a g c (ok y) w t w' x h hx =
      let (result, grant, context, outcome) =
        finish_with-Answers a _ _ _ _ (with_result_columns env later call a g c y) w t w' h in
      (ap ok (some-injective (sym result ∙ hx)), outcome, grant, context)

  -- What an executed action leaves of the steps in front of it.
  pub record Ran (kind : Option String) (a : Authority) (g : Grant) (c : Context) (t : Trace)
      (x : Executed) : Type 0 where
    pub db : Db
    pub vault : Vault
    pub executed :
        (execute later.surroundings db a.action g call.resource kind a.validated_inputs vault).0
        ≡ ok x
    pub answer : (t.response.outcome ≡ "allowed") × (t.grant ≡ some g) × (t.context ≡ some c)

  pub run-Ran :
      (kind : Option String) (a : Authority) (g : Grant) (c : Context) (w : World) (t : Trace)
      (w' : World) (x : Executed)
      → run env later call kind a g c w ≡ (ok t, w')
      → t.action_result ≡ some x
      → Ran kind a g c t x
  unfolding run
  run-Ran kind a g c w t w' x h hx =
      let (executed', outcome', grant', context') = conclude_execution-ok a g c _ _ t w' x h hx in
      record {
        db = w.db;
        vault = w.vault;
        executed = executed';
        answer = (outcome', grant', context');
      }

  pub changed-nothing :
      (a : Authority) (g : Grant) (c : Context) (w : World) (t : Trace) (w' : World) (x : Executed)
      {P : Type 0}
      → changed env later call a g c w ≡ (ok t, w')
      → t.action_result ≡ some x
      → P
  unfolding changed
  changed-nothing a g c w t w' x h hx = finish_with-nothing a _ _ _ a.columns w t w' x h hx
