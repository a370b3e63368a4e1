-- ===== src/Gateway/Closed.antt =====
-- How a request that `handle_request` of beta/src/eda/gateway.py lets pass to the broker ends when
-- it answers: its operation and the audit log.
use mathlib.Core.Path.{◌≡◌, refl, subst, ap, sym, ◌∙◌}
use enterprise_data_access_a.Base.{
  ℕ, String, Bool, not, ◌||◌, Option, none, some, List, [], ◌∷◌, ◌==◌, Result, ok, err, if-cases,
  Bool-cases, eq_iff, arith, inl, inr, some-injective, ok-injective, All, find, Option-cases,
}
use enterprise_data_access_a.Base.Json.{Fields}
use enterprise_data_access_a.Models.{
  is_active, Db, Grant, Execution, AuditFields, AuditRecord, PolicyRecord, is_active,
}
use enterprise_data_access_a.Audit.{append}
use enterprise_data_access_a.Identity.{SessionInfo}
use enterprise_data_access_a.Actions.Execute.{Executed}
use enterprise_data_access_a.Broker.Store.{Vault}
use enterprise_data_access_a.Objects.{Context}
use enterprise_data_access_a.Policy.Lifecycle.{find_active}
use enterprise_data_access_a.Policy.Lifecycle.Steps.{active_policy-same}
use enterprise_data_access_a.Gateway.{Env, Call, Authority, goes_on}
use enterprise_data_access_a.Gateway.Flow.{authorize}
use enterprise_data_access_a.Gateway.Finish.{
  Later, Trace, World, update_operation, end_state, close, finish_with, is_execution_error,
  is_grant_error, end_text,
}
use enterprise_data_access_a.Gateway.Handle.{
  conclude_execution, run, changed, is_stale, with_policy, has_lost, with_fresh, start_running,
  with_operation, with_context, with_grant, with_tags, after_authorization, handle_request,
  with_grant_column, with_result_columns,
}

-- The rows with an identifier after their update.
All-update_operation :
    (P : Execution → Type 0) (id : String) (f : Execution → Execution) (xs : List Execution)
    → ((x : Execution) → P (f x))
    → All (λ x. x.id ≡ id → P x) (update_operation id f xs)
unfolding update_operation
All-update_operation P id f [] h = tt
All-update_operation P id f (x ∷ xs) h = elim (Bool-cases (x.id == id)) [
  | inl same ↦ rw (same) (λ e. h x, All-update_operation P id f xs h)
  | inr other ↦
      rw (other)
        (λ e. absurd (ground (arith, eq_iff x.id id, e, other)), All-update_operation P id f xs h)
]

module _ (env : Env) (later : Later) (call : Call) where
  -- The log has exactly one more record, of the answer's outcome; an operation has succeeded where
  -- the answer has a result, and is of unknown outcome otherwise.
  pub record IsClosed (a : Authority) (log : List AuditRecord) (t : Trace) (w : World)
      : Type 0 where
    pub columns : AuditFields
    pub is_logged : w.db.audit ≡ append env.digest log later.stamp columns
    pub outcome : columns.result ≡ t.response.outcome
    pub correlation : columns.correlation_id ≡ env.correlation_id
    pub states :
        (op : Execution)
        → a.operation ≡ some op
        → All (λ x. x.id ≡ op.id → x.state ≡ end_state t.action_result) w.db.executions

  close-states :
      (o : Option Execution) (r : Option Executed) (e : Option String) (db : Db) (op : Execution)
      → o ≡ some op
      → All (λ x. x.id ≡ op.id → x.state ≡ end_state r) (close env later call o r e db).executions
  unfolding close
  close-states none r e db op h = absurd (cc)
  close-states (some o) r e db op h =
      subst
        (λ y.
          All (λ x. x.id ≡ y.id → x.state ≡ end_state r)
            (close env later call (some o) r e db).executions)
        (some-injective h)
        (All-update_operation (λ x. x.state ≡ end_state r) o.id _ db.executions (λ x. refl))

  close-audit :
      (o : Option Execution) (r : Option Executed) (e : Option String) (db : Db)
      → (close env later call o r e db).audit ≡ db.audit
  unfolding close
  close-audit none r e db = refl
  close-audit (some o) r e db = refl

  finish_with-IsClosed :
      (a : Authority) (g : Option Grant) (c : Option Context) (r : Option Executed)
      (e : Option String) (columns : AuditFields) (w : World) (t : Trace) (w' : World)
      → finish_with env later call a g c r e columns w ≡ (ok t, w')
      → IsClosed a w.db.audit t w'
  unfolding finish_with
  finish_with-IsClosed a g c r e columns w t w' h =
      let answer = ok-injective (ap (λ p. p.0) h) in
      let row = record columns {
        correlation_id = env.correlation_id;
        result = end_text r;
        error = e;
      } in
      record {
        columns = row;
        is_logged =
            sym (ap (λ p. p.1.db.audit) h)
            ∙ ap (λ log. append env.digest log later.stamp row) (close-audit a.operation r e w.db);
        outcome = ap (λ y. y.response.outcome) answer;
        correlation = refl;
        states = λ op is_op.
            subst (λ s. All (λ x. x.id ≡ op.id → x.state ≡ end_state s) w'.db.executions)
              (ap (λ y. y.action_result) answer)
              (subst (λ v. All (λ x. x.id ≡ op.id → x.state ≡ end_state r) v.db.executions)
                (ap (λ p. p.1) h) (close-states a.operation r e w.db op is_op));
      }

  conclude_execution-IsClosed :
      (a : Authority) (g : Grant) (c : Context) (r : Result Executed) (w : World) (t : Trace)
      (w' : World)
      → conclude_execution env later call a g c r w ≡ (ok t, w')
      → IsClosed a w.db.audit t w'
  unfolding conclude_execution
  conclude_execution-IsClosed a g c (err e) w t w' h =
      elim (if-cases (is_execution_error e) _ _ h) [
        | inl (_, ended) ↦
            finish_with-IsClosed a _ _ _ _ (with_grant_column env later call a g) w t w' ended
        | inr (_, other) ↦ absurd (cc)
      ]
  conclude_execution-IsClosed a g c (ok x) w t w' h =
      finish_with-IsClosed a _ _ _ _ (with_result_columns env later call a g c x) w t w' h

  run-IsClosed :
      (kind : Option String) (a : Authority) (g : Grant) (c : Context) (w : World) (t : Trace)
      (w' : World)
      → run env later call kind a g c w ≡ (ok t, w')
      → IsClosed a w.db.audit t w'
  unfolding run
  run-IsClosed kind a g c w t w' h = conclude_execution-IsClosed a g c _ _ t w' h

  changed-IsClosed :
      (a : Authority) (g : Grant) (c : Context) (w : World) (t : Trace) (w' : World)
      → changed env later call a g c w ≡ (ok t, w')
      → IsClosed a w.db.audit t w'
  unfolding changed
  changed-IsClosed a g c w t w' h = finish_with-IsClosed a _ _ _ _ a.columns w t w' h

  with_policy-IsClosed :
      (kind : Option String) (a : Authority) (g : Grant) (c : Context)
      (r : Result PolicyRecord × Db) (vault : Vault) (t : Trace) (w' : World)
      → with_policy env later call kind a g c r vault ≡ (ok t, w')
      → IsClosed a r.1.audit t w'
  unfolding with_policy
  with_policy-IsClosed kind a g c (err e, d) vault t w' h = absurd (cc)
  with_policy-IsClosed kind a g c (ok row, d) vault t w' h =
      elim (if-cases
        (not (row.version == a.decision.policy_version) || is_stale env later call a d a.approval) _
        _ h) [
          | inl (_, h') ↦ changed-IsClosed a g c _ t w' h'
          | inr (_, h') ↦ run-IsClosed kind a g c _ t w' h'
        ]

  -- The active policy is read without a trace in the log.
  find_active-audit :
      (production : Bool) (id : String) (now : ℕ) (db : Db)
      → (find_active env.digest production id now db).1.audit ≡ db.audit
  unfolding find_active
  find_active-audit production id now db = elim (Option-cases (find is_active db.policies)) [
    | inl e ↦ ground (arith, e)
    | inr (p, e) ↦ ground (arith, e)
  ]

  with_fresh-IsClosed :
      (kind : Option String) (a : Authority) (g : Grant) (c : Context) (r : Result SessionInfo)
      (w : World) (t : Trace) (w' : World)
      → with_fresh env later call kind a g c r w ≡ (ok t, w')
      → IsClosed a w.db.audit t w'
  unfolding with_fresh
  with_fresh-IsClosed kind a g c (err e) w t w' h = absurd (cc)
  with_fresh-IsClosed kind a g c (ok session) w t w' h =
      elim (if-cases (has_lost env later call a session w.db) _ _ h) [
        | inl (_, h') ↦ changed-IsClosed a g c w t w' h'
        | inr (_, h') ↦
            let production = env.settings.environment == "production" in
            let same =
              ap (λ d. d.audit)
                (active_policy-same env.digest production later.policy_id (env.now 12) w.db)
              ∙ find_active-audit production later.policy_id (env.now 12) w.db in
            subst (λ log. IsClosed a log t w') same
              (with_policy-IsClosed kind a g c _ w.vault t w' h')
      ]

  with_operation-IsClosed :
      (kind : Option String) (a : Authority) (g : Grant) (c : Context) (o : Option Execution)
      (w : World) (t : Trace) (w' : World)
      → with_operation env later call kind a g c o w ≡ (ok t, w')
      → IsClosed a w.db.audit t w'
  unfolding with_operation start_running
  with_operation-IsClosed kind a g c none w t w' h = run-IsClosed kind a g c w t w' h
  with_operation-IsClosed kind a g c (some op) w t w' h = with_fresh-IsClosed kind a g c _ _ t w' h

  with_context-IsClosed :
      (kind : Option String) (a : Authority) (g : Grant) (r : Result Context) (w : World)
      (t : Trace) (w' : World)
      → with_context env later call kind a g r w ≡ (ok t, w')
      → IsClosed a w.db.audit t w'
  unfolding with_context
  with_context-IsClosed kind a g (err e) w t w' h = absurd (cc)
  with_context-IsClosed kind a g (ok c) w t w' h =
      with_operation-IsClosed kind a g c a.operation w t w' h

  with_grant-IsClosed :
      (kind : Option String) (a : Authority) (r : Result (Grant × Vault)) (w : World) (t : Trace)
      (w' : World)
      → with_grant env later call kind a r w ≡ (ok t, w')
      → IsClosed a w.db.audit t w'
  unfolding with_grant
  with_grant-IsClosed kind a (err e) w t w' h = elim (if-cases (is_grant_error e) _ _ h) [
    | inl (_, ended) ↦ finish_with-IsClosed a _ _ _ _ a.columns w t w' ended
    | inr (_, other) ↦ absurd (cc)
  ]
  with_grant-IsClosed kind a (ok (g, vault)) w t w' h = with_context-IsClosed kind a g _ _ t w' h

  with_tags-IsClosed :
      (kind : Option String) (a : Authority) (r : Result Fields) (w : World) (t : Trace)
      (w' : World)
      → with_tags env later call kind a r w ≡ (ok t, w')
      → IsClosed a w.db.audit t w'
  unfolding with_tags
  with_tags-IsClosed kind a (err e) w t w' h = absurd (cc)
  with_tags-IsClosed kind a (ok tags) w t w' h = with_grant-IsClosed kind a _ w t w' h

  -- If `handle_request` lets a request pass to the broker and answers, it has written exactly one
  -- more audit record, with the answer's outcome and correlation identifier, and the rows of the
  -- request's operation are `succeeded` where the action was executed and `outcome_unknown`
  -- otherwise.
  pub handle_request-IsClosed :
      (w : World) (a : Authority) (db' : Db) (t : Trace) (w' : World)
      → authorize env call w.db ≡ (goes_on a, db')
      → handle_request env later call w ≡ (ok t, w')
      → IsClosed a db'.audit t w'
  unfolding handle_request after_authorization
  handle_request-IsClosed w a db' t w' passed h = with_tags-IsClosed _ a _ _ t w' (rw passed at h)
