-- ===== src/Gateway/Fresh.antt =====
-- What an operation of `handle_request` in beta/src/eda/gateway.py was checked for again, once it was
-- running: the steps from the grant to the execution.
use mathlib.Core.Path.{◌≡◌, refl, subst}
use enterprise_data_access_a.Base.{
  ◌≤◌, String, true, false, not, ◌||◌, Option, none, some, [], ◌∷◌, ◌++◌, ◌==◌, is_none, Result, ok,
  err, if-cases, eq_iff, arith, inl, inr, some-injective,
}
use enterprise_data_access_a.Base.Int.{pos}
use enterprise_data_access_a.Models.{Db, AccessNode, Grant, Approval, Execution, PolicyRecord}
use enterprise_data_access_a.Graph.{AccessPath, resolve_path}
use enterprise_data_access_a.Graph.Sound.{resolve_path-IsAuthorized}
use enterprise_data_access_a.Graph
use enterprise_data_access_a.Identity.{SessionInfo, map_principal}
use enterprise_data_access_a.Identity.Principal.{IsPrincipal, map_principal-IsPrincipal}
use enterprise_data_access_a.Actions.Execute.{Executed}
use enterprise_data_access_a.Approvals.{approver_holds}
use enterprise_data_access_a.Broker.Store.{Vault}
use enterprise_data_access_a.Objects.{Context}
use enterprise_data_access_a.Objects.Traversal.{scoped_context}
use enterprise_data_access_a.Policy.Lifecycle.{active_policy}
use enterprise_data_access_a.Gateway.{Env, Call, Authority, view_at}
use enterprise_data_access_a.Gateway.Finish.{Later, Trace, World, is_grant_error}
use enterprise_data_access_a.Gateway.Handle.{
  is_stale, with_policy, has_lost, with_fresh, start_running, with_operation, with_context,
  with_grant,
}
use enterprise_data_access_a.Gateway.Ran.{Ran, run-Ran, changed-nothing, finish_with-nothing}

module _ (env : Env) (later : Later) (call : Call) where
  -- What an operation's fresh checks have found, after its commit.
  pub record IsFresh (a : Authority) (d : Db) : Type 0 where
    pub session : SessionInfo
    pub is_verified : later.verify_again call.bearer_token ≡ ok session
    pub principal : AccessNode
    pub is_principal : IsPrincipal env.settings d (env.now 10) session principal
    pub path : AccessPath
    pub is_path :
        Graph.Sound.IsAuthorized d
          (view_at env call 11 a.session.tenant)
          a.principal.name
          a.action.cloud_action
          call.resource
          path
    pub policy : PolicyRecord
    pub after : Db
    pub is_policy :
        active_policy env.digest
          (env.settings.environment == "production")
          later.policy_id
          (env.now 12)
          d
        ≡ (ok policy, after)
    pub same_version : policy.version ≡ a.decision.policy_version
    pub approval_stands :
        (x : Approval)
        → a.approval ≡ some x
        → (env.now 13 ≤ x.expires_at)
          × (approver_holds
                (view_at env call 14 none)
                after
                x.approver
                x
                call.resource
                a.session.tenant
              ≡ true)

  is_stale-stands :
      (a : Authority) (db : Db) (o : Option Approval)
      → is_stale env later call a db o ≡ false
      → (y : Approval) → o ≡ some y
      → (env.now 13 ≤ y.expires_at)
        × (approver_holds (view_at env call 14 none) db y.approver y call.resource a.session.tenant
            ≡ true)
  unfolding is_stale
  is_stale-stands a db none h y e = absurd (cc)
  is_stale-stands a db (some z) h y e =
      subst
        (λ y.
          (env.now 13 ≤ y.expires_at)
          × (approver_holds (view_at env call 14 none) db y.approver y call.resource
                a.session.tenant
              ≡ true))
        (some-injective e) (ground (arith, h))

  not_none : {A : Type 0} (o : Option A) → is_none o ≡ false → (y : A) × (o ≡ some y)
  not_none none h = absurd (cc)
  not_none (some y) h = (y, refl)

  -- What the checks behind the active policy let pass.
  with_policy-Ran :
      (kind : Option String) (a : Authority) (g : Grant) (c : Context)
      (r : Result PolicyRecord × Db) (vault : Vault) (t : Trace) (w' : World) (x : Executed)
      → with_policy env later call kind a g c r vault ≡ (ok t, w')
      → t.action_result ≡ some x
      → (row : PolicyRecord) × (d : Db) × (r ≡ (ok row, d))
        × (row.version ≡ a.decision.policy_version)
        × (is_stale env later call a d a.approval ≡ false)
        × Ran env later call kind a g c t x
  unfolding with_policy
  with_policy-Ran kind a g c (err e, d) vault t w' x h hx = absurd (cc)
  with_policy-Ran kind a g c (ok row, d) vault t w' x h hx =
      elim (if-cases
        (not (row.version == a.decision.policy_version) || is_stale env later call a d a.approval) _
        _ h) [
          | inl (_, h') ↦ changed-nothing env later call a g c _ t w' x h' hx
          | inr (same, h') ↦ (
            row,
            d,
            refl,
            ground (arith, same, eq_iff row.version a.decision.policy_version),
            ground (arith, same),
            run-Ran env later call kind a g c _ t w' x h' hx,
          )
        ]

  -- What the fresh checks let pass.
  with_fresh-Ran :
      (kind : Option String) (a : Authority) (g : Grant) (c : Context) (r : Result SessionInfo)
      (w : World) (t : Trace) (w' : World) (x : Executed)
      → later.verify_again call.bearer_token ≡ r
      → with_fresh env later call kind a g c r w ≡ (ok t, w')
      → t.action_result ≡ some x
      → IsFresh a w.db × Ran env later call kind a g c t x
  unfolding with_fresh has_lost
  with_fresh-Ran kind a g c (err e) w t w' x is_r h hx = absurd (cc)
  with_fresh-Ran kind a g c (ok session) w t w' x is_r h hx =
      elim (if-cases (has_lost env later call a session w.db) _ _ h) [
        | inl (_, h') ↦ changed-nothing env later call a g c _ t w' x h' hx
        | inr (kept, h') ↦
            let (row, d, is_row, same, stands, ran) =
              with_policy-Ran kind a g c _ w.vault t w' x h' hx in
            let (p, mapped) =
              not_none (map_principal env.settings w.db (env.now 10) session)
                (ground (arith, kept)) in
            let (proof, found) =
              not_none
                (resolve_path w.db (view_at env call 11 a.session.tenant) a.principal.name
                  a.action.cloud_action call.resource)
                (ground (arith, kept)) in
            (
              record {
                session = session;
                is_verified = is_r;
                principal = p;
                is_principal =
                    map_principal-IsPrincipal env.settings w.db (env.now 10) session p mapped;
                path = proof;
                is_path =
                    resolve_path-IsAuthorized w.db (view_at env call 11 a.session.tenant)
                      a.principal.name a.action.cloud_action call.resource proof found;
                policy = row;
                after = d;
                is_policy = is_row;
                same_version = same;
                approval_stands = is_stale-stands a d a.approval stands;
              },
              ran,
            )
      ]

  with_operation-Ran :
      (kind : Option String) (a : Authority) (g : Grant) (c : Context) (o : Option Execution)
      (w : World) (t : Trace) (w' : World) (x : Executed)
      → with_operation env later call kind a g c o w ≡ (ok t, w')
      → t.action_result ≡ some x
      → ((op : Execution) → o ≡ some op → IsFresh a (start_running env later call op w.db))
        × Ran env later call kind a g c t x
  unfolding with_operation
  with_operation-Ran kind a g c none w t w' x h hx =
      (λ op e. absurd (cc), run-Ran env later call kind a g c w t w' x h hx)
  with_operation-Ran kind a g c (some op) w t w' x h hx =
      let (fresh, ran) = with_fresh-Ran kind a g c _ _ t w' x refl h hx in
      (
        λ op' e.
            subst (λ y. IsFresh a (start_running env later call y w.db)) (some-injective e) fresh,
        ran,
      )

  with_context-Ran :
      (kind : Option String) (a : Authority) (g : Grant) (r : Result Context) (w : World)
      (t : Trace) (w' : World) (x : Executed)
      → with_context env later call kind a g r w ≡ (ok t, w')
      → t.action_result ≡ some x
      → (c : Context) × (r ≡ ok c)
        × ((op : Execution)
            → a.operation ≡ some op
            → IsFresh a (start_running env later call op w.db))
        × Ran env later call kind a g c t x
  unfolding with_context
  with_context-Ran kind a g (err e) w t w' x h hx = absurd (cc)
  with_context-Ran kind a g (ok c) w t w' x h hx =
      let (fresh, ran) = with_operation-Ran kind a g c a.operation w t w' x h hx in
      (c, refl, fresh, ran)

  pub with_grant-Ran :
      (kind : Option String) (a : Authority) (r : Result (Grant × Vault)) (w : World) (t : Trace)
      (w' : World) (x : Executed)
      → with_grant env later call kind a r w ≡ (ok t, w')
      → t.action_result ≡ some x
      → (g : Grant) × (vault : Vault) × (c : Context) × (r ≡ ok (g, vault))
        × (scoped_context env.settings later.asked_at
              (record w.db { grants = w.db.grants ++ g ∷ [] })
              g
              (env.now 8)
              call.resource
              (pos 2)
            ≡ ok c)
        × ((op : Execution)
            → a.operation ≡ some op
            → IsFresh a
                (start_running env later call op (record w.db { grants = w.db.grants ++ g ∷ [] })))
        × Ran env later call kind a g c t x
  unfolding with_grant
  with_grant-Ran kind a (err e) w t w' x h hx = elim (if-cases (is_grant_error e) _ _ h) [
    | inl (_, ended) ↦ finish_with-nothing env later call a _ _ _ a.columns w t w' x ended hx
    | inr (_, other) ↦ absurd (cc)
  ]
  with_grant-Ran kind a (ok (g, vault)) w t w' x h hx =
      let (c, shown, fresh, ran) = with_context-Ran kind a g _ _ t w' x h hx in
      (g, vault, c, refl, shown, fresh, ran)
