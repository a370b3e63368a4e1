-- ===== src/Broker/Checks.antt =====
-- What `validate_grant` and `fetch_credentials` accept, and what a revocation leaves.
use enterprise_data_access_a.Base.{
  ℕ, ◌≤◌, String, false, ◌≡◌, ◌≢◌, ◌↔◌, ◌∈◌, refl, ok, run_checks-ok, arith, mem_of_elem,
  elem_of_mem, none, eq_refl,
}
use enterprise_data_access_a.Base.Json.{Value}
use enterprise_data_access_a.Models.{Grant}
use enterprise_data_access_a.Broker.{grant_checks, validate_grant, fetch_credentials, revoke_grant}
use enterprise_data_access_a.Broker.Store.{Vault, entry, fetch, remove, entry-remove}

-- A grant covers an action on a resource at an instant.
pub record Covers (g : Grant) (action resource : String) (now : ℕ) : Type 0 where
  pub live : g.revoked ≡ false
  pub in_time : now ≤ g.expires_at
  pub has_action : action ∈ g.scope.actions
  pub has_resource : resource ∈ g.scope.resources

-- `validate_grant` passes exactly when the grant is not revoked, has not expired, and lists both
-- the action and the resource.
pub validate_grant_iff :
    (g : Grant) (action resource : String) (now : ℕ)
    → (validate_grant g action resource now ≡ ok tt) ↔ Covers g action resource now
unfolding validate_grant
validate_grant_iff g action resource now = (
  λ h.
      let c = run_checks-ok (grant_checks g action resource now) h in
      record {
        live = c.0;
        in_time = ground (arith, c.1.0);
        has_action = mem_of_elem action g.scope.actions (ground (arith, c.1.1.0));
        has_resource = mem_of_elem resource g.scope.resources (ground (arith, c.1.1.1.0));
      },
  λ c. ground (
    arith,
    c.live,
    c.in_time,
    elem_of_mem action g.scope.actions c.has_action,
    elem_of_mem resource g.scope.resources c.has_resource,
  ),
)

-- Once revoked, a grant passes no validation and releases no credentials, neither through the row
-- nor by its reference in the vault.
pub revoke_grant_final :
    (g : Grant) (vault : Vault) (action resource : String) (now : ℕ)
    → let (g', vault') = revoke_grant g vault in
      (validate_grant g' action resource now ≢ ok tt)
      × ((c : Value) → (fetch_credentials g' now vault').0 ≢ ok c)
      × ((c : Value) → (fetch g.credential_ref now vault').0 ≢ ok c)
unfolding revoke_grant validate_grant fetch_credentials fetch
revoke_grant_final g vault action resource now =
    let gone : entry g.credential_ref (remove g.credential_ref vault) ≡ none =
      rw (entry-remove, eq_refl) refl in
    (λ e. cc, λ c e. cc, λ c e. ground (arith, gone, e))
