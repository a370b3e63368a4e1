-- ===== src/Broker/Issued.antt =====
-- What a grant that was issued is worth: its scope, its lifetime, and the credentials behind it.
use enterprise_data_access_a.Base.{
  ℕ, ◌≤◌, ◌+◌, String, Bool, false, ◌≡◌, refl, ◌∈◌, inl, inr, List, [], ◌∷◌, ok, raise_if,
  >>=-eq-ok, arith, any, elem, ltb, eq_iff, eq_refl, ◌⊎◌, grant_error,
}
use mathlib.Core.Path.{subst}
use enterprise_data_access_a.Base.Int.{ℤ, pos, ◌≤ℤ◌}
use enterprise_data_access_a.Base.Json.{Value}
use enterprise_data_access_a.Models.{Grant, seconds}
use enterprise_data_access_a.Broker.{
  add_seconds, Provider, Order, issue_grant, apply_obligations, first_occurrences, scope_of,
  grant_of, fetch_credentials,
}
use enterprise_data_access_a.Broker.Store.{Vault, fetched, put, fetch, entry-put}
use enterprise_data_access_a.Broker.Ttl.{
  add_seconds_mono, Bounds, is_read_only, apply_obligations-facts,
}

-- Nothing is added by listing each text once.
mem-first_occurrences :
    (a : String) (seen xs : List String) → a ∈ first_occurrences seen xs → a ∈ xs
unfolding first_occurrences
mem-first_occurrences a seen [] m = m
mem-first_occurrences a seen (x ∷ xs) m =
    ground (arith, mem-first_occurrences a (x ∷ seen) xs, mem-first_occurrences a seen xs)

-- And nothing is lost.
mem_of-first_occurrences :
    (a : String) (seen xs : List String)
    → a ∈ xs
    → elem a seen ≡ false
    → a ∈ first_occurrences seen xs
unfolding first_occurrences
mem_of-first_occurrences a seen [] m h = m
mem_of-first_occurrences a seen (x ∷ xs) m h = ground (
  arith,
  eq_iff x a,
  mem_of-first_occurrences a (x ∷ seen) xs,
  mem_of-first_occurrences a seen xs,
)

-- What an issued grant and its vault satisfy, for the order that asked for it.
pub record IsIssued (o : Order) (g : Grant) (vault : Vault) : Type 0 where
  pub not_revoked : g.revoked ≡ false
  pub for_subject : g.subject ≡ o.subject
  pub for_tenant : g.tenant_id ≡ o.tenant_id
  pub one_resource : g.scope.resources ≡ o.resource ∷ []
  pub actions_asked :
      (a : String) → a ∈ g.scope.actions → (a ≡ o.action) ⊎ (a ∈ o.additional_actions)
  pub actions_given :
      (a : String) → (a ≡ o.action) ⊎ (a ∈ o.additional_actions) → a ∈ g.scope.actions
  pub within_default : g.expires_at ≤ o.now + seconds o.default_ttl
  pub within_bounds :
      (b : Value) (n : ℤ) → b ∈ o.obligations → Bounds b n → g.expires_at ≤ add_seconds o.now n
  pub read_only : g.scope.read_only ≡ any is_read_only o.obligations
  pub credentials_die :
      (t : ℕ) (c : Value) → (fetch_credentials g t vault).0 ≡ ok c → t ≤ g.expires_at + seconds 1

-- The credentials that are put into a vault are released only until they expire.
fetch-put_le :
    (ref : String) (c d : Value) (e t : ℕ) (vault : Vault)
    → (fetch ref t (put ref c e vault)).0 ≡ ok d
    → t ≤ e
unfolding fetch fetched
fetch-put_le ref c d e t vault h = ground (arith, h, entry-put ref ref c e vault, eq_refl ref)

granted-IsIssued :
    (kind : String) (o : Order) (ttl : ℤ) (read_only : Bool) (c : Value) (expires : ℕ)
    (vault : Vault)
    → (ttl ≤ℤ pos o.default_ttl)
    → ((b : Value) (n : ℤ) → b ∈ o.obligations → Bounds b n → ttl ≤ℤ n)
    → read_only ≡ any is_read_only o.obligations
    → expires ≤ add_seconds o.now ttl + seconds 1
    → IsIssued o (grant_of o kind ttl read_only) (put o.credential_ref c expires vault)
unfolding grant_of scope_of fetch_credentials
granted-IsIssued kind o ttl read_only c expires vault short bounded marked dies = record {
  not_revoked = refl;
  for_subject = refl;
  for_tenant = refl;
  one_resource = refl;
  actions_asked = λ a m. elim (mem-first_occurrences a [] (o.action ∷ o.additional_actions) m) [
    | inl e ↦ inl (cc e)
    | inr later ↦ inr later
  ];
  actions_given = λ a asked.
      mem_of-first_occurrences a [] (o.action ∷ o.additional_actions)
        (elim asked [ inl e ↦ inl (cc e) | inr m ↦ inr m ]) refl;
  within_default = add_seconds_mono o.now ttl (pos o.default_ttl) short;
  within_bounds = λ b n m bound. add_seconds_mono o.now ttl n (bounded b n m bound);
  read_only = marked;
  credentials_die =
      λ t d h. let early = fetch-put_le o.credential_ref c d expires t vault h in omega arith;
}

-- If `issue_grant` returns a grant, it is for the subject, tenant and one resource of the order and
-- exactly its actions; it expires within the default lifetime and within every bound among the
-- obligations; it is read-only exactly if an obligation says so; and the vault releases its
-- credentials at most one second beyond its expiry.
pub issue_grant-IsIssued :
    (provider : Provider) (o : Order) (vault : Vault) (g : Grant) (vault' : Vault)
    → issue_grant provider o vault ≡ ok (g, vault')
    → IsIssued o g vault'
unfolding issue_grant
issue_grant-IsIssued provider o vault g vault' h =
    let lifetime = >>=-eq-ok (apply_obligations (pos o.default_ttl, false) o.obligations) _ h in
    let facts =
      apply_obligations-facts o.obligations (pos o.default_ttl) false lifetime.0.0 lifetime.0.1
        lifetime.1 in
    let issued =
      >>=-eq-ok
        (provider.issue_credentials o.subject (scope_of o lifetime.0.1) lifetime.0.0 o.session_tags)
        _ lifetime.2 in
    let check =
      >>=-eq-ok
        (raise_if (ltb (add_seconds o.now lifetime.0.0 + seconds 1) issued.0.1)
          (grant_error "broker returned a credential outliving the grant"))
        _ issued.2 in
    let given : ◌≡◌ {A = Grant × Vault}
        (
          grant_of o provider.kind lifetime.0.0 lifetime.0.1,
          put o.credential_ref issued.0.0 issued.0.1 vault,
        )
        (g, vault') =
      cc check.2 in
    subst (λ p. IsIssued o p.0 p.1) given
      (granted-IsIssued provider.kind o lifetime.0.0 lifetime.0.1 issued.0.0 issued.0.1 vault
        facts.0 facts.1 facts.2 (ground (arith, check.1)))
