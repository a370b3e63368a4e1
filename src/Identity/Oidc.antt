-- ===== src/Identity/Oidc.antt =====
-- What `OidcIdentityProvider.verify` (beta/src/eda/identity_providers.py) lets a session claim.
use Prim.Native.String.{◌++◌ as concat}
use enterprise_data_access_a.Base.{
  run_checks-ok, run_checks, String, true, false, not, ◌&&◌, Option, none, some, List, ◌≡◌, refl,
  ok-injective, ◌∈◌, inl, inr, ◌⊎◌, arith, eq_iff, nonempty, any, or_split, any-witness, ok,
  >>=-eq-ok, ◌==◌,
}
use mathlib.Core.Path.{subst}
use enterprise_data_access_a.Base.Json.{Value, null, bool, str, arr, Items, Fields, get, get_or}
use enterprise_data_access_a.Identity.{
  last_checks, groups_of, check_acr, amr_of, first_checks, acr_counts, differs, is_mfa, SessionInfo,
  OidcConfig, verify_claims, is_text, text_or, text_list, or_invalid,
}

-- A claim is a text that is not blank.
abbrev pub IsText : (String → String) → Value → String → Type 0
IsText strip v s = (v ≡ str s) × (nonempty (strip s) ≡ true)

-- What a session may rest on, for the provider's configuration and the claims of the token.
pub record IsVouched (strip : String → String) (cfg : OidcConfig) (claims : Fields)
    (session : SessionInfo) : Type 0 where
  pub from_issuer : session.issuer ≡ cfg.issuer
  pub no_risk : session.risk_score ≡ null
  pub has_subject : IsText strip (get claims "sub") session.subject
  pub tenant : String
  pub in_tenant : session.tenant ≡ some tenant
  pub named_tenant : nonempty tenant ≡ true
  pub static_tenant : nonempty cfg.static_tenant ≡ true → tenant ≡ cfg.static_tenant
  pub external_subject : String
  pub has_external_subject : IsText strip (get claims cfg.external_id_claim) external_subject
  pub mapped : session.external_id ≡ some (concat cfg.provider_prefix (concat ":" external_subject))
  pub mfa_methods : List String
  pub listed_methods : text_list (get_or claims "amr" (arr Items.nil)) ≡ some mfa_methods
  pub assured :
      session.mfa ≡ bool true
      → ((m : String) × (m ∈ mfa_methods) × (m ∈ cfg.mfa_amr))
        ⊎ ((a : String) × (get claims "acr" ≡ str a) × (a ∈ cfg.mfa_acr))

any-equal : (a : String) (xs : List String) → any (λ x. x == a) xs ≡ true → a ∈ xs
any-equal a xs h =
    let (x, listed, same) = any-witness (λ x. x == a) xs h in
    subst (λ y. y ∈ xs) ((eq_iff x a).0 same) listed

is_text-IsText :
    (strip : String → String) (v : Value)
    → not (is_text strip v) ≡ false
    → IsText strip v (text_or v "")
is_text-IsText strip null h = cc
is_text-IsText strip (bool b) h = cc
is_text-IsText strip (Value.num n) h = cc
is_text-IsText strip (str s) h = ground (arith, h, eq_iff s "")
is_text-IsText strip (arr xs) h = cc
is_text-IsText strip (Value.obj fs) h = cc

or_invalid-ok :
    {A : Type 0} (o : Option A) (why : String) (a : A) → or_invalid o why ≡ ok a → o ≡ some a
or_invalid-ok none why a h = cc
or_invalid-ok (some b) why a h = cc

text_or-static :
    (v : Value) (s : String)
    → (nonempty s && differs v s) ≡ false
    → nonempty s ≡ true
    → text_or v s ≡ s
text_or-static null s h n = refl
text_or-static (bool b) s h n = refl
text_or-static (Value.num k) s h n = refl
text_or-static (str t) s h n = ground (arith, h, n, eq_iff t s)
text_or-static (arr xs) s h n = refl
text_or-static (Value.obj fs) s h n = refl

acr_counts-some :
    (acr : Value) (acrs : List String)
    → acr_counts acr acrs ≡ true
    → (a : String) × (acr ≡ str a) × (a ∈ acrs)
acr_counts-some null acrs h = cc
acr_counts-some (bool b) acrs h = cc
acr_counts-some (Value.num n) acrs h = cc
acr_counts-some (str s) acrs h = (s, refl, any-equal s acrs h)
acr_counts-some (arr xs) acrs h = cc
acr_counts-some (Value.obj fs) acrs h = cc

is_mfa-assured :
    (strip : String → String) (cfg : OidcConfig) (methods : List String) (acr : Value)
    → is_mfa strip cfg methods acr ≡ true
    → ((m : String) × (m ∈ methods) × (m ∈ cfg.mfa_amr))
      ⊎ ((a : String) × (acr ≡ str a) × (a ∈ cfg.mfa_acr))
is_mfa-assured strip cfg methods acr h =
    elim (or_split (any (λ a. any (λ m. m == a) cfg.mfa_amr) methods) (acr_counts acr cfg.mfa_acr)
      h) [
        | inl by_amr ↦
            let (m, listed, wanted) =
              any-witness (λ a. any (λ m. m == a) cfg.mfa_amr) methods by_amr in
            inl (m, listed, any-equal m cfg.mfa_amr wanted)
        | inr by_acr ↦ inr (acr_counts-some acr cfg.mfa_acr by_acr)
      ]

-- If `verify` accepts the claims of a token, the session's issuer is the configured one and its
-- risk is unknown; its subject and external identifier are claims that are texts and not blank;
-- its tenant is not empty, and the configured one where one is configured; and it says MFA only if
-- the token lists an accepted method or an accepted context class.
pub verify_claims-IsVouched :
    (strip : String → String) (cfg : OidcConfig) (fallback : String) (claims : Fields)
    (session : SessionInfo)
    → verify_claims strip cfg fallback claims ≡ ok session
    → IsVouched strip cfg claims session
unfolding verify_claims
verify_claims-IsVouched strip cfg fallback claims session h =
    let first = >>=-eq-ok (run_checks (first_checks strip cfg claims)) _ h in
    let amr = >>=-eq-ok (amr_of strip cfg claims) _ first.2 in
    let acr = >>=-eq-ok (check_acr strip cfg (get claims "acr")) _ amr.2 in
    let groups = >>=-eq-ok (groups_of strip cfg claims) _ acr.2 in
    let last = >>=-eq-ok (run_checks (last_checks strip cfg claims)) _ groups.2 in
    let c = run_checks-ok (first_checks strip cfg claims) first.1 in
    let d = run_checks-ok (last_checks strip cfg claims) last.1 in
    subst (IsVouched strip cfg claims) (ok-injective last.2) (record {
      from_issuer = refl;
      no_risk = refl;
      has_subject = is_text-IsText strip (get claims "sub") c.0;
      tenant = text_or (get claims cfg.tenant_claim) cfg.static_tenant;
      in_tenant = refl;
      named_tenant = ground (arith, c.1.1.1.0);
      static_tenant = text_or-static (get claims cfg.tenant_claim) cfg.static_tenant c.1.1.0;
      external_subject = text_or (get claims cfg.external_id_claim) "";
      has_external_subject = is_text-IsText strip (get claims cfg.external_id_claim) d.1.1.0;
      mapped = refl;
      mfa_methods = amr.0;
      listed_methods =
          or_invalid-ok (text_list (get_or claims "amr" (arr Items.nil))) _ amr.0 amr.1;
      assured = λ yes. is_mfa-assured strip cfg amr.0 (get claims "acr") (cc yes);
    })
