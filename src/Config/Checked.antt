-- ===== src/Config/Checked.antt =====
-- What a configuration that passes validation guarantees.
use enterprise_data_access_a.Base.{
  ℕ, ◌<◌, String, Bool, true, false, not, ◌&&◌, ◌||◌, ◌≡◌, ◌≢◌, ◌⊎◌, ok, eq_iff, arith, nonempty,
  All, eqb, run_checks-ok, any, List, [], ◌∷◌,
}
use enterprise_data_access_a.Config.{
  Settings, Url, validate, checks, is_safe_url, positive_settings, one_of,
}

All-positive : (ns : List ℕ) → any (λ n. eqb n 0) ns ≡ false → All (λ n. 0 < n) ns
All-positive [] h = tt
All-positive (n ∷ ns) h = ground (arith, All-positive ns)

known_modes :
    (m : String) → not (one_of m ("dev" ∷ "oidc" ∷ [])) ≡ false → (m ≡ "dev") ⊎ (m ≡ "oidc")
known_modes m h = ground (arith, eq_iff "dev" m, eq_iff "oidc" m)

guarded : {a b : Bool} → a ≡ true → (a && not b) ≡ false → b ≡ true
guarded h k = ground arith

-- Two texts that a guard found to be given.
given :
    (a : Bool) (s t : String)
    → a ≡ true
    → (a && (not (nonempty s) || not (nonempty t))) ≡ false
    → (s ≢ "") × (t ≢ "")
given a s t h k = (λ e. ground (arith, eq_iff s ""), λ e. ground (arith, eq_iff t ""))

module _ (urlsplit : String → Url) (strip : String → String) where
  -- The facts that a deployment relies on.
  pub record IsSafe (s : Settings) : Type 0 where
    pub not_production : s.environment ≢ "production"
    pub known_mode : (s.auth_mode ≡ "dev") ⊎ (s.auth_mode ≡ "oidc")
    pub oidc_urls :
        s.auth_mode ≡ "oidc"
        → (is_safe_url urlsplit strip s.oidc_issuer ≡ true)
          × (is_safe_url urlsplit strip s.oidc_jwks_url ≡ true)
    pub aws_ready : s.action_backend ≡ "aws" → (s.aws_role_arn ≢ "") × (s.aws_region ≢ "")
    pub positive : All (λ n. 0 < n) (positive_settings s)

  -- Settings that pass `validate` are not production; they use a known authentication mode, and
  -- OIDC only with HTTPS URLs without credentials; the AWS backend has a role and a region; every
  -- lifetime, limit and batch size is positive.
  pub validate-IsSafe : (s : Settings) → validate urlsplit strip s ≡ ok tt → IsSafe s
  unfolding validate
  validate-IsSafe s h =
      let c = run_checks-ok (checks urlsplit strip s) h in
      record {
        not_production = λ e. cc (c.1.1.1.1.1.1.1.1.1.1.0, (eq_iff s.environment "production").1 e);
        known_mode = known_modes s.auth_mode c.1.1.1.1.0;
        oidc_urls = λ e.
            let on = (eq_iff s.auth_mode "oidc").1 e in
            (guarded on c.1.1.1.1.1.0, guarded on c.1.1.1.1.1.1.0);
        aws_ready = λ e. given _ _ _ ((eq_iff s.action_backend "aws").1 e) c.1.0;
        positive = All-positive (positive_settings s) c.1.1.1.1.1.1.1.1.0;
      }
