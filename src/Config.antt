-- ===== src/Config.antt =====
-- beta/src/eda/config.py: the settings and their validation. Whole numbers are natural: a setting
-- that is not positive stands as 0, which `validate` refuses like any other such number.
-- `urllib.parse.urlsplit` is the argument `urlsplit`.
pub mod Checked
use Prim.Native.String.{◌++◌ as concat}
use enterprise_data_access_a.Base.{
  ℕ, String, Bool, true, false, not, ◌&&◌, ◌||◌, Option, none, some, List, [], ◌∷◌, ◌==◌, nonempty,
  truthy_text, any, eqb, is_some, Result, ok, err, value_error, Exception, run_checks,
}

pub record Settings : Type 0 where
  pub oidc_native_id_prefix : String
  pub oidc_directory_source : String
  pub action_backend : String
  pub aws_role_arn : String
  pub aws_region : String
  pub runner_backend : String
  pub runner_image : String
  pub environment : String
  pub database_url : String
  pub token_secret : String
  pub session_ttl_seconds : ℕ
  pub grant_default_ttl_seconds : ℕ
  pub auth_mode : String
  pub oidc_issuer : String
  pub oidc_audience : String
  pub oidc_jwks_url : String
  pub oidc_provider_prefix : String
  pub oidc_tenant_claim : String
  pub oidc_static_tenant : String
  pub oidc_external_id_claim : String
  pub oidc_groups_claim : String
  pub oidc_mfa_amr : String
  pub oidc_mfa_acr : String
  pub approval_ttl_seconds : ℕ
  pub runner_timeout_seconds : ℕ
  pub runner_max_output_bytes : ℕ
  pub audit_anchor_path : String
  pub audit_trusted_public_keys : String
  pub audit_anchor_max_age : ℕ
  pub audit_anchor_min_seq : ℕ
  pub audit_anchor_key : String
  pub ingest_max_batch : ℕ
  pub source_max_age_seconds : ℕ

-- The values that the fields take where the environment sets none.
abbrev pub default_settings : Settings
default_settings = record {
  oidc_native_id_prefix = "";
  oidc_directory_source = "";
  action_backend = "mock";
  aws_role_arn = "";
  aws_region = "";
  runner_backend = "process";
  runner_image = "";
  environment = "dev";
  database_url = "sqlite:///./eda.db";
  token_secret = "dev-only-secret-change-me";
  session_ttl_seconds = 3600;
  grant_default_ttl_seconds = 900;
  auth_mode = "dev";
  oidc_issuer = "";
  oidc_audience = "";
  oidc_jwks_url = "";
  oidc_provider_prefix = "oidc";
  oidc_tenant_claim = "tid";
  oidc_static_tenant = "";
  oidc_external_id_claim = "sub";
  oidc_groups_claim = "groups";
  oidc_mfa_amr = "mfa";
  oidc_mfa_acr = "";
  approval_ttl_seconds = 3600;
  runner_timeout_seconds = 30;
  runner_max_output_bytes = 262144;
  audit_anchor_path = "./audit_anchors.jsonl";
  audit_trusted_public_keys = "";
  audit_anchor_max_age = 3600;
  audit_anchor_min_seq = 1;
  audit_anchor_key = "";
  ingest_max_batch = 1000;
  source_max_age_seconds = 604800;
}

abbrev pub one_of : String → List String → Bool
one_of s options = any (λ o. o == s) options

-- `demo_enabled`
unfoldable pub demo_enabled : Settings → Bool
demo_enabled s = one_of s.environment ("dev" ∷ "test" ∷ []) && s.auth_mode == "dev"

-- What must be positive.
abbrev pub positive_settings : Settings → List ℕ
positive_settings s =
    s.session_ttl_seconds ∷ s.grant_default_ttl_seconds ∷ s.approval_ttl_seconds
    ∷ s.runner_timeout_seconds ∷ s.runner_max_output_bytes ∷ s.ingest_max_batch
    ∷ s.source_max_age_seconds ∷ []

-- What `urlsplit` finds in a text.
pub record Url : Type 0 where
  pub scheme : String
  pub hostname : Option String
  pub username : Option String
  pub password : Option String

-- `value.strip()` is the argument `strip`.
module _ (urlsplit : String → Url) (strip : String → String) where
  abbrev pub is_safe_url : String → Bool
  is_safe_url value =
      let url = urlsplit value in
      url.scheme == "https"
      && (truthy_text url.hostname
          && (not (truthy_text url.username) && not (truthy_text url.password)))

  -- The `if` statements of `validate`, each with what it raises, in order.
  abbrev pub checks : Settings → List (Bool × Exception)
  checks s =
      (not (one_of s.action_backend ("mock" ∷ "aws" ∷ [])), value_error "unknown action backend")
      ∷ (
        s.action_backend == "aws" && (not (nonempty s.aws_role_arn) || not (nonempty s.aws_region)),
        value_error "AWS action backend requires role ARN and region",
      )
      ∷ (
        not (one_of s.runner_backend ("process" ∷ "docker" ∷ [])),
        value_error "unknown runner backend",
      )
      ∷ (
        not (one_of s.environment ("dev" ∷ "test" ∷ "production" ∷ [])),
        value_error "EDA_ENV must be dev, test, or production",
      )
      ∷ (
        not (one_of s.auth_mode ("dev" ∷ "oidc" ∷ [])),
        value_error "EDA_AUTH_MODE must be dev or oidc",
      )
      ∷ (
        s.auth_mode == "oidc" && not (is_safe_url s.oidc_issuer),
        value_error "EDA_OIDC_ISSUER must be an HTTPS URL without credentials",
      )
      ∷ (
        s.auth_mode == "oidc" && not (is_safe_url s.oidc_jwks_url),
        value_error "EDA_OIDC_JWKS_URL must be an HTTPS URL without credentials",
      )
      ∷ (
        s.auth_mode == "oidc"
            && (not (nonempty (strip s.oidc_audience))
                || not (nonempty (strip s.oidc_provider_prefix))),
        value_error "OIDC audience and provider prefix are required",
      )
      ∷ (any (λ n. eqb n 0) (positive_settings s), value_error "must be positive")
      ∷ (
        s.environment == "production" && not (s.auth_mode == "oidc"),
        value_error "production requires OIDC authentication",
      )
      ∷ (s.environment == "production", value_error "production is unavailable")
      ∷ []

  unfoldable pub validate : Settings → Result (Unit {0})
  validate s = run_checks (checks s)
