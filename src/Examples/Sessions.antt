-- ===== src/Examples/Sessions.antt =====
-- Sessions, principals and settings at concrete values.
use mathlib.Core.Path.{◌≡◌, refl}
use enterprise_data_access_a.Base.{String, true, none, some, [], ◌∷◌, ok}
use enterprise_data_access_a.Base.Json.{Fields, end, obj, arr, of_list, dict, str, bool, null}
use enterprise_data_access_a.Models.{Db}
use enterprise_data_access_a.Config.{Url, default_settings, validate}
use enterprise_data_access_a.Config.Checked.{IsSafe, validate-IsSafe}
use enterprise_data_access_a.Identity.{
  SessionInfo, OidcConfig, verify_claims, map_principal, lookup_key, session_from,
}
use enterprise_data_access_a.Identity.Oidc.{IsVouched, verify_claims-IsVouched}
use enterprise_data_access_a.Identity.Principal.{IsPrincipal, map_principal-IsPrincipal}
use enterprise_data_access_a.Models.{empty_db, AccessNode}

abbrev same : String → String
same s = s

abbrev no_url : String → Url
no_url s = record { scheme = "https"; hostname = none; username = none; password = none }

valid : validate no_url same default_settings ≡ ok tt
unfolding validate
valid = refl

validate-IsSafe_example : IsSafe no_url same default_settings
validate-IsSafe_example = validate-IsSafe no_url same default_settings valid

abbrev session : SessionInfo
session = record {
  session_id = "s1";
  subject = "ada";
  mfa = bool true;
  risk_score = null;
  tags = obj end;
  expires_at = null;
  issuer = "dev";
  tenant = some "local";
  external_id = some "dev:ada";
  groups = [];
}

abbrev ada : AccessNode
ada = record {
  id = "u";
  kind = "user";
  name = "ada";
  attrs = end;
  tenant_id = some "local";
  external_id = some "dev:ada";
  source_id = none;
  observed_at = none;
}

abbrev db : Db
db = record empty_db { nodes = ada ∷ [] }

mapped : map_principal default_settings db 5 session ≡ some ada
unfolding map_principal lookup_key
mapped = refl

map_principal-IsPrincipal_example : IsPrincipal default_settings db 5 session ada
map_principal-IsPrincipal_example =
    map_principal-IsPrincipal default_settings db 5 session ada mapped

abbrev config : OidcConfig
config = record {
  issuer = "https://idp";
  audience = "eda";
  provider_prefix = "oidc";
  tenant_claim = "tid";
  static_tenant = "local";
  external_id_claim = "sub";
  groups_claim = "groups";
  mfa_amr = "mfa" ∷ [];
  mfa_acr = [];
}

abbrev claims : Fields
claims = dict (
    ("sub", str "ada")
    ∷ ("tid", str "local")
    ∷ ("amr", arr (of_list (str "mfa" ∷ [])))
    ∷ ("groups", arr (of_list []))
    ∷ [])

abbrev vouched : SessionInfo
vouched = session_from same config "t" claims ("mfa" ∷ []) []

accepted : verify_claims same config "t" claims ≡ ok vouched
unfolding verify_claims
accepted = refl

verify_claims-IsVouched_example : IsVouched same config claims vouched
verify_claims-IsVouched_example = verify_claims-IsVouched same config "t" claims vouched accepted
