-- ===== src/Identity.antt =====
-- beta/src/eda/identity.py and beta/src/eda/identity_providers.py: sessions, the two providers that
-- verify a token, and the graph principal that a session maps to. What belongs to libraries is an
-- argument: the HMAC, the decoding of a payload, `jwt.decode`, `str.strip`, SHA-256 of a token.
pub mod Principal
pub mod Oidc
use Prim.Native.Char.{code}
use Prim.Native.String.{◌++◌ as concat}
use enterprise_data_access_a.Base.{
  ℕ, ◌-◌, String, Bool, true, false, not, ◌&&◌, ◌||◌, Option, none, some, List, [], ◌∷◌, ◌==◌,
  if◌then◌else◌, eqb, leb, ltb, find, filter, any, opt_eq, is_none, nonempty, truthy_text, Result,
  ok, err, Exception, invalid_session, value_error, key_error, type_error, ◌>>=◌, ◌>>◌, raise_if,
  run_checks,
}
use enterprise_data_access_a.Base.Int.{pos}
use enterprise_data_access_a.Base.Json.{
  Value, null, bool, num, str, arr, obj, Items, Fields, items, lookup, get, get_or, dict, at_key,
  truthy,
}
use enterprise_data_access_a.Models.{Db, AccessNode, RelationshipSource, seconds}
use enterprise_data_access_a.Config.{Settings, demo_enabled}

-- `SessionInfo`
pub record SessionInfo : Type 0 where
  pub session_id : String
  pub subject : String
  pub mfa : Value
  pub risk_score : Value
  pub tags : Value
  pub expires_at : Value
  pub issuer : String
  pub tenant : Option String
  pub external_id : Option String
  pub groups : List String

abbrev pub text : Value → Result String
text (str s) = ok s
text _ = err type_error

-- `str.removeprefix` where the text has the prefix
pub after_prefix : String → String → Option String
after_prefix String.[] s = some s
after_prefix (String.◌∷◌ c p) String.[] = none
after_prefix (String.◌∷◌ c p) (String.◌∷◌ d s) =
    let rest = after_prefix p s in if eqb (code c) (code d) then rest else none

module _ (sign : String → String) (decode : String → Value) where
  -- `time.time() > payload["exp"]`
  abbrev expired : ℕ → Value → Result Bool
  expired now (num (pos t)) = ok (ltb (seconds t) now)
  expired now (num _) = ok true
  expired now (bool b) = ok (ltb (seconds (if b then 1 else 0)) now)
  expired now _ = err type_error

  -- The session that a payload describes.
  session_of : Value → Result SessionInfo
  session_of payload = do
    sid ← at_key payload "sid"
    sub ← at_key payload "sub"
    mfa ← at_key payload "mfa"
    risk ← at_key payload "risk"
    tags ← at_key payload "tags"
    exp ← at_key payload "exp"
    session_id ← text sid
    subject ← text sub
    ok (record {
      session_id = session_id;
      subject = subject;
      mfa = mfa;
      risk_score = risk;
      tags = tags;
      expires_at = exp;
      issuer = "dev";
      tenant = some "local";
      external_id = some (concat "dev:" subject);
      groups = [];
    })

  -- `verify_session`, on the two parts that `rsplit(".", 1)` finds.
  abbrev pub verify_session : Option (String × String) → ℕ → Result SessionInfo
  unfolding session_of
  verify_session none now = err (invalid_session "malformed token")
  verify_session (some (payload_b64, sig)) now = do
    raise_if (not (sign payload_b64 == sig)) (invalid_session "bad signature")
    let payload = decode payload_b64
    exp ← at_key payload "exp"
    late ← expired now exp
    raise_if late (invalid_session "session expired")
    session_of payload

-- `OidcConfig`
pub record OidcConfig : Type 0 where
  pub issuer : String
  pub audience : String
  pub provider_prefix : String
  pub tenant_claim : String
  pub static_tenant : String
  pub external_id_claim : String
  pub groups_claim : String
  pub mfa_amr : List String
  pub mfa_acr : List String

-- `isinstance(v, list) and not any(not isinstance(x, str) for x in v)`: the texts
pub strings_of : List Value → Option (List String)
strings_of [] = some []
strings_of (str s ∷ vs) = elim (strings_of vs) [ none ↦ none | some ss ↦ some (s ∷ ss) ]
strings_of (_ ∷ vs) = none

pub text_list : Value → Option (List String)
unfolding strings_of
text_list (arr xs) = strings_of (items xs)
text_list _ = none

module _ (strip : String → String) where
  -- `isinstance(v, str) and v.strip()`
  abbrev pub is_text : Value → Bool
  is_text (str s) = nonempty (strip s)
  is_text _ = false

  -- A claim that may be absent or `None`, and is a text that is not blank otherwise.
  abbrev pub absent_or_text : Value → Bool
  absent_or_text null = true
  absent_or_text v = is_text v

  -- A claim that may be absent, but not `None`.
  abbrev missing_or_text : Option Value → Bool
  missing_or_text none = true
  missing_or_text (some v) = is_text v

-- `claimed_tenant or cfg.static_tenant`
abbrev pub text_or : Value → String → String
text_or (str s) d = if nonempty s then s else d
text_or v d = d

-- `acr in cfg.mfa_acr`
abbrev pub acr_counts : Value → List String → Bool
acr_counts (str s) acrs = any (λ a. a == s) acrs
acr_counts _ acrs = false

abbrev is_str_or_none : Value → Bool
is_str_or_none null = true
is_str_or_none (str s) = true
is_str_or_none _ = false

abbrev pub differs : Value → String → Bool
differs (str s) t = not (s == t)
differs _ t = false

abbrev pub or_invalid : {A : Type 0} → Option A → String → Result A
or_invalid none why = err (invalid_session why)
or_invalid (some a) why = ok a

module _ (strip : String → String) (cfg : OidcConfig) where
  -- The checks of the subject and the tenant, and those behind the lists.
  abbrev pub first_checks : Fields → List (Bool × Exception)
  first_checks claims =
      (
        not (is_text strip (get claims "sub")),
        invalid_session "oidc: subject must be a non-empty string",
      )
      ∷ (
        not (absent_or_text strip (get claims cfg.tenant_claim)),
        invalid_session "oidc: tenant must be a non-empty string",
      )
      ∷ (
        nonempty cfg.static_tenant && differs (get claims cfg.tenant_claim) cfg.static_tenant,
        invalid_session "oidc: tenant differs from configured tenant",
      )
      ∷ (
        not (nonempty (text_or (get claims cfg.tenant_claim) cfg.static_tenant)),
        invalid_session "oidc: token carries no tenant and no static tenant configured",
      )
      ∷ []

  abbrev pub last_checks : Fields → List (Bool × Exception)
  last_checks claims =
      (
        not (missing_or_text strip (lookup "sid" claims)),
        invalid_session "oidc: sid must be a non-empty string",
      )
      ∷ (
        not (missing_or_text strip (lookup "jti" claims)),
        invalid_session "oidc: jti must be a non-empty string",
      )
      ∷ (
        not (is_text strip (get claims cfg.external_id_claim)),
        invalid_session "oidc: configured external identity claim missing or invalid",
      )
      ∷ []

  abbrev pub amr_of : Fields → Result (List String)
  amr_of claims =
      or_invalid (text_list (get_or claims "amr" (arr Items.nil)))
        "oidc: amr must be a list of strings"

  abbrev pub check_acr : Value → Result (Unit {0})
  check_acr acr = raise_if (not (is_str_or_none acr)) (invalid_session "oidc: acr must be a string")

  abbrev pub groups_of : Fields → Result (List String)
  groups_of claims =
      or_invalid (text_list (get_or claims cfg.groups_claim (arr Items.nil)))
        "oidc: groups must be a list of strings"

  -- `bool(set(amr_claim) & cfg.mfa_amr) or (acr in cfg.mfa_acr)`
  abbrev pub is_mfa : List String → Value → Bool
  is_mfa amr acr = any (λ a. any (λ m. m == a) cfg.mfa_amr) amr || acr_counts acr cfg.mfa_acr

  abbrev pub session_from : String → Fields → List String → List String → SessionInfo
  session_from fallback claims amr groups =
      let tenant = text_or (get claims cfg.tenant_claim) cfg.static_tenant in
      record {
        session_id = text_or (get claims "sid") (text_or (get claims "jti") fallback);
        subject = text_or (get claims "sub") "";
        mfa = bool (is_mfa amr (get claims "acr"));
        risk_score = null;
        tags = obj (dict (("iss", str cfg.issuer) ∷ ("tenant", str tenant) ∷ []));
        expires_at = get claims "exp";
        issuer = cfg.issuer;
        tenant = some tenant;
        external_id = some (
            concat cfg.provider_prefix
              (concat ":" (text_or (get claims cfg.external_id_claim) "")));
        groups = groups;
      }

  -- `OidcIdentityProvider.verify`, on the claims that `jwt.decode` returned; `fallback` is the hash
  -- of the token.
  unfoldable pub verify_claims : String → Fields → Result SessionInfo
  unfolding text_list
  verify_claims fallback claims = do
    run_checks (first_checks claims)
    amr ← amr_of claims
    check_acr (get claims "acr")
    groups ← groups_of claims
    run_checks (last_checks claims)
    ok (session_from fallback claims amr groups)

-- The external identifier to look up, and the directory source that it is bound to, if one is.
unfoldable pub lookup_key : Settings → SessionInfo → String → Option (String × Option String)
unfolding after_prefix
lookup_key settings session external_id =
    if not (session.issuer == "dev") && nonempty settings.oidc_directory_source
    then (if session.issuer == settings.oidc_issuer
        then elim (after_prefix (concat settings.oidc_provider_prefix ":") external_id) [
          | none ↦ none
          | some rest ↦
              if nonempty (concat settings.oidc_native_id_prefix rest)
              then some
                  (concat settings.oidc_native_id_prefix rest, some settings.oidc_directory_source)
              else none
        ]
        else none)
    else some (external_id, none)

-- The rows that the query of `map_principal` selects.
abbrev pub matches : String × Option String → Option String → AccessNode → Bool
matches (external_id, source_id) tenant n =
    opt_eq n.external_id (some external_id)
    && (opt_eq n.tenant_id tenant
        && (n.kind == "user" && (is_none source_id || opt_eq n.source_id source_id)))

abbrev pub sole : {A : Type 0} → List A → Option A
sole (a ∷ []) = some a
sole _ = none

-- The source is known, enabled, of the tenant, and synchronised recently.
abbrev pub is_live : ℕ → ℕ → Option String → Option RelationshipSource → Bool
is_live max_age now tenant none = false
is_live max_age now tenant (some s) =
    s.enabled
    && (opt_eq (some s.tenant_id) tenant && elim s.last_sync_at [
      | none ↦ false
      | some t ↦ leb t now && leb (now - t) (seconds max_age)
    ])

abbrev source_by_id : String → Db → Option RelationshipSource
source_by_id id db = find (λ s. s.id == id) db.sources

-- What `map_principal` asks of the one node that it found.
abbrev pub is_honored : Settings → Db → ℕ → SessionInfo → AccessNode → Bool
is_honored settings db now session node = elim node.source_id [
  | none ↦ session.issuer == "dev"
  | some id ↦ is_live settings.source_max_age_seconds now session.tenant (source_by_id id db)
]

abbrev pub honored : Settings → Db → ℕ → SessionInfo → Option AccessNode → Option AccessNode
honored settings db now session none = none
honored settings db now session (some n) =
    if is_honored settings db now session n then some n else none

-- `map_principal`
unfoldable pub map_principal : Settings → Db → ℕ → SessionInfo → Option AccessNode
unfolding lookup_key
map_principal settings db now session =
    if truthy_text session.external_id && truthy_text session.tenant
    then elim session.external_id [
      | none ↦ none
      | some external_id ↦ elim (lookup_key settings session external_id) [
        | none ↦ none
        | some key ↦
            honored settings db now session (sole (filter (matches key session.tenant) db.nodes))
      ]
    ]
    else none
