-- ===== src/Broker.antt =====
-- beta/src/eda/broker.py: grants, the credential vault, and the two credential providers. The
-- clock, random tokens and row identifiers that a call reads are its arguments; credentials are
-- the JSON that a provider returns.
pub mod Store
pub mod Ttl
pub mod Issued
pub mod Checks
use enterprise_data_access_a.Base.{
  ℕ, ◌+◌, ◌-◌, ◌*◌, suc, String, Bool, true, false, not, ◌&&◌, ◌||◌, Option, none, some, List, [],
  ◌∷◌, ◌++◌, map, ◌==◌, filter, if◌then◌else◌, any, all, elem, ltb, leb, Result, ok, err, Exception,
  grant_error, type_error, ◌>>=◌, ◌>>◌, raise_if, run_checks, is_empty, nonempty,
}
use enterprise_data_access_a.Base.Int.{ℤ, pos, negsuc, ltb_ℤ}
use enterprise_data_access_a.Base.Json.{
  Value, null, bool, num, str, arr, obj, Fields, dict, of_list, at_key, int_of, py_eq,
}
use enterprise_data_access_a.Models.{Db, Grant, Scope, seconds}
use Store.{Vault, put, fetch, remove}

-- An instant some seconds from another.
abbrev pub add_seconds : ℕ → ℤ → ℕ
add_seconds now (pos n) = now + seconds n
add_seconds now (negsuc n) = now - seconds (suc n)

abbrev pub min_ℤ : ℤ → ℤ → ℤ
min_ℤ a b = if ltb_ℤ b a then b else a

-- A number, or a Boolean as one.
pub as_int : Value → Result ℤ
as_int (num n) = ok n
as_int (bool b) = ok (int_of b)
as_int _ = err type_error

-- `if o["type"] == "max_ttl_seconds": ttl = min(ttl, o["value"])`
pub bound_ttl : ℤ → Bool → Value → Result ℤ
unfolding as_int
bound_ttl ttl is_bound o =
    if is_bound then (do v ← at_key o "value"; n ← as_int v; ok (min_ℤ ttl n)) else ok ttl

-- One round of the loop over the obligations, on the lifetime and the read-only mark.
unfoldable pub apply_obligation : ℤ × Bool → Value → Result (ℤ × Bool)
unfolding bound_ttl
apply_obligation (ttl, read_only) o = do
  kind ← at_key o "type"
  ttl' ← bound_ttl ttl (py_eq kind (str "max_ttl_seconds")) o
  ok (ttl', read_only || py_eq kind (str "read_only"))

unfoldable pub apply_obligations : ℤ × Bool → List Value → Result (ℤ × Bool)
apply_obligations acc [] = ok acc
apply_obligations acc (o ∷ os) = do acc' ← apply_obligation acc o; apply_obligations acc' os

-- `list(dict.fromkeys(xs))`: the first occurrence of each.
unfoldable pub first_occurrences : List String → List String → List String
first_occurrences seen [] = []
first_occurrences seen (x ∷ xs) =
    let later = first_occurrences (x ∷ seen) xs in
    let rest = first_occurrences seen xs in if elem x seen then rest else x ∷ later

-- `BaseBroker`: credentials and their expiry, for a subject, a scope, a lifetime and tags.
pub record Provider : Type 0 where
  pub kind : String
  pub issue_credentials : String → Scope → ℤ → Fields → Result (Value × ℕ)

-- The random parts of mock credentials.
pub record Tokens : Type 0 where
  pub access_key : String
  pub secret_key : String
  pub session_token : String

abbrev strings : List String → Value
strings ss = arr (of_list (map str ss))

-- `MockStsBroker`: its expiry is exactly the lifetime that is asked for.
abbrev pub mock_sts : Tokens → ℕ → Provider
mock_sts tokens now = record {
  kind = "mock_sts";
  issue_credentials = λ subject scope ttl tags. ok (
    obj (
        dict (
          ("AccessKeyId", str tokens.access_key)
          ∷ ("SecretAccessKey", str tokens.secret_key)
          ∷ ("SessionToken", str tokens.session_token)
          ∷ (
            "SessionPolicy",
            obj (
                dict (
                  ("actions", strings scope.actions)
                  ∷ ("resources", strings scope.resources)
                  ∷ [])),
          )
          ∷ ("SessionTags", obj tags)
          ∷ [])),
    add_seconds now ttl,
  );
}

abbrev pub allowed_reads : List String
allowed_reads = "ec2:DescribeInstances" ∷ "ec2:DescribeSecurityGroups" ∷ []

-- `AwsStsBroker`, with boto3 installed; `assume_role` is the call of the STS client.
abbrev pub aws_sts : String → (String → Scope → ℤ → Fields → Result (Value × ℕ)) → Provider
aws_sts region assume_role = record {
  kind = "aws_sts";
  issue_credentials = λ subject scope ttl tags. do
    run_checks (
        (ltb_ℤ ttl (pos 900), grant_error "AWS STS minimum session duration is 900s")
        ∷ (
          is_empty scope.actions || not (all (λ a. elem a allowed_reads) scope.actions),
          grant_error "AWS adapter currently supports only declared EC2 inspection reads",
        )
        ∷ (not (nonempty region), grant_error "AWS inspection requires an explicit region")
        ∷ [])
    assume_role subject scope ttl tags;
}

-- What a call of `issue_grant` is given, and what it reads.
pub record Order : Type 0 where
  pub subject : String
  pub action : String
  pub resource : String
  pub obligations : List Value
  pub session_tags : Fields
  pub correlation_id : String
  pub tenant_id : Option String
  pub additional_actions : List String
  pub default_ttl : ℕ
  pub now : ℕ
  pub grant_id : String
  pub credential_ref : String

-- The scope that the credentials are asked for.
unfoldable pub scope_of : Order → Bool → Scope
unfolding first_occurrences
scope_of o read_only = record {
  actions = first_occurrences [] (o.action ∷ o.additional_actions);
  resources = o.resource ∷ [];
  read_only = read_only;
}

unfoldable pub grant_of : Order → String → ℤ → Bool → Grant
unfolding scope_of
grant_of o kind ttl read_only = record {
  id = o.grant_id;
  subject = o.subject;
  scope = scope_of o read_only;
  session_tags = o.session_tags;
  broker_kind = kind;
  credential_ref = o.credential_ref;
  issued_at = o.now;
  expires_at = add_seconds o.now ttl;
  revoked = false;
  correlation_id = o.correlation_id;
  tenant_id = o.tenant_id;
}

-- `issue_grant`: the grant, and the vault with its credentials.
unfoldable pub issue_grant : Provider → Order → Vault → Result (Grant × Vault)
unfolding apply_obligations grant_of
issue_grant provider o vault = do
  (ttl, read_only) ← apply_obligations (pos o.default_ttl, false) o.obligations
  (credentials, provider_expires) ←
      provider.issue_credentials o.subject (scope_of o read_only) ttl o.session_tags
  raise_if (ltb (add_seconds o.now ttl + seconds 1) provider_expires)
      (grant_error "broker returned a credential outliving the grant")
  ok (
    grant_of o provider.kind ttl read_only,
    put o.credential_ref credentials provider_expires vault,
  )

abbrev pub grant_checks : Grant → String → String → ℕ → List (Bool × Exception)
grant_checks grant action resource now =
    (grant.revoked, grant_error "grant revoked")
    ∷ (ltb grant.expires_at now, grant_error "grant expired")
    ∷ (not (elem action grant.scope.actions), grant_error "action outside grant scope")
    ∷ (not (elem resource grant.scope.resources), grant_error "resource outside grant scope")
    ∷ []

-- `validate_grant`
unfoldable pub validate_grant : Grant → String → String → ℕ → Result (Unit {0})
validate_grant grant action resource now = run_checks (grant_checks grant action resource now)

-- `fetch_credentials`: the vault may drop what has expired.
unfoldable pub fetch_credentials : Grant → ℕ → Vault → Result Value × Vault
fetch_credentials grant now vault =
    if grant.revoked
    then (err (grant_error "grant revoked"), vault)
    else fetch grant.credential_ref now vault

-- `revoke_grant`
pub revoke_grant : Grant → Vault → Grant × Vault
revoke_grant grant vault = (record grant { revoked = true }, remove grant.credential_ref vault)
