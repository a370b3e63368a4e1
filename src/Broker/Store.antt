-- ===== src/Broker/Store.antt =====
-- `CredentialVault` of beta/src/eda/broker.py: credentials behind opaque references.
use enterprise_data_access_a.Base.{
  ℕ, String, Option, none, some, List, [], ◌∷◌, ◌==◌, ◌≡◌, if◌then◌else◌, ltb, Result, ok, err,
  grant_error, arith, eq_iff,
}
use enterprise_data_access_a.Base.Json.{Value}

pub record Entry : Type 0 where
  pub ref : String
  pub credentials : Value
  pub expires_at : ℕ

abbrev pub Vault : Type 0
Vault = List Entry

-- `_store.get(ref)`
unfoldable pub entry : String → Vault → Option Entry
entry ref [] = none
entry ref (e ∷ es) = if e.ref == ref then some e else entry ref es

-- `_store.pop(ref, None)`
unfoldable pub remove : String → Vault → Vault
remove ref [] = []
remove ref (e ∷ es) = let rest = remove ref es in if e.ref == ref then rest else e ∷ rest

-- `put`, with the reference that the random token makes
unfoldable pub put : String → Value → ℕ → Vault → Vault
put ref credentials expires_at vault =
    record { ref = ref; credentials = credentials; expires_at = expires_at } ∷ remove ref vault

unfoldable pub fetched : String → ℕ → Vault → Option Entry → Result Value × Vault
fetched ref now vault none = (err (grant_error "credentials not in vault"), vault)
fetched ref now vault (some e) =
    if ltb e.expires_at now
    then (err (grant_error "vaulted credentials expired"), remove ref vault)
    else (ok e.credentials, vault)

-- `get`: an expired entry is dropped.
unfoldable pub fetch : String → ℕ → Vault → Result Value × Vault
unfolding fetched
fetch ref now vault = fetched ref now vault (entry ref vault)

pub entry-remove :
    (ref ref' : String) (vault : Vault)
    → entry ref' (remove ref vault) ≡ (if ref == ref' then none else entry ref' vault)
unfolding entry remove
entry-remove ref ref' [] = ground arith
entry-remove ref ref' (e ∷ es) =
    ground (arith, entry-remove ref ref' es, eq_iff e.ref ref, eq_iff e.ref ref', eq_iff ref ref')

pub entry-put :
    (ref ref' : String) (c : Value) (t : ℕ) (vault : Vault)
    → entry ref' (put ref c t vault) ≡ (
        if ref == ref'
        then some (record { ref = ref; credentials = c; expires_at = t })
        else entry ref' vault)
unfolding entry put
entry-put ref ref' c t vault = ground (arith, entry-remove ref ref' vault)
