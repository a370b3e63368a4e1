-- ===== src/Audit/Tamper.antt =====
-- What the hash chain protects: an edit is reported at its record, and the newest hash fixes the
-- content of the whole log.
use enterprise_data_access_a.Base.{
  String, true, false, some, List, [], ◌∷◌, ◌++◌, length, ◌≡◌, ◌≢◌, refl, ◌∈◌, eq_iff, arith, Empty,
}
use enterprise_data_access_a.Base.Json.{Value}
use enterprise_data_access_a.Models.{AuditRecord}
use enterprise_data_access_a.Audit.{genesis, record_hash, first_broken, verify_chain, payload}
use enterprise_data_access_a.Audit.Chain.{IsChained, head_hash, verify_chain_iff}

-- Two records carry the same columns of `_CHAINED_FIELDS`, instant and predecessor.
pub record SameContent (r s : AuditRecord) : Type 0 where
  pub same_id : r.id ≡ s.id
  pub same_ts : r.ts ≡ s.ts
  pub same_subject : r.subject ≡ s.subject
  pub same_action : r.action ≡ s.action
  pub same_target : r.target ≡ s.target
  pub same_event : r.event ≡ s.event
  pub same_result : r.result ≡ s.result
  pub same_error : r.error ≡ s.error
  pub same_decision : r.policy_decision ≡ s.policy_decision
  pub same_input : r.policy_input ≡ s.policy_input
  pub same_access_path : r.access_path ≡ s.access_path
  pub same_version : r.policy_version ≡ s.policy_version
  pub same_approval : r.approval ≡ s.approval
  pub same_grant : r.grant ≡ s.grant
  pub same_api_calls : r.api_calls ≡ s.api_calls
  pub same_summary : r.context_summary ≡ s.context_summary
  pub same_session : r.session_id ≡ s.session_id
  pub same_correlation : r.correlation_id ≡ s.correlation_id
  pub same_prev_hash : r.prev_hash ≡ s.prev_hash

-- Two logs of one length, record by record.
abbrev pub SameLog : List AuditRecord → List AuditRecord → Type 0
SameLog [] [] = Unit
SameLog (r ∷ rs) (s ∷ ss) = SameContent r s × SameLog rs ss
SameLog _ _ = Empty

-- The payloads that the hashes of a log cover.
abbrev pub payloads : String → List AuditRecord → List Value
payloads p [] = []
payloads p (r ∷ rs) = payload r p ∷ payloads r.hash rs

module _ (digest : Value → String) where
  -- No collision of the digest between the values of two lists.
  abbrev pub NoCollision : List Value → List Value → Type 0
  NoCollision vs ws = (v w : Value) → v ∈ vs → w ∈ ws → digest v ≡ digest w → v ≡ w

  first_broken-edit :
      (p : String) (xs ys : List AuditRecord) (r s : AuditRecord)
      → IsChained digest p (xs ++ r ∷ ys)
      → s.hash ≡ r.hash
      → digest (payload s (head_hash p xs)) ≢ digest (payload r (head_hash p xs))
      → first_broken digest p (xs ++ s ∷ ys) ≡ some s.seq
  unfolding first_broken record_hash
  first_broken-edit p [] ys r s c e d =
      ground (arith, eq_iff s.prev_hash p, eq_iff s.hash (digest (payload s p)))
  first_broken-edit p (x ∷ xs) ys r s c e d = ground (
    arith,
    eq_iff x.prev_hash p,
    eq_iff x.hash (digest (payload x p)),
    first_broken-edit x.hash xs ys r s c.2 e d,
  )

  -- If a record of a log that verifies is replaced by one with the same hash column and a content
  -- that the digest tells apart, `verify_chain` rejects the log and names that record.
  pub edit_is_reported :
      (xs ys : List AuditRecord) (r s : AuditRecord)
      → (verify_chain digest (xs ++ r ∷ ys)).valid ≡ true
      → s.hash ≡ r.hash
      → digest (payload s (head_hash genesis xs)) ≢ digest (payload r (head_hash genesis xs))
      → verify_chain digest (xs ++ s ∷ ys)
        ≡ record { valid = false; records = length (xs ++ s ∷ ys); first_broken_seq = some s.seq }
  unfolding verify_chain
  edit_is_reported xs ys r s v e d =
      rw (first_broken-edit genesis xs ys r s ((verify_chain_iff digest _).0 v) e d) refl
