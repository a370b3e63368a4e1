-- ===== src/Audit/Chain.antt =====
-- `verify_chain` decides that a log is chained, and `append` keeps it so.
use enterprise_data_access_a.Base.{
  ℕ, ◌+◌, String, true, Option, none, some, List, [], ◌∷◌, ◌++◌, length, ◌≡◌, refl, ap, ◌↔◌, eq_iff,
  arith, length-append,
}
use enterprise_data_access_a.Base.Json.{Value}
use enterprise_data_access_a.Models.{AuditFields, AuditRecord}
use enterprise_data_access_a.Audit.{
  genesis, Stamp, last, prev_hash_of, record_hash, append, first_broken, verdict, verify_chain,
  payload,
}

-- The hash of the newest record, or what stands before the first.
abbrev pub head_hash : String → List AuditRecord → String
head_hash p [] = p
head_hash p (r ∷ rs) = head_hash r.hash rs

prev_hash_of-last :
    (r : AuditRecord) (rs : List AuditRecord) → prev_hash_of (last (r ∷ rs)) ≡ head_hash r.hash rs
unfolding prev_hash_of last
prev_hash_of-last r [] = refl
prev_hash_of-last r (s ∷ rs) = prev_hash_of-last s rs

pub prev_hash_of-eq-head_hash :
    (log : List AuditRecord) → prev_hash_of (last log) ≡ head_hash genesis log
unfolding prev_hash_of last
prev_hash_of-eq-head_hash [] = refl
prev_hash_of-eq-head_hash (r ∷ rs) = prev_hash_of-last r rs

verdict-valid : (n : ℕ) (o : Option ℕ) → ((verdict n o).valid ≡ true) ↔ (o ≡ none)
verdict-valid n none = (λ _. refl, λ _. refl)
verdict-valid n (some seq) = (λ h. cc, λ h. cc)

module _ (digest : Value → String) where
  -- Every record names its predecessor's hash and carries its own.
  abbrev pub IsChained : String → List AuditRecord → Type 0
  IsChained p [] = Unit
  IsChained p (r ∷ rs) = (r.prev_hash ≡ p) × (r.hash ≡ digest (payload r p)) × IsChained r.hash rs

  pub first_broken-none :
      (p : String) (log : List AuditRecord) → IsChained p log → first_broken digest p log ≡ none
  unfolding first_broken record_hash
  first_broken-none p [] h = refl
  first_broken-none p (r ∷ rs) h = ground (
    arith,
    eq_iff r.prev_hash p,
    eq_iff r.hash (digest (payload r p)),
    first_broken-none r.hash rs,
  )

  pub IsChained-of_none :
      (p : String) (log : List AuditRecord) → first_broken digest p log ≡ none → IsChained p log
  unfolding first_broken record_hash
  IsChained-of_none p [] h = tt
  IsChained-of_none p (r ∷ rs) h = ground (
    arith,
    eq_iff r.prev_hash p,
    eq_iff r.hash (digest (payload r p)),
    IsChained-of_none r.hash rs,
  )

  -- `verify_chain` answers that a log is valid exactly when every record names its predecessor's
  -- hash (the genesis value for the first) and carries the hash of its own content.
  pub verify_chain_iff :
      (log : List AuditRecord) → ((verify_chain digest log).valid ≡ true) ↔ IsChained genesis log
  unfolding verify_chain
  verify_chain_iff log = (
    λ h. IsChained-of_none genesis log ((verdict-valid (length log) _).0 h),
    λ c. (verdict-valid (length log) _).1 (first_broken-none genesis log c),
  )

  pub IsChained-concat :
      (p : String) (log : List AuditRecord) (r : AuditRecord)
      → IsChained p log
      → r.prev_hash ≡ head_hash p log
      → r.hash ≡ digest (payload r (head_hash p log))
      → IsChained p (log ++ r ∷ [])
  IsChained-concat p [] r c e h = (e, h, tt)
  IsChained-concat p (s ∷ rs) r c e h = (c.0, c.1, IsChained-concat s.hash rs r c.2 e h)

  pub append-IsChained :
      (log : List AuditRecord) (stamp : Stamp) (columns : AuditFields)
      → IsChained genesis log
      → IsChained genesis (append digest log stamp columns)
  unfolding append record_hash payload
  append-IsChained log stamp columns c =
      IsChained-concat genesis log _ c (prev_hash_of-eq-head_hash log)
        (rw (← prev_hash_of-eq-head_hash log) refl)

  pub length-append_record :
      (log : List AuditRecord) (stamp : Stamp) (columns : AuditFields)
      → length (append digest log stamp columns) ≡ length log + 1
  unfolding append
  length-append_record log stamp columns = length-append log _

  -- Appending to a log that verifies gives a log that verifies, with one record more.
  pub verify_chain-append :
      (log : List AuditRecord) (stamp : Stamp) (columns : AuditFields)
      → (verify_chain digest log).valid ≡ true
      → verify_chain digest (append digest log stamp columns)
        ≡ record { valid = true; records = length log + 1; first_broken_seq = none }
  unfolding verify_chain
  verify_chain-append log stamp columns h =
      let chained = append-IsChained log stamp columns ((verify_chain_iff log).0 h) in
      rw (first_broken-none genesis _ chained)
        (ap (λ n. verdict n none) (length-append_record log stamp columns))
