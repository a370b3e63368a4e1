-- ===== src/Audit/Concurrent.antt =====
-- Concurrent writers of the log. `append` reads the newest record and inserts behind it; another
-- process may have inserted in between. The unique constraints on `prev_hash` and `hash`
-- (beta/src/eda/models.py) then refuse the insertion.
use mathlib.Core.List.{append-nil}
use mathlib.Core.Path.{◌∙◌, sym}
use enterprise_data_access_a.Base.{
  eq_iff, arith, String, Option, none, some, List, [], ◌∷◌, ◌++◌, ◌≡◌, ◌==◌, ◌||◌, any,
  if◌then◌else◌,
}
use enterprise_data_access_a.Base.Json.{Value}
use enterprise_data_access_a.Models.{AuditFields, AuditRecord}
use enterprise_data_access_a.Audit.Chain.{
  IsChained, head_hash, verify_chain_iff, prev_hash_of-eq-head_hash, append-IsChained,
}
use enterprise_data_access_a.Audit.{append, genesis, verify_chain, true, Stamp, next_record, last}

-- The insertion of a row that was built earlier; `none` is the `IntegrityError`.
unfoldable pub insert_row : List AuditRecord → AuditRecord → Option (List AuditRecord)
insert_row log r =
    if any (λ s. s.prev_hash == r.prev_hash || s.hash == r.hash) log
    then none
    else some (log ++ r ∷ [])

insert_row-some :
    (log : List AuditRecord) (r : AuditRecord) (l : List AuditRecord)
    → insert_row log r ≡ some l
    → l ≡ log ++ r ∷ []
unfolding insert_row
insert_row-some log r l e = ground arith

module _ (digest : Value → String) where
  -- A writer has read the log `seen`; what others have inserted since is behind it. The writer then
  -- inserts its own row, which the database accepts or refuses.
  pub data Step : List AuditRecord → List AuditRecord → Type 0 where
    insert :
        (seen others : List AuditRecord) (stamp : Stamp) (columns : AuditFields)
        {log : List AuditRecord}
        → insert_row (seen ++ others) (next_record digest (last seen) stamp columns) ≡ some log
        → Step (seen ++ others) log

  -- The logs that concurrent writers reach from the empty table.
  pub data Reach : List AuditRecord → Type 0 where
    start : Reach []
    next : {log log' : List AuditRecord} → Reach log → Step log log' → Reach log'

  -- In a chained log, what stands behind a prefix names the prefix's head.
  successor-prev_hash :
      (p : String) (xs ys : List AuditRecord) (r : AuditRecord)
      → IsChained digest p (xs ++ r ∷ ys)
      → r.prev_hash ≡ head_hash p xs
  successor-prev_hash p [] ys r c = c.0
  successor-prev_hash p (x ∷ xs) ys r c = successor-prev_hash x.hash xs ys r c.2

  any_prev_hash :
      (xs ys : List AuditRecord) (r s : AuditRecord)
      → s.prev_hash ≡ r.prev_hash
      → any (λ t. t.prev_hash == r.prev_hash || t.hash == r.hash) (xs ++ s ∷ ys) ≡ true
  any_prev_hash [] ys r s e = ground (arith, eq_iff s.prev_hash r.prev_hash)
  any_prev_hash (x ∷ xs) ys r s e = ground (arith, any_prev_hash xs ys r s e)

  -- A writer that read an older head is refused.
  insert_stale :
      (seen others : List AuditRecord) (o : AuditRecord) (stamp : Stamp) (columns : AuditFields)
      → IsChained digest genesis (seen ++ o ∷ others)
      → insert_row (seen ++ o ∷ others) (next_record digest (last seen) stamp columns) ≡ none
  unfolding insert_row next_record
  insert_stale seen others o stamp columns c = rw (
      any_prev_hash seen others (next_record digest (last seen) stamp columns) o
        (successor-prev_hash genesis seen others o c ∙ sym (prev_hash_of-eq-head_hash seen)))

  Step-IsChained :
      {log log' : List AuditRecord}
      → Step log log'
      → IsChained digest genesis log
      → IsChained digest genesis log'
  Step-IsChained {log' = log'} (insert seen [] stamp columns e) c =
      let behind : IsChained digest genesis seen = simp append-nil at c in
      rw (insert_row-some _ _ log' e)
        (rw append-nil (unfold append in append-IsChained digest seen stamp columns behind))
  Step-IsChained (insert seen (o ∷ others) stamp columns e) c =
      absurd (cc (e, insert_stale seen others o stamp columns c))

  Reach-IsChained : {log : List AuditRecord} → Reach log → IsChained digest genesis log
  Reach-IsChained start = tt
  Reach-IsChained (next r s) = Step-IsChained s (Reach-IsChained r)

  -- Whatever the interleaving of writers that read the head and insert later, every log that the
  -- database accepts verifies: the chain has no fork.
  pub Reach-verify_chain :
      {log : List AuditRecord} → Reach log → (verify_chain digest log).valid ≡ true
  Reach-verify_chain {log} r = (verify_chain_iff digest log).1 (Reach-IsChained r)
