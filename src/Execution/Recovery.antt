-- ===== src/Execution/Recovery.antt =====
-- What `mark_interrupted` of beta/src/eda/execution.py does to the operations and the log.
use enterprise_data_access_a.Base.{
  Empty, ℕ, suc, ◌+◌, String, true, false, ◌≡◌, refl, inl, inr, ◌⊎◌, ap, Empty, List, [], ◌∷◌,
  length, filter, arith, Bool-cases,
}
use enterprise_data_access_a.Base.Json.{Value}
use enterprise_data_access_a.Models.{Db, Execution, AuditRecord}
use enterprise_data_access_a.Audit.{Stamp, append, verify_chain}
use enterprise_data_access_a.Audit.Chain.{verify_chain-append, length-append_record}
use enterprise_data_access_a.Execution.{
  is_interrupted, mark, mark_rows, mark_interrupted, recovery_fields,
}

-- A row behind the recovery: a selected one is marked at some instant, any other is the same.
abbrev pub IsMarked : ℕ → (ℕ → ℕ) → Execution → Execution → Type 0
IsMarked before now x y =
    ((is_interrupted before x ≡ true) × ((i : ℕ) × (y ≡ mark (now i) x)))
    ⊎ ((is_interrupted before x ≡ false) × (y ≡ x))

abbrev pub AllMarked : ℕ → (ℕ → ℕ) → List Execution → List Execution → Type 0
AllMarked before now [] [] = Unit
AllMarked before now (x ∷ xs) (y ∷ ys) = IsMarked before now x y × AllMarked before now xs ys
AllMarked before now _ _ = Empty {0}

module _ (digest : Value → String) (before : ℕ) (now : ℕ → ℕ) (stamps : ℕ → Stamp) where
  mark_rows-AllMarked :
      (i : ℕ) (xs : List Execution) (log : List AuditRecord)
      → AllMarked before now xs (mark_rows digest before now stamps i xs log).rows
  unfolding mark_rows
  mark_rows-AllMarked i [] log = tt
  mark_rows-AllMarked i (x ∷ xs) log = elim (Bool-cases (is_interrupted before x)) [
    | inl yes' ↦ rw yes' (
      inl (yes', (i, refl)),
      mark_rows-AllMarked (suc i) xs (append digest log (stamps i) (recovery_fields x)),
    )
    | inr no' ↦ rw no' (inr (no', refl), mark_rows-AllMarked i xs log)
  ]

  mark_rows-count :
      (i : ℕ) (xs : List Execution) (log : List AuditRecord)
      → ((mark_rows digest before now stamps i xs log).count
          ≡ length (filter (is_interrupted before) xs))
        × (length (mark_rows digest before now stamps i xs log).log
            ≡ length log + length (filter (is_interrupted before) xs))
  unfolding mark_rows
  mark_rows-count i [] log = (refl, omega arith)
  mark_rows-count i (x ∷ xs) log =
      let marked = mark_rows-count (suc i) xs (append digest log (stamps i) (recovery_fields x)) in
      let kept = mark_rows-count i xs log in
      let longer = length-append_record digest log (stamps i) (recovery_fields x) in
      (ground (arith, marked.0, kept.0), ground (arith, marked.1, kept.1, longer))

  mark_rows-verify_chain :
      (i : ℕ) (xs : List Execution) (log : List AuditRecord)
      → (verify_chain digest log).valid ≡ true
      → (verify_chain digest (mark_rows digest before now stamps i xs log).log).valid ≡ true
  unfolding mark_rows
  mark_rows-verify_chain i [] log h = h
  mark_rows-verify_chain i (x ∷ xs) log h =
      let marked =
        mark_rows-verify_chain (suc i) xs (append digest log (stamps i) (recovery_fields x))
          (ap (λ v. v.valid) (verify_chain-append digest log (stamps i) (recovery_fields x) h)) in
      let kept = mark_rows-verify_chain i xs log h in
      elim (Bool-cases (is_interrupted before x)) [
        | inl yes' ↦ rw yes' marked
        | inr no' ↦ rw no' kept
      ]

  -- `mark_interrupted` returns the number of the authorized and running operations that were last
  -- updated before the given instant. It marks these as unknown and leaves all others as they are,
  -- and adds one audit record for each.
  pub mark_interrupted-outcome :
      (db : Db)
      → ((mark_interrupted digest before now stamps db).0
          ≡ length (filter (is_interrupted before) db.executions))
        × AllMarked before now db.executions
            (mark_interrupted digest before now stamps db).1.executions
        × (length (mark_interrupted digest before now stamps db).1.audit
            ≡ length db.audit + length (filter (is_interrupted before) db.executions))
  unfolding mark_interrupted
  mark_interrupted-outcome db = (
    (mark_rows-count 0 db.executions db.audit).0,
    mark_rows-AllMarked 0 db.executions db.audit,
    (mark_rows-count 0 db.executions db.audit).1,
  )

  -- A log that verified still verifies behind `mark_interrupted`.
  pub mark_interrupted-verify_chain :
      (db : Db)
      → (verify_chain digest db.audit).valid ≡ true
      → (verify_chain digest (mark_interrupted digest before now stamps db).1.audit).valid ≡ true
  unfolding mark_interrupted
  mark_interrupted-verify_chain db h = mark_rows-verify_chain 0 db.executions db.audit h
