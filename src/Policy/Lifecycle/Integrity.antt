-- ===== src/Policy/Lifecycle/Integrity.antt =====
-- A stored document that no longer matches its checksum is neither evaluated nor activated
-- (beta/src/eda/policy.py).
use enterprise_data_access_a.Base.{
  ℕ, String, Bool, some, ◌≡◌, Bool-cases, inl, inr, ok, find, arith,
}
use enterprise_data_access_a.Base.Json.{Value}
use enterprise_data_access_a.Models.{Db, PolicyRecord, is_active}
use enterprise_data_access_a.Policy.{PolicyInput, Decision, evaluate_document, input_json}
use enterprise_data_access_a.Policy.Lifecycle.{evaluate, active_policy, find_active, is_intact}

module _ (digest : Value → String) where
  pub find_active-found :
      (production : Bool) (id : String) (now : ℕ) (db : Db) (row : PolicyRecord)
      → find is_active db.policies ≡ some row
      → find_active digest production id now db ≡ (ok row, db)
  unfolding find_active
  find_active-found production id now db row found = ground (arith, found)

  -- Where a policy is active, evaluation returns what its document says.
  pub evaluate-document :
      (production : Bool) (id : String) (now : ℕ) (inp : PolicyInput) (db : Db) (row : PolicyRecord)
      (d : Decision) (after : Db)
      → find is_active db.policies ≡ some row
      → evaluate digest production id now inp db ≡ (ok d, after)
      → evaluate_document row.version (digest (input_json inp)) inp row.document ≡ ok d
  unfolding evaluate active_policy
  evaluate-document production id now inp db row d after found h =
      elim (Bool-cases (is_intact digest row)) [
        | inl intact ↦ ground (arith, h, find_active-found production id now db row found, intact)
        | inr broken ↦ ground (arith, h, find_active-found production id now db row found, broken)
      ]
