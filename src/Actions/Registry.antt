-- ===== src/Actions/Registry.antt =====
-- The registry of beta/src/eda/actions.py against its handlers.
use enterprise_data_access_a.Base.{String, ◌≡◌, refl, ◌∈◌, inl, inr}
use enterprise_data_access_a.Base.Json.{Fields}
use enterprise_data_access_a.Actions.{ActionDef, registry, run_handler, only_keys}

-- The outputs of every handler of the registry are declared, so the filter of `execute` drops none.
pub registry-only_keys :
    (a : ActionDef) (ticket : String → String → String) (resource : String) (inputs : Fields)
    → a ∈ registry
    → only_keys a.allowed_outputs (run_handler ticket a.handler resource inputs).outputs
      ≡ (run_handler ticket a.handler resource inputs).outputs
unfolding run_handler only_keys
registry-only_keys a ticket resource inputs m = elim m [
  | inl e ↦ rw e refl
  | inr (inl e) ↦ rw e refl
  | inr (inr (inl e)) ↦ rw e refl
  | inr (inr (inr (inl e))) ↦ rw e refl
  | inr (inr (inr (inr (inl e)))) ↦ rw e refl
  | inr (inr (inr (inr (inr nothing)))) ↦ elim nothing [ ]
]
