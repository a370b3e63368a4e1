-- ===== src/Actions/Executed.antt =====
-- What an execution that returned went through, and what its outputs are.
use enterprise_data_access_a.Base.{ℕ, String, true, false, Option, some, [], ◌∷◌, ◌≡◌, ◌∈◌, ◌⊎◌}
use enterprise_data_access_a.Base.Json.{keys}
use enterprise_data_access_a.Models.{Db, Grant}
use enterprise_data_access_a.Broker.Checks.{Covers}
use enterprise_data_access_a.Actions.{inspect_instance, ActionDef, inspect_instance}
use enterprise_data_access_a.Actions.Execute.{Surroundings, Executed, is_controlled, is_native}

-- An action applies to a kind of resource, or to resources without one.
abbrev pub Applies : ActionDef → Option String → Type 0
Applies action kind =
    ("*" ∈ action.resource_kinds) ⊎ ((k : String) × (kind ≡ some k) × (k ∈ action.resource_kinds))

-- What `execute` has checked, and what it returns.
pub record IsExecuted (s : Surroundings) (action : ActionDef) (grant : Grant) (resource : String)
    (kind : Option String) (x : Executed) : Type 0 where
  pub covers : Covers grant action.cloud_action resource (s.validated_at 0)
  pub covers_additional :
      (a : String)
      → a ∈ action.additional_cloud_actions
      → (i : ℕ) × Covers grant a resource (s.validated_at i)
  pub applies : Applies action kind
  pub only_reads : s.is_aws ≡ true → action.name ∈ "inspect_instance" ∷ "view_asset" ∷ []
  pub only_declared : (k : String) → k ∈ keys x.outcome.outputs → k ∈ action.allowed_outputs
  pub isolated :
      is_native s action ≡ false
      → is_controlled action ≡ true
      → x.execution_mode ≡ "controlled_runner"

module _ (s : Surroundings) (db : Db) (action : ActionDef) (grant : Grant) (resource : String) where
  -- The checks in front of a handler that were passed.
  record IsPrepared (kind : Option String) : Type 0 where
    covers : Covers grant action.cloud_action resource (s.validated_at 0)
    covers_additional :
        (a : String)
        → a ∈ action.additional_cloud_actions
        → (i : ℕ) × Covers grant a resource (s.validated_at i)
    applies : Applies action kind
    only_reads : s.is_aws ≡ true → action.name ∈ "inspect_instance" ∷ "view_asset" ∷ []
