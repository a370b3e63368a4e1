-- ===== src/Examples/Deciding.antt =====
-- Approvals at a concrete graph.
use mathlib.Core.Path.{◌≡◌, refl}
use enterprise_data_access_a.Base.{String, true, none, some, List, [], ◌∷◌, ok, err, ◌⊎◌, Exception}
use enterprise_data_access_a.Base.Json.{Value, end}
use enterprise_data_access_a.Models.{Db, Approval, AccessNode, pending}
use enterprise_data_access_a.Audit.{Stamp}
use enterprise_data_access_a.Approvals.{
  Request, new_approval, decide_approval, decided, update_approval, consume, get_approval,
}
use enterprise_data_access_a.Approvals.Decided.{IsDecision, decide_approval-outcome}
use enterprise_data_access_a.Approvals.Spent.{
  start, requested, decided_on, spent_on, NoRepeat, Run-NoRepeat,
}
use enterprise_data_access_a.Examples.Paths.{graph_db, demo, node, proof}

abbrev digest : Value → String
digest v = "h"

abbrev stamp : Stamp
stamp = record { id = "1"; ts = 5 }

abbrev request : Request
request = record {
  subject = "ada";
  tenant = none;
  action = "open_ticket";
  resource = "web-1";
  request_hash = "h";
  justification = end;
}

abbrev asked : Approval
asked = new_approval request "a1" 1 1 60 "c1"

abbrev db : Db
db = record graph_db { approvals = asked ∷ [] }

abbrev bob : AccessNode
bob = node "v" "user" "bob"

decide_approval-outcome_example :
    ((e : Exception) × (decide_approval digest demo "a1" bob true 11 stamp db ≡ (err e, db)))
    ⊎ ((result : Approval) × (after : Db) × (decide_approval digest demo "a1" bob true 11 stamp db
          ≡ (ok result, after))
        × IsDecision digest demo "a1" bob true 11 stamp db result after)
decide_approval-outcome_example = decide_approval-outcome digest demo "a1" bob true 11 stamp db

-- A request that is approved and spent.
abbrev approved_rows : List Approval
approved_rows = update_approval "a1" (decided true bob proof 11) (asked ∷ [])

spends : (consume "a1" 12 approved_rows).0 ≡ 1
unfolding consume update_approval new_approval
spends = refl

asked_id : get_approval "a1" (asked ∷ []) ≡ some asked
unfolding new_approval
asked_id = refl

asked_pending : asked.status ≡ pending
unfolding new_approval
asked_pending = refl

asked_open : enterprise_data_access_a.Models.is_pending asked.status ≡ true
unfolding new_approval
asked_open = refl

Run-NoRepeat_example : NoRepeat ("a1" ∷ [])
Run-NoRepeat_example = Run-NoRepeat (consume "a1" 12 approved_rows).1 ("a1" ∷ []) (
    spent_on "a1" 12
      (decided_on "a1" asked true bob proof 11 (requested asked start refl asked_pending) asked_id
        asked_open)
      spends)
