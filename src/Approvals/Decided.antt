-- ===== src/Approvals/Decided.antt =====
-- Who may decide an approval (`decide_approval` of beta/src/eda/gateway.py), and what a decision
-- writes.
use enterprise_data_access_a.Base.{
  ℕ, ◌≤◌, String, Bool, true, false, some, ◌≡◌, ◌≢◌, refl, inl, inr, ◌⊎◌, arith, eq_iff, ok, err,
  Exception, ltb, Option-cases, Bool-cases, ◌==◌,
}
use enterprise_data_access_a.Base.Json.{Value}
use enterprise_data_access_a.Models.{Db, Approval, AccessNode, is_pending}
use enterprise_data_access_a.Audit.{Stamp}
use enterprise_data_access_a.Graph.{View, AccessPath, capability_path}
use enterprise_data_access_a.Graph.Sound.{IsAuthorized, resolve_path-IsAuthorized}
use enterprise_data_access_a.Approvals.{
  permission_error, capability_path, value_error, decide_approval, get_approval, decided,
  write_decision, approver_path,
}

-- A decision that was made, on the database before it and the one behind it.
pub record IsDecision (digest : Value → String) (view : View) (id : String) (approver : AccessNode)
    (approve : Bool) (now : ℕ) (stamp : Stamp) (before : Db) (result : Approval) (after : Db)
    : Type 0 where
  pub request : Approval
  pub is_stored : get_approval id before.approvals ≡ some request
  pub was_pending : is_pending request.status ≡ true
  pub not_own : approver.name ≢ request.subject
  pub in_time : view.now ≤ request.expires_at
  pub proof : AccessPath
  pub is_authorized :
      IsAuthorized before
        (record view { tenant = request.tenant_id })
        approver.name
        request.required_capability
        request.resource
        proof
  pub is_result : result ≡ decided approve approver proof now request
  pub is_written : after ≡ write_decision digest request approver proof approve now stamp before

write_decision-IsDecision :
    (digest : Value → String) (view : View) (id : String) (approver : AccessNode) (approve : Bool)
    (now : ℕ) (stamp : Stamp) (db : Db) (a : Approval) (path : AccessPath)
    → get_approval id db.approvals ≡ some a
    → is_pending a.status ≡ true
    → (approver.name == a.subject) ≡ false
    → ltb a.expires_at view.now ≡ false
    → approver_path view db approver a ≡ some path
    → IsDecision digest view id approver approve now stamp db
        (decided approve approver path now a)
        (write_decision digest a approver path approve now stamp db)
unfolding approver_path capability_path
write_decision-IsDecision digest view id approver approve now stamp db a path found waiting other
      in_time proven =
    record {
      request = a;
      is_stored = found;
      was_pending = waiting;
      not_own = λ same. ground (arith, other, eq_iff approver.name a.subject);
      in_time = ground arith;
      proof = path;
      is_authorized =
          resolve_path-IsAuthorized db (record view { tenant = a.tenant_id }) approver.name
            a.required_capability a.resource path proven;
      is_result = refl;
      is_written = refl;
    }

-- A call of `decide_approval` either raises and leaves the database as it was, or
-- returns the row with the decision. Then the approval was pending and not expired, the approver is
-- not its subject and has a proven path for the capability, the resource and the tenant of the
-- approval, and the row and one audit record are all that is written.
pub decide_approval-outcome :
    (digest : Value → String) (view : View) (id : String) (approver : AccessNode) (approve : Bool)
    (now : ℕ) (stamp : Stamp) (db : Db)
    → ((e : Exception) × (decide_approval digest view id approver approve now stamp db
          ≡ (err e, db)))
      ⊎ ((result : Approval) × (after : Db) × (decide_approval digest view id approver approve now
              stamp db
            ≡ (ok result, after))
          × IsDecision digest view id approver approve now stamp db result after)
unfolding decide_approval
decide_approval-outcome digest view id approver approve now stamp db =
    elim (Option-cases (get_approval id db.approvals)) [
      | inl missing ↦ inl (value_error "unknown approval", ground (arith, missing))
      | inr (a, found) ↦ elim (Bool-cases (is_pending a.status)) [
        | inr settled ↦ inl (value_error "approval already ", ground (arith, found, settled))
        | inl waiting ↦ elim (Bool-cases (approver.name == a.subject)) [
          | inl own ↦
              inl
                (value_error "self-approval is not permitted", ground (arith, found, waiting, own))
          | inr other ↦ elim (Bool-cases (ltb a.expires_at view.now)) [
            | inl late ↦ inl (
              value_error "approval request expired",
              ground (arith, found, waiting, other, late),
            )
            | inr in_time ↦ elim (Option-cases (approver_path view db approver a)) [
              | inl no_path ↦ inl (
                permission_error "approver holds no access path conferring ",
                ground (arith, found, waiting, other, in_time, no_path),
              )
              | inr (path, proven) ↦ inr (
                decided approve approver path now a,
                write_decision digest a approver path approve now stamp db,
                ground (arith, found, waiting, other, in_time, proven),
                write_decision-IsDecision digest view id approver approve now stamp db a path found
                    waiting other in_time proven,
              )
            ]
          ]
        ]
      ]
    ]
