-- ===== src/Policy/Lifecycle.antt =====
-- The lifecycle of policy documents (beta/src/eda/policy.py): the active document, proposal,
-- activation, rollback, and `evaluate`. What a call reads of its surroundings stands as arguments:
-- whether the environment is production, the row's new identifier, the clock, the audit's stamp.
pub mod Sole
pub mod Steps
pub mod Integrity
use enterprise_data_access_a.Base.{
  ℕ, String, Bool, true, false, not, Option, none, some, List, [], ◌∷◌, ◌++◌, map, ◌==◌, is_empty,
  find, filter, ltb, if◌then◌else◌, Result, ok, err, policy_error, is_some, any,
}
use enterprise_data_access_a.Base.Json.{
  Value, null, str, obj, Fields, end, field, items, dict, get, at_key,
}
use enterprise_data_access_a.Models.{
  Db, PolicyRecord, PolicyStatus, draft, active, retired, is_active, is_retired, AuditFields,
}
use enterprise_data_access_a.Audit.{Stamp, append, opt_str}
use enterprise_data_access_a.Effects.{
  Action, pure, raise, lift, gets, or_raise, modify, fail_if, ◌>>=◌, ◌>>◌,
}
use enterprise_data_access_a.Policy.{PolicyInput, Decision, input_json, evaluate_document, iterate}
use enterprise_data_access_a.Policy.Document.{default_policy, default_version}
use enterprise_data_access_a.Policy.Proposal.{check_proposal}

-- The columns that a writer leaves out.
abbrev pub blank_fields : AuditFields
blank_fields = record {
  correlation_id = "";
  tenant_id = none;
  subject = "";
  session_id = "-";
  event = "";
  action = none;
  target = none;
  access_path = null;
  policy_input = null;
  policy_decision = null;
  policy_version = none;
  approval = null;
  grant = null;
  api_calls = null;
  context_summary = null;
  result = "";
  error = none;
}

-- The row of an identifier is written; the primary key names one row.
pub update_policy : String → (PolicyRecord → PolicyRecord) → List PolicyRecord → List PolicyRecord
update_policy id f ps = map (λ p. if p.id == id then f p else p) ps

abbrev pub retire : PolicyRecord → PolicyRecord
retire p = record p { status = retired }

abbrev pub activate : ℕ → PolicyRecord → PolicyRecord
activate now p = record p { status = active; activated_at = some now }

-- `previous.status = "retired"`, where there is one
pub retire_previous : Option PolicyRecord → List PolicyRecord → List PolicyRecord
unfolding update_policy
retire_previous none ps = ps
retire_previous (some p) ps = update_policy p.id retire ps

-- Is `p` before `q` under `activated_at desc`? Where NULL stands is the database's choice: first
-- in PostgreSQL, last in SQLite.
pub comes_before : Bool → Option ℕ → Option ℕ → Bool
comes_before nulls_first none none = false
comes_before nulls_first none (some t) = nulls_first
comes_before nulls_first (some s) none = not nulls_first
comes_before nulls_first (some s) (some t) = ltb t s

pub latest : Bool → List PolicyRecord → Option PolicyRecord
unfolding comes_before
latest nulls_first [] = none
latest nulls_first (p ∷ ps) = elim (latest nulls_first ps) [
  | none ↦ some p
  | some q ↦ if comes_before nulls_first q.activated_at p.activated_at then some q else some p
]

-- A value that `validate_document` has found to be a text.
abbrev pub text_of : Value → String
text_of (str s) = s
text_of _ = ""

abbrev version_of : Option PolicyRecord → Value
version_of none = null
version_of (some p) = str p.version

-- `select(PolicyRecord).where(version == document["version"])` finds a row.
abbrev pub is_taken : Fields → List PolicyRecord → Bool
is_taken document ps = any (λ p. p.version == text_of (get document "version")) ps

module _ (digest : Value → String) where
  -- `checksum`
  abbrev pub checksum : Fields → String
  checksum document = digest (obj document)

  pub is_intact : PolicyRecord → Bool
  is_intact p = p.checksum == checksum p.document

  -- The row that `active_policy` inserts where no policy is active.
  pub default_record : String → ℕ → PolicyRecord
  default_record id now = record {
    id = id;
    version = default_version;
    document = default_policy;
    status = active;
    checksum = checksum default_policy;
    created_by = "system";
    created_at = now;
    activated_at = none;
  }

  -- `active_policy`, up to the integrity check
  unfoldable pub find_active : Bool → String → ℕ → Action PolicyRecord
  unfolding default_record
  find_active production id now db = elim (find is_active db.policies) [
    | some p ↦ (ok p, db)
    | none ↦
        if production
        then (err (policy_error "production requires an explicitly activated policy"), db)
        else (
          ok (default_record id now),
          record db { policies = db.policies ++ default_record id now ∷ [] },
        )
  ]

  unfoldable pub active_policy : Bool → String → ℕ → Action PolicyRecord
  unfolding find_active is_intact
  active_policy production id now = do
    row ← find_active production id now
    fail_if (not (is_intact row)) (policy_error "active policy failed integrity check")
    pure row

  -- The row of a proposal.
  abbrev pub draft_record : Fields → String → String → ℕ → PolicyRecord
  draft_record document actor id now = record {
    id = id;
    version = text_of (get document "version");
    document = document;
    status = draft;
    checksum = checksum document;
    created_by = actor;
    created_at = now;
    activated_at = none;
  }

  pub propose_policy : Fields → String → String → ℕ → Action PolicyRecord
  propose_policy document actor id now db =
      elim (check_proposal document (is_taken document db.policies)) [
        | err e ↦ (err e, db)
        | ok _ ↦ (
          ok (draft_record document actor id now),
          record db { policies = db.policies ++ draft_record document actor id now ∷ [] },
        )
      ]

  -- The audit record of an activation.
  pub activation_fields : PolicyRecord → Option PolicyRecord → String → AuditFields
  activation_fields row previous actor = record blank_fields {
    correlation_id = row.id;
    subject = actor;
    event = "policy_change";
    action = some "policy:activate";
    target = some row.version;
    policy_version = some row.version;
    context_summary =
        obj
          (dict (("previous_version", version_of previous) ∷ ("checksum", str row.checksum) ∷ []));
    result = "activated";
  }

  -- The writes of `activate_policy`: the active row is retired and the chosen one made active.
  pub write_activation : PolicyRecord → String → ℕ → Stamp → Db → Db
  unfolding retire_previous update_policy activation_fields
  write_activation row actor now stamp db =
      let previous = find is_active db.policies in
      record db {
        policies = update_policy row.id (activate now) (retire_previous previous db.policies);
        audit = append digest db.audit stamp (activation_fields row previous actor);
      }

  pub activate_policy : String → String → ℕ → Stamp → Action PolicyRecord
  unfolding write_activation is_intact
  activate_policy version actor now stamp = do
    found ← gets (λ db. find (λ p. p.version == version) db.policies)
    row ← or_raise found (policy_error "unknown policy version")
    fail_if (is_active row) (policy_error "version is already active")
    fail_if (not (is_intact row))
        (policy_error "version failed integrity check; refusing to activate")
    modify (write_activation row actor now stamp)
    pure (activate now row)

  pub rollback_policy : Bool → String → ℕ → Stamp → Action PolicyRecord
  unfolding latest activate_policy
  rollback_policy nulls_first actor now stamp = do
    found ← gets (λ db. latest nulls_first (filter is_retired db.policies))
    candidate ← or_raise found (policy_error "no retired policy version to roll back to")
    activate_policy candidate.version actor now stamp

  unfoldable pub evaluate : Bool → String → ℕ → PolicyInput → Action Decision
  unfolding active_policy
  evaluate production id now inp = do
    row ← active_policy production id now
    lift (evaluate_document row.version (digest (input_json inp)) inp row.document)
