-- ===== src/Policy/Lifecycle/Steps.antt =====
-- Every operation of the lifecycle keeps the policy table consistent; an activation either changes
-- nothing or leaves the version that was asked for as the only active one.
use enterprise_data_access_a.Base.{
  policy_error, ℕ, ◌+◌, String, Bool, true, false, not, Option, none, some, List, [], ◌∷◌, map,
  ◌==◌, ◌≡◌, refl, ◌∙◌, find, filter, any, Result, >>=-eq-ok, raise_if, is_empty, policy_error,
  Result-cases, ok, err, length, arith, eq_iff, Bool-cases, Option-cases, find-some, inl, inr,
  length-append,
}
use enterprise_data_access_a.Base.Json.{Value, Fields}
use enterprise_data_access_a.Models.{Db, PolicyRecord, is_active, is_retired}
use enterprise_data_access_a.Audit.{Stamp, append}
use enterprise_data_access_a.Effects.{continue-same, fail_if, fail_if-same}
use enterprise_data_access_a.Policy.Proposal.{validate_document, check_proposal}
use enterprise_data_access_a.Policy.{PolicyInput}
use enterprise_data_access_a.Policy.Document.{default_version}
use enterprise_data_access_a.Policy.Lifecycle.{
  draft_record, default_version, update_policy, retire, activate, retire_previous, draft_record,
  is_taken, activate_policy, rollback_policy, propose_policy, active_policy, find_active,
  default_record, latest, evaluate, is_intact, write_activation,
}
use enterprise_data_access_a.Policy.Lifecycle.Sole.{
  IsConsistent, activation-IsConsistent, concat-IsConsistent,
}

documents-update :
    (id : String) (f : PolicyRecord → PolicyRecord) (ps : List PolicyRecord)
    → ((p : PolicyRecord) → (f p).document ≡ p.document)
    → map (λ p. p.document) (update_policy id f ps) ≡ map (λ p. p.document) ps
unfolding update_policy
documents-update id f [] same = refl
documents-update id f (p ∷ ps) same = ground (arith, same p, documents-update id f ps same)

documents-retire_previous :
    (o : Option PolicyRecord) (ps : List PolicyRecord)
    → map (λ p. p.document) (retire_previous o ps) ≡ map (λ p. p.document) ps
unfolding retire_previous
documents-retire_previous none ps = refl
documents-retire_previous (some p) ps = documents-update p.id retire ps (λ q. refl)

-- What an activation of `version` at `now` has done, by how it ended.
abbrev pub Activates : String → ℕ → Db → Result PolicyRecord × Db → Type 0
Activates version now db (err e, db') = db' ≡ db
Activates version now db (ok row, db') =
    IsConsistent db'.policies
    × (find is_active db'.policies ≡ some row)
    × (row.version ≡ version)
    × (row.activated_at ≡ some now)
    × (map (λ p. p.document) db'.policies ≡ map (λ p. p.document) db.policies)
    × (length db'.audit ≡ length db.audit + 1)

module _ (digest : Value → String) (actor : String) (now : ℕ) (stamp : Stamp) where
  write_activation-Activates :
      (version : String) (row : PolicyRecord) (db : Db)
      → IsConsistent db.policies
      → find (λ p. p.version == version) db.policies ≡ some row
      → is_active row ≡ false
      → Activates version now db
          (ok (activate now row), write_activation digest row actor now stamp db)
  unfolding write_activation append
  write_activation-Activates version row db c found off =
      let (named, m) = find-some (λ p. p.version == version) db.policies row found in
      let (kept, chosen) = activation-IsConsistent now row db.policies c m off in
      (
        kept,
        chosen,
        (eq_iff row.version version).0 named,
        refl,
        documents-update row.id (activate now) _ (λ p. refl)
            ∙ documents-retire_previous (find is_active db.policies) db.policies,
        length-append db.audit _,
      )

  -- From a consistent table an activation raises and changes nothing, or leaves a consistent table
  -- whose active row has the version that was asked for and the activation's time; no document
  -- changes, and one audit record is written.
  pub activate_policy-Activates :
      (version : String) (db : Db)
      → IsConsistent db.policies
      → Activates version now db (activate_policy digest version actor now stamp db)
  unfolding activate_policy
  activate_policy-Activates version db c =
      elim (Option-cases (find (λ p. p.version == version) db.policies)) [
        | inl unknown ↦ rw unknown refl
        | inr (row, found) ↦ rw found (elim (Bool-cases (is_active row)) [
          | inl on ↦ rw on refl
          | inr off ↦ rw off (elim (Bool-cases (is_intact digest row)) [
            | inl intact ↦ rw intact (write_activation-Activates version row db c found off)
            | inr broken ↦ rw broken refl
          ])
        ])
      ]

  -- An activation that goes through, whatever version it names.
  abbrev pub ActivatesSome : Db → Result PolicyRecord × Db → Type 0
  ActivatesSome db r = (version : String) × Activates version now db r

  pub rollback_policy-Activates :
      (nulls_first : Bool) (db : Db)
      → IsConsistent db.policies
      → ActivatesSome db (rollback_policy digest nulls_first actor now stamp db)
  unfolding rollback_policy
  rollback_policy-Activates nulls_first db c =
      elim (Option-cases (latest nulls_first (filter is_retired db.policies))) [
        | inl nobody ↦ ("", rw nobody refl)
        | inr (row, found) ↦ (row.version, rw found (activate_policy-Activates row.version db c))
      ]

-- What an operation leaves behind is consistent, whether it raised or returned.
pub Activates-IsConsistent :
    (version : String) (now : ℕ) (db : Db) (r : Result PolicyRecord × Db)
    → IsConsistent db.policies
    → Activates version now db r
    → IsConsistent r.1.policies
Activates-IsConsistent version now db (err e, db') c a = rw a c
Activates-IsConsistent version now db (ok row, db') c a = a.0

-- An identifier that no row of the table has.
abbrev pub IsNewId : String → Db → Type 0
IsNewId id db = any (λ p. p.id == id) db.policies ≡ false

check_proposal-unused :
    (document : Fields) (taken : Bool) → check_proposal document taken ≡ ok tt → taken ≡ false
unfolding check_proposal
check_proposal-unused document true h =
    let errors = >>=-eq-ok (validate_document document) _ h in
    let valid =
      >>=-eq-ok (raise_if (not (is_empty errors.0)) (policy_error "invalid document")) _ errors.2 in
    cc valid.2
check_proposal-unused document false h = refl

module _ (digest : Value → String) where
  find_active-IsConsistent :
      (production : Bool) (id : String) (now : ℕ) (db : Db)
      → IsConsistent db.policies
      → IsNewId id db
      → (find is_active db.policies ≡ none
          → any (λ p. p.version == default_version) db.policies ≡ false)
      → IsConsistent (find_active digest production id now db).1.policies
  unfolding find_active default_record
  find_active-IsConsistent production id now db c i v =
      elim (Option-cases (find is_active db.policies)) [
        | inr (row, found) ↦ rw (found, find_active) c
        | inl nobody ↦
            rw (nobody, find_active)
              (elim (Bool-cases production) [
                | inl live ↦ rw live c
                | inr dev ↦ rw dev (
                    concat-IsConsistent db.policies (default_record digest id now) c i (v nobody)
                      (λ e. nobody))
              ])
      ]

  pub active_policy-same :
      (production : Bool) (id : String) (now : ℕ) (db : Db)
      → (active_policy digest production id now db).1 ≡ (find_active digest production id now db).1
  unfolding active_policy
  active_policy-same production id now db =
      continue-same (find_active digest production id now db) _ (λ row d.
        continue-same
          (fail_if (not (is_intact digest row))
            (policy_error "active policy failed integrity check") d)
          _ (λ u d'. refl)
        ∙ fail_if-same _ _ d)

  propose_policy-IsConsistent :
      (document : Fields) (by id : String) (now : ℕ) (db : Db)
      → IsConsistent db.policies
      → IsNewId id db
      → IsConsistent (propose_policy digest document by id now db).1.policies
  unfolding propose_policy
  propose_policy-IsConsistent document by id now db c i =
      elim (Result-cases (check_proposal document (is_taken document db.policies))) [
        | inr (e, refused) ↦ rw (refused, propose_policy) c
        | inl (_, passed) ↦
            rw (passed, propose_policy)
              (concat-IsConsistent db.policies (draft_record digest document by id now) c i
                (check_proposal-unused document _ passed) (λ e. cc))
      ]

  -- One call of the policy service; `evaluate` may insert the default policy.
  pub data Step : Db → Db → Type 0 where
    propose :
        (db : Db) (document : Fields) (by id : String) (now : ℕ)
        → IsNewId id db
        → Step db (propose_policy digest document by id now db).1
    activation :
        (db : Db) (version by : String) (now : ℕ) (stamp : Stamp)
        → Step db (activate_policy digest version by now stamp db).1
    rollback :
        (db : Db) (nulls_first : Bool) (by : String) (now : ℕ) (stamp : Stamp)
        → Step db (rollback_policy digest nulls_first by now stamp db).1
    evaluation :
        (db : Db) (production : Bool) (id : String) (now : ℕ) (inp : PolicyInput)
        → IsNewId id db
        → (find is_active db.policies ≡ none
            → any (λ p. p.version == default_version) db.policies ≡ false)
        → Step db (evaluate digest production id now inp db).1

  pub data Reach (start : Db) : Db → Type 0 where
    here : Reach start start
    next : {db db' : Db} → Reach start db → Step db db' → Reach start db'

  pub evaluate-same :
      (production : Bool) (id : String) (now : ℕ) (inp : PolicyInput) (db : Db)
      → (evaluate digest production id now inp db).1 ≡ (find_active digest production id now db).1
  unfolding evaluate
  evaluate-same production id now inp db =
      continue-same _ _ (λ row d. refl) ∙ active_policy-same production id now db

  Step-IsConsistent :
      {db db' : Db} → Step db db' → IsConsistent db.policies → IsConsistent db'.policies
  Step-IsConsistent (propose db document by id now i) c =
      propose_policy-IsConsistent document by id now db c i
  Step-IsConsistent (activation db version by now stamp) c =
      Activates-IsConsistent version now db _ c
        (activate_policy-Activates digest by now stamp version db c)
  Step-IsConsistent (rollback db nulls_first by now stamp) c =
      let (version, a) = rollback_policy-Activates digest by now stamp nulls_first db c in
      Activates-IsConsistent version now db _ c a
  Step-IsConsistent (evaluation db production id now inp i v) c =
      rw evaluate-same (find_active-IsConsistent production id now db c i v)

  -- Whatever calls the policy service serves, with new identifiers for new rows, at most one
  -- policy is active and no two share an identifier or a version.
  pub Reach-IsConsistent :
      {start db : Db} → IsConsistent start.policies → Reach start db → IsConsistent db.policies
  Reach-IsConsistent c here = c
  Reach-IsConsistent c (next r s) = Step-IsConsistent s (Reach-IsConsistent c r)
