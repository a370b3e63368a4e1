-- ===== src/Connectors/Refined.antt =====
-- `apply_message` implements the contract of Connectors/Protocol, whatever it answers
-- (beta/src/eda/connectors/sync.py, and its route in beta/src/eda/api.py).
use mathlib.Core.Path.{◌≡◌, refl, sym, ◌∙◌, ap, subst}
use enterprise_data_access_a.Base.{
  nonempty, some-injective, ℕ, ◌+◌, String, true, false, not, ◌&&◌, Option, none, some, ◌==◌,
  if◌then◌else◌, any, eqb, ltb, opt_eq, opt_eq→eq, arith, Result, ok, err, run_checks-ok,
}
use enterprise_data_access_a.Models.{
  Db, ConnectorState, ConnectorReceipt, RelationshipSource, Manifest, SyncMessage, Operation, begin,
  page, complete, abort, delta,
}
use enterprise_data_access_a.Effects.{continue-eq-ok, fail_if-passed, or_raise-found, settle}
use enterprise_data_access_a.Ingestion.{collector, get_source, authenticate_collector}
use enterprise_data_access_a.Connectors.{
  truthy_id, Env, key, get_state, validate_facts, shape, shape_checks, is_delta,
}
use enterprise_data_access_a.Connectors.Sync.{
  Answer, perform, swap_sequence, acknowledge, finish_message, apply_operation, process,
  replay_or_process, apply_message, sync_connector, facts_of, digest_of, get_receipt, max_size,
  is_changes, is_snapshot,
}
use enterprise_data_access_a.Connectors.Confined.{validate_facts-same}
use enterprise_data_access_a.Connectors.Protocol.{Inventory, show, Shows, step, step_by}
use enterprise_data_access_a.Connectors.Writes.{find-swap}
use enterprise_data_access_a.Connectors.Operations.{
  Holds, ShowsStep, begin-refines, page-refines, abort-refines, complete-refines, delta-refines,
}

-- A message that is shaped names its snapshot, unless it is a delta.
IsNamed : Operation → SyncMessage → Type 0
IsNamed o m = is_delta o ≡ false → (g : String) × (m.snapshot_id ≡ some g) × (nonempty g ≡ true)

shape-IsNamed : (m : SyncMessage) → shape m ≡ ok tt → IsNamed m.operation m
unfolding shape IsNamed
shape-IsNamed m h other =
    let named = (run_checks-ok (shape_checks m) h).0 in
    name m.snapshot_id (ground (arith, named, other))
  where
    name :
        (o : Option String) → truthy_id o ≡ true → (g : String) × (o ≡ some g) × (nonempty g ≡ true)
    name none e = absurd (cc)
    name (some g) e = (g, refl, e)

module _ (env : Env) (source : RelationshipSource) (m : SyncMessage) where
  -- The snapshot that is open is the one of the message.
  opened :
      (o : Option String) {o' : Option String} {g : String}
      → not (opt_eq o m.snapshot_id) ≡ false
      → m.snapshot_id ≡ some g
      → o ≡ o'
      → o' ≡ some g
  opened o h e same = sym same ∙ opt_eq→eq o m.snapshot_id (ground (arith, h)) ∙ e

  -- The operation that the message names.
  perform-refines :
      (manifest : Manifest) (state st : ConnectorState) (o : Operation) (db db' : Db)
      → state.snapshot_id ≡ st.snapshot_id
      → Holds env source m st db
      → IsNamed o m
      → opt_eq m.snapshot_id (some "live") ≡ false
      → perform env source manifest state m o db ≡ (ok tt, db')
      → ShowsStep env source m o st db db'
  unfolding perform IsNamed
  perform-refines manifest state st begin db db' same holds named not_live h =
      let (g, e, n) = named refl in
      begin-refines env source m state st g db db' same holds e n not_live h
  perform-refines manifest state st page db db' same holds named not_live h =
      let (g, e, n) = named refl in
      let matched = fail_if-passed (not (opt_eq state.snapshot_id m.snapshot_id)) _ _ db h in
      page-refines env source m st g db db' holds (opened state.snapshot_id matched.0 e same) e
        matched.1
  perform-refines manifest state st complete db db' same holds named not_live h =
      let (g, e, n) = named refl in
      let matched = fail_if-passed (not (opt_eq state.snapshot_id m.snapshot_id)) _ _ db h in
      complete-refines env source m manifest st g db db' holds
        (opened state.snapshot_id matched.0 e same) e matched.1
  perform-refines manifest state st abort db db' same holds named not_live h =
      let (g, e, n) = named refl in
      let matched = fail_if-passed (not (opt_eq state.snapshot_id m.snapshot_id)) _ _ db h in
      abort-refines env source m st g db db' holds (opened state.snapshot_id matched.0 e same) e
        matched.1
  perform-refines manifest state st delta db db' same holds named not_live h =
      delta-refines env source m manifest state st db db' same holds h

  finish-Shows :
      (i : Inventory) (o : Option ConnectorState) (db db' : Db) (a : Answer)
      → Shows source.id env i db
      → finish_message env source m o db ≡ (ok a, db')
      → Shows source.id env i db' × (a.replayed ≡ false)
  unfolding finish_message acknowledge
  finish-Shows i none db db' a shows h = absurd (cc)
  finish-Shows i (some row) db db' a shows h = (
    subst (Shows source.id env i) (λ j. (h j).1)
        (record {
          state = shows.state;
          found = shows.found;
          shown = shows.shown;
          placed = shows.placed;
          proper = shows.proper;
        }),
    cc,
  )

  -- The number of an inventory plays no part in a step.
  step_by-number :
      (o : Operation) (i : Inventory) (n : ℕ)
      → step_by (key env source.tenant_id) o m (record i { sequence = n })
        ≡ record (step_by (key env source.tenant_id) o m i) { sequence = n }
  step_by-number begin i n = refl
  step_by-number page i n = refl
  step_by-number complete i n = refl
  step_by-number abort i n = refl
  step_by-number delta i n = refl

  apply_operation-Shows :
      (state st : ConnectorState) (db db' : Db) (a : Answer)
      → state.snapshot_id ≡ st.snapshot_id
      → Holds env source m st db
      → IsNamed m.operation m
      → apply_operation env source state m db ≡ (ok a, db')
      → ShowsStep env source m m.operation st db db' × (a.replayed ≡ false)
  unfolding apply_operation
  apply_operation-Shows state st db db' a same holds named h =
      let (u, d, validated, h1) =
        continue-eq-ok (validate_facts env source state.manifest 0 (facts_of m) db) _ h in
      let unchanged : db ≡ d =
        sym (validate_facts-same env source state.manifest 0 (facts_of m) db)
        ∙ (λ i. (validated i).1) in
      let reserved = fail_if-passed (opt_eq m.snapshot_id (some "live")) _ _ d h1 in
      let (v, d', performed, h2) =
        continue-eq-ok (perform env source state.manifest state m m.operation d) _ reserved.1 in
      let shows =
        perform-refines state.manifest state st m.operation d d' same
          (subst (Holds env source m st) unchanged holds) named reserved.0 performed in
      finish-Shows
        (step_by (key env source.tenant_id) m.operation m (show source.id st db.connector_facts))
        (get_state env source.id d') d' db' a
        (subst (λ x. ShowsStep env source m m.operation st x d') (sym unchanged) shows) h2

  process-Shows :
      (i : Inventory) (db db' : Db) (shows : Shows source.id env i db) (a : Answer)
      → IsNamed m.operation m
      → process env source shows.state m db ≡ (ok a, db')
      → Shows source.id env (step (key env source.tenant_id) m i) db' × (a.replayed ≡ false)
  unfolding process
  process-Shows i db db' shows a named h =
      let state = shows.state in
      let swapped = swap_sequence source.id state.sequence m.sequence db.connector_states in
      let d = record db { connector_states = swapped.1 } in
      let one = fail_if-passed (not (eqb swapped.0 1)) _ _ d h in
      let two =
        fail_if-passed (is_delta m.operation && not (any is_changes state.manifest.capabilities)) _
          _ d one.1 in
      let three =
        fail_if-passed
          (not (is_delta m.operation) && not (any is_snapshot state.manifest.capabilities)) _ _ d
          two.1 in
      let st = record state { sequence = m.sequence } in
      let done =
        apply_operation-Shows state st d db' a refl
          (record {
            found = find-swap source.id m.sequence db.connector_states state shows.found;
            placed = shows.placed;
            proper = shows.proper;
          })
          named three.1 in
      (
        subst (λ x. Shows source.id env x db')
            (step_by-number m.operation (show source.id state db.connector_facts) m.sequence
              ∙ ap (step (key env source.tenant_id) m) shows.shown)
            done.0,
        done.1,
      )

  -- What the answer makes of an inventory.
  abbrev pub after : Result Answer → Inventory → Inventory
  after (err e) i = i
  after (ok a) i = if a.replayed then i else step (key env source.tenant_id) m i

  replay-Shows :
      (i : Inventory) (r : Option ConnectorReceipt) (db db' : Db) (a : Answer)
      → Shows source.id env i db
      → IsNamed m.operation m
      → replay_or_process env source r m db ≡ (ok a, db')
      → Shows source.id env (after (ok a) i) db'
  unfolding replay_or_process
  replay-Shows i (some r) db db' a shows named h =
      let passed = fail_if-passed (not (r.digest == digest_of env source m)) _ _ db h in
      let replayed : a.replayed ≡ true = cc (passed.1) in
      rw replayed (subst (Shows source.id env i) (λ j. (passed.1 j).1) shows)
  replay-Shows i none db db' a shows named h =
      let (state, found, h1) = or_raise-found (get_state env source.id db) _ _ db h in
      let passed = fail_if-passed (not (eqb m.sequence (state.sequence + 1))) _ _ db h1 in
      let same : state ≡ shows.state = some-injective (sym found ∙ shows.found) in
      let done =
        process-Shows i db db' shows a named
          (subst (λ x. process env source x m db ≡ (ok a, db')) same passed.1) in
      rw done.1 done.0

  apply_message-Shows :
      (i : Inventory) (db db' : Db) (a : Answer)
      → Shows source.id env i db
      → IsNamed m.operation m
      → apply_message env source m db ≡ (ok a, db')
      → Shows source.id env (after (ok a) i) db'
  unfolding apply_message
  apply_message-Shows i db db' a shows named h =
      let on = fail_if-passed (not source.enabled) _ _ db h in
      let fits = fail_if-passed (ltb (max_size env source) (env.size (env.dump m))) _ _ db on.1 in
      replay-Shows i (get_receipt env source m.sequence db) db db' a shows named fits.1

  settled-Shows :
      (i : Inventory) (db : Db) (r : Result Answer × Db)
      → Shows source.id env i db
      → ((a : Answer) (d : Db) → r ≡ (ok a, d) → Shows source.id env (after (ok a) i) d)
      → Shows source.id env (after (settle db r).0 i) (settle db r).1
  settled-Shows i db (ok a, d) shows k = k a d refl
  settled-Shows i db (err e, d) shows k = shows

-- The source that a collector is authenticated for.
pub collector-same :
    (sha256 : String → String) (bearer : String) (o : Option RelationshipSource)
    (source s : RelationshipSource)
    → o ≡ some source
    → collector sha256 bearer o ≡ some s
    → source ≡ s
collector-same sha256 bearer none source s found h = cc
collector-same sha256 bearer (some o) source s found h = ground (arith, h)

-- Whatever is sent to the source of a connector: if the database shows an inventory of the source,
-- it shows the same one after a message that is refused or that repeats an earlier one, and after
-- one that is accepted it shows what the contract of the operation makes of it, under the message's
-- number.
pub sync_connector-refines :
    (env : Env) (source_id bearer : String) (m : SyncMessage) (db : Db)
    (source : RelationshipSource) (i : Inventory)
    → get_source source_id db ≡ some source
    → Shows source.id env i db
    → Shows source.id env
        (after env source m (sync_connector env source_id bearer m db).0 i)
        (sync_connector env source_id bearer m db).1
unfolding sync_connector authenticate_collector
sync_connector-refines env source_id bearer m db source i found shows =
    settled-Shows env source m i db _ shows (λ a d h.
      let (u, d1, shaped, h1) = continue-eq-ok (shape m, db) _ h in
      let named = shape-IsNamed m (λ j. (shaped j).0) in
      let same : db ≡ d1 = λ j. (shaped j).1 in
      let (s, known, h2) =
        or_raise-found (collector env.sha256 bearer (get_source source_id d1)) _ _ d1 h1 in
      let is_source : source ≡ s =
        collector-same env.sha256 bearer (get_source source_id d1) source s
          (subst (λ x. get_source source_id x ≡ some source) same found) known in
      apply_message-Shows env source m i db d a shows named (
        subst (λ x. apply_message env source m x ≡ (ok a, d)) (sym same)
          (subst (λ x. apply_message env x m d1 ≡ (ok a, d)) (sym is_source) h2)))
