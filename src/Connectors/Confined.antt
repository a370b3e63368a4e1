-- ===== src/Connectors/Confined.antt =====
-- A connector writes its own rows only: what a message leaves of everything else
-- (beta/src/eda/connectors/sync.py, and its route in beta/src/eda/api.py).
use mathlib.Core.Path.{◌≡◌, refl, ◌∙◌, ap}
use enterprise_data_access_a.Base.{
  truthy_text, run_checks, ingest_error, ℕ, suc, ◌+◌, String, not, ◌&&◌, Option, none, some, List,
  [], ◌∷◌, any, ◌==◌, eqb, opt_eq, ltb, Result, ok, err, Bool-cases, Option-cases, inl, inr,
}
use enterprise_data_access_a.Models.{
  Db, RelationshipSource, Payload, Manifest, SyncMessage, Operation, begin, page, complete, abort,
  delta, ConnectorState, ConnectorReceipt,
}
use enterprise_data_access_a.Effects.{
  continue-rel, continue-same, after_lift, after_fail_if, fail_if-same, settle,
}
use enterprise_data_access_a.Ingestion.{get_source, authorized_collector, authenticate_collector}
use enterprise_data_access_a.Connectors.{
  relation_of, refusal, is_permitted, fail_if, Reference, Env, get_state, validate_fact,
  validate_facts, check_reference, check_references, record_checks, is_delta, shape, observed_of,
  refs_of, relation_of,
}
use enterprise_data_access_a.Connectors.Facts.{
  upsert_facts, drop_generation, promote_generation, bury, of_generation, write_facts,
}
use enterprise_data_access_a.Connectors.Sync.{
  finish_message, apply_operation, set_state, swap_sequence, begin_snapshot, page_snapshot,
  abort_snapshot, complete_snapshot, apply_delta, perform, process, replay_or_process,
  apply_message, sync_connector, generation_of, facts_of, is_complete, is_changes, is_snapshot,
  digest_of, get_receipt, max_size, open_snapshot, close_snapshot,
}
use enterprise_data_access_a.Connectors.Elsewhere.{
  elsewhere, SameElsewhere, SameElsewhere-trans, facts-SameElsewhere, upsert_facts-SameElsewhere,
  drop-foreign, promote-foreign, bury-foreign, set_state-SameElsewhere, swap-foreign,
  acknowledge-SameElsewhere,
}
use enterprise_data_access_a.Connectors.Projected.{publish-SameElsewhere}

module _ (env : Env) (source : RelationshipSource) where
  begin-SameElsewhere :
      (state : ConnectorState) (m : SyncMessage) (db : Db)
      → SameElsewhere env source db (begin_snapshot env source state m db).1
  unfolding begin_snapshot
  begin-SameElsewhere state m db =
      after_fail_if (SameElsewhere env source db) (truthy_text state.snapshot_id) _ _ db refl (λ u.
        after_fail_if (SameElsewhere env source db)
          (any (of_generation source.id (generation_of m)) db.connector_facts) _ _ db refl
          (λ u'. set_state-SameElsewhere env source (open_snapshot m.snapshot_id) db (λ s. refl)))

  page-SameElsewhere :
      (m : SyncMessage) (db : Db) → SameElsewhere env source db (page_snapshot env source m db).1
  unfolding page_snapshot
  page-SameElsewhere m db = upsert_facts-SameElsewhere env source (generation_of m) (facts_of m) db

  abort-SameElsewhere :
      (m : SyncMessage) (db : Db) → SameElsewhere env source db (abort_snapshot env source m db).1
  unfolding abort_snapshot
  abort-SameElsewhere m db =
      let d = write_facts (drop_generation source.id (generation_of m)) db in
      set_state-SameElsewhere env source (open_snapshot none) d (λ s. refl)
      ∙ facts-SameElsewhere env source db (drop_generation source.id (generation_of m))
          (drop-foreign env source (generation_of m) db.connector_facts)

  complete-SameElsewhere :
      (manifest : Manifest) (m : SyncMessage) (db : Db)
      → SameElsewhere env source db (complete_snapshot env source manifest m db).1
  unfolding complete_snapshot
  complete-SameElsewhere manifest m db =
      after_fail_if (SameElsewhere env source db) (not (is_complete m.coverage)) _ _ db refl (λ u.
        let d = write_facts (drop_generation source.id "live") db in
        let d' = write_facts (promote_generation source.id (generation_of m)) d in
        publish-SameElsewhere env source manifest (set_state source.id close_snapshot d')
        ∙ set_state-SameElsewhere env source close_snapshot d' (λ s. refl)
        ∙ facts-SameElsewhere env source d (promote_generation source.id (generation_of m))
            (promote-foreign env source (generation_of m) d.connector_facts)
        ∙ facts-SameElsewhere env source db (drop_generation source.id "live")
            (drop-foreign env source "live" db.connector_facts))

  delta-SameElsewhere :
      (manifest : Manifest) (state : ConnectorState) (m : SyncMessage) (db : Db)
      → SameElsewhere env source db (apply_delta env source manifest state m db).1
  unfolding apply_delta
  delta-SameElsewhere manifest state m db =
      after_fail_if (SameElsewhere env source db) (truthy_text state.snapshot_id) _ _ db refl (λ u.
        let d = record db { connector_facts = bury source.id m.tombstones db.connector_facts } in
        continue-rel (SameElsewhere env source) (SameElsewhere-trans env source)
          (upsert_facts env source.id source.tenant_id "live" (facts_of m) d) _ d
          (upsert_facts-SameElsewhere env source "live" (facts_of m) d)
          (λ v e.
            publish-SameElsewhere env source manifest
              (upsert_facts env source.id source.tenant_id "live" (facts_of m) d).1)
        ∙ facts-SameElsewhere env source db (bury source.id m.tombstones)
            (bury-foreign env source m.tombstones db.connector_facts))

  pub perform-SameElsewhere :
      (manifest : Manifest) (state : ConnectorState) (m : SyncMessage) (o : Operation) (db : Db)
      → SameElsewhere env source db (perform env source manifest state m o db).1
  unfolding perform
  perform-SameElsewhere manifest state m begin db = begin-SameElsewhere state m db
  perform-SameElsewhere manifest state m page db =
      after_fail_if (SameElsewhere env source db) (not (opt_eq state.snapshot_id m.snapshot_id)) _ _
        db refl (λ u. page-SameElsewhere m db)
  perform-SameElsewhere manifest state m complete db =
      after_fail_if (SameElsewhere env source db) (not (opt_eq state.snapshot_id m.snapshot_id)) _ _
        db refl (λ u. complete-SameElsewhere manifest m db)
  perform-SameElsewhere manifest state m abort db =
      after_fail_if (SameElsewhere env source db) (not (opt_eq state.snapshot_id m.snapshot_id)) _ _
        db refl (λ u. abort-SameElsewhere m db)
  perform-SameElsewhere manifest state m delta db = delta-SameElsewhere manifest state m db

  -- The validation of facts only reads.
  check_references-same :
      (manifest : Manifest) (relation : Option String) (refs : List Reference) (db : Db)
      → (check_references env source manifest relation refs db).1 ≡ db
  unfolding check_references check_reference
  check_references-same manifest relation [] db = refl
  check_references-same manifest relation (ref ∷ refs) db =
      continue-same (check_reference env source manifest relation ref db) _
        (λ u d. check_references-same manifest relation refs d)
      ∙ fail_if-same
          (not (is_permitted env source manifest relation ref (get_source ref.source_id db)))
          (refusal env source ref) db

  validate_fact-same :
      (manifest : Manifest) (now : ℕ) (fact : Payload) (db : Db)
      → (validate_fact env source manifest now fact db).1 ≡ db
  unfolding validate_fact
  validate_fact-same manifest now fact db =
      continue-same
        (fail_if (ltb now (observed_of fact)) (ingest_error 422 "future evidence timestamp") db) _
        (λ u d.
          continue-same (run_checks (record_checks env source manifest fact), d) _
            (λ u' d'. check_references-same manifest (relation_of fact) (refs_of fact) d'))
      ∙ fail_if-same (ltb now (observed_of fact)) _ db

  pub validate_facts-same :
      (manifest : Manifest) (i : ℕ) (facts : List Payload) (db : Db)
      → (validate_facts env source manifest i facts db).1 ≡ db
  unfolding validate_facts
  validate_facts-same manifest i [] db = refl
  validate_facts-same manifest i (fact ∷ facts) db =
      continue-same (validate_fact env source manifest (env.now i) fact db) _
        (λ u d. validate_facts-same manifest (suc i) facts d)
      ∙ validate_fact-same manifest (env.now i) fact db

  finish-SameElsewhere :
      (m : SyncMessage) (o : Option ConnectorState) (d : Db)
      → SameElsewhere env source d (finish_message env source m o d).1
  unfolding finish_message
  finish-SameElsewhere m none d = refl
  finish-SameElsewhere m (some row) d =
      acknowledge-SameElsewhere env source m (digest_of env source m) row.coverage d

  execute-SameElsewhere :
      (state : ConnectorState) (m : SyncMessage) (db : Db)
      → SameElsewhere env source db (apply_operation env source state m db).1
  unfolding apply_operation
  execute-SameElsewhere state m db =
      continue-rel (SameElsewhere env source) (SameElsewhere-trans env source)
        (validate_facts env source state.manifest 0 (facts_of m) db) _ db
        (ap (elsewhere env source) (validate_facts-same state.manifest 0 (facts_of m) db))
        (λ u e.
          let d = (validate_facts env source state.manifest 0 (facts_of m) db).1 in
          after_fail_if (SameElsewhere env source d) (opt_eq m.snapshot_id (some "live")) _ _ d refl
            (λ u'.
              continue-rel (SameElsewhere env source) (SameElsewhere-trans env source)
                (perform env source state.manifest state m m.operation d) _ d
                (perform-SameElsewhere state.manifest state m m.operation d)
                (λ v e'.
                  let d' = (perform env source state.manifest state m m.operation d).1 in
                  finish-SameElsewhere m (get_state env source.id d') d')))

  process-SameElsewhere :
      (state : ConnectorState) (m : SyncMessage) (db : Db)
      → SameElsewhere env source db (process env source state m db).1
  unfolding process
  process-SameElsewhere state m db =
      let swapped = swap_sequence source.id state.sequence m.sequence db.connector_states in
      let d = record db { connector_states = swapped.1 } in
      let P = SameElsewhere env source d in
      after_fail_if P (not (eqb swapped.0 1)) _ _ d refl (λ u.
        after_fail_if P (is_delta m.operation && not (any is_changes state.manifest.capabilities)) _
          _ d refl
          (λ u.
            after_fail_if P
              (not (is_delta m.operation) && not (any is_snapshot state.manifest.capabilities)) _ _
              d refl (λ u. execute-SameElsewhere state m d)))
      ∙ ap (λ t. record (elsewhere env source db) { connector_states = t })
          (swap-foreign env source state.sequence m.sequence db.connector_states)

  replay-SameElsewhere :
      (r : Option ConnectorReceipt) (m : SyncMessage) (db : Db)
      → SameElsewhere env source db (replay_or_process env source r m db).1
  unfolding replay_or_process
  replay-SameElsewhere (some r) m db =
      after_fail_if (SameElsewhere env source db) (not (r.digest == digest_of env source m)) _ _ db
        refl (λ u. refl)
  replay-SameElsewhere none m db = elim (Option-cases (get_state env source.id db)) [
    | inl e ↦ rw e refl
    | inr (state, e) ↦ rw e (
        after_fail_if (SameElsewhere env source db) (not (eqb m.sequence (state.sequence + 1))) _ _
          db refl (λ u. process-SameElsewhere state m db))
  ]

  pub apply_message-SameElsewhere :
      (m : SyncMessage) (db : Db) → SameElsewhere env source db (apply_message env source m db).1
  unfolding apply_message
  apply_message-SameElsewhere m db =
      after_fail_if (SameElsewhere env source db) (not source.enabled) _ _ db refl (λ u.
        after_fail_if (SameElsewhere env source db)
          (ltb (max_size env source) (env.size (env.dump m))) _ _ db refl
          (λ u'. replay-SameElsewhere (get_receipt env source m.sequence db) m db))

settled :
    {A : Type 0} (P : Db → Type 0) (db : Db) (r : Result A × Db) → P db → P r.1 → P (settle db r).1
settled P db (ok a, d) h k = k
settled P db (err e, d) h k = h

-- Whatever a connector sends, and whether it is accepted or not: the nodes, edges, objects, links,
-- facts, states, receipts and sources that are not of its source are as before, and so are the
-- policies, grants, approvals, operations and receipts of batches.
pub sync_connector-SameElsewhere :
    (env : Env) (source_id bearer : String) (m : SyncMessage) (db : Db)
    (source : RelationshipSource)
    → get_source source_id db ≡ some source
    → elsewhere env source (sync_connector env source_id bearer m db).1 ≡ elsewhere env source db
unfolding sync_connector authenticate_collector
sync_connector-SameElsewhere env source_id bearer m db source found =
    settled (SameElsewhere env source db) db _ refl (
      after_lift (SameElsewhere env source db) (shape m) _ db refl (λ u e.
        elim (Bool-cases (authorized_collector env.sha256 bearer source)) [
          | inl a ↦ rw (found, a) (apply_message-SameElsewhere env source m db)
          | inr a ↦ rw (found, a) refl
        ]))
