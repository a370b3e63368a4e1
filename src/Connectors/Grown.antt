-- ===== src/Connectors/Grown.antt =====
-- What any message leaves, whatever it is answered: the receipts that were there are found as before,
-- and the sources are the same but for their last synchronisation (beta/src/eda/connectors/sync.py).
use mathlib.Core.Path.{◌≡◌, refl, sym, subst}
use enterprise_data_access_a.Base.{
  ingest_error, ◌+◌, String, Bool, not, ◌&&◌, Option, none, some, ◌==◌, find, any, eqb, ltb, opt_eq,
  Option-cases, inl, inr, Result, ok, err, find-append_some,
}
use enterprise_data_access_a.Models.{
  Db, ConnectorState, ConnectorReceipt, RelationshipSource, SyncMessage,
}
use enterprise_data_access_a.Effects.{continue, continue-rel, after_fail_if, after_lift, settle}
use enterprise_data_access_a.Ingestion.{get_source, authenticate_collector, collector}
use enterprise_data_access_a.Connectors.{or_raise, Env, get_state, validate_facts, shape, is_delta}
use enterprise_data_access_a.Connectors.Sync.{
  perform, swap_sequence, acknowledge, finish_message, apply_operation, process, replay_or_process,
  apply_message, sync_connector, facts_of, digest_of, get_receipt, max_size, is_changes,
  is_snapshot,
}
use enterprise_data_access_a.Connectors.Confined.{validate_facts-same}
use enterprise_data_access_a.Connectors.Kept.{
  Kept, kept, SourcesKept, SourcesKept-refl, SourcesKept-trans, perform-Kept,
}

-- Receipts and sources that were there are there.
pub record Grown (db d : Db) : Type 0 where
  pub receipts_kept :
      (p : ConnectorReceipt → Bool) (r : ConnectorReceipt)
      → find p db.connector_receipts ≡ some r
      → find p d.connector_receipts ≡ some r
  pub sources_kept : SourcesKept db d

of_Kept : (db d : Db) → Kept db d → Grown db d
of_Kept db d k = record {
  receipts_kept = λ p r h. subst (λ x. find p x ≡ some r) (sym k.same_receipts) h;
  sources_kept = k.sources_kept;
}

pub grown :
    (db d : Db) → d.connector_receipts ≡ db.connector_receipts → d.sources ≡ db.sources → Grown db d
grown db d r s = of_Kept db d (kept db d r s)

pub Grown-trans : (x y z : Db) → Grown x y → Grown y z → Grown x z
Grown-trans x y z h k = record {
  receipts_kept = λ p r e. k.receipts_kept p r (h.receipts_kept p r e);
  sources_kept = SourcesKept-trans x y z h.sources_kept k.sources_kept;
}

module _ (env : Env) (source : RelationshipSource) (m : SyncMessage) where
  finish-Grown :
      (o : Option ConnectorState) (db : Db) → Grown db (finish_message env source m o db).1
  unfolding finish_message acknowledge
  finish-Grown none db = grown db db refl refl
  finish-Grown (some row) db = record {
    receipts_kept = λ p r e. find-append_some p db.connector_receipts _ r e;
    sources_kept =
        SourcesKept-refl db (acknowledge env source m (digest_of env source m) row.coverage db)
          refl;
  }

  operation-Grown :
      (state : ConnectorState) (db : Db) → Grown db (apply_operation env source state m db).1
  unfolding apply_operation
  operation-Grown state db =
      continue-rel Grown Grown-trans (validate_facts env source state.manifest 0 (facts_of m) db) _
        db
        (subst (Grown db) (sym (validate_facts-same env source state.manifest 0 (facts_of m) db))
          (grown db db refl refl))
        (λ u e.
          let d = (validate_facts env source state.manifest 0 (facts_of m) db).1 in
          after_fail_if (Grown d) (opt_eq m.snapshot_id (some "live")) _ _ d (grown d d refl refl)
            (λ v.
              continue-rel Grown Grown-trans
                (perform env source state.manifest state m m.operation d) _ d
                (of_Kept d _ (perform-Kept env source state.manifest state m m.operation d))
                (λ w e'.
                  let d' = (perform env source state.manifest state m m.operation d).1 in
                  finish-Grown (get_state env source.id d') d')))

  process-Grown : (state : ConnectorState) (db : Db) → Grown db (process env source state m db).1
  unfolding process
  process-Grown state db =
      let swapped = swap_sequence source.id state.sequence m.sequence db.connector_states in
      let d = record db { connector_states = swapped.1 } in
      let same = grown d d refl refl in
      Grown-trans db d _ (grown db d refl refl) (
        after_fail_if (Grown d) (not (eqb swapped.0 1)) _ _ d same (λ u.
          after_fail_if (Grown d)
            (is_delta m.operation && not (any is_changes state.manifest.capabilities)) _ _ d same
            (λ u.
              after_fail_if (Grown d)
                (not (is_delta m.operation) && not (any is_snapshot state.manifest.capabilities)) _
                _ d same (λ u. operation-Grown state d))))

  replay-Grown :
      (o : Option ConnectorReceipt) (db : Db) → Grown db (replay_or_process env source o m db).1
  unfolding replay_or_process
  replay-Grown (some r) db =
      after_fail_if (Grown db) (not (r.digest == digest_of env source m)) _ _ db
        (grown db db refl refl) (λ u. grown db db refl refl)
  replay-Grown none db = elim (Option-cases (get_state env source.id db)) [
    | inl e ↦ rw e (grown db db refl refl)
    | inr (state, e) ↦ rw e (
        after_fail_if (Grown db) (not (eqb m.sequence (state.sequence + 1))) _ _ db
          (grown db db refl refl) (λ u. process-Grown state db))
  ]

  pub apply_message-Grown : (db : Db) → Grown db (apply_message env source m db).1
  unfolding apply_message
  apply_message-Grown db =
      after_fail_if (Grown db) (not source.enabled) _ _ db (grown db db refl refl) (λ u.
        after_fail_if (Grown db) (ltb (max_size env source) (env.size (env.dump m))) _ _ db
          (grown db db refl refl) (λ v. replay-Grown (get_receipt env source m.sequence db) db))

settle-Grown : {A : Type 0} (db : Db) (r : Result A × Db) → Grown db r.1 → Grown db (settle db r).1
settle-Grown db (ok a, d) h = h
settle-Grown db (err e, d) h = grown db db refl refl

collected-Grown :
    (env : Env) (m : SyncMessage) (o : Option RelationshipSource) (db : Db)
    → Grown db
        (continue
          (or_raise o (ingest_error 403 "collector not authorized for this source") db)
          (λ source. apply_message env source m)).1
collected-Grown env m none db = grown db db refl refl
collected-Grown env m (some source) db = apply_message-Grown env source m db

pub sync_connector-Grown :
    (env : Env) (source_id bearer : String) (m : SyncMessage) (db : Db)
    → Grown db (sync_connector env source_id bearer m db).1
unfolding sync_connector authenticate_collector
sync_connector-Grown env source_id bearer m db = settle-Grown db _ (
    after_lift (Grown db) (shape m) _ db (grown db db refl refl)
      (λ u e. collected-Grown env m (collector env.sha256 bearer (get_source source_id db)) db))
