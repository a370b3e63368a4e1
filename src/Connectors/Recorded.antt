-- ===== src/Connectors/Recorded.antt =====
-- An accepted message has a receipt, which answers it (beta/src/eda/connectors/sync.py).
use mathlib.Core.Path.{◌≡◌, refl, sym, ◌∙◌, subst}
use enterprise_data_access_a.Base.{
  ◌+◌, true, false, not, ◌&&◌, Option, none, some, ◌==◌, find, any, eqb, ltb, opt_eq, arith,
  eq_refl, ok, find-append_none,
}
use enterprise_data_access_a.Models.{
  Db, ConnectorState, ConnectorReceipt, RelationshipSource, SyncMessage,
}
use enterprise_data_access_a.Effects.{continue-eq-ok, fail_if-passed, or_raise-found}
use enterprise_data_access_a.Connectors.{Env, get_state, validate_facts, is_delta}
use enterprise_data_access_a.Connectors.Sync.{
  Answer, perform, swap_sequence, acknowledge, finish_message, apply_operation, process,
  replay_or_process, apply_message, facts_of, digest_of, get_receipt, max_size, is_changes,
  is_snapshot, result_of,
}
use enterprise_data_access_a.Connectors.Confined.{validate_facts-same}
use enterprise_data_access_a.Connectors.Kept.{perform-Kept}

module _ (env : Env) (source : RelationshipSource) (m : SyncMessage) where
  -- The receipt of an answer.
  pub record Recorded (a : Answer) (db : Db) : Type 0 where
    pub receipt : ConnectorReceipt
    pub found : get_receipt env source m.sequence db ≡ some receipt
    pub digest_same : (receipt.digest == digest_of env source m) ≡ true
    pub result_same : receipt.result ≡ a.result

  finish-Recorded :
      (o : Option ConnectorState) (db db' : Db) (a : Answer)
      → get_receipt env source m.sequence db ≡ none
      → finish_message env source m o db ≡ (ok a, db')
      → Recorded a db'
  unfolding finish_message acknowledge
  finish-Recorded none db db' a free h = absurd (cc)
  finish-Recorded (some row) db db' a free h =
      let r : ConnectorReceipt = record {
        source_id = source.id;
        sequence = m.sequence;
        digest = digest_of env source m;
        result = result_of env source m row.coverage;
      } in
      subst (Recorded a) (λ j. (h j).1)
        (record {
          receipt = r;
          found =
              find-append_none (λ x. x.source_id == source.id && eqb x.sequence m.sequence)
                db.connector_receipts r free (ground (arith, eq_refl source.id));
          digest_same = eq_refl (digest_of env source m);
          result_same = cc (h);
        })

  operation-Recorded :
      (state : ConnectorState) (db db' : Db) (a : Answer)
      → get_receipt env source m.sequence db ≡ none
      → apply_operation env source state m db ≡ (ok a, db')
      → Recorded a db'
  unfolding apply_operation
  operation-Recorded state db db' a free h =
      let (u, d, validated, h1) =
        continue-eq-ok (validate_facts env source state.manifest 0 (facts_of m) db) _ h in
      let unchanged : db ≡ d =
        sym (validate_facts-same env source state.manifest 0 (facts_of m) db)
        ∙ (λ i. (validated i).1) in
      let reserved = fail_if-passed (opt_eq m.snapshot_id (some "live")) _ _ d h1 in
      let (v, d', performed, h2) =
        continue-eq-ok (perform env source state.manifest state m m.operation d) _ reserved.1 in
      let k = perform-Kept env source state.manifest state m m.operation d in
      let same : d'.connector_receipts ≡ db.connector_receipts =
        sym (λ i. (performed i).1.connector_receipts)
        ∙ k.same_receipts
        ∙ sym (λ i. (unchanged i).connector_receipts) in
      finish-Recorded (get_state env source.id d') d' db' a
        (subst (λ x. find (λ r. r.source_id == source.id && eqb r.sequence m.sequence) x ≡ none)
          (sym same) free)
        h2

  process-Recorded :
      (state : ConnectorState) (db db' : Db) (a : Answer)
      → get_receipt env source m.sequence db ≡ none
      → process env source state m db ≡ (ok a, db')
      → Recorded a db'
  unfolding process
  process-Recorded state db db' a free h =
      let swapped = swap_sequence source.id state.sequence m.sequence db.connector_states in
      let d = record db { connector_states = swapped.1 } in
      let one = fail_if-passed (not (eqb swapped.0 1)) _ _ d h in
      let two =
        fail_if-passed (is_delta m.operation && not (any is_changes state.manifest.capabilities)) _
          _ d one.1 in
      let three =
        fail_if-passed
          (not (is_delta m.operation) && not (any is_snapshot state.manifest.capabilities)) _ _ d
          two.1 in
      operation-Recorded state d db' a free three.1

  replay-Recorded :
      (o : Option ConnectorReceipt) (db db' : Db) (a : Answer)
      → get_receipt env source m.sequence db ≡ o
      → replay_or_process env source o m db ≡ (ok a, db')
      → Recorded a db'
  unfolding replay_or_process
  replay-Recorded none db db' a free h =
      let (state, found, h1) = or_raise-found (get_state env source.id db) _ _ db h in
      let passed = fail_if-passed (not (eqb m.sequence (state.sequence + 1))) _ _ db h1 in
      process-Recorded state db db' a free passed.1
  replay-Recorded (some r) db db' a found h =
      let passed = fail_if-passed (not (r.digest == digest_of env source m)) _ _ db h in
      subst (Recorded a) (λ j. (passed.1 j).1)
        (record {
          receipt = r;
          found = found;
          digest_same = ground (arith, passed.0);
          result_same = cc (passed.1);
        })

  -- An accepted message comes from a source that is enabled, and has a receipt.
  pub apply_message-Recorded :
      (db db' : Db) (a : Answer)
      → apply_message env source m db ≡ (ok a, db')
      → (source.enabled ≡ true)
        × (ltb (max_size env source) (env.size (env.dump m)) ≡ false)
        × Recorded a db'
  unfolding apply_message
  apply_message-Recorded db db' a h =
      let on = fail_if-passed (not source.enabled) _ _ db h in
      let fits = fail_if-passed (ltb (max_size env source) (env.size (env.dump m))) _ _ db on.1 in
      (
        ground (arith, on.0),
        fits.0,
        replay-Recorded (get_receipt env source m.sequence db) db db' a refl fits.1,
      )
