-- ===== src/Connectors/Replayed.antt =====
-- A message that has been accepted can be sent again, at any later time, and is answered as before
-- without an effect (beta/src/eda/connectors/sync.py, and its route in beta/src/eda/api.py).
use mathlib.Core.Path.{◌≡◌, refl, ◌∙◌, ap, subst}
use enterprise_data_access_a.Base.{
  ℕ, String, true, false, not, Option, none, some, ◌==◌, ltb, Bool-cases, inl, inr, Result, ok, err,
  some-injective, ingest_error,
}
use enterprise_data_access_a.Models.{Db, RelationshipSource, SyncMessage}
use enterprise_data_access_a.Audit.{Stamp}
use enterprise_data_access_a.Effects.{
  continue, continue-eq-ok, or_raise-found, or_raise, fail_if-passes, settle,
}
use enterprise_data_access_a.Ingestion.{
  get_source, authorized_collector, authenticate_collector, collector,
}
use enterprise_data_access_a.Connectors.{Env, shape}
use enterprise_data_access_a.Connectors.Sync.{
  Answer, replay_or_process, apply_message, sync_connector, digest_of, max_size,
}
use enterprise_data_access_a.Connectors.Kept.{synced}
use enterprise_data_access_a.Connectors.Recorded.{Recorded, apply_message-Recorded}
use enterprise_data_access_a.Connectors.Grown.{
  Grown, grown, Grown-trans, sync_connector-Grown, apply_message-Grown,
}

-- Messages of any connectors that come later, whatever they are answered.
pub data Later (db : Db) : Db → Type 0 where
  here : Later db db
  sent :
      {d : Db} (env : Env) (source_id bearer : String) (m : SyncMessage)
      → Later db d
      → Later db (sync_connector env source_id bearer m d).1

Later-Grown : {db d : Db} → Later db d → Grown db d
Later-Grown {db} here = grown db db refl refl
Later-Grown {db} (sent {d} env source_id bearer m l) =
    Grown-trans db d _ (Later-Grown l) (sync_connector-Grown env source_id bearer m d)

collector-found :
    (sha256 : String → String) (bearer : String) (o : Option RelationshipSource)
    (s : RelationshipSource)
    → collector sha256 bearer o ≡ some s
    → (o ≡ some s) × (authorized_collector sha256 bearer s ≡ true)
collector-found sha256 bearer none s h = absurd (cc)
collector-found sha256 bearer (some o) s h =
    elim (Bool-cases (authorized_collector sha256 bearer o)) [
      | inl e ↦
          let same : some o ≡ some s = rw e at h in
          (same, subst (λ x. authorized_collector sha256 bearer x ≡ true) (some-injective same) e)
      | inr e ↦ absurd (cc (rw e at h))
    ]

settled-ok :
    {A : Type 0} (db : Db) (r : Result A × Db) {a : A} {d : Db}
    → settle db r ≡ (ok a, d)
    → r ≡ (ok a, d)
settled-ok db (ok b, e) h = h
settled-ok db (err x, e) h = absurd (cc)

-- The same libraries at another time.
abbrev pub later_env : Env → (ℕ → ℕ) → ℕ → (ℕ → String) → String → Stamp → Env
later_env env now synced_at new_id correlation_id stamp = record env {
  now = now;
  synced_at = synced_at;
  new_id = new_id;
  correlation_id = correlation_id;
  stamp = stamp;
}

abbrev pub repeated : Answer → Answer
repeated a = record { result = a.result; replayed = true }

module _ (env : Env) (now : ℕ → ℕ) (synced_at : ℕ) (new_id : ℕ → String) (correlation_id : String)
    (stamp : Stamp) (m : SyncMessage) where
  abbrev env' : Env
  env' = later_env env now synced_at new_id correlation_id stamp

  -- A message whose receipt is found is answered by it.
  apply_message-repeats :
      (source : RelationshipSource) (a : Answer) (db : Db)
      → source.enabled ≡ true
      → ltb (max_size env source) (env.size (env.dump m)) ≡ false
      → Recorded env source m a db
      → apply_message env' source m db ≡ (ok (repeated a), db)
  unfolding apply_message replay_or_process
  apply_message-repeats source a db on fits r =
      fail_if-passes (not source.enabled) _ _ db (rw on refl)
      ∙ fail_if-passes (ltb (max_size env source) (env.size (env.dump m))) _ _ db fits
      ∙ ap (λ o. replay_or_process env' source o m db) r.found
      ∙ fail_if-passes (not (r.receipt.digest == digest_of env source m)) _ _ db
          (rw r.digest_same refl)
      ∙ (λ i. (ok (record { result = r.result_same i; replayed = true }), db))

  sync_connector-repeats :
      (source_id bearer : String) (source : RelationshipSource) (a : Answer) (db : Db)
      → shape m ≡ ok tt
      → get_source source_id db ≡ some source
      → authorized_collector env.sha256 bearer source ≡ true
      → source.enabled ≡ true
      → ltb (max_size env source) (env.size (env.dump m)) ≡ false
      → Recorded env source m a db
      → sync_connector env' source_id bearer m db ≡ (ok (repeated a), db)
  unfolding sync_connector authenticate_collector
  sync_connector-repeats source_id bearer source a db shaped found known on fits r =
      let refused = ingest_error 403 "collector not authorized for this source" in
      let known_source : collector env.sha256 bearer (get_source source_id db) ≡ some source =
        ap (collector env.sha256 bearer) found ∙ rw known refl in
      let inner : continue
            (or_raise (collector env.sha256 bearer (get_source source_id db)) refused db)
            (λ s. apply_message env' s m)
          ≡ (ok (repeated a), db) =
        ap (λ o. continue (or_raise o refused db) (λ s. apply_message env' s m)) known_source
        ∙ apply_message-repeats source a db on fits r in
      rw shaped (ap (settle db) inner)

  -- A message that has been accepted is answered with the same result, marked as a replay, whenever
  -- it is sent again, after any messages of any connectors; and the database is left as it is.
  pub sync_connector-replay :
      (source_id bearer : String) (db db' db'' : Db) (a : Answer)
      → sync_connector env source_id bearer m db ≡ (ok a, db')
      → Later db' db''
      → sync_connector env' source_id bearer m db'' ≡ (ok (repeated a), db'')
  unfolding sync_connector
  sync_connector-replay source_id bearer db db' db'' a h later =
      let (u, d1, shaped, h1) = continue-eq-ok (shape m, db) _ (settled-ok db _ h) in
      let same : db ≡ d1 = λ j. (shaped j).1 in
      let (source, known, h2) =
        or_raise-found (collector env.sha256 bearer (get_source source_id d1)) _ _ d1 h1 in
      let (found, authorized) =
        collector-found env.sha256 bearer (get_source source_id d1) source known in
      let h3 : apply_message env source m d1 ≡ (ok a, db') = h2 in
      let (on, fits, r) = apply_message-Recorded env source m d1 db' a h3 in
      let first : Grown d1 db' =
        subst (Grown d1) (λ j. (h3 j).1) (apply_message-Grown env source m d1) in
      let grown = Grown-trans d1 db' db'' first (Later-Grown later) in
      let (source', found', same_source) = grown.sources_kept source_id source found in
      let kept = synced source'.last_sync_at source in
      sync_connector-repeats source_id bearer kept a db'' (λ j. (shaped j).0)
        (found' ∙ ap some same_source) authorized on fits
        (record {
          receipt = r.receipt;
          found = (Later-Grown later).receipts_kept _ r.receipt r.found;
          digest_same = r.digest_same;
          result_same = r.result_same;
        })
