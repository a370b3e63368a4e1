-- ===== src/Connectors/Elsewhere.antt =====
-- The rows that are not a connector's own, and what the writes of its facts, its state and its
-- receipts leave of them (beta/src/eda/connectors/sync.py).
use mathlib.Core.Path.{◌≡◌, refl, ◌∙◌, ap}
use enterprise_data_access_a.Base.{
  ℕ, String, not, Option, none, some, List, [], ◌∷◌, ◌==◌, find, filter, arith, eq_refl, filter-add,
  filter-filter, filter-map, filter-update_unkept,
}
use enterprise_data_access_a.Models.{
  Db, RelationshipSource, Payload, SyncMessage, Coverage, ConnectorState, ConnectorFact,
}
use enterprise_data_access_a.Effects.{continue-rel, after_fail_if}
use enterprise_data_access_a.Ingestion.Endpoint.{sync_source}
use enterprise_data_access_a.Connectors.{Env, key}
use enterprise_data_access_a.Connectors.Facts.{
  is_older, put_fact, upsert_fact, upsert_facts, drop_generation, promote_generation, promote, bury,
  write_facts, new_fact, is_fact,
}
use enterprise_data_access_a.Connectors.Project.{
  is_own_object, is_own_link, is_own_node, is_own_edge,
}
use enterprise_data_access_a.Connectors.Sync.{set_state, swap_sequence, acknowledge}

module _ (env : Env) (source : RelationshipSource) where
  -- The database without the rows of the source, and without the log.
  abbrev pub elsewhere : Db → Db
  elsewhere db = record db {
    nodes = filter (λ n. not (is_own_node env source n)) db.nodes;
    edges = filter (λ e. not (is_own_edge env source e)) db.edges;
    objects = filter (λ o. not (is_own_object env source o)) db.objects;
    object_edges = filter (λ e. not (is_own_link env source e)) db.object_edges;
    sources = filter (λ s. not (s.id == source.id)) db.sources;
    connector_states = filter (λ s. not (s.source_id == source.id)) db.connector_states;
    connector_facts = filter (λ f. not (f.source_id == source.id)) db.connector_facts;
    connector_receipts = filter (λ r. not (r.source_id == source.id)) db.connector_receipts;
    audit = [];
  }

  -- Nothing else has changed.
  abbrev pub SameElsewhere : Db → Db → Type 0
  SameElsewhere db db' = elsewhere db' ≡ elsewhere db

  pub SameElsewhere-trans : (x y z : Db) → SameElsewhere x y → SameElsewhere y z → SameElsewhere x z
  SameElsewhere-trans x y z h k = k ∙ h

  -- A write of the source's facts.
  pub facts-SameElsewhere :
      (db : Db) (f : List ConnectorFact → List ConnectorFact)
      → filter (λ x. not (x.source_id == source.id)) (f db.connector_facts)
        ≡ filter (λ x. not (x.source_id == source.id)) db.connector_facts
      → SameElsewhere db (write_facts f db)
  facts-SameElsewhere db f h = ap (λ t. record (elsewhere db) { connector_facts = t }) h

  pub put_fact-foreign :
      (generation k : String) (p : Payload) (old : Option ConnectorFact) (fs : List ConnectorFact)
      → filter (λ x. not (x.source_id == source.id)) (put_fact source.id generation k p old fs)
        ≡ filter (λ x. not (x.source_id == source.id)) fs
  unfolding put_fact
  put_fact-foreign generation k p none fs =
      filter-add _ fs (new_fact source.id generation k p) (rw (eq_refl source.id) refl)
  put_fact-foreign generation k p (some old) fs =
      filter-update_unkept _ (is_fact source.id generation k) _ fs (λ f h. ground (arith, h))

  pub upsert_fact-SameElsewhere :
      (generation : String) (p : Payload) (db : Db)
      → SameElsewhere db (upsert_fact env source.id source.tenant_id generation p db).1
  unfolding upsert_fact
  upsert_fact-SameElsewhere generation p db =
      let k = key env source.tenant_id p in
      let old = find (is_fact source.id generation k) db.connector_facts in
      after_fail_if (SameElsewhere db) (is_older p old) _ _ db refl (λ u.
        facts-SameElsewhere db (put_fact source.id generation k p old)
          (put_fact-foreign generation k p old db.connector_facts))

  pub upsert_facts-SameElsewhere :
      (generation : String) (ps : List Payload) (db : Db)
      → SameElsewhere db (upsert_facts env source.id source.tenant_id generation ps db).1
  unfolding upsert_facts
  upsert_facts-SameElsewhere generation [] db = refl
  upsert_facts-SameElsewhere generation (p ∷ ps) db =
      continue-rel SameElsewhere SameElsewhere-trans
        (upsert_fact env source.id source.tenant_id generation p db) _ db
        (upsert_fact-SameElsewhere generation p db)
        (λ u e.
          upsert_facts-SameElsewhere generation ps
            (upsert_fact env source.id source.tenant_id generation p db).1)

  pub drop-foreign :
      (generation : String) (fs : List ConnectorFact)
      → filter (λ x. not (x.source_id == source.id)) (drop_generation source.id generation fs)
        ≡ filter (λ x. not (x.source_id == source.id)) fs
  unfolding drop_generation
  drop-foreign generation fs = filter-filter _ _ fs (λ f h. ground (arith, h))

  pub promote-foreign :
      (generation : String) (fs : List ConnectorFact)
      → filter (λ x. not (x.source_id == source.id)) (promote_generation source.id generation fs)
        ≡ filter (λ x. not (x.source_id == source.id)) fs
  unfolding promote_generation
  promote-foreign generation fs =
      filter-map _ (promote source.id generation) fs (λ f. ground arith) (λ f h. ground (arith, h))

  pub bury-foreign :
      (ks : List String) (fs : List ConnectorFact)
      → filter (λ x. not (x.source_id == source.id)) (bury source.id ks fs)
        ≡ filter (λ x. not (x.source_id == source.id)) fs
  unfolding bury
  bury-foreign [] fs = refl
  bury-foreign (k ∷ ks) fs =
      bury-foreign ks (filter (λ f. not (is_fact source.id "live" k f)) fs)
      ∙ filter-filter _ (λ f. not (is_fact source.id "live" k f)) fs (λ f h. ground (arith, h))

  pub set_state-SameElsewhere :
      (f : ConnectorState → ConnectorState) (db : Db)
      → ((s : ConnectorState) → (f s).source_id ≡ s.source_id)
      → SameElsewhere db (set_state source.id f db)
  set_state-SameElsewhere f db h =
      ap (λ t. record (elsewhere db) { connector_states = t })
        (filter-update_unkept _ (λ s. s.source_id == source.id) f db.connector_states
          (λ s e. (rw e refl, rw (h s, e) refl)))

  pub swap-foreign :
      (old new : ℕ) (ss : List ConnectorState)
      → filter (λ s. not (s.source_id == source.id)) (swap_sequence source.id old new ss).1
        ≡ filter (λ s. not (s.source_id == source.id)) ss
  unfolding swap_sequence
  swap-foreign old new [] = refl
  swap-foreign old new (s ∷ ss) = ground (arith, swap-foreign old new ss)

  pub sync_source-SameElsewhere :
      (at : ℕ) (db : Db) → SameElsewhere db (sync_source source.id at db)
  sync_source-SameElsewhere at db =
      ap (λ t. record (elsewhere db) { sources = t })
        (filter-update_unkept _ (λ s. s.id == source.id) _ db.sources
          (λ s e. (rw e refl, rw e refl)))

  pub acknowledge-SameElsewhere :
      (m : SyncMessage) (hashed : String) (c : Coverage) (db : Db)
      → SameElsewhere db (acknowledge env source m hashed c db)
  unfolding acknowledge
  acknowledge-SameElsewhere m hashed c db =
      ap (λ t. record (elsewhere db) { connector_receipts = t })
        (filter-add _ db.connector_receipts _ (rw (eq_refl source.id) refl))
