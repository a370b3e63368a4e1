-- ===== src/Connectors/Kept.antt =====
-- What every step of a message keeps: the receipts, and the sources but for the instant of their
-- last synchronisation (beta/src/eda/connectors/sync.py).
use mathlib.Core.Path.{◌≡◌, refl, sym, ◌∙◌, ap, subst}
use enterprise_data_access_a.Base.{
  truthy_text, some-injective, ℕ, String, not, Option, some, List, [], ◌∷◌, ◌==◌, find, any, opt_eq,
  update_first, Bool-cases, inl, inr,
}
use enterprise_data_access_a.Models.{
  Db, Payload, ConnectorState, RelationshipSource, Manifest, SyncMessage, Operation, begin, page,
  complete, abort, delta,
}
use enterprise_data_access_a.Effects.{continue-rel, after_fail_if}
use enterprise_data_access_a.Ingestion.{get_source}
use enterprise_data_access_a.Connectors.{Env, key}
use enterprise_data_access_a.Connectors.Facts.{
  of_generation, is_fact, is_older, upsert_fact, upsert_facts, write_facts, bury, drop_generation,
  promote_generation,
}
use enterprise_data_access_a.Connectors.Sync.{
  publish, begin_snapshot, page_snapshot, abort_snapshot, complete_snapshot, apply_delta, perform,
  set_state, generation_of, facts_of, is_complete, close_snapshot,
}
use enterprise_data_access_a.Connectors.Project.{project}
use enterprise_data_access_a.Connectors.Writes.{project-SameLedger}

-- A source but for its last synchronisation.
abbrev pub SameSource : RelationshipSource → RelationshipSource → Type 0
SameSource s s' = s' ≡ record s { last_sync_at = s'.last_sync_at }

abbrev pub synced : Option ℕ → RelationshipSource → RelationshipSource
synced at s = record s { last_sync_at = at }

abbrev pub SourcesKept : Db → Db → Type 0
SourcesKept db d =
    (id : String) (s : RelationshipSource)
    → get_source id db ≡ some s
    → (s' : RelationshipSource) × (get_source id d ≡ some s') × SameSource s s'

pub record Kept (db d : Db) : Type 0 where
  pub same_receipts : d.connector_receipts ≡ db.connector_receipts
  pub sources_kept : SourcesKept db d

pub SourcesKept-refl : (db d : Db) → d.sources ≡ db.sources → SourcesKept db d
SourcesKept-refl db d e id s h = (s, subst (λ x. find (λ y. y.id == id) x ≡ some s) (sym e) h, refl)

pub SourcesKept-trans : (x y z : Db) → SourcesKept x y → SourcesKept y z → SourcesKept x z
SourcesKept-trans x y z h k id s found =
    let (s1, found1, same1) = h id s found in
    let (s2, found2, same2) = k id s1 found1 in
    (s2, found2, same2 ∙ ap (synced s2.last_sync_at) same1)

pub kept :
    (db d : Db) → d.connector_receipts ≡ db.connector_receipts → d.sources ≡ db.sources → Kept db d
kept db d r s = record { same_receipts = r; sources_kept = SourcesKept-refl db d s }

pub Kept-trans : (x y z : Db) → Kept x y → Kept y z → Kept x z
Kept-trans x y z h k = record {
  same_receipts = k.same_receipts ∙ h.same_receipts;
  sources_kept = SourcesKept-trans x y z h.sources_kept k.sources_kept;
}

-- A source that is found among sources of which one is touched.
found-touched :
    (id id' : String) (at : ℕ) (ss : List RelationshipSource) (s : RelationshipSource)
    → find (λ x. x.id == id') ss ≡ some s
    → (s' : RelationshipSource) × (find
          (λ x. x.id == id')
          (update_first (λ x. x.id == id) (λ x. record x { last_sync_at = some at }) ss)
        ≡ some s')
      × SameSource s s'
unfolding update_first
found-touched id id' at [] s h = absurd (cc)
found-touched id id' at (x ∷ ss) s h = elim (Bool-cases (x.id == id)) [
  | inl e ↦ elim (Bool-cases (x.id == id')) [
    | inl e' ↦
        let same : x ≡ s = some-injective (rw e' at h) in
        (record x { last_sync_at = some at }, rw (e, e') refl, ap (synced (some at)) same)
    | inr e' ↦ (s, rw (e, e') (rw e' at h), refl)
  ]
  | inr e ↦ elim (Bool-cases (x.id == id')) [
    | inl e' ↦ (s, rw (e, e') (rw e' at h), refl)
    | inr e' ↦
        let (s', f, same) = found-touched id id' at ss s (rw e' at h) in (s', rw (e, e') f, same)
  ]
]

module _ (env : Env) (source : RelationshipSource) where
  publish-Kept : (manifest : Manifest) (db : Db) → Kept db (publish env source manifest db)
  unfolding publish
  publish-Kept manifest db =
      let d = project env source manifest db in
      let same = project-SameLedger env source manifest db in
      record {
        same_receipts = same.3;
        sources_kept = λ id s h.
            found-touched source.id id env.synced_at d.sources s
              (subst (λ x. find (λ y. y.id == id) x ≡ some s) (sym same.2) h);
      }

  upsert_facts-Kept :
      (g : String) (ps : List Payload) (db : Db)
      → Kept db (upsert_facts env source.id source.tenant_id g ps db).1
  unfolding upsert_facts upsert_fact
  upsert_facts-Kept g [] db = kept db db refl refl
  upsert_facts-Kept g (p ∷ ps) db =
      continue-rel Kept Kept-trans (upsert_fact env source.id source.tenant_id g p db) _ db
        (after_fail_if (Kept db)
          (is_older p (find (is_fact source.id g (key env source.tenant_id p)) db.connector_facts))
          _ _ db (kept db db refl refl) (λ u. kept db _ refl refl))
        (λ u e. upsert_facts-Kept g ps (upsert_fact env source.id source.tenant_id g p db).1)

  pub perform-Kept :
      (manifest : Manifest) (state : ConnectorState) (m : SyncMessage) (o : Operation) (db : Db)
      → Kept db (perform env source manifest state m o db).1
  unfolding perform begin_snapshot page_snapshot abort_snapshot complete_snapshot apply_delta
  perform-Kept manifest state m begin db =
      after_fail_if (Kept db) (truthy_text state.snapshot_id) _ _ db (kept db db refl refl) (λ u.
        after_fail_if (Kept db) (any (of_generation source.id (generation_of m)) db.connector_facts)
          _ _ db (kept db db refl refl) (λ v. kept db _ refl refl))
  perform-Kept manifest state m page db =
      after_fail_if (Kept db) (not (opt_eq state.snapshot_id m.snapshot_id)) _ _ db
        (kept db db refl refl) (λ u. upsert_facts-Kept (generation_of m) (facts_of m) db)
  perform-Kept manifest state m complete db =
      after_fail_if (Kept db) (not (opt_eq state.snapshot_id m.snapshot_id)) _ _ db
        (kept db db refl refl)
        (λ u.
          after_fail_if (Kept db) (not (is_complete m.coverage)) _ _ db (kept db db refl refl) (λ v.
            let d = set_state source.id close_snapshot (
              write_facts (promote_generation source.id (generation_of m))
                (write_facts (drop_generation source.id "live") db)) in
            Kept-trans db d _ (kept db d refl refl) (publish-Kept manifest d)))
  perform-Kept manifest state m abort db =
      after_fail_if (Kept db) (not (opt_eq state.snapshot_id m.snapshot_id)) _ _ db
        (kept db db refl refl) (λ u. kept db _ refl refl)
  perform-Kept manifest state m delta db =
      after_fail_if (Kept db) (truthy_text state.snapshot_id) _ _ db (kept db db refl refl) (λ u.
        let d = write_facts (bury source.id m.tombstones) db in
        let d' = (upsert_facts env source.id source.tenant_id "live" (facts_of m) d).1 in
        Kept-trans db d _ (kept db d refl refl) (
          continue-rel Kept Kept-trans
            (upsert_facts env source.id source.tenant_id "live" (facts_of m) d) _ d
            (upsert_facts-Kept "live" (facts_of m) d) (λ v e. publish-Kept manifest d')))
