-- ===== src/Connectors/Writes.antt =====
-- What the steps of `apply_message` leave of the state and the facts of a connector
-- (beta/src/eda/connectors/sync.py).
use mathlib.Core.Path.{◌≡◌, refl, sym, ◌∙◌, ap, subst}
use enterprise_data_access_a.Base.{
  ℕ, suc, String, Bool, true, false, not, ◌||◌, Option, some, List, [], ◌∷◌, ◌++◌, ◌==◌, find,
  filter, if◌then◌else◌, all, any, opt_eq, length, arith, Bool-cases, inl, inr, ok,
}
use enterprise_data_access_a.Models.{
  Db, Payload, ConnectorState, RelationshipSource, Manifest, ObjectRecord, RelationshipRecord,
}
use enterprise_data_access_a.Effects.{continue-eq-ok, fail_if-passed}
use enterprise_data_access_a.Connectors.{Env, key}
use enterprise_data_access_a.Connectors.Facts.{
  of_generation, is_fact, is_older, put_fact, upsert_fact, upsert_facts, write_facts,
}
use enterprise_data_access_a.Connectors.Project.{
  clear, project_objects, project_links, project_edges, project, objects_of, relationships_of,
  is_platform, is_unsupported_fact, link_row, edge_row,
}
use enterprise_data_access_a.Connectors.Sync.{swap_sequence, publish}
use enterprise_data_access_a.Connectors.Protocol.{upsert_all, entries, is_placed}
use enterprise_data_access_a.Connectors.Entries.{
  entries-put_fact, entries-put_other, placed-put_fact,
}

-- The row of the source after its number is swapped.
pub find-swap :
    (id : String) (new : ℕ) (ss : List ConnectorState) (st : ConnectorState)
    → find (λ s. s.source_id == id) ss ≡ some st
    → find (λ s. s.source_id == id) (swap_sequence id st.sequence new ss).1
      ≡ some (record st { sequence = new })
unfolding swap_sequence
find-swap id new [] st h = cc
find-swap id new (s ∷ ss) st h = ground (arith, find-swap id new ss st)

-- The tables of sources and of the connectors' states, facts and receipts are the same.
abbrev pub SameLedger : Db → Db → Type 0
SameLedger db db' =
    (db'.connector_states ≡ db.connector_states)
    × (db'.connector_facts ≡ db.connector_facts)
    × (db'.sources ≡ db.sources)
    × (db'.connector_receipts ≡ db.connector_receipts)

if-SameLedger :
    (b : Bool) (db d d' : Db)
    → SameLedger db d
    → SameLedger db d'
    → SameLedger db (if b then d' else d)
if-SameLedger true db d d' h h' = h'
if-SameLedger false db d d' h h' = h

module _ (env : Env) (source : RelationshipSource) where
  objects-SameLedger :
      (os : List ObjectRecord) (db d : Db)
      → SameLedger db d
      → SameLedger db (project_objects env source os d)
  unfolding project_objects
  objects-SameLedger [] db d h = h
  objects-SameLedger (o ∷ os) db d h = objects-SameLedger os db _ h

  links-SameLedger :
      (i : ℕ) (rs : List RelationshipRecord) (db d : Db)
      → SameLedger db d
      → SameLedger db (project_links env source i rs d)
  unfolding project_links
  links-SameLedger i [] db d h = h
  links-SameLedger i (r ∷ rs) db d h = links-SameLedger (suc i) rs db _ (
      if-SameLedger _ db d
        (record d { object_edges = d.object_edges ++ link_row env source (env.new_id i) r ∷ [] }) h
        h)

  edges-SameLedger :
      (i : ℕ) (rs : List RelationshipRecord) (db d : Db)
      → SameLedger db d
      → SameLedger db (project_edges env source i rs d)
  unfolding project_edges
  edges-SameLedger i [] db d h = h
  edges-SameLedger i (r ∷ rs) db d h = edges-SameLedger (suc i) rs db _ (
      if-SameLedger _ db d
        (record d { edges = d.edges ++ edge_row env source (env.new_id i) r ∷ [] }) h h)

  pub project-SameLedger :
      (manifest : Manifest) (db : Db) → SameLedger db (project env source manifest db)
  unfolding project clear
  project-SameLedger manifest db =
      let facts = filter (of_generation source.id "live") db.connector_facts in
      let rels = relationships_of facts in
      let placed = project_objects env source (objects_of facts) (clear env source db) in
      let drawn = project_links env source 0 rels placed in
      let first : SameLedger db drawn =
        links-SameLedger 0 rels db placed (
          objects-SameLedger (objects_of facts) db (clear env source db)
            (refl, refl, refl, refl)) in
      elim (Bool-cases (not (is_platform manifest) || any is_unsupported_fact rels)) [
        | inl e ↦ rw e first
        | inr e ↦ rw e (edges-SameLedger (length rels) rels db drawn first)
      ]

  pub publish-SameLedger :
      (manifest : Manifest) (db : Db)
      → ((publish env source manifest db).connector_states ≡ db.connector_states)
        × ((publish env source manifest db).connector_facts ≡ db.connector_facts)
  unfolding publish
  publish-SameLedger manifest db = let same = project-SameLedger manifest db in (same.0, same.1)

  -- What a run of upserts into a generation leaves.
  pub record Upserted (g : String) (ps : List Payload) (db d : Db) : Type 0 where
    pub same_states : d.connector_states ≡ db.connector_states
    pub upserted :
        entries source.id g d.connector_facts
        ≡ upsert_all (key env source.tenant_id) ps (entries source.id g db.connector_facts)
    pub others :
        (g' : String)
        → (g == g') ≡ false
        → entries source.id g' d.connector_facts ≡ entries source.id g' db.connector_facts
    pub placed :
        (a : Option String)
        → (g == "live" || opt_eq (some g) a) ≡ true
        → all (is_placed source.id a) db.connector_facts ≡ true
        → all (is_placed source.id a) d.connector_facts ≡ true

  pub upsert_facts-Upserted :
      (g : String) (ps : List Payload) (db d : Db)
      → upsert_facts env source.id source.tenant_id g ps db ≡ (ok tt, d)
      → Upserted g ps db d
  unfolding upsert_facts upsert_fact upsert_all
  upsert_facts-Upserted g [] db d h =
      subst (Upserted g [] db) (λ i. (h i).1)
        (record {
          same_states = refl;
          upserted = refl;
          others = λ g' e. refl;
          placed = λ a e all. all;
        })
  upsert_facts-Upserted g (p ∷ ps) db d h =
      let k = key env source.tenant_id p in
      let old = find (is_fact source.id g k) db.connector_facts in
      let (u, d1, h1, h2) =
        continue-eq-ok (upsert_fact env source.id source.tenant_id g p db) _ h in
      let first = fail_if-passed (is_older p old) _ _ db h1 in
      let d0 = write_facts (put_fact source.id g k p old) db in
      let written : d0 ≡ d1 = λ i. (first.1 i).1 in
      let rest = upsert_facts-Upserted g ps d0 d (
        subst (λ x. upsert_facts env source.id source.tenant_id g ps x ≡ (ok tt, d)) (sym written)
          h2) in
      record {
        same_states = rest.same_states;
        upserted =
            rest.upserted
            ∙ ap (upsert_all (key env source.tenant_id) ps)
                (entries-put_fact source.id g k p db.connector_facts);
        others = λ g' e.
            rest.others g' e ∙ entries-put_other source.id g g' k p old db.connector_facts e;
        placed = λ a e all.
            rest.placed a e (placed-put_fact source.id a g k p old db.connector_facts all e);
      }
