-- ===== src/Connectors/Operations.antt =====
-- Each operation of `apply_message` implements its contract of Connectors/Protocol
-- (beta/src/eda/connectors/sync.py).
use mathlib.Core.Path.{◌≡◌, refl, sym, ◌∙◌, ap, subst}
use enterprise_data_access_a.Base.{
  nonempty, truthy_text, find-some, String, Bool, true, false, not, ◌||◌, Option, none, some, [],
  ◌==◌, find, all, any, opt_eq, arith, eq_refl, ok, find-update_first,
}
use enterprise_data_access_a.Models.{
  Db, ConnectorState, RelationshipSource, Manifest, SyncMessage, Operation, begin, page, complete,
  abort, delta,
}
use enterprise_data_access_a.Effects.{continue-eq-ok, fail_if-passed}
use enterprise_data_access_a.Connectors.{Env, key, get_state}
use enterprise_data_access_a.Connectors.Facts.{
  of_generation, upsert_facts, write_facts, drop_generation, promote_generation, bury,
}
use enterprise_data_access_a.Connectors.Sync.{
  begin_snapshot, page_snapshot, abort_snapshot, complete_snapshot, apply_delta, set_state,
  generation_of, facts_of, is_complete, open_snapshot, close_snapshot,
}
use enterprise_data_access_a.Connectors.Protocol.{
  is_proper, upsert_all, without, entries, staged_entries, is_placed, show, Shows, step_by,
}
use enterprise_data_access_a.Connectors.Entries.{
  entries-drop, entries-promote, entries-bury, entries-none, placed-open, placed-drop,
  placed-promote, placed-bury,
}
use enterprise_data_access_a.Connectors.Writes.{publish-SameLedger, upsert_facts-Upserted}

none_of_proper : (o : Option String) → is_proper o ≡ true → truthy_text o ≡ false → o ≡ none
none_of_proper none p h = refl
none_of_proper (some g) p h = ground (arith, p, h)

not_live_of : (g : String) → is_proper (some g) ≡ true → (g == "live") ≡ false
not_live_of g h = ground (arith, h)

proper_of :
    (g : String)
    → nonempty g ≡ true
    → opt_eq (some g) (some "live") ≡ false
    → is_proper (some g) ≡ true
proper_of g h k = ground (arith, h, k)

or_true : (b : Bool) → (b || true) ≡ true
or_true true = refl
or_true false = refl

module _ (env : Env) (source : RelationshipSource) (m : SyncMessage) where
  -- The row of the source in a database whose facts are all in their places.
  pub record Holds (st : ConnectorState) (db : Db) : Type 0 where
    pub found : get_state env source.id db ≡ some st
    pub placed : all (is_placed source.id st.snapshot_id) db.connector_facts ≡ true
    pub proper : is_proper st.snapshot_id ≡ true

  abbrev pub ShowsStep : Operation → ConnectorState → Db → Db → Type 0
  ShowsStep o st db db' =
      Shows source.id env
        (step_by (key env source.tenant_id) o m (show source.id st db.connector_facts)) db'

  -- The row of the source is written.
  found-set_state :
      (f : ConnectorState → ConnectorState) (st : ConnectorState) (db : Db)
      → get_state env source.id db ≡ some st
      → (f st).source_id ≡ st.source_id
      → get_state env source.id (set_state source.id f db) ≡ some (f st)
  found-set_state f st db h e =
      find-update_first (λ s. s.source_id == source.id) f db.connector_states st h
        (rw e (find-some (λ s. s.source_id == source.id) db.connector_states st h).0)

  pub begin-refines :
      (state st : ConnectorState) (g : String) (db db' : Db)
      → state.snapshot_id ≡ st.snapshot_id
      → Holds st db
      → m.snapshot_id ≡ some g
      → nonempty g ≡ true
      → opt_eq m.snapshot_id (some "live") ≡ false
      → begin_snapshot env source state m db ≡ (ok tt, db')
      → ShowsStep begin st db db'
  unfolding begin_snapshot
  begin-refines state st g db db' same holds named full not_live h =
      let idle = fail_if-passed (truthy_text state.snapshot_id) _ _ db h in
      let fresh =
        fail_if-passed (any (of_generation source.id (generation_of m)) db.connector_facts) _ _ db
          idle.1 in
      let no_snapshot : st.snapshot_id ≡ none =
        sym same
        ∙ none_of_proper state.snapshot_id (subst (λ x. is_proper x ≡ true) (sym same) holds.proper)
            idle.0 in
      let is_g : generation_of m ≡ g = ground (arith, named) in
      let empty : staged_entries source.id m.snapshot_id db.connector_facts ≡ [] = rw named (
        entries-none source.id g db.connector_facts
          (subst (λ x. any (of_generation source.id x) db.connector_facts ≡ false) is_g fresh.0)) in
      subst (ShowsStep begin st db) (λ i. (fresh.1 i).1)
        (record {
          state = open_snapshot m.snapshot_id st;
          found = found-set_state (open_snapshot m.snapshot_id) st db holds.found refl;
          shown = λ i. record (show source.id (open_snapshot m.snapshot_id st) db.connector_facts) {
            staged = empty i;
          };
          placed = placed-open source.id m.snapshot_id db.connector_facts (
              subst (λ x. all (is_placed source.id x) db.connector_facts ≡ true) no_snapshot
                holds.placed);
          proper =
              subst (λ x. is_proper x ≡ true) (sym named)
                (proper_of g full (subst (λ x. opt_eq x (some "live") ≡ false) named not_live));
        })

  pub page-refines :
      (st : ConnectorState) (g : String) (db db' : Db)
      → Holds st db
      → st.snapshot_id ≡ some g
      → m.snapshot_id ≡ some g
      → page_snapshot env source m db ≡ (ok tt, db')
      → ShowsStep page st db db'
  unfolding page_snapshot
  page-refines st g db db' holds is_open named h =
      let is_g : generation_of m ≡ g = ground (arith, named) in
      let u = upsert_facts-Upserted env source g (facts_of m) db db' (
        subst (λ x. upsert_facts env source.id source.tenant_id x (facts_of m) db ≡ (ok tt, db'))
          is_g h) in
      let not_live : (g == "live") ≡ false =
        not_live_of g (subst (λ x. is_proper x ≡ true) is_open holds.proper) in
      let staged : staged_entries source.id st.snapshot_id db'.connector_facts
          ≡ upsert_all (key env source.tenant_id) (facts_of m)
              (staged_entries source.id st.snapshot_id db.connector_facts) =
        rw is_open u.upserted in
      record {
        state = st;
        found =
            subst (λ x. find (λ s. s.source_id == source.id) x ≡ some st) (sym u.same_states)
              holds.found;
        shown = λ i. record (show source.id st db'.connector_facts) {
          staged = staged i;
          live = u.others "live" not_live i;
        };
        placed =
            u.placed st.snapshot_id (rw (is_open, eq_refl g) (or_true (g == "live"))) holds.placed;
        proper = holds.proper;
      }

  pub abort-refines :
      (st : ConnectorState) (g : String) (db db' : Db)
      → Holds st db
      → st.snapshot_id ≡ some g
      → m.snapshot_id ≡ some g
      → abort_snapshot env source m db ≡ (ok tt, db')
      → ShowsStep abort st db db'
  unfolding abort_snapshot
  abort-refines st g db db' holds is_open named h =
      let is_g : generation_of m ≡ g = ground (arith, named) in
      let not_live : (g == "live") ≡ false =
        not_live_of g (subst (λ x. is_proper x ≡ true) is_open holds.proper) in
      let fs = drop_generation source.id (generation_of m) db.connector_facts in
      let live : entries source.id "live" fs ≡ entries source.id "live" db.connector_facts =
        rw is_g (entries-drop source.id g "live" db.connector_facts ∙ ground (arith, not_live)) in
      let placed : all (is_placed source.id none) fs ≡ true = rw is_g (
        placed-drop source.id g db.connector_facts (
          subst (λ x. all (is_placed source.id x) db.connector_facts ≡ true) is_open
            holds.placed)) in
      subst (ShowsStep abort st db) (λ i. (h i).1)
        (record {
          state = open_snapshot none st;
          found =
              found-set_state (open_snapshot none) st
                (write_facts (drop_generation source.id (generation_of m)) db) holds.found refl;
          shown = λ i. record (show source.id (open_snapshot none st) fs) { live = live i };
          placed = placed;
          proper = refl;
        })

  pub complete-refines :
      (manifest : Manifest) (st : ConnectorState) (g : String) (db db' : Db)
      → Holds st db
      → st.snapshot_id ≡ some g
      → m.snapshot_id ≡ some g
      → complete_snapshot env source manifest m db ≡ (ok tt, db')
      → ShowsStep complete st db db'
  unfolding complete_snapshot
  complete-refines manifest st g db db' holds is_open named h =
      let is_g : generation_of m ≡ g = ground (arith, named) in
      let not_live : (g == "live") ≡ false =
        not_live_of g (subst (λ x. is_proper x ≡ true) is_open holds.proper) in
      let passed = fail_if-passed (not (is_complete m.coverage)) _ _ db h in
      let kept = drop_generation source.id "live" db.connector_facts in
      let fs = promote_generation source.id (generation_of m) kept in
      let d = set_state source.id close_snapshot (record db { connector_facts = fs }) in
      let same = publish-SameLedger env source manifest d in
      let live : entries source.id "live" fs
          ≡ staged_entries source.id st.snapshot_id db.connector_facts =
        rw (is_g, is_open) (entries-promote source.id g db.connector_facts not_live) in
      let placed : all (is_placed source.id none) fs ≡ true = rw is_g (
        placed-promote source.id g db.connector_facts (
          subst (λ x. all (is_placed source.id x) db.connector_facts ≡ true) is_open
            holds.placed)) in
      subst (ShowsStep complete st db) (λ i. (passed.1 i).1)
        (record {
          state = close_snapshot st;
          found =
              subst (λ x. find (λ s. s.source_id == source.id) x ≡ some (close_snapshot st))
                (sym same.0)
                (found-set_state close_snapshot st (record db { connector_facts = fs }) holds.found
                  refl);
          shown =
              ap (show source.id (close_snapshot st)) same.1
              ∙ (λ i. record (show source.id (close_snapshot st) fs) { live = live i });
          placed = subst (λ x. all (is_placed source.id none) x ≡ true) (sym same.1) placed;
          proper = refl;
        })

  pub delta-refines :
      (manifest : Manifest) (state st : ConnectorState) (db db' : Db)
      → state.snapshot_id ≡ st.snapshot_id
      → Holds st db
      → apply_delta env source manifest state m db ≡ (ok tt, db')
      → ShowsStep delta st db db'
  unfolding apply_delta
  delta-refines manifest state st db db' same holds h =
      let idle = fail_if-passed (truthy_text state.snapshot_id) _ _ db h in
      let no_snapshot : st.snapshot_id ≡ none =
        sym same
        ∙ none_of_proper state.snapshot_id (subst (λ x. is_proper x ≡ true) (sym same) holds.proper)
            idle.0 in
      let fs = bury source.id m.tombstones db.connector_facts in
      let d = record db { connector_facts = fs } in
      let (v, d', h1, h2) =
        continue-eq-ok (upsert_facts env source.id source.tenant_id "live" (facts_of m) d) _
          idle.1 in
      let u = upsert_facts-Upserted env source "live" (facts_of m) d d' h1 in
      let led = publish-SameLedger env source manifest d' in
      let live : entries source.id "live" d'.connector_facts
          ≡ upsert_all (key env source.tenant_id) (facts_of m)
              (without m.tombstones (entries source.id "live" db.connector_facts)) =
        u.upserted
        ∙ ap (upsert_all (key env source.tenant_id) (facts_of m))
            (entries-bury source.id m.tombstones db.connector_facts) in
      let unstaged : staged_entries source.id st.snapshot_id d'.connector_facts
          ≡ staged_entries source.id st.snapshot_id db.connector_facts =
        rw no_snapshot refl in
      subst (ShowsStep delta st db) (λ i. (h2 i).1)
        (record {
          state = st;
          found =
              subst (λ x. find (λ s. s.source_id == source.id) x ≡ some st)
                (sym (led.0 ∙ u.same_states)) holds.found;
          shown = ap (show source.id st) led.1 ∙ (λ i.
              record (show source.id st d'.connector_facts) { live = live i; staged = unstaged i });
          placed =
              subst (λ x. all (is_placed source.id st.snapshot_id) x ≡ true) (sym led.1)
                (u.placed st.snapshot_id (rw (eq_refl "live") refl) (
                  placed-bury source.id st.snapshot_id m.tombstones db.connector_facts
                    holds.placed));
          proper = holds.proper;
        })
