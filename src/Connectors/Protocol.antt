-- ===== src/Connectors/Protocol.antt =====
-- What a connector's source promises, without tables: a number, the snapshot that is open, the facts
-- that are staged for it and those that are live, by key (the contract of
-- beta/src/eda/connectors/sync.py). `Show` reads it off the database.
use enterprise_data_access_a.Base.{
  nonempty, ◌&&◌, ℕ, String, Bool, true, not, ◌||◌, Option, none, some, List, [], ◌∷◌, ◌==◌, ◌≡◌,
  filter, if◌then◌else◌, all, opt_eq,
}
use enterprise_data_access_a.Models.{
  Db, Payload, SyncMessage, Operation, begin, page, complete, abort, delta, ConnectorState,
  ConnectorFact,
}
use enterprise_data_access_a.Connectors.{Env, get_state}
use enterprise_data_access_a.Connectors.Facts.{of_generation}
use enterprise_data_access_a.Connectors.Sync.{facts_of}

-- Facts by key.
abbrev pub Entries : Type 0
Entries = List (String × Payload)

pub record Inventory : Type 0 where
  pub sequence : ℕ
  pub active : Option String
  pub staged : Entries
  pub live : Entries

unfoldable pub upsert : String → Payload → Entries → Entries
upsert k p [] = (k, p) ∷ []
upsert k p ((j, q) ∷ es) = let rest = upsert k p es in if j == k then (j, p) ∷ es else (j, q) ∷ rest

abbrev pub without : List String → Entries → Entries
without [] es = es
without (k ∷ ks) es = without ks (filter (λ e. not (e.0 == k)) es)

module _ (key : Payload → String) where
  unfoldable pub upsert_all : List Payload → Entries → Entries
  upsert_all [] es = es
  upsert_all (p ∷ ps) es = upsert_all ps (upsert (key p) p es)

  -- The contract of each operation.
  abbrev pub step_by : Operation → SyncMessage → Inventory → Inventory
  step_by begin m i = record i { active = m.snapshot_id; staged = [] }
  step_by page m i = record i { staged = upsert_all (facts_of m) i.staged }
  step_by complete m i = record i { active = none; staged = []; live = i.staged }
  step_by abort m i = record i { active = none; staged = [] }
  step_by delta m i = record i { live = upsert_all (facts_of m) (without m.tombstones i.live) }

  abbrev pub step : SyncMessage → Inventory → Inventory
  step m i = record (step_by m.operation m i) { sequence = m.sequence }

-- A snapshot that may be open: it has a name, which is not reserved.
abbrev pub is_proper : Option String → Bool
is_proper none = true
is_proper (some g) = nonempty g && not (g == "live")

module _ (source_id : String) where
  -- The facts of a generation of the source, by key.
  unfoldable pub entries : String → List ConnectorFact → Entries
  entries g [] = []
  entries g (f ∷ fs) =
      let rest = entries g fs in
      if of_generation source_id g f then (f.fact_key, f.payload) ∷ rest else rest

  abbrev pub staged_entries : Option String → List ConnectorFact → Entries
  staged_entries none fs = []
  staged_entries (some g) fs = entries g fs

  -- What the row of the source and its facts show.
  abbrev pub show : ConnectorState → List ConnectorFact → Inventory
  show s fs = record {
    sequence = s.sequence;
    active = s.snapshot_id;
    staged = staged_entries s.snapshot_id fs;
    live = entries "live" fs;
  }

  -- A fact of the source is live or staged for the open snapshot.
  abbrev pub is_placed : Option String → ConnectorFact → Bool
  is_placed active f =
      not (f.source_id == source_id)
      || (f.generation == "live" || opt_eq (some f.generation) active)

  -- The database shows an inventory.
  pub record Shows (env : Env) (i : Inventory) (db : Db) : Type 0 where
    pub state : ConnectorState
    pub found : get_state env source_id db ≡ some state
    pub shown : show state db.connector_facts ≡ i
    pub placed : all (is_placed state.snapshot_id) db.connector_facts ≡ true
    pub proper : is_proper state.snapshot_id ≡ true
