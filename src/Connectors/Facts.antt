-- ===== src/Connectors/Facts.antt =====
-- The table of a connector's facts in beta/src/eda/connectors/sync.py: `_upsert_fact`, and the
-- deletions and the change of generation that `apply_message` makes.
use enterprise_data_access_a.Base.{
  String, Bool, false, not, ◌&&◌, Option, none, some, List, [], ◌∷◌, ◌++◌, map, ◌==◌, find, filter,
  if◌then◌else◌, ltb, update_first, ingest_error,
}
use enterprise_data_access_a.Models.{Db, Payload, ConnectorFact}
use enterprise_data_access_a.Effects.{Action, pure, gets, modify, fail_if, ◌>>=◌, ◌>>◌}
use enterprise_data_access_a.Connectors.{Env, key, observed_of}

-- The facts of a source, or of a generation of it.
abbrev pub of_generation : String → String → ConnectorFact → Bool
of_generation source_id generation f = f.source_id == source_id && f.generation == generation

abbrev pub is_fact : String → String → String → ConnectorFact → Bool
is_fact source_id generation k f = of_generation source_id generation f && f.fact_key == k

abbrev pub new_fact : String → String → String → Payload → ConnectorFact
new_fact source_id generation k payload = record {
  source_id = source_id;
  fact_key = k;
  generation = generation;
  payload = payload;
}

abbrev pub write_facts : (List ConnectorFact → List ConnectorFact) → Db → Db
write_facts f db = record db { connector_facts = f db.connector_facts }

-- The rows after a payload is stored under its key.
unfoldable pub put_fact :
    String
    → String
    → String
    → Payload
    → Option ConnectorFact
    → List ConnectorFact
    → List ConnectorFact
put_fact source_id generation k payload none fs = fs ++ new_fact source_id generation k payload ∷ []
put_fact source_id generation k payload (some old) fs =
    update_first (is_fact source_id generation k) (λ f. record f { payload = payload }) fs

-- Evidence that is newer than what comes is not replaced.
abbrev pub is_older : Payload → Option ConnectorFact → Bool
is_older payload none = false
is_older payload (some old) = ltb (observed_of payload) (observed_of old.payload)

module _ (env : Env) (source_id tenant : String) where
  -- `_upsert_fact`
  unfoldable pub upsert_fact : String → Payload → Action (Unit {0})
  unfolding put_fact
  upsert_fact generation payload = do
    let k = key env tenant payload
    old ← gets (λ db. find (is_fact source_id generation k) db.connector_facts)
    fail_if (is_older payload old) (ingest_error 409 "older evidence cannot replace newer evidence")
    modify (write_facts (put_fact source_id generation k payload old))

  unfoldable pub upsert_facts : String → List Payload → Action (Unit {0})
  unfolding upsert_fact
  upsert_facts generation [] = pure tt
  upsert_facts generation (p ∷ ps) = do upsert_fact generation p; upsert_facts generation ps

-- `delete(ConnectorFact)` of a generation
unfoldable pub drop_generation : String → String → List ConnectorFact → List ConnectorFact
drop_generation source_id generation fs =
    filter (λ f. not (of_generation source_id generation f)) fs

-- `update(ConnectorFact)...values(generation="live")`
abbrev pub promote : String → String → ConnectorFact → ConnectorFact
promote source_id generation f =
    if of_generation source_id generation f then record f { generation = "live" } else f

unfoldable pub promote_generation : String → String → List ConnectorFact → List ConnectorFact
promote_generation source_id generation fs = map (promote source_id generation) fs

-- The loop over the tombstones: the keys that are deleted from the live facts.
unfoldable pub bury : String → List String → List ConnectorFact → List ConnectorFact
bury source_id [] fs = fs
bury source_id (k ∷ ks) fs = bury source_id ks (filter (λ f. not (is_fact source_id "live" k f)) fs)
