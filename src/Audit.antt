-- ===== src/Audit.antt =====
-- beta/src/eda/audit.py: the append-only, hash-chained evidence log. `digest` is SHA-256 over the
-- canonical JSON text of a value; the log is listed by `seq`. The clock and the random identifier
-- that `append` reads are its argument, a `Stamp`.
pub mod Chain
pub mod Tamper
pub mod Concurrent
use enterprise_data_access_a.Base.{
  ℕ, suc, ◌+◌, String, Bool, true, false, ◌||◌, not, Option, none, some, List, [], ◌∷◌, ◌++◌,
  length, leb, eqb, if◌then◌else◌, ◌==◌,
}
use enterprise_data_access_a.Base.Int.{pos}
use enterprise_data_access_a.Base.Json.{Value, null, num, str, obj, Fields, end, field}
use enterprise_data_access_a.Models.{AuditFields, AuditRecord}

abbrev pub genesis : String
genesis = "0000000000000000000000000000000000000000000000000000000000000000"

-- What `uuid.uuid4().hex` and `datetime.now` return.
pub record Stamp : Type 0 where
  pub id : String
  pub ts : ℕ

abbrev pub opt_str : Option String → Value
opt_str none = null
opt_str (some s) = str s

-- `_CHAINED_FIELDS`, followed by `rest`
abbrev pub chained : AuditRecord → Fields → Fields
chained r rest = field "id" (str r.id) (
    field "correlation_id" (str r.correlation_id) (
      field "subject" (str r.subject) (
        field "session_id" (str r.session_id) (
          field "event" (str r.event) (
            field "action" (opt_str r.action) (
              field "target" (opt_str r.target) (
                field "access_path" r.access_path (
                  field "policy_input" r.policy_input (
                    field "policy_decision" r.policy_decision (
                      field "policy_version" (opt_str r.policy_version) (
                        field "approval" r.approval (
                          field "grant" r.grant (
                            field "api_calls" r.api_calls (
                              field "context_summary" r.context_summary (
                                field "result" (str r.result)
                                  (field "error" (opt_str r.error) rest))))))))))))))))

-- `hash_version or 1`
abbrev pub version_of : AuditRecord → ℕ
version_of r = if eqb r.hash_version 0 then 1 else r.hash_version

-- The timestamp stands as the number of microseconds, which its ISO text in UTC spells out.
abbrev pub stamped : AuditRecord → String → Fields
stamped r prev_hash = field "ts" (num (pos r.ts)) (field "prev_hash" (str prev_hash) end)

-- The value that the hash of a record covers.
unfoldable pub payload : AuditRecord → String → Value
payload r prev_hash = obj (
    chained r (
      if leb 2 (version_of r)
      then field "hash_version" (num (pos r.hash_version))
          (field "tenant_id" (opt_str r.tenant_id) (stamped r prev_hash))
      else stamped r prev_hash))

-- The newest record, `order_by(seq.desc())`.
unfoldable pub last : List AuditRecord → Option AuditRecord
last [] = none
last (r ∷ []) = some r
last (r ∷ s ∷ rs) = last (s ∷ rs)

pub prev_hash_of : Option AuditRecord → String
prev_hash_of none = genesis
prev_hash_of (some r) = r.hash

abbrev pub next_seq : Option AuditRecord → ℕ
next_seq none = 1
next_seq (some r) = r.seq + 1

pub record Verdict : Type 0 where
  pub valid : Bool
  pub records : ℕ
  pub first_broken_seq : Option ℕ

-- The answer of `verify_chain`.
abbrev pub verdict : ℕ → Option ℕ → Verdict
verdict n none = record { valid = true; records = n; first_broken_seq = none }
verdict n (some seq) = record { valid = false; records = n; first_broken_seq = some seq }

module _ (digest : Value → String) where
  unfoldable pub record_hash : AuditRecord → String → String
  record_hash r prev_hash = digest (payload r prev_hash)

  -- The record that `append` adds behind the newest one.
  pub next_record : Option AuditRecord → Stamp → AuditFields → AuditRecord
  unfolding prev_hash_of
  next_record prev stamp columns =
      let row : AuditRecord = record {
        seq = next_seq prev;
        id = stamp.id;
        hash_version = 2;
        ts = stamp.ts;
        fields = columns;
        prev_hash = prev_hash_of prev;
        hash = "";
      } in
      record row { hash = record_hash row (prev_hash_of prev) }

  unfoldable pub append : List AuditRecord → Stamp → AuditFields → List AuditRecord
  unfolding last next_record
  append log stamp columns = log ++ next_record (last log) stamp columns ∷ []

  -- The loop of `verify_chain`: the first record that breaks the chain.
  pub first_broken : String → List AuditRecord → Option ℕ
  first_broken prev_hash [] = none
  first_broken prev_hash (r ∷ rs) =
      let rest = first_broken r.hash rs in
      if not (r.prev_hash == prev_hash) || not (r.hash == record_hash r prev_hash)
      then some r.seq
      else rest

  unfoldable pub verify_chain : List AuditRecord → Verdict
  unfolding first_broken
  verify_chain log = verdict (length log) (first_broken genesis log)
