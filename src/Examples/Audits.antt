-- ===== src/Examples/Audits.antt =====
-- The evidence log at concrete records. The digest here is the record's subject.
use mathlib.Core.Path.{◌≡◌, refl}
use enterprise_data_access_a.Base.{
  String, true, false, none, some, [], ◌∷◌, ◌++◌, ◌↔◌, ◌≢◌, eq_iff, ◌==◌,
}
use enterprise_data_access_a.Base.Json.{Value, obj, str, get}
use enterprise_data_access_a.Models.{AuditFields, AuditRecord}
use enterprise_data_access_a.Policy.Lifecycle.{blank_fields}
use enterprise_data_access_a.Audit.{
  Stamp, append, genesis, verify_chain, payload, record_hash, next_record, last,
}
use enterprise_data_access_a.Audit.Chain.{IsChained, verify_chain_iff, verify_chain-append}
use enterprise_data_access_a.Audit.Tamper.{edit_is_reported}
use enterprise_data_access_a.Audit.Concurrent.{Reach-verify_chain, insert_row, start, next, insert}

abbrev digest : Value → String
digest (obj fs) = elim (get fs "subject") [ str s ↦ s | _ ↦ "" ]
digest _ = ""

abbrev columns : String → AuditFields
columns who = record blank_fields { subject = who }

abbrev stamp : Stamp
stamp = record { id = "1"; ts = 5 }

abbrev row : String → AuditRecord
row who = record {
  seq = 1;
  id = "1";
  hash_version = 2;
  ts = 5;
  fields = columns who;
  prev_hash = genesis;
  hash = "ada";
}

valid_row : (verify_chain digest (row "ada" ∷ [])).valid ≡ true
unfolding verify_chain record_hash payload
valid_row = refl

valid_empty : (verify_chain digest []).valid ≡ true
unfolding verify_chain
valid_empty = refl

differ : digest (payload (row "eve") genesis) ≢ digest (payload (row "ada") genesis)
unfolding payload
differ e = let same : ("eve" == "ada") ≡ true = (eq_iff "eve" "ada").1 e in cc

verify_chain_iff_example :
    ((verify_chain digest (row "ada" ∷ [])).valid ≡ true)
    ↔ IsChained digest genesis (row "ada" ∷ [])
verify_chain_iff_example = verify_chain_iff digest (row "ada" ∷ [])

verify_chain-append_example :
    verify_chain digest (append digest (row "ada" ∷ []) stamp (columns "bob"))
    ≡ record { valid = true; records = 2; first_broken_seq = none }
verify_chain-append_example =
    verify_chain-append digest (row "ada" ∷ []) stamp (columns "bob") valid_row

edit_is_reported_example :
    verify_chain digest (row "eve" ∷ [])
    ≡ record { valid = false; records = 1; first_broken_seq = some 1 }
edit_is_reported_example =
    edit_is_reported digest [] [] (row "ada") (row "eve") valid_row refl differ

inserted :
    insert_row ([] ++ []) (next_record digest (last []) stamp (columns "ada"))
    ≡ some (next_record digest none stamp (columns "ada") ∷ [])
unfolding insert_row last
inserted = refl

Reach-verify_chain_example :
    (verify_chain digest (next_record digest none stamp (columns "ada") ∷ [])).valid ≡ true
Reach-verify_chain_example =
    Reach-verify_chain digest (next start (insert [] [] stamp (columns "ada") inserted))
