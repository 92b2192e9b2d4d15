-- ===== src/Tests/Memory.antt =====
-- The theorems on the durable memory at concrete tables (agi_platform/memory/core.py).
mod Found
mod Reviewed
mod Served
use mathlib.Core.List.{Memᴰ}
use agi_platform.Prelude.{
  ℕ, ◌<◌, ◌≤◌, String, ◌+++◌, List, [], ◌∷◌, length, Bool, true, Option, none, some, leb, All, get,
  put, contains, Dict, ok, raise, ◌≡◌, ◌≢◌, refl, ◌⊎◌, arith, eq_iff,
}
use agi_platform.Security.Permissions.{TenantContext}
use agi_platform.Database.{select}
use agi_platform.Database.ListTable.{list_table, lookup, replace}
use agi_platform.Database.Rows.{TenantRow, MemoryRow}
use agi_platform.Memory.Values.{Values, MemoryRecord, optimistic_concurrency_error}
use agi_platform.Memory.Tables.{Schema, Db, is_version, add_version, ensure_tenant}
use agi_platform.Memory.Entries.{
  to_record, text_at, confidence_of, provenance_of, digest_of, embedding_of, version_of, new_row,
}
use agi_platform.Memory.Store.{write_audit, row_of_digest, store_transaction, store}
use agi_platform.Memory.Store.Taken.{store_crosses_tenants}
use agi_platform.Memory.Revision.{revise, revised, update_row, update, rollback_row, rollback}
use agi_platform.Memory.Search.{distinct, common_terms, search}
use agi_platform.Memory.Search.Ranking.{Descending}
use agi_platform.Memory.Search.Best.{terms_of, result_for, IsFound}
use agi_platform.Memory.History.{Op, stores, updates, rolls_back, step, run, Recorded}
use agi_platform.Memory.History.Versions.{Recorded-run}
use agi_platform.Memory.History.Tenants.{run-keeps_others}
use agi_platform.Memory.History.Restoring.{rollback-restores, update_once}

data Value : Type 0 where
  text_value : String → Value
  number_value : ℕ → Value
  truth_value : Bool → Value
  object_value : ℕ → Value

abbrev text_of : Value → String
text_of (text_value s) = s
text_of (number_value n) = "number"
text_of (truth_value b) = "truth"
text_of (object_value n) = "object"

abbrev number_of : Value → Option ℕ
number_of (text_value s) = none
number_of (number_value n) = some n
number_of (truth_value b) = none
number_of (object_value n) = none

-- One word for each of three texts.
abbrev words : String → List String
words s = s ∷ []

-- Confidences in percent; texts are their own digests.
abbrev python : Values
python = record {
  Json = Value;
  Float = ℕ;
  text = text_value;
  number = number_value;
  truth = truth_value;
  object = λ d. object_value (length d);
  str = text_of;
  float = number_of;
  one = 100;
  is_confidence = λ c. leb c 100;
  same = λ a b. true;
  hash = λ s. s;
  lower = λ s. s;
  split = words;
}

abbrev schema : Schema python
schema = record {
  tenants = list_table (λ r. r.id);
  memories = list_table (λ r. r.id);
  evidence = list_table (λ r. r.id);
  audit = list_table (λ r. r.id);
}

abbrev empty : Db python schema
empty = record {
  tenants = ([], tt);
  memories = ([], tt);
  versions = [];
  evidence = ([], tt);
  audit = ([], tt);
}

empty-Recorded : Recorded python schema empty
unfolding lookup select
empty-Recorded = record {
  absent = λ id gone tenant n. refl;
  positive = λ id r found. cc;
  above = λ id r found n lt. refl;
  recorded = λ id r found. cc;
  latest = λ id r x found. cc;
}

abbrev context : String → TenantContext
context tenant = record {
  tenant_id = tenant;
  identity = record {
    subject = "alice";
    tenant_id = tenant;
    roles = [];
    permissions = "*" ∷ [];
    key_id = "k";
    identity_type = "user";
  };
  request_id = "r";
}

abbrev first : Op python
first = stores true (context "acme") "hello" "semantic" none 10 "e1" "a1"

abbrev id : String
id = "acme:default:semantic:hello"

abbrev row : String → String → String → MemoryRow ℕ Value
row id tenant namespace = record {
  id = id;
  tenant_id = tenant;
  namespace = namespace;
  content = "hello";
  embedding_id = some ("qdrant:" +++ id);
  provenance = object_value 1;
  source = "api";
  confidence = 100;
  status = "ACTIVE";
  retention = object_value 0;
  metadata_json = ("memory_type", text_value "semantic") ∷ [];
  version = 1;
  created_at = 10;
  updated_at = 10;
}

abbrev stored : Db python schema
stored = run python schema empty (first ∷ [])

-- The row of the first operation.
stored_row : schema.memories.find stored.memories id ≡ some (row id "acme" "default")
unfolding run step store ensure_tenant store_transaction row_of_digest confidence_of new_row text_at
    provenance_of embedding_of version_of add_version is_version write_audit digest_of lookup
    replace get put select
stored_row = refl

stored_entry :
    select (is_version python "acme" id 1) stored.versions
    ≡ version_of python (row id "acme" "default") 10 ∷ []
unfolding run step store ensure_tenant store_transaction row_of_digest confidence_of new_row text_at
    provenance_of embedding_of version_of add_version is_version write_audit digest_of lookup
    replace get put select
stored_entry = refl

-- An update, and a rollback by another tenant, which fails.
abbrev later : List (Op python)
later =
    updates (context "acme") id "goodbye" 1 11 "a2" ∷ rolls_back (context "rival") id 1 12 "a3" ∷ []

Recorded-run_example : Recorded python schema (run python schema empty (first ∷ later))
Recorded-run_example = Recorded-run python schema empty (first ∷ later) empty-Recorded

stored-Recorded : Recorded python schema stored
stored-Recorded = Recorded-run python schema empty (first ∷ []) empty-Recorded

fresh_audit : schema.audit.find (run python schema stored later).audit "a4" ≡ none
unfolding run step store ensure_tenant store_transaction row_of_digest confidence_of new_row text_at
    provenance_of embedding_of version_of add_version is_version write_audit digest_of lookup
    replace get put select update update_row rollback rollback_row revise revised
fresh_audit = refl

rollback-restores_example :
    (entry : MemoryRecord ℕ Value) × ((rollback python schema
        (run python schema stored later)
        (context "acme")
        id
        1
        13
        "a4").1
      ≡ ok entry)
    × (entry.content ≡ "hello")
rollback-restores_example =
    rollback-restores python schema stored later (context "acme") id (row id "acme" "default") 13
      "a4" stored-Recorded stored_row refl fresh_audit

abbrev goodbye : MemoryRow ℕ Value
goodbye = record (row id "acme" "default") { content = "goodbye"; version = 2; updated_at = 11 }

updated :
    (update python schema stored (context "acme") id "goodbye" 1 11 "a2").1
    ≡ ok (to_record python goodbye)
unfolding run step store ensure_tenant store_transaction row_of_digest confidence_of new_row text_at
    provenance_of embedding_of version_of add_version is_version write_audit digest_of lookup
    replace get put select update update_row revise revised
updated = refl

update_once_example :
    (update python schema
      (run python schema
        (update python schema stored (context "acme") id "goodbye" 1 11 "a2").0
        (rolls_back (context "acme") id 1 12 "a3" ∷ []))
      (context "acme")
      id
      "farewell"
      1
      13
      "a4").1
    ≡ raise optimistic_concurrency_error
update_once_example =
    update_once python schema stored (context "acme") (context "acme") id "goodbye" "farewell" 1 11
      13 "a2" "a4" (to_record python goodbye) (rolls_back (context "acme") id 1 12 "a3" ∷ [])
      updated refl

abbrev acme : String
acme = "acme"

abbrev rival : String
rival = "rival"

rival-acme : rival ≢ acme
rival-acme e = ground (arith, eq_iff rival acme)

run-keeps_others_example :
    schema.memories.find
      (run python schema stored (
        updates (context "rival") id "mine" 1 11 "a2"
        ∷ rolls_back (context "rival") id 1 12 "a3"
        ∷ [])).memories
      id
    ≡ some (row id "acme" "default")
run-keeps_others_example =
    run-keeps_others python schema stored
      (updates (context "rival") id "mine" 1 11 "a2"
        ∷ rolls_back (context "rival") id 1 12 "a3"
        ∷ [])
      id (row id "acme" "default") stored_row (rival-acme, (rival-acme, tt))
