-- ===== src/Tests/Memory/Found.antt =====
-- The theorems on searches of the memory and on stores of what is there (agi_platform/memory/core.py).
use agi_platform.Prelude.{ℕ, String, none, [], ◌∷◌, true, some, get, Dict, ok, ◌≡◌, refl}
use agi_platform.Database.{select}
use agi_platform.Database.ListTable.{lookup, replace}
use agi_platform.Database.Rows.{TenantRow, MemoryRow}
use agi_platform.Memory.Tables.{Db, is_version, add_version}
use agi_platform.Memory.Entries.{to_record, text_at, digest_of, version_of}
use agi_platform.Memory.Store.{write_audit, store}
use agi_platform.Memory.Revision.{revise, revised, update_row, update}
use agi_platform.Memory.Store.Taken.{store-update, store_crosses_tenants}
use agi_platform.Tests.Memory.{Value, text_value, python, schema, empty, context, id, row}

-- The memory of tenant "a" with namespace "b:c", and the tenant "a:b" with namespace "c".
abbrev shared_id : String
shared_id = "a:b:c:semantic:hello"

abbrev known : TenantRow
known = record {
  id = "a:b";
  name = "a:b";
  status = "ACTIVE";
  version = 1;
  created_at = 9;
  updated_at = 9;
}

abbrev shared : Db python schema
shared = record empty {
  tenants = (known ∷ [], (tt, tt));
  memories = (row shared_id "a" "b:c" ∷ [], (tt, tt));
}

abbrev in_namespace : String → Dict Value
in_namespace n = ("namespace", text_value n) ∷ []

store_crosses_tenants_example :
    (store python schema true shared
      (context "a:b")
      "hello"
      "semantic"
      (some (in_namespace "c"))
      12
      "e2"
      "a2").1
    ≡ ok (to_record python (row shared_id "a" "b:c"))
unfolding text_at get digest_of lookup
store_crosses_tenants_example =
    store_crosses_tenants python schema true shared (context "a:b") "a" "b" "c" "hello" "semantic"
      (in_namespace "b:c") (some (in_namespace "c")) 12 "e2" "a2" known (row shared_id "a" "b:c")
      refl refl refl refl refl refl

-- A memory of "acme", known by now, and what an update of it leaves.
abbrev before_update : Db python schema
before_update = record empty {
  tenants = (record known { id = "acme"; name = "acme" } ∷ [], (tt, tt));
  memories = (row id "acme" "default" ∷ [], (tt, tt));
}

abbrev after_update : Db python schema
after_update = (update python schema before_update (context "acme") id "goodbye" 1 11 "a1").0

abbrev updated_row : MemoryRow ℕ Value
updated_row = record (row id "acme" "default") { content = "goodbye"; version = 2; updated_at = 11 }

store-update_example :
    ((store python schema true after_update (context "acme") "hello" "semantic" none 12 "e2" "a2").1
      ≡ ok (to_record python updated_row))
    × ((to_record python updated_row).content ≡ "goodbye")
    × ((store python schema true after_update
          (context "acme")
          "hello"
          "semantic"
          none
          12
          "e2"
          "a2").0.memories
        ≡ after_update.memories)
    × ((store python schema true after_update
          (context "acme")
          "hello"
          "semantic"
          none
          12
          "e2"
          "a2").0.versions
        ≡ after_update.versions)
unfolding update update_row revise revised write_audit add_version is_version version_of to_record
    text_at get digest_of lookup replace select
store-update_example =
    store-update python schema true before_update after_update (context "acme") "hello" "goodbye"
      "semantic" none 1 11 12 "e2" "a1" "a2" (record known { id = "acme"; name = "acme" })
      (to_record python updated_row) refl refl refl
