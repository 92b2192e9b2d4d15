-- ===== src/Memory/Search/Best.antt =====
-- A search gives the best matches of the tenant's active memories (agi_platform/memory/core.py).
use mathlib.Core.List.{Memᴰ}
use agi_platform.Prelude.{◌<◌, max, String, List, length, ◌≡◌}
use agi_platform.Database.Rows.{MemoryRow}
use agi_platform.Memory.Values.{Values}
use agi_platform.Memory.Tables.{Schema, Db}
use agi_platform.Memory.Entries.{to_record}
use agi_platform.Memory.Search.{distinct, Ranked, common_terms}

module _ (v : Values) where
  -- The distinct words of a query.
  abbrev pub terms_of : String → List String
  terms_of query = distinct (v.split (v.lower query))

  -- The result for a row.
  abbrev pub result_for : List String → MemoryRow v.Float v.Json → Ranked v.Float v.Json
  result_for terms row = record {
    common = common_terms v terms row.content;
    terms = max (length terms) 1;
    entry = to_record v row;
  }

  -- The result is that of a row which shares words with the query.
  record IsResult (terms : List String) (rows : List (MemoryRow v.Float v.Json))
      (x : Ranked v.Float v.Json) : Type 0 where
    row : MemoryRow v.Float v.Json
    listed : Memᴰ row rows
    made : x ≡ result_for terms row
    common : 0 < x.common

  module _ (schema : Schema v) where
    -- A result of a search in the tenant.
    pub record IsFound (db : Db v schema) (tenant query : String) (x : Ranked v.Float v.Json)
        : Type 0 where
      pub row : MemoryRow v.Float v.Json
      pub stored : Memᴰ row (schema.memories.rows db.memories)
      pub own : row.tenant_id ≡ tenant
      pub active : row.status ≡ "ACTIVE"
      pub made : x ≡ result_for (terms_of query) row
      pub common : 0 < x.common
