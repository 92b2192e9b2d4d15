-- ===== src/Tests/Memory/Reviewed.antt =====
-- The theorems on the guardian and on what it reviews (agi_platform/guardian/core.py,
-- agi_platform/services.py).
use mathlib.Core.List.{Memᴰ}
use agi_platform.Prelude.{
  ℕ, String, ◌==◌, [], true, some, ltb, get, put, ok, ◌≡◌, refl, arith, eq_refl, if◌then◌else◌,
}
use agi_platform.Database.{select}
use agi_platform.Database.ListTable.{lookup, replace}
use agi_platform.Memory.Values.{MemoryRecord}
use agi_platform.Memory.Tables.{Db, is_version, add_version, ensure_tenant}
use agi_platform.Memory.Entries.{
  to_record, text_at, confidence_of, provenance_of, digest_of, embedding_of, version_of, new_row,
}
use agi_platform.Memory.Store.{write_audit, row_of_digest, store_transaction, store}
use agi_platform.Memory.Layer
use agi_platform.Guardian.{Ratios, Review, MemoryGuardian, history, record_version, restore}
use agi_platform.Guardian.Duplicates.{IsSimilarity}
use agi_platform.Guardian.Versions.{Numbered, IsNumbered, record_version-restore}
use agi_platform.Services.{PlatformService, MemoryRequest, store_request, validate_memory}
use agi_platform.Services.Reviews.{validate_memory-store_request}
use agi_platform.Tests.Memory.{Value, python, schema, empty, context, id, row}

abbrev guardian : MemoryGuardian python
guardian = record { versions = []; audit = []; reviews = [] }

guardian-IsNumbered : IsNumbered python guardian
unfolding IsNumbered Numbered history get
guardian-IsNumbered key = tt

abbrev pub stored_memory : MemoryRecord ℕ Value
stored_memory = to_record python (row id "acme" "default")

record_version-restore_example :
    (let (g', e) = record_version python guardian stored_memory in
      IsNumbered python g'
      × ((restore python g' stored_memory.id e.version).1 ≡ ok stored_memory)
      × ((key : String) (n : ℕ) (x : MemoryRecord ℕ Value)
          → (restore python guardian key n).1 ≡ ok x
          → (restore python g' key n).1 ≡ ok x))
record_version-restore_example =
    record_version-restore python guardian stored_memory guardian-IsNumbered

-- Texts are alike if they are equal, and not at all if not.
abbrev pub ratios : Ratios
ratios = record {
  Ratio = ℕ;
  nought = 0;
  nine_tenths = 9;
  exceeds = λ a b. ltb b a;
  ratio = λ s t. if s == t then 10 else 0;
}

ratios-IsSimilarity : IsSimilarity ratios
ratios-IsSimilarity = record {
  equal = λ s. rw (eq_refl s) refl;
  low = refl;
  through = λ a b c more more'. ground (arith, more, more');
  between = λ a b c more less. ground (arith, more, less);
}

abbrev pub service : PlatformService python schema
service = record { memory = empty; guardian = guardian; graph = record { nodes = []; edges = [] } }

abbrev pub request : MemoryRequest python schema
request = record { content = "hello"; memory_type = "semantic"; metadata = [] }

abbrev after : Db python schema
after = (store_request python schema true empty request (context "acme") 10 "e1" "a1").0

request_stored :
    store_request python schema true empty request (context "acme") 10 "e1" "a1"
    ≡ (after, ok stored_memory)
unfolding store_request Layer.store store ensure_tenant store_transaction row_of_digest
    confidence_of new_row text_at provenance_of embedding_of version_of add_version is_version
    write_audit digest_of lookup replace get put select to_record
request_stored = refl

validate_memory-store_request_example :
    (review : Review) × (d : MemoryRecord ℕ Value) × Memᴰ d (Layer.values python schema after)
    × ((validate_memory python schema ratios true service request (context "acme") 10 "e1" "a1").1
        ≡ ok review)
    × (review.duplicate_id ≡ some d.id)
    × (review.decision ≡ "review")
validate_memory-store_request_example =
    validate_memory-store_request python schema ratios ratios-IsSimilarity true service request
      (context "acme") 10 "e1" "a1" after stored_memory request_stored
