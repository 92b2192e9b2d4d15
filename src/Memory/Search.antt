-- ===== src/Memory/Search.antt =====
-- `search` and `consolidate` of `DurableMemoryStore` (agi_platform/memory/core.py). A limit that is
-- negative, which no caller gives, is left out. A score is a fraction, kept as its two numbers: one
-- search divides by one number.
pub mod Ranking
pub mod Best
use agi_platform.Prelude.{
  prefix, ℕ, ◌+◌, zero, suc, max, String, ◌+++◌, ◌==◌, List, [], ◌∷◌, ◌++◌, map, length, Bool, ◌&&◌,
  ltb, or_else, get, contains, if◌then◌else◌,
}
use agi_platform.Security.Permissions.{TenantContext}
use agi_platform.Database.{select}
use agi_platform.Database.Rows.{MemoryRow}
use agi_platform.Memory.Values.{Values, MemoryRecord}
use agi_platform.Memory.Tables.{Schema, Db}
use agi_platform.Memory.Entries.{to_record}

-- `set(words)`
unfoldable pub distinct : List String → List String
distinct [] = []
distinct (x ∷ xs) = let rest = distinct xs in if contains x rest then rest else x ∷ rest

pub record Ranked (Float Json : Type 0) : Type 0 where
  pub common : ℕ
  pub terms : ℕ
  pub entry : MemoryRecord Float Json

-- A sort in descending order that keeps the order of equals.
unfoldable pub insert_ranked :
    {Float Json : Type 0} → Ranked Float Json → List (Ranked Float Json) → List (Ranked Float Json)
insert_ranked x [] = x ∷ []
insert_ranked x (y ∷ ys) = if ltb x.common y.common then y ∷ insert_ranked x ys else x ∷ y ∷ ys

unfoldable pub sort_ranked :
    {Float Json : Type 0} → List (Ranked Float Json) → List (Ranked Float Json)
sort_ranked [] = []
sort_ranked (x ∷ xs) = insert_ranked x (sort_ranked xs)

-- `xs[:n]`
unfoldable pub take {ℓ} : {A : Type ℓ} → ℕ → List A → List A
take zero xs = []
take (suc n) [] = []
take (suc n) (x ∷ xs) = x ∷ take n xs

-- `" ".join(texts)`
unfoldable pub joined : List String → String
joined [] = ""
joined (s ∷ []) = s
joined (s ∷ (t ∷ ts)) = s +++ " " +++ joined (t ∷ ts)

module _ (v : Values) where
  unfoldable pub is_active_of : String → MemoryRow v.Float v.Json → Bool
  is_active_of tenant r = r.tenant_id == tenant && r.status == "ACTIVE"

  -- `len(terms & tokens)`
  unfoldable pub common_terms : List String → String → ℕ
  unfolding distinct
  common_terms terms content =
      length (select (λ t. contains t (distinct (v.split (v.lower content)))) terms)

  -- The loop over the rows.
  unfoldable pub ranked :
      List String → List (MemoryRow v.Float v.Json) → List (Ranked v.Float v.Json)
  unfolding common_terms
  ranked terms [] = []
  ranked terms (row ∷ rows) =
      let rest = ranked terms rows in
      let common = common_terms terms row.content in
      if ltb 0 common
      then record { common = common; terms = max (length terms) 1; entry = to_record v row } ∷ rest
      else rest

  -- `by_type.setdefault(key, []).append(content)`
  unfoldable pub add_to_group :
      List (v.Json × List String) → v.Json → String → List (v.Json × List String)
  add_to_group [] key content = (key, content ∷ []) ∷ []
  add_to_group ((k, contents) ∷ groups) key content =
      if v.same k key
      then (k, contents ++ (content ∷ [])) ∷ groups
      else (k, contents) ∷ add_to_group groups key content

  unfoldable pub group_by_type :
      List (v.Json × List String) → List (MemoryRow v.Float v.Json) → List (v.Json × List String)
  unfolding add_to_group
  group_by_type groups [] = groups
  group_by_type groups (row ∷ rows) =
      group_by_type
        (add_to_group groups (or_else (get row.metadata_json "memory_type") (v.text "semantic"))
          row.content)
        rows

  pub record Consolidation : Type 0 where
    pub summaries : List (v.Json × String)
    pub record_count : ℕ

  module _ (schema : Schema v) where
    -- The entries of the key "results".
    unfoldable pub search : Db v schema → TenantContext → String → ℕ → List (Ranked v.Float v.Json)
    unfolding is_active_of ranked sort_ranked insert_ranked take distinct
    search db context query limit = take limit (
        sort_ranked (
          ranked (distinct (v.split (v.lower query)))
            (select (is_active_of context.tenant_id) (schema.memories.rows db.memories))))

    unfoldable pub consolidate : Db v schema → TenantContext → Consolidation
    unfolding is_active_of group_by_type joined prefix
    consolidate db context =
        let rows = select (is_active_of context.tenant_id) (schema.memories.rows db.memories) in
        record {
          summaries = map (λ g. (g.0, prefix 500 (joined g.1))) (group_by_type [] rows);
          record_count = length rows;
        }
