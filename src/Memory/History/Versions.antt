-- ===== src/Memory/History/Versions.antt =====
-- Every call keeps memories and their versions in step (agi_platform/memory/core.py).
use agi_platform.Prelude.{
  ℕ, ◌≤◌, ◌<◌, String, ◌==◌, List, [], ◌∷◌, ◌++◌, true, false, ◌&&◌, none, some, eqb, Option-cases,
  if◌then◌else◌, ◌≡◌, ◌≢◌, refl, sym, ap, subst, ◌∙◌, ◌⊎◌, inl, inr, arith, eq_iff, eq_refl,
  Bool-cases,
}
use agi_platform.Database.{select}
use agi_platform.Database.Select.{select-append}
use agi_platform.Database.Rows.{MemoryRow, MemoryVersionRow}
use agi_platform.Memory.Values.{Values}
use agi_platform.Memory.Tables.{Schema, Db, is_version}
use agi_platform.Memory.Changes.{Written, Change, kept, written}
use agi_platform.Memory.History.{Op, caller, step, run, step-Change, Recorded}

pub append_nil : {R : Type 0} (xs : List R) → xs ++ [] ≡ xs
append_nil [] = refl
append_nil (x ∷ xs) = ap (λ ys. x ∷ ys) (append_nil xs)

pub append_assoc : {R : Type 0} (xs ys zs : List R) → (xs ++ ys) ++ zs ≡ xs ++ (ys ++ zs)
append_assoc [] ys zs = refl
append_assoc (x ∷ xs) ys zs = ap (λ us. x ∷ us) (append_assoc xs ys zs)

last_or_earlier : (n m : ℕ) → n ≤ m → (n ≡ m) ⊎ (n < m)
last_or_earlier n m le = ground arith

module _ (v : Values) (schema : Schema v) where
  module _ (tenant : String) (db db' : Db v schema) (w : Written v schema tenant db db') where
    is_version-entry :
        (t id : String) (n : ℕ)
        → is_version v t id n w.entry
          ≡ (w.row.tenant_id == t && w.row.id == id && eqb w.row.version n)
    unfolding is_version
    is_version-entry t id n = rw (w.describes.tenant, w.describes.memory, w.describes.number) refl

    -- A number that the entry does not have keeps its versions.
    select-miss :
        (t id : String) (n : ℕ)
        → is_version v t id n w.entry ≡ false
        → select (is_version v t id n) db'.versions ≡ select (is_version v t id n) db.versions
    unfolding select
    select-miss t id n miss =
        rw (w.versions, select-append (is_version v t id n) db.versions (w.entry ∷ []), miss)
          (append_nil _)

    select-hit :
        (t id : String) (n : ℕ)
        → is_version v t id n w.entry ≡ true
        → select (is_version v t id n) db.versions ≡ []
        → select (is_version v t id n) db'.versions ≡ w.entry ∷ []
    unfolding select
    select-hit t id n hit free =
        rw (w.versions, select-append (is_version v t id n) db.versions (w.entry ∷ []), hit, free)
          refl

    find-written :
        (id : String)
        → schema.memories.find db'.memories id
          ≡ (if w.row.id == id then some w.row else schema.memories.find db.memories id)
    find-written id = rw w.memories (schema.memories.find-put db.memories w.row id)

    -- The id is another one, with its row and its versions as they were, or it is the row's.
    Written-cases :
        (id : String)
        → ((schema.memories.find db'.memories id ≡ schema.memories.find db.memories id)
            × ((t : String) (n : ℕ)
                → select (is_version v t id n) db'.versions
                  ≡ select (is_version v t id n) db.versions))
          ⊎ ((w.row.id ≡ id) × (schema.memories.find db'.memories id ≡ some w.row))
    Written-cases id = elim (Bool-cases (w.row.id == id)) [
      | inl same ↦ inr ((eq_iff w.row.id id).0 same, rw (find-written id, same) refl)
      | inr other ↦ inl (
        rw (find-written id, other) refl,
        λ t n. select-miss t id n (is_version-entry t id n ∙ ground (arith, other)),
      )
    ]

    module _ (h : Recorded v schema db) where
      -- Before the call, there were no versions of the written number or above.
      free :
          (n : ℕ)
          → w.row.version ≤ n
          → select (is_version v w.row.tenant_id w.row.id n) db.versions ≡ []
      free n le = elim (Option-cases (schema.memories.find db.memories w.row.id)) [
        | inl none_there ↦ h.absent w.row.id none_there w.row.tenant_id n
        | inr (old, found) ↦
            let follows = rw found at w.follows in
            rw follows.0 (h.above w.row.id old found n (omega (arith, follows.1, le)))
      ]

      positive_row : 1 ≤ w.row.version
      positive_row = elim (Option-cases (schema.memories.find db.memories w.row.id)) [
        | inl none_there ↦ let follows = rw none_there at w.follows in omega (arith, follows)
        | inr (old, found) ↦ let follows = rw found at w.follows in omega (arith, follows.1)
      ]

      entry_at :
          (n : ℕ)
          → n ≡ w.row.version
          → select (is_version v w.row.tenant_id w.row.id n) db'.versions ≡ w.entry ∷ []
      entry_at n e =
          select-hit w.row.tenant_id w.row.id n
            (is_version-entry w.row.tenant_id w.row.id n
              ∙ ground (arith, e, eq_refl w.row.tenant_id, eq_refl w.row.id))
            (free n (omega (arith, e)))

      other_number :
          (n : ℕ)
          → n ≢ w.row.version
          → select (is_version v w.row.tenant_id w.row.id n) db'.versions
            ≡ select (is_version v w.row.tenant_id w.row.id n) db.versions
      other_number n d =
          select-miss w.row.tenant_id w.row.id n
            (is_version-entry w.row.tenant_id w.row.id n ∙ ground (arith, d))

      earlier :
          (n : ℕ)
          → 1 ≤ n
          → n < w.row.version
          → (x : MemoryVersionRow v.Float v.Json) × (select
                (is_version v w.row.tenant_id w.row.id n)
                db'.versions
              ≡ x ∷ [])
      earlier n low high = elim (Option-cases (schema.memories.find db.memories w.row.id)) [
        | inl none_there ↦
            let follows = rw none_there at w.follows in
            elim (let no : ⊥ = omega (arith, follows, low, high) in no) [ ]
        | inr (old, found) ↦
            let follows = rw found at w.follows in
            let (x, e) = h.recorded w.row.id old found n low (omega (arith, follows.1, high)) in
            (x, other_number n (omega (arith, high)) ∙ rw follows.0 e)
      ]

      row_at :
          (id : String) (r : MemoryRow v.Float v.Json)
          → schema.memories.find db'.memories id ≡ some r
          → schema.memories.find db'.memories id ≡ some w.row
          → w.row ≡ r
      row_at id r found there = cc

      above_row :
          (n : ℕ)
          → w.row.version < n
          → select (is_version v w.row.tenant_id w.row.id n) db'.versions ≡ []
      above_row n lt = other_number n (omega (arith, lt)) ∙ free n (omega (arith, lt))

      recorded_row :
          (n : ℕ)
          → 1 ≤ n
          → n ≤ w.row.version
          → (x : MemoryVersionRow v.Float v.Json) × (select
                (is_version v w.row.tenant_id w.row.id n)
                db'.versions
              ≡ x ∷ [])
      recorded_row n low high = elim (last_or_earlier n w.row.version high) [
        | inl e ↦ (w.entry, entry_at n e)
        | inr lt ↦ earlier n low lt
      ]

      latest_row :
          (x : MemoryVersionRow v.Float v.Json)
          → select (is_version v w.row.tenant_id w.row.id w.row.version) db'.versions ≡ x ∷ []
          → x.content ≡ w.row.content
      latest_row x got =
          let e : w.entry ≡ x = let both = sym (entry_at w.row.version refl) ∙ got in cc in
          sym (ap (λ (y : MemoryVersionRow v.Float v.Json). y.content) e) ∙ w.describes.text

      Recorded-written : Recorded v schema db'
      Recorded-written = record {
        absent = λ id gone t n. elim (Written-cases id) [
          | inl (same, keeps) ↦ keeps t n ∙ h.absent id (sym same ∙ gone) t n
          | inr (_, there) ↦ let no : none ≡ some w.row = sym gone ∙ there in cc
        ];
        positive = λ id r found. elim (Written-cases id) [
          | inl (same, keeps) ↦ h.positive id r (sym same ∙ found)
          | inr (_, there) ↦ subst (λ s. 1 ≤ s.version) (row_at id r found there) positive_row
        ];
        above = λ id r found n lt. elim (Written-cases id) [
          | inl (same, keeps) ↦ keeps r.tenant_id n ∙ h.above id r (sym same ∙ found) n lt
          | inr (e, there) ↦
              rw (← row_at id r found there, ← e)
                (above_row n (rw (← row_at id r found there) at lt))
        ];
        recorded = λ id r found n low high. elim (Written-cases id) [
          | inl (same, keeps) ↦
              let (x, got) = h.recorded id r (sym same ∙ found) n low high in
              (x, keeps r.tenant_id n ∙ got)
          | inr (e, there) ↦
              rw (← row_at id r found there, ← e)
                (recorded_row n low (rw (← row_at id r found there) at high))
        ];
        latest = λ id r x found got. elim (Written-cases id) [
          | inl (same, keeps) ↦
              h.latest id r x (sym same ∙ found) (sym (keeps r.tenant_id r.version) ∙ got)
          | inr (e, there) ↦
              rw (← row_at id r found there)
                (latest_row x (rw (← row_at id r found there, ← e) at got))
        ];
      }

  Recorded-Change :
      (tenant : String) (db db' : Db v schema)
      → Change v schema tenant db db'
      → Recorded v schema db
      → Recorded v schema db'
  Recorded-Change tenant db db' (kept same_m same_v) h = record {
    absent = rw (same_m, same_v) h.absent;
    positive = rw same_m h.positive;
    above = rw (same_m, same_v) h.above;
    recorded = rw (same_m, same_v) h.recorded;
    latest = rw (same_m, same_v) h.latest;
  }
  Recorded-Change tenant db db' (written w) h = Recorded-written tenant db db' w h

  -- The version history stays complete under any calls of `store`, `update` and `rollback`, which may
  -- fail: each memory has exactly one entry for each number from 1 to its version, none above, the last
  -- one with its present content, and an id without a memory has no entries.
  pub Recorded-run :
      (db : Db v schema) (ops : List (Op v))
      → Recorded v schema db
      → Recorded v schema (run v schema db ops)
  unfolding run
  Recorded-run db [] h = h
  Recorded-run db (op ∷ ops) h =
      Recorded-run (step v schema db op) ops
        (Recorded-Change (caller v op) db (step v schema db op) (step-Change v schema db op) h)
