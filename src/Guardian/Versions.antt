-- ===== src/Guardian/Versions.antt =====
-- What the guardian's versions give back (agi_platform/guardian/core.py).
use agi_platform.Prelude.{
  ℕ, ◌+◌, String, ◌==◌, List, [], ◌∷◌, ◌++◌, length, false, some, or_raise, eqb, get-put, eq_refl,
  eq_iff, ok, if◌then◌else◌, ◌≡◌, refl, sym, ◌∙◌, inl, inr, arith, Bool-cases, Option-cases,
}
use agi_platform.Memory.Values.{Values, MemoryRecord}
use agi_platform.Guardian.{
  version_not_found, MemoryVersion, MemoryGuardian, history, record_version, find_version, restore,
}

module _ (v : Values) where
  -- Versions count from the next number on.
  unfoldable pub Numbered : ℕ → List (MemoryVersion v) → Type 0
  Numbered n [] = Unit
  Numbered n (e ∷ es) = (e.version ≡ n + 1) × Numbered (n + 1) es

  unfoldable pub IsNumbered : MemoryGuardian v → Type 0
  unfolding Numbered
  IsNumbered g = (id : String) → Numbered 0 (history v g id)

  Numbered-append :
      (n : ℕ) (es : List (MemoryVersion v)) (e : MemoryVersion v)
      → Numbered n es
      → e.version ≡ n + length es + 1
      → Numbered n (es ++ (e ∷ [])) × (find_version v e.version (es ++ (e ∷ [])) ≡ some e.memory)
  unfolding Numbered find_version
  Numbered-append n [] e h is_next = ((omega (arith, is_next), tt), ground arith)
  Numbered-append n (d ∷ es) e h is_next =
      let (rest, found) = Numbered-append (n + 1) es e h.1 (omega (arith, is_next)) in
      let apart : eqb d.version e.version ≡ false = ground (arith, h, is_next) in
      ((h.0, rest), rw apart found)

  find_version-append :
      (n : ℕ) (es : List (MemoryVersion v)) (e : MemoryVersion v) (x : MemoryRecord v.Float v.Json)
      → find_version v n es ≡ some x
      → find_version v n (es ++ (e ∷ [])) ≡ some x
  unfolding find_version
  find_version-append n [] e x h = cc
  find_version-append n (d ∷ es) e x h = elim (Bool-cases (eqb d.version n)) [
    | inl here ↦ let h' = rw here at h in rw here h'
    | inr later ↦ let h' = rw later at h in rw later (find_version-append n es e x h')
  ]

  restore_result :
      (g : MemoryGuardian v) (id : String) (n : ℕ)
      → (restore v g id n).1 ≡ or_raise version_not_found (find_version v n (history v g id))
  unfolding restore history
  restore_result g id n = elim (Option-cases (find_version v n (history v g id))) [
    | inl absent ↦ rw (absent, restore) refl
    | inr (x, found) ↦ rw (found, restore) refl
  ]

  history-record_version :
      (g : MemoryGuardian v) (m : MemoryRecord v.Float v.Json) (id : String)
      → (let (g', e) = record_version v g m in
          history v g' id ≡ (if m.id == id then history v g m.id ++ (e ∷ []) else history v g id))
  unfolding record_version history
  history-record_version g m id =
      let e : MemoryVersion v = (record_version v g m).1 in
      let put_there = get-put g.versions m.id id (history v g m.id ++ (e ∷ [])) in
      elim (Bool-cases (m.id == id)) [
        | inl same ↦ rw (put_there, same) refl
        | inr other ↦ rw (put_there, other) refl
      ]

  found_of :
      (g : MemoryGuardian v) (id : String) (n : ℕ) (x : MemoryRecord v.Float v.Json)
      → (restore v g id n).1 ≡ ok x
      → find_version v n (history v g id) ≡ some x
  found_of g id n x h =
      let h' : or_raise version_not_found (find_version v n (history v g id)) ≡ ok x =
        sym (restore_result g id n) ∙ h in
      elim (Option-cases (find_version v n (history v g id))) [
        | inl absent ↦ let bad = rw absent at h' in cc
        | inr (y, found) ↦ let same = rw found at h' in ground (arith, found, same)
      ]

  restored_of :
      (g : MemoryGuardian v) (id : String) (n : ℕ) (x : MemoryRecord v.Float v.Json)
      → find_version v n (history v g id) ≡ some x
      → (restore v g id n).1 ≡ ok x
  restored_of g id n x found = restore_result g id n ∙ rw found refl

  -- The versions of a guardian whose versions are numbered stay numbered, a memory that is versioned is
  -- given back under the number of its version, and what was given back before still is.
  pub record_version-restore :
      (g : MemoryGuardian v) (m : MemoryRecord v.Float v.Json)
      → IsNumbered g
      → (let (g', e) = record_version v g m in
          IsNumbered g'
          × ((restore v g' m.id e.version).1 ≡ ok m)
          × ((id : String) (n : ℕ) (x : MemoryRecord v.Float v.Json)
              → (restore v g id n).1 ≡ ok x
              → (restore v g' id n).1 ≡ ok x))
  unfolding IsNumbered record_version
  record_version-restore g m h =
      let g' : MemoryGuardian v = (record_version v g m).0 in
      let e : MemoryVersion v = (record_version v g m).1 in
      let number : e.version ≡ 0 + length (history v g m.id) + 1 =
        unfold record_version in omega arith in
      let (numbered, found) = Numbered-append 0 (history v g m.id) e (h m.id) number in
      (
        λ id. elim (Bool-cases (m.id == id)) [
          | inl same ↦ rw (history-record_version g m id, same) numbered
          | inr other ↦ rw (history-record_version g m id, other) (h id)
        ],
        restored_of g' m.id e.version m (rw (history-record_version g m m.id, eq_refl m.id) found),
        λ id n x before. elim (Bool-cases (m.id == id)) [
          | inl same ↦
              let same_id = (eq_iff m.id id).0 same in
              let there = found_of g id n x before in
              restored_of g' id n x (
                rw (history-record_version g m id, same)
                  (find_version-append n (history v g m.id) e x (rw (← same_id) at there)))
          | inr other ↦
              restored_of g' id n x
                (rw (history-record_version g m id, other) (found_of g id n x before))
        ],
      )
