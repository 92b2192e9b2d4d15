-- ===== src/Guardian.antt =====
-- `MemoryGuardian` (agi_platform/guardian/core.py), which keeps its lists in memory. The similarity of texts
-- (`SequenceMatcher(None, a, b).ratio()`) is a parameter; risk scores count tenths.
pub mod Duplicates
pub mod Versions
use Prim.Native.String
use agi_platform.Prelude.{
  ℕ, suc, ◌+◌, String, List, [], ◌∷◌, ◌++◌, length, Bool, true, false, Option, none, some, or_else,
  ltb, leb, eqb, Dict, get, put, Result, ok, raise, if◌then◌else◌,
}
use agi_platform.Memory.Values.{Values, MemoryRecord}

pub record Ratios : Type 1 where
  pub Ratio : Type 0
  pub nought : Ratio
  pub nine_tenths : Ratio
  pub exceeds : Ratio → Ratio → Bool
  pub ratio : String → String → Ratio

-- `len`
unfoldable pub text_length : String → ℕ
text_length String.[] = 0
text_length (String.◌∷◌ c s) = text_length s + 1

pub record Review : Type 0 where
  pub candidate_id : String
  pub decision : String
  pub risk_score : ℕ
  pub duplicate_id : Option String

pub record AuditEntry : Type 0 where
  pub memory_id : String
  pub action : String
  pub version : ℕ

pub data GuardianError : Type 0 where
  version_not_found : GuardianError

module _ (v : Values) where
  pub record MemoryVersion : Type 0 where
    pub version : ℕ
    pub memory : MemoryRecord v.Float v.Json

  pub record MemoryGuardian : Type 0 where
    pub versions : Dict (List MemoryVersion)
    pub audit : List AuditEntry
    pub reviews : List Review

  -- `versions.setdefault(id, [])`
  unfoldable pub history : MemoryGuardian → String → List MemoryVersion
  history g id = or_else (get g.versions id) []

  -- `version`
  unfoldable pub record_version :
      MemoryGuardian → MemoryRecord v.Float v.Json → MemoryGuardian × MemoryVersion
  unfolding history
  record_version g memory =
      let entry : MemoryVersion = record {
        version = length (history g memory.id) + 1;
        memory = memory;
      } in
      (
        record g {
          versions = put g.versions memory.id (history g memory.id ++ (entry ∷ []));
          audit =
              g.audit
              ++ (record { memory_id = memory.id; action = "versioned"; version = entry.version }
                  ∷ []);
        },
        entry,
      )

  unfoldable pub find_version : ℕ → List MemoryVersion → Option (MemoryRecord v.Float v.Json)
  find_version n [] = none
  find_version n (e ∷ es) = if eqb e.version n then some e.memory else find_version n es

  -- `rollback`, of the guardian
  unfoldable pub restore :
      MemoryGuardian
      → String
      → ℕ
      → MemoryGuardian × Result GuardianError (MemoryRecord v.Float v.Json)
  unfolding find_version
  restore g memory_id version =
      elim (find_version version (or_else (get g.versions memory_id) [])) [
        | none ↦ (g, raise version_not_found)
        | some memory ↦ (
          record g {
            audit =
                g.audit
                ++ (record { memory_id = memory_id; action = "rollback"; version = version } ∷ []);
          },
          ok memory,
        )
      ]

  module _ (ratios : Ratios) where
    -- The most similar record so far, and how similar it is.
    pub record Nearest : Type 0 where
      pub similarity : ratios.Ratio
      pub duplicate : Option (MemoryRecord v.Float v.Json)

    -- One turn of the loop over the records.
    unfoldable pub nearer : String → Nearest → MemoryRecord v.Float v.Json → Nearest
    nearer content m r =
        if ratios.exceeds (ratios.ratio content r.content) m.similarity
        then record { similarity = ratios.ratio content r.content; duplicate = some r }
        else m

    unfoldable pub nearest : String → Nearest → List (MemoryRecord v.Float v.Json) → Nearest
    unfolding nearer
    nearest content m [] = m
    nearest content m (r ∷ rs) = nearest content (nearer content m r) rs

    unfoldable pub risk_of : ratios.Ratio → String → ℕ
    unfolding text_length
    risk_of similarity content =
        if ratios.exceeds similarity ratios.nine_tenths
        then 8
        else if ltb 20 (text_length content)
        then 2
        else 5

    unfoldable pub duplicate_of : Nearest → Option String
    duplicate_of m = elim m.duplicate [
      | none ↦ none
      | some r ↦ if ratios.exceeds m.similarity ratios.nine_tenths then some r.id else none
    ]

    unfoldable pub review_of : MemoryRecord v.Float v.Json → Nearest → Review
    unfolding risk_of duplicate_of
    review_of candidate m =
        let risk_score = risk_of m.similarity candidate.content in
        record {
          candidate_id = candidate.id;
          decision = if leb 5 risk_score then "review" else "approve";
          risk_score = risk_score;
          duplicate_id = duplicate_of m;
        }

    -- `validate`
    unfoldable pub validate_candidate :
        MemoryGuardian
        → MemoryRecord v.Float v.Json
        → List (MemoryRecord v.Float v.Json)
        → MemoryGuardian × Review
    unfolding nearest review_of
    validate_candidate g candidate existing =
        let start : Nearest = record { similarity = ratios.nought; duplicate = none } in
        let review = review_of candidate (nearest candidate.content start existing) in
        (record g { reviews = g.reviews ++ (review ∷ []) }, review)
