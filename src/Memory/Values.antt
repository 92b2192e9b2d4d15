-- ===== src/Memory/Values.antt =====
-- What the memory relies on of Python and of hashlib, its errors, and the dictionary that its calls
-- give back for a row (agi_platform/memory/core.py).
use agi_platform.Prelude.{ℕ, String, List, Bool, Option, Dict}

-- JSON values with `str`, `float`, which may raise, and `==`; SHA-256 as text; `str.lower` and
-- `str.split`. `is_confidence` is the check constraint of the column `confidence`.
pub record Values : Type 1 where
  pub Json : Type 0
  pub Float : Type 0
  pub text : String → Json
  pub number : ℕ → Json
  pub truth : Bool → Json
  pub object : Dict Json → Json
  pub str : Json → String
  pub float : Json → Option Float
  pub one : Float
  pub is_confidence : Float → Bool
  pub same : Json → Json → Bool
  pub hash : String → String
  pub lower : String → String
  pub split : String → List String

pub data MemoryError : Type 0 where
  key_error value_error integrity_error multiple_results optimistic_concurrency_error
        permission_error :
      MemoryError

-- What `_to_record` gives.
pub record MemoryRecord (Float Json : Type 0) : Type 0 where
  pub id : String
  pub tenant_id : String
  pub namespace : String
  pub content : String
  pub memory_type : Json
  pub metadata : Dict Json
  pub embedding_id : Option String
  pub provenance : Json
  pub source : String
  pub confidence : Float
  pub version : ℕ
  pub status : String
  pub retention : Json
  pub created_at : ℕ
  pub updated_at : ℕ
  pub archived : Bool
