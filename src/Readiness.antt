-- ===== src/Readiness.antt =====
-- What the platform reports as its readiness (agi_platform/readiness.py). `import_module` gives the text
-- of the exception that the import of a module raises, if any.
pub mod Catalog
pub mod Controls
pub mod Verdicts
use agi_platform.Prelude.{
  ℕ, String, ◌+++◌, List, [], ◌∷◌, map, any, Bool, true, false, not, ◌&&◌, ◌||◌, Option, none, some,
  eqb, Result, ◌>>=◌, or_raise, ok, raise, if◌then◌else◌,
}
use agi_platform.Readiness.Catalog.{PlatformLevel, KeyError, key_error, platform_levels}
use agi_platform.Readiness.Controls.{
  Status, green, yellow, red, ControlAssessment, implementation_modules, critical_controls,
}

pub record ReadinessCriterion : Type 0 where
  pub name : String
  pub passed : Bool
  pub detail : String
  pub critical : Bool

abbrev pub is_red : Status → Bool
is_red red = true
is_red _ = false

abbrev pub is_yellow : Status → Bool
is_yellow yellow = true
is_yellow _ = false

abbrev pub fails : ReadinessCriterion → Bool
fails c = not c.passed

abbrev pub fails_critically : ReadinessCriterion → Bool
fails_critically c = not c.passed && c.critical

abbrev pub blocks : ControlAssessment → Bool
blocks c = is_red c.status && c.critical

abbrev pub warns : ControlAssessment → Bool
warns c = is_yellow c.status

-- `_status`
unfoldable pub status_of : List ReadinessCriterion → List ControlAssessment → Status
status_of criteria controls =
    if any fails_critically criteria
    then red
    else if any blocks controls
    then red
    else if any fails criteria || any warns controls
    then yellow
    else green

-- `", ".join`
unfoldable pub join : List String → String
join [] = ""
join (s ∷ []) = s
join (s ∷ t ∷ ss) = s +++ ", " +++ join (t ∷ ss)

abbrev declared : String → List String → ReadinessCriterion
declared name items = record {
  name = name;
  passed = elim items [ [] ↦ false | _ ∷ _ ↦ true ];
  detail = join items;
  critical = false;
}

-- A dictionary's entry of a number
unfoldable pub entry_of {ℓ} : {A : Type ℓ} → List (ℕ × A) → ℕ → Option A
entry_of [] n = none
entry_of ((k, a) ∷ es) n = if eqb k n then some a else entry_of es n

pub record LevelReadiness : Type 0 where
  pub level : ℕ
  pub name : String
  pub status : Status
  pub criteria : List ReadinessCriterion
  pub controls : List ControlAssessment

abbrev pub level_is_red : LevelReadiness → Bool
level_is_red l = is_red l.status

abbrev pub level_is_yellow : LevelReadiness → Bool
level_is_yellow l = is_yellow l.status

-- The status of the platform.
unfoldable pub overall : List LevelReadiness → String
overall levels =
    if any level_is_red levels
    then "not-ready"
    else if any level_is_yellow levels
    then "degraded"
    else "ready"

module _ (import_module : String → Option String) where
  -- `_module_imports`
  unfoldable pub module_imports : String → ReadinessCriterion
  module_imports name = elim (import_module name) [
    | some error ↦ record {
      name = "implementation_import";
      passed = false;
      detail = error;
      critical = true;
    }
    | none ↦ record {
      name = "implementation_import";
      passed = true;
      detail = name;
      critical = true;
    }
  ]

  unfoldable pub criteria_of : PlatformLevel → String → List ReadinessCriterion
  unfolding module_imports join
  criteria_of level module_name =
      module_imports module_name
      ∷ declared "api_surface" level.api
      ∷ declared "database_schema_declared" level.database
      ∷ declared "observability_declared" level.metrics
      ∷ declared "security_controls_declared" level.security
      ∷ []

  unfoldable pub readiness_of : PlatformLevel → Result KeyError LevelReadiness
  unfolding entry_of criteria_of status_of
  readiness_of level = do
    module_name ← or_raise key_error (entry_of implementation_modules level.level)
    controls ← or_raise key_error (entry_of critical_controls level.level)
    let criteria = criteria_of level module_name
    ok (record {
      level = level.level;
      name = level.name;
      status = status_of criteria controls;
      criteria = criteria;
      controls = controls;
    })

  -- The loop of `level_readiness`
  unfoldable pub readiness_of_all : List PlatformLevel → Result KeyError (List LevelReadiness)
  unfolding readiness_of
  readiness_of_all [] = ok []
  readiness_of_all (level ∷ levels) =
      let rest = readiness_of_all levels in (do r ← readiness_of level; rs ← rest; ok (r ∷ rs))

  unfoldable pub level_readiness : Result KeyError (List LevelReadiness)
  unfolding readiness_of_all
  level_readiness = readiness_of_all platform_levels

  unfoldable pub platform_ready : Result KeyError (String × List LevelReadiness)
  unfolding level_readiness overall
  platform_ready = do levels ← level_readiness; ok (overall levels, levels)
