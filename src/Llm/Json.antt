-- ===== src/Llm/Json.antt =====
-- JSON values, with the operations of Python that the gateway applies to them. Numbers are natural. An
-- operation on a value of another type raises, here as `none`.
use agi_platform.Prelude.{
  ℕ, suc, String, ◌==◌, Bool, true, false, not, Option, none, some, eqb, if◌then◌else◌,
}

mutual
  pub data Json : Type 0 where
    null : Json
    boolean : Bool → Json
    number : ℕ → Json
    text : String → Json
    array : Items → Json
    object : Fields → Json

  pub data Items : Type 0 where
    no_items : Items
    item : Json → Items → Items

  pub data Fields : Type 0 where
    no_fields : Fields
    field : String → Json → Fields → Fields

unfoldable pub get_field : Fields → String → Json → Json
get_field no_fields key default = default
get_field (field k v fields) key default = if k == key then v else get_field fields key default

-- `value.get(key, default)`, of a dictionary
unfoldable pub get_json : Json → String → Json → Option Json
unfolding get_field
get_json (object fields) key default = some (get_field fields key default)
get_json _ key default = none

-- `bool(value)`
unfoldable pub is_truthy : Json → Bool
is_truthy null = false
is_truthy (boolean b) = b
is_truthy (number n) = not (eqb n 0)
is_truthy (text s) = not (s == "")
is_truthy (array no_items) = false
is_truthy (array (item _ _)) = true
is_truthy (object no_fields) = false
is_truthy (object (field _ _ _)) = true

-- `a or b`
unfoldable pub or_json : Json → Json → Json
unfolding is_truthy
or_json a b = if is_truthy a then a else b

unfoldable pub count_items : Items → ℕ
count_items no_items = 0
count_items (item _ vs) = suc (count_items vs)
