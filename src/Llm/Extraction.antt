-- ===== src/Llm/Extraction.antt =====
-- `_extract_chat_content`, `_extract_usage` and what `embeddings` reads of its answer
-- (agi_platform/llm/core.py). `split` stands for `str.split`, `int_of_text` for `int` of a text.
use agi_platform.Prelude.{
  ℕ, ◌+◌, String, ◌+++◌, ◌==◌, List, length, Bool, true, false, Option, Result, ◌>>=◌, or_raise, ok,
  raise, if◌then◌else◌,
}
use agi_platform.Llm.Json.{
  Json, Items, Fields, null, boolean, number, text, array, object, no_items, item, no_fields, field,
  get_json, or_json, is_truthy, count_items,
}
use agi_platform.Llm.Providers.{Provider}
use agi_platform.Llm.Policies.{
  Thrown, value_error, type_error, index_error, key_error, runtime_error,
}

-- A list of one empty dictionary, the default of "choices" and "data".
abbrev one_empty : Json
one_empty = array (item (object no_fields) no_items)

-- `value.get(key, default)`
abbrev pub got : Json → String → Json → Result Thrown Json
got value key default = or_raise type_error (get_json value key default)

-- `value[0].get`: an empty list or text raises `IndexError`, a dictionary, whose keys are texts, `KeyError`,
-- and what is no dictionary has no `get`.
unfoldable pub first_of : Json → Result Thrown Json
first_of (array no_items) = raise index_error
first_of (array (item v _)) = ok v
first_of (text s) = if s == "" then raise index_error else raise type_error
first_of (object _) = raise key_error
first_of _ = raise type_error

-- `"".join(part.get("text", "") for part in parts)`
unfoldable pub join_parts : Items → Result Thrown String
join_parts no_items = ok ""
join_parts (item part parts) =
    let rest = join_parts parts in
    (do value ← got part "text" (text ""); s ← text_of value; t ← rest; ok (s +++ t))
  where
    text_of : Json → Result Thrown String
    text_of (text s) = ok s
    text_of _ = raise type_error

parts_of : Json → Result Thrown String
unfolding join_parts
parts_of (array parts) = join_parts parts
parts_of (object no_fields) = ok ""
parts_of (text s) = if s == "" then ok "" else raise type_error
parts_of _ = raise type_error

-- `_extract_chat_content`
unfoldable pub extract_chat_content : Provider → Json → Result Thrown Json
unfolding parts_of first_of get_json
extract_chat_content p body =
    if p.name == "anthropic"
    then (do content ← got body "content" (array no_items); s ← parts_of content; ok (text s))
    else if p.name == "ollama"
    then (do message ← got body "message" (object no_fields); got message "content" (text ""))
    else (do
      choices ← got body "choices" one_empty
      choice ← first_of choices
      message ← got choice "message" (object no_fields)
      got message "content" (text ""))

pub record Usage : Type 0 where
  pub input_tokens : ℕ
  pub output_tokens : ℕ

module _ (split : String → List String) (int_of_text : String → Option ℕ) where
  -- `int(value)`
  unfoldable pub int_of : Json → Result Thrown ℕ
  int_of (boolean b) = ok (if b then 1 else 0)
  int_of (number n) = ok n
  int_of (text s) = or_raise value_error (int_of_text s)
  int_of _ = raise type_error

  -- `_extract_usage`
  unfoldable pub extract_usage : Json → String → String → Result Thrown Usage
  unfolding int_of or_json get_json
  extract_usage body prompt completion = do
    usage ← got body "usage" (object no_fields)
    prompt_tokens ← got usage "prompt_tokens" null
    input_tokens ← got usage "input_tokens" null
    completion_tokens ← got usage "completion_tokens" null
    output_tokens ← got usage "output_tokens" null
    tokens_in ←
        int_of (or_json prompt_tokens (or_json input_tokens (number (length (split prompt)))))
    tokens_out ←
        int_of
          (or_json completion_tokens (or_json output_tokens (number (length (split completion)))))
    ok (record { input_tokens = tokens_in; output_tokens = tokens_out })

-- `len(value)`
unfoldable pub len_of : Json → Result Thrown ℕ
unfolding count_items
len_of (array items) = ok (count_items items)
len_of (text s) = ok (count s)
  where
    count : String → ℕ
    count String.[] = 0
    count (String.◌∷◌ _ s) = count s + 1
len_of (object fields) = ok (width fields)
  where
    width : Fields → ℕ
    width no_fields = 0
    width (field _ _ fields) = width fields + 1
len_of _ = raise type_error

-- `body.get("embedding") or body.get("data", [{}])[0].get("embedding")`, which must not be `None`
unfoldable pub extract_embedding : Json → Result Thrown Json
unfolding or_json first_of get_json
extract_embedding body = do
  direct ← got body "embedding" null
  chosen ← if is_set direct then ok direct else (do
    entries ← got body "data" one_empty
    entry ← first_of entries
    got entry "embedding" null)
  if is_none chosen then raise runtime_error else ok chosen
  where
    is_set : Json → Bool
    is_set value = is_truthy value

    is_none : Json → Bool
    is_none null = true
    is_none _ = false
