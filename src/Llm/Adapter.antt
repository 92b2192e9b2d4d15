-- ===== src/Llm/Adapter.antt =====
-- `ProviderAdapter` (agi_platform/llm/core.py): the requests that it sends. Python's `rstrip("/")` is
-- `strip_slashes`.
use Prim.Native.Char.{code}
use agi_platform.Prelude.{
  String, ◌+++◌, ◌==◌, [], ◌∷◌, Bool, ◌&&◌, Option, none, some, eqb, Dict, put, if◌then◌else◌,
}
use agi_platform.Llm.Json.{
  Json, boolean, number, text, array, object, item, no_items, field, no_fields,
}
use agi_platform.Llm.Providers.{Provider, api_key}

unfoldable pub strip_slashes : String → String
strip_slashes String.[] = ""
strip_slashes (String.◌∷◌ c s) =
    let rest = strip_slashes s in if rest == "" && eqb (code c) 47 then "" else String.◌∷◌ c rest

pub record HttpPost : Type 0 where
  pub url : String
  pub headers : Dict String
  pub json : Json

abbrev user_message : String → Json
user_message message =
    array (
      item (object (field "role" (text "user") (field "content" (text message) no_fields)))
        no_items)

-- `_chat_payload`
unfoldable pub chat_payload : Provider → String → String → Bool → Json
chat_payload p model message stream =
    if p.name == "anthropic"
    then object (
        field "model" (text model) (
          field "max_tokens" (number 1024)
            (field "messages" (user_message message) (field "stream" (boolean stream) no_fields))))
    else object (
        field "model" (text model)
          (field "messages" (user_message message) (field "stream" (boolean stream) no_fields)))

module _ (getenv : String → Option String) where
  authorized : Option String → Dict String → Dict String
  authorized none headers = headers
  authorized (some key) headers =
      if key == "" then headers else put headers "Authorization" ("Bearer " +++ key)

  -- `_headers`
  unfoldable pub headers_of : Provider → Dict String
  unfolding authorized api_key
  headers_of p =
      let headers = authorized (api_key getenv p) (("Content-Type", "application/json") ∷ []) in
      if p.name == "anthropic" then put headers "anthropic-version" "2023-06-01" else headers

  -- The request of `chat`.
  unfoldable pub chat_post : Provider → String → String → Bool → HttpPost
  unfolding strip_slashes headers_of chat_payload
  chat_post p model message stream = record {
    url = strip_slashes p.base_url +++ p.chat_path;
    headers = headers_of p;
    json = chat_payload p model message stream;
  }

  -- The request of `embeddings`.
  unfoldable pub embeddings_post : Provider → String → String → HttpPost
  unfolding strip_slashes headers_of
  embeddings_post p model content = record {
    url = strip_slashes p.base_url +++ p.embeddings_path;
    headers = headers_of p;
    json = object (
        field "model" (text model)
          (field (if p.name == "ollama" then "prompt" else "input") (text content) no_fields));
  }
