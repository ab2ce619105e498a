-- ===== src/Api.antt =====
-- web/lib/api.ts: the fetch wrappers of the dashboard. `fetch` and the JSON codec are the browser's
-- and are parameters; a promise that rejects is `rejected`.
pub mod Outcomes
pub mod Urls
use pushfree.Common.{
  ℕ, String, Bool, true, Option, none, some, List, [], ◌∷◌, if◌then◌else◌, get_or, ◌≡◌,
}
use pushfree.Text.{append, truthy, eq_ignore_case, join_with}

pub data Method : Type 0 where
  get post put delete : Method

pub record Request : Type 0 where
  pub method : Method
  pub url : String
  pub credentials : String
  pub headers : List (String × String)
  pub body : Option String

-- `text` is what `res.text()` settles with, or `none` where it rejects.
pub record Response : Type 0 where
  pub status : ℕ
  pub headers : List (String × String)
  pub text : Option String

-- What an awaited wrapper settles with.
pub data Outcome {ℓ} (T : Type ℓ) : Type ℓ where
  rejected : Outcome T
  settled : (status : ℕ) (body : Option T) → Outcome T

pub data RawOutcome {ℓ} (T : Type ℓ) : Type ℓ where
  rejected : RawOutcome T
  settled : (status : ℕ) (body : Option T) (headers : List (String × String)) → RawOutcome T

-- JSON of the browser: `parse` is `none` where `JSON.parse` throws, and `raw_text t` is `{ raw: t }`.
-- `null` needs no value of its own here: `parse` of it is some value of `Value`.
pub record Codec : Type 1 where
  pub Value : Type 0
  pub parse : String → Option Value
  pub stringify : Value → String
  pub raw_text : String → Value
  pub parse-stringify : (v : Value) → parse (stringify v) ≡ some v
  pub stringify-truthy : (v : Value) → truthy (stringify v) ≡ true

module _ (codec : Codec) where
  open codec use {Value, parse, stringify, raw_text}

  unfoldable pub parse_body : String → Option Value
  parse_body text = if truthy text then some (get_or (parse text) (raw_text text)) else none

  -- The tail that the wrappers share: read the body, keep the status.
  unfoldable pub finish : Option Response → Outcome Value
  unfolding parse_body
  finish none = rejected
  finish (some res) = elim res.text [
    | none ↦ rejected
    | some text ↦ settled res.status (parse_body text)
  ]

  -- The same, with the headers of the response kept.
  unfoldable pub finish_raw : Option Response → RawOutcome Value
  unfolding parse_body
  finish_raw none = rejected
  finish_raw (some res) = elim res.text [
    | none ↦ rejected
    | some text ↦ settled res.status (parse_body text) res.headers
  ]

  module _ (api_base : String) (fetch : Request → Option Response) where
    unfoldable pub post_request : String → Value → Request
    post_request path body = record {
      method = post;
      url = append api_base path;
      credentials = "include";
      headers = ("Content-Type", "application/json") ∷ [];
      body = some (stringify body);
    }

    unfoldable pub post_json : String → Value → Outcome Value
    unfolding finish post_request
    post_json path body = finish (fetch (post_request path body))

    unfoldable pub put_request : String → Value → Request
    put_request path body = record {
      method = put;
      url = append api_base path;
      credentials = "include";
      headers = ("Content-Type", "application/json") ∷ [];
      body = some (stringify body);
    }

    unfoldable pub put_json : String → Value → Outcome Value
    unfolding finish put_request
    put_json path body = finish (fetch (put_request path body))

    unfoldable pub delete_request : String → Request
    delete_request path = record {
      method = delete;
      url = append api_base path;
      credentials = "include";
      headers = [];
      body = none;
    }

    unfoldable pub delete_json : String → Outcome Value
    unfolding finish delete_request
    delete_json path = finish (fetch (delete_request path))

    unfoldable pub get_request : String → Request
    get_request path = record {
      method = get;
      url = append api_base path;
      credentials = "include";
      headers = [];
      body = none;
    }

    unfoldable pub get_json : String → Outcome Value
    unfolding finish get_request
    get_json path = finish (fetch (get_request path))

    unfoldable pub get_json_raw : String → RawOutcome Value
    unfolding finish_raw get_request
    get_json_raw path = finish_raw (fetch (get_request path))

-- `headers.get(name)`: names are compared without case, and several values are joined.
unfoldable pub values_of : String → List (String × String) → List String
unfolding eq_ignore_case
values_of name [] = []
values_of name ((k, v) ∷ hs) =
    let rest = values_of name hs in if eq_ignore_case k name then v ∷ rest else rest

joined : List String → Option String
unfolding join_with
joined [] = none
joined (v ∷ vs) = some (join_with ", " (v ∷ vs))

unfoldable pub header_get : String → List (String × String) → Option String
unfolding values_of joined
header_get name hs = joined (values_of name hs)
