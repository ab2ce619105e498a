-- ===== src/Wire.antt =====
-- The shapes of the server's JSON answers that the dashboard's pages name (the interfaces at the top
-- of web/app/**/page.tsx). Every field may be missing: a body that is no JSON is `{ raw: text }`.
use pushfree.Common.{ℕ, String, Option, none, some, List, get_or, first}
use pushfree.Api.{header_get}

pub record AppItem : Type 0 where
  pub id : ℕ
  pub token : String
  pub name : String

pub record AppsResponse : Type 0 where
  pub status : Option ℕ
  pub apps : Option (List AppItem)
  pub errors : Option (List String)

pub record CreateResponse : Type 0 where
  pub status : Option ℕ
  pub token : Option String
  pub errors : Option (List String)

pub record AckResponse : Type 0 where
  pub status : Option ℕ
  pub errors : Option (List String)

pub record LimitsBody : Type 0 where
  pub count : ℕ
  pub limit : ℕ
  pub remaining : ℕ
  pub reset : ℕ

pub record LimitHeaders : Type 0 where
  pub limit : String
  pub remaining : String
  pub reset : String

pub record QuietHours : Type 0 where
  pub start : Option String
  pub end : Option String
  pub tz : Option String

pub record MeResponse : Type 0 where
  pub status : Option ℕ
  pub email : Option String
  pub role : Option String
  pub user_key : Option String
  pub quiet_hours : Option QuietHours
  pub errors : Option (List String)

pub record DeviceLoginResponse : Type 0 where
  pub status : Option ℕ
  pub device_id : Option String
  pub secret : Option String
  pub errors : Option (List String)

-- `errors?.[0] ?? text`
abbrev pub first_error : Option (List String) → String → String
first_error none text = text
first_error (some es) text = get_or (first es) text

-- `headers.get(…) ?? '—'` for the three headers
unfoldable pub limit_headers : List (String × String) → LimitHeaders
unfolding header_get
limit_headers hs = record {
  limit = get_or (header_get "X-Limit-App-Limit" hs) "—";
  remaining = get_or (header_get "X-Limit-App-Remaining" hs) "—";
  reset = get_or (header_get "X-Limit-App-Reset" hs) "—";
}
