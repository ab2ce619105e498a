-- ===== src/QuotaManager/Answer.antt =====
-- What the server answers of a quota: server/internal/api/applimit.go (quotaSnapshot, SetLimitHeaders,
-- limitWrap), server/internal/api/apps.go (ValidateAppToken) and server/internal/api/quota.go
-- (limitsHandler).
use pushfree.Common.{
  ℕ, zero, suc, ◌-◌, Bool, true, false, code, String, Option, none, some, List, [], ◌∷◌, ◌&&◌, ◌||◌,
  ◌==◌, not, if◌then◌else◌, leb, str_eq, get_or,
}
use pushfree.Text.{truthy}
use pushfree.Api.{RawOutcome}
use pushfree.Wire.{LimitsBody}
use pushfree.QuotaManager.{Location, period, next_reset, Counter, get, Snapshot, snapshot}
use pushfree.QuotaManager.Sends.{monthly_limit, quota_manager}
use pushfree.QuotaManager.Decimal.{itoa}

-- A row of the table `apps`; tokens are unique in it.
pub record App : Type 0 where
  pub id : ℕ
  pub user_id : ℕ
  pub token : String
  pub name : String

is_alphanumeric : ℕ → Bool
is_alphanumeric c =
    (leb b'A' c && leb c b'Z') || (leb b'a' c && leb c b'z') || (leb b'0' c && leb c b'9')

-- `n` letters and digits, and nothing more.
is_key : ℕ → String → Bool
unfolding is_alphanumeric
is_key zero String.[] = true
is_key zero (String.◌∷◌ c s) = false
is_key (suc n) String.[] = false
is_key (suc n) (String.◌∷◌ c s) = is_alphanumeric (code c) && is_key n s

-- `userKeyRe`, ^[A-Za-z0-9]{30}$
unfoldable pub user_key_re : String → Bool
unfolding is_key
user_key_re s = is_key 30 s

unfoldable pub get_by_token : String → List App → Option App
get_by_token token [] = none
get_by_token token (a ∷ rest) =
    let found = get_by_token token rest in if str_eq a.token token then some a else found

owner : Option App → Option ℕ
owner none = none
owner (some a) = some a.user_id

-- The token's owner, or an error. `fails` says that the table cannot be read.
unfoldable pub validate_app_token : (fails : Bool) (token : String) → List App → Option ℕ
unfolding user_key_re get_by_token owner
validate_app_token fails token apps =
    if not (truthy token) || not (user_key_re token)
    then none
    else if fails
    then none
    else owner (get_by_token token apps)

-- What of the store cannot be read while the request is answered.
pub record Faults : Type 0 where
  pub wrap_app : Bool
  pub wrap_counter : Bool
  pub app : Bool
  pub counter : Bool

module _ (central : Location) where
  -- `(limit, remaining, reset)`: of nobody, and where the counter cannot be read, the full quota.
  unfoldable pub quota_snapshot : (now : ℕ) (fails : Bool) (user_id : ℕ) → List Counter → ℕ × ℕ × ℕ
  unfolding get period next_reset
  quota_snapshot now fails u cs =
      if (u == 0) || fails
      then (monthly_limit, monthly_limit, next_reset central now)
      else (monthly_limit, monthly_limit - get u (period central now) cs, next_reset central now)

  unfoldable pub header_lines : ℕ × ℕ × ℕ → List (String × String)
  unfolding itoa
  header_lines (limit, remaining, reset) =
      ("X-Limit-App-Limit", itoa limit)
      ∷ ("X-Limit-App-Remaining", itoa remaining)
      ∷ ("X-Limit-App-Reset", itoa reset)
      ∷ []

  unfoldable pub set_limit_headers :
      (now : ℕ) (fails : Bool) (user_id : ℕ) → List Counter → List (String × String)
  unfolding quota_snapshot header_lines
  set_limit_headers now fails u cs = header_lines (quota_snapshot now fails u cs)

  -- The headers of `limitWrap`. No session is in the context of a route without `requireSession`.
  unfoldable pub limit_wrap :
      (now : ℕ) → Faults → (token : String) → List App → List Counter → List (String × String)
  unfolding validate_app_token set_limit_headers
  limit_wrap now f token apps cs =
      set_limit_headers now f.wrap_counter (get_or (validate_app_token f.wrap_app token apps) 0) cs

  limits_body : Snapshot → LimitsBody
  limits_body s = record {
    count = s.count;
    limit = s.limit;
    remaining = s.remaining;
    reset = s.reset;
  }

  -- A body of errors has none of the fields of the page's `LimitsBody`.
  answer_of : List (String × String) → Snapshot → RawOutcome LimitsBody
  unfolding limits_body
  answer_of hs s =
      if s.fails
      then RawOutcome.settled 500 none hs
      else RawOutcome.settled 200 (some (limits_body s)) hs

  for_owner :
      (now : ℕ) (fails : Bool)
      → Option ℕ
      → List Counter
      → List (String × String)
      → RawOutcome LimitsBody
  unfolding snapshot quota_manager answer_of
  for_owner now fails none cs hs = RawOutcome.settled 400 none hs
  for_owner now fails (some u) cs hs =
      answer_of hs (snapshot (quota_manager central) now fails u cs)

  -- `GET /1/apps/limits.json`: the middleware reads the clock, and then the handler does.
  unfoldable pub limits_json :
      (wrapped handled : ℕ)
      → Faults
      → (token : String) → List App
      → List Counter
      → RawOutcome LimitsBody
  unfolding limit_wrap for_owner validate_app_token
  limits_json wrapped handled f token apps cs =
      for_owner handled f.counter (validate_app_token f.app token apps) cs
        (limit_wrap wrapped f token apps cs)
