-- ===== src/Quota.antt =====
-- web/app/dashboard/quota/page.tsx: the quota of an app token's owner.
pub mod Form
pub mod Badge
pub mod View
use pushfree.Common.{
  ℕ, ◌*◌, String, Bool, true, false, Option, none, some, List, [], ◌∷◌, ◌≡◌, ◌==◌, if◌then◌else◌,
  get_or, any, str_eq, ltb, map, length,
}
use pushfree.Text.{truthy, trim}
use pushfree.Api.{Outcome, RawOutcome}
use pushfree.Wire.{AppItem, AppsResponse, LimitsBody, LimitHeaders, limit_headers}
use pushfree.Machine.{Machine}

pub record State : Type 0 where
  pub apps : List AppItem
  pub token : String
  pub limits : Option LimitsBody
  pub headers : Option LimitHeaders
  pub error : Option String
  pub busy : Bool

-- Typing a token and picking one of the apps set the same variable.
pub data Input : Type 0 where
  set_token : String → Input
  load_limits : Input

-- The list of the apps, and the quota with the token that the URL names.
pub data Call : Type 0 where
  list : Call
  read : (token : String) → Call

abbrev pub Answer : Call → Type 0
Answer list = Outcome AppsResponse
Answer (read token) = RawOutcome LimitsBody

abbrev pub mounted : State
mounted = record {
  apps = [];
  token = "";
  limits = none;
  headers = none;
  error = none;
  busy = false;
}

abbrev pub Enabled : Input → State → Type 0
Enabled (set_token t) s = Unit
Enabled load_limits s = s.busy ≡ false

unfoldable pub handle : Input → State → State × List Call
unfolding trim
handle (set_token t) s = (record s { token = t }, [])
handle load_limits s =
    if truthy (trim s.token)
    then (
      record s { busy = true; error = none; limits = none; headers = none },
      read (trim s.token) ∷ [],
    )
    else (record s { error = some "Enter or select an app token." }, [])

listed : Option AppsResponse → State → State
listed none s = s
listed (some body) s = record s { apps = get_or body.apps s.apps }

-- `status === 200 && data`
shown : ℕ → Option LimitsBody → List (String × String) → State → State
shown status none hs s = record s { error = some "Could not read quota. Is the token valid?" }
shown status (some body) hs s =
    if status == 200
    then record s { limits = some body; headers = some (limit_headers hs) }
    else record s { error = some "Could not read quota. Is the token valid?" }

unfoldable pub resume : (c : Call) → Answer c → State → State
unfolding listed shown
resume list Outcome.rejected s = s
resume list (Outcome.settled status body) s = listed body s
resume (read token) RawOutcome.rejected s = s
resume (read token) (RawOutcome.settled status body hs) s =
    shown status body hs (record s { busy = false })

abbrev pub page : Machine
page = record {
  State = State;
  Input = Input;
  Call = Call;
  Answer = Answer;
  start = (mounted, list ∷ []);
  Enabled = Enabled;
  handle = handle;
  resume = λ c a s. (resume c a s, []);
}

-- The value of the picker: the token where it is one of the apps', else the empty option.
unfoldable pub select_value : State → String
select_value s = if any (λ a. str_eq a.token s.token) s.apps then s.token else ""

-- The values of the picker's options.
unfoldable pub option_values : State → List String
option_values s = "" ∷ map (λ a. a.token) s.apps

-- The badge of what remains. A tenth of the limit is compared as `10 * remaining < limit`: for the
-- integers that the server sends, `remaining < limit * 0.1` in doubles is the same test.
unfoldable pub badge_class : LimitsBody → String
badge_class l =
    if l.remaining == 0
    then "badge danger"
    else if ltb (10 * l.remaining) l.limit
    then "badge warn"
    else "badge ok"

unfoldable pub badge_label : LimitsBody → String
badge_label l =
    if l.remaining == 0 then "exhausted" else if ltb (10 * l.remaining) l.limit then "low" else "ok"
