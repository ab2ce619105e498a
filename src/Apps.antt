-- ===== src/Apps.antt =====
-- web/app/dashboard/apps/page.tsx: the list of application tokens, creating and revoking one, and the
-- quota of the selected app. A call carries what its continuation captured.
pub mod Calls
pub mod Create
pub mod Revoke
pub mod Race
pub mod View
use pushfree.Common.{
  ℕ, String, Bool, true, false, Option, none, some, List, [], ◌∷◌, ◌≡◌, ◌==◌, ◌&&◌, ◌||◌,
  if◌then◌else◌, get_or, find, str_eq, is_number,
}
use pushfree.Text.{truthy, trim, concat}
use pushfree.Api.{Outcome, RawOutcome}
use pushfree.Wire.{
  AppItem, AppsResponse, CreateResponse, AckResponse, LimitsBody, LimitHeaders, limit_headers,
  first_error,
}
use pushfree.Machine.{Machine}

pub data LoadState : Type 0 where
  loading ready failed : LoadState

pub record State : Type 0 where
  pub apps : List AppItem
  pub name : String
  pub busy : Bool
  pub error : Option String
  pub flash : Option String
  pub selected : Option AppItem
  pub limits : Option LimitsBody
  pub headers : Option LimitHeaders
  pub load_state : LoadState

-- What awaits `load()`: nothing, `onCreate` with the name and the new token, or `onDelete`.
pub data AfterLoad : Type 0 where
  alone revoked : AfterLoad
  created : (trimmed token : String) → AfterLoad

-- What awaits `showLimits(app)`: nothing, or `onCreate` with the name for its notice.
pub data AfterLimits : Type 0 where
  alone : AfterLimits
  announce : (name : String) → AfterLimits

pub data Call : Type 0 where
  list : AfterLoad → Call
  read : AppItem → AfterLimits → Call
  post : (trimmed : String) → Call
  look_up : (trimmed token : String) → Call
  revoke : AppItem → (selected : Option AppItem) → Call

abbrev pub Answer : Call → Type 0
Answer (list then_do) = Outcome AppsResponse
Answer (read app then_do) = RawOutcome LimitsBody
Answer (post trimmed) = Outcome CreateResponse
Answer (look_up trimmed token) = Outcome AppsResponse
Answer (revoke app selected) = Outcome AckResponse

-- `confirmed` is the answer to `window.confirm`.
pub data Input : Type 0 where
  set_name : String → Input
  show_limits : AppItem → Input
  create : Input
  delete : AppItem → (confirmed : Bool) → Input

abbrev pub mounted : State
mounted = record {
  apps = [];
  name = "";
  busy = false;
  error = none;
  flash = none;
  selected = none;
  limits = none;
  headers = none;
  load_state = loading;
}

abbrev pub Enabled : Input → State → Type 0
Enabled (set_name t) s = Unit
Enabled (show_limits app) s = Unit
Enabled create s = s.busy ≡ false
Enabled (delete app confirmed) s = Unit

-- `load()` up to its `await`.
unfoldable pub start_load : AfterLoad → State → State × List Call
start_load then_do s = (record s { load_state = loading }, list then_do ∷ [])

-- `showLimits(app)` up to its `await`.
unfoldable pub start_limits : AppItem → AfterLimits → State → State × List Call
start_limits app then_do s = (
  record s { selected = some app; limits = none; headers = none; error = none },
  read app then_do ∷ [],
)

unfoldable pub handle : Input → State → State × List Call
unfolding start_limits trim
handle (set_name t) s = (record s { name = t }, [])
handle (show_limits app) s = start_limits app alone s
handle create s =
    if truthy (trim s.name)
    then (record s { busy = true; error = none; flash = none }, post (trim s.name) ∷ [])
    else (s, [])
handle (delete app false) s = (s, [])
handle (delete app true) s = (record s { error = none }, revoke app s.selected ∷ [])

-- What `load()` does with its answer; it returns on both branches.
unfoldable pub show_list : ℕ → Option AppsResponse → State → State
show_list status none s = record s { error = some "Could not load apps."; load_state = failed }
show_list status (some body) s =
    if (status == 200) && is_number body.status 1
    then record s { apps = get_or body.apps []; load_state = ready }
    else record s {
      error = some (first_error body.errors "Could not load apps.");
      load_state = failed;
    }

-- What runs when `load()` has returned.
unfoldable pub after_load : AfterLoad → State → State × List Call
after_load alone s = (s, [])
after_load revoked s = (record s { flash = some "Token revoked." }, [])
after_load (created trimmed token) s = (s, look_up trimmed token ∷ [])

unfoldable pub show_figures : ℕ → Option LimitsBody → List (String × String) → State → State
show_figures status none hs s = record s { error = some "Could not load quota for this app." }
show_figures status (some body) hs s =
    if status == 200
    then record s { limits = some body; headers = some (limit_headers hs) }
    else record s { error = some "Could not load quota for this app." }

unfoldable pub after_limits : AfterLimits → State → State
unfolding concat
after_limits alone s = s
after_limits (announce name) s = record s { flash = some (concat ("Created “" ∷ name ∷ "”." ∷ [])) }

-- The new token of an answer to `POST /v1/apps` that is a success.
unfoldable pub new_token : ℕ → CreateResponse → Option String
new_token status body =
    if ((status == 200) || (status == 201)) && is_number body.status 1
    then elim body.token [ none ↦ none | some t ↦ if truthy t then some t else none ]
    else none

posted : String → Option String → String → State → State × List Call
unfolding start_load
posted trimmed none message s = (record s { error = some message }, [])
posted trimmed (some token) message s = start_load (created trimmed token) (record s { name = "" })

unfoldable pub resume_post : String → Outcome CreateResponse → State → State × List Call
unfolding posted new_token
resume_post trimmed Outcome.rejected s = (s, [])
resume_post trimmed (Outcome.settled status none) s =
    posted trimmed none "Could not create app." (record s { busy = false })
resume_post trimmed (Outcome.settled status (some body)) s =
    posted trimmed (new_token status body) (first_error body.errors "Could not create app.")
      (record s { busy = false })

-- `(fresh.data?.apps ?? []).find((a) => a.token === data.token)`
unfoldable pub fresh_app : String → Option AppsResponse → Option AppItem
fresh_app token none = none
fresh_app token (some body) = find (λ a. str_eq a.token token) (get_or body.apps [])

announced : String → Option AppItem → State → State × List Call
unfolding start_limits concat
announced trimmed none s =
    (record s { flash = some (concat ("Created app “" ∷ trimmed ∷ "”." ∷ [])) }, [])
announced trimmed (some app) s = start_limits app (announce app.name) s

unfoldable pub resume_look_up : String → String → Outcome AppsResponse → State → State × List Call
unfolding announced fresh_app
resume_look_up trimmed token Outcome.rejected s = (s, [])
resume_look_up trimmed token (Outcome.settled status body) s =
    announced trimmed (fresh_app token body) s

-- `selected?.id === app.id`
abbrev pub is_selected : Option AppItem → AppItem → Bool
is_selected none app = false
is_selected (some a) app = a.id == app.id

deselect : Bool → State → State
deselect same s = if same then record s { selected = none; limits = none; headers = none } else s

unfoldable pub resume_revoke :
    AppItem → Option AppItem → Outcome AckResponse → State → State × List Call
unfolding start_load deselect
resume_revoke app selected Outcome.rejected s = (s, [])
resume_revoke app selected (Outcome.settled status none) s =
    (record s { error = some "Could not revoke token." }, [])
resume_revoke app selected (Outcome.settled status (some body)) s =
    if (status == 200) && is_number body.status 1
    then start_load revoked (deselect (is_selected selected app) s)
    else (record s { error = some (first_error body.errors "Could not revoke token.") }, [])

unfoldable pub resume : (c : Call) → Answer c → State → State × List Call
resume (list then_do) Outcome.rejected s = (s, [])
resume (list then_do) (Outcome.settled status body) s = after_load then_do (show_list status body s)
resume (read app then_do) RawOutcome.rejected s = (s, [])
resume (read app then_do) (RawOutcome.settled status body hs) s =
    (after_limits then_do (show_figures status body hs s), [])
resume (post trimmed) a s = resume_post trimmed a s
resume (look_up trimmed token) a s = resume_look_up trimmed token a s
resume (revoke app selected) a s = resume_revoke app selected a s

-- A proof that computes with every part of the page names this.
unfoldable pub opened : Unit {0}
unfolding handle show_list after_load show_figures after_limits resume_post resume_look_up
    resume_revoke resume
opened = tt

abbrev pub page : Machine
page = record {
  State = State;
  Input = Input;
  Call = Call;
  Answer = Answer;
  start = (mounted, list alone ∷ []);
  Enabled = Enabled;
  handle = handle;
  resume = resume;
}
