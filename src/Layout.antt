-- ===== src/Layout.antt =====
-- web/app/dashboard/layout.tsx: the auth guard of the dashboard and its navigation.
pub mod Guard
pub mod Nav
use pushfree.Common.{
  ℕ, String, Bool, true, false, Option, none, some, List, [], ◌∷◌, ◌==◌, ◌&&◌, if◌then◌else◌,
  str_eq, is_number, map, ◌≡◌,
}
use pushfree.Text.{truthy, starts_with, drop}
use pushfree.Api.{Outcome, rejected, settled}
use pushfree.Wire.{MeResponse}
use pushfree.Machine.{Machine}

pub record NavItem : Type 0 where
  pub href : String
  pub label : String
  pub active : Bool

-- The constant `NAV`.
abbrev pub nav : List (String × String)
nav =
    ("/dashboard", "Overview")
    ∷ ("/dashboard/apps", "Apps")
    ∷ ("/dashboard/messages", "Live messages")
    ∷ ("/dashboard/quota", "Quota")
    ∷ ("/dashboard/quiet-hours", "Quiet hours")
    ∷ []

-- `null` and the empty text are both false.
unfoldable pub normalize_path : Option String → String
unfolding starts_with drop
normalize_path none = ""
normalize_path (some p) = if truthy p then (if starts_with p "/admin" then drop 6 p else p) else ""

unfoldable pub is_active : String → String → Bool
unfolding starts_with
is_active path href =
    if str_eq href "/dashboard" then str_eq path "/dashboard" else starts_with path href

unfoldable pub nav_items : Option String → List NavItem
unfolding is_active normalize_path
nav_items pathname =
    map (λ e. record { href = e.0; label = e.1; active = is_active (normalize_path pathname) e.0 })
      nav

pub data GuardState : Type 0 where
  loading authed error : GuardState

-- `cancelled` is the effect's flag, and `replaced` what `router.replace` was called with.
pub record State : Type 0 where
  pub me : Option MeResponse
  pub state : GuardState
  pub cancelled : Bool
  pub replaced : List String

pub data Input : Type 0 where
  unmount : Input

pub data Call : Type 0 where
  probe : Call

abbrev pub mounted : State
mounted = record { me = none; state = loading; cancelled = false; replaced = [] }

-- `status === 200 && data?.status === 1`
abbrev pub accepts : ℕ → Option MeResponse → Option MeResponse
accepts status none = none
accepts status (some me) = if (status == 200) && is_number me.status 1 then some me else none

enter : Option MeResponse → State → State
enter (some me) s = record s { me = some me; state = authed }
enter none s = record s { replaced = "/login" ∷ s.replaced }

-- The `then` and the `catch` of the probe.
unfoldable pub resume_probe : Outcome MeResponse → State → State
unfolding enter
resume_probe rejected s = if s.cancelled then s else record s { state = error }
resume_probe (settled status body) s = if s.cancelled then s else enter (accepts status body) s

abbrev pub guard : Machine
guard = record {
  State = State;
  Input = Input;
  Call = Call;
  Answer = λ c. Outcome MeResponse;
  start = (mounted, probe ∷ []);
  Enabled = λ i s. s.cancelled ≡ false;
  handle = λ i s. (record s { cancelled = true }, []);
  resume = λ c a s. (resume_probe a s, []);
}

-- What the layout renders: the children stand in the shell alone.
pub data Screen : Type 0 where
  loading_screen error_screen : Screen
  shell : (items : List NavItem) (email role : Option String) → Screen

screen_of : GuardState → Option String → Option MeResponse → Screen
unfolding nav_items
screen_of loading pathname me = loading_screen
screen_of error pathname me = error_screen
screen_of authed pathname none = shell (nav_items pathname) none none
screen_of authed pathname (some me) = shell (nav_items pathname) me.email me.role

unfoldable pub render : Option String → State → Screen
unfolding screen_of
render pathname s = screen_of s.state pathname s.me
