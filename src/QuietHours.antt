-- ===== src/QuietHours.antt =====
-- web/app/dashboard/quiet-hours/page.tsx: the settings of the quiet window.
pub mod Form
pub mod View
use pushfree.Common.{
  ℕ, String, Bool, true, false, Option, none, some, List, [], ◌∷◌, ◌≡◌, ◌==◌, ◌&&◌, if◌then◌else◌,
  is_number, get_or,
}
use pushfree.Text.{join_with}
use pushfree.Api.{Outcome, rejected, settled}
use pushfree.Wire.{MeResponse, QuietHours}
use pushfree.Machine.{Machine}

pub data LoadState : Type 0 where
  loading ready : LoadState

pub record State : Type 0 where
  pub start : String
  pub end : String
  pub tz : String
  pub busy : Bool
  pub error : Option String
  pub flash : Option String
  pub load_state : LoadState
  pub cancelled : Bool

-- The body of `PUT /v1/accounts/quiet-hours`.
pub record Window : Type 0 where
  pub quiet_start : String
  pub quiet_end : String
  pub tz : String

pub data Input : Type 0 where
  set_start set_end set_tz : String → Input
  save : (clear : Bool) → Input
  unmount : Input

pub data Call : Type 0 where
  load : Call
  put : (clear : Bool) (body : Window) → Call

abbrev pub mounted : State
mounted = record {
  start = "";
  end = "";
  tz = "UTC";
  busy = false;
  error = none;
  flash = none;
  load_state = loading;
  cancelled = false;
}

-- The form is rendered when the page is ready; its two buttons are disabled while it is busy.
abbrev pub Enabled : Input → State → Type 0
Enabled (set_start t) s = s.load_state ≡ ready
Enabled (set_end t) s = s.load_state ≡ ready
Enabled (set_tz t) s = s.load_state ≡ ready
Enabled (save clear) s = (s.load_state ≡ ready) × (s.busy ≡ false)
Enabled unmount s = s.cancelled ≡ false

-- The body that `save` sends.
unfoldable pub window : Bool → State → Window
window clear s = record {
  quiet_start = if clear then "" else s.start;
  quiet_end = if clear then "" else s.end;
  tz = s.tz;
}

unfoldable pub handle : Input → State → State × List Call
unfolding window
handle (set_start t) s = (record s { start = t }, [])
handle (set_end t) s = (record s { end = t }, [])
handle (set_tz t) s = (record s { tz = t }, [])
handle (save clear) s =
    (record s { busy = true; error = none; flash = none }, put clear (window clear s) ∷ [])
handle unmount s = (record s { cancelled = true }, [])

-- The form takes over what the server has.
show : Option QuietHours → State → State
show none s = s
show (some q) s = record s {
  start = get_or q.start "";
  end = get_or q.end "";
  tz = get_or q.tz "UTC";
}

loaded : Option MeResponse → State → State
unfolding show
loaded none s = s
loaded (some me) s = show me.quiet_hours s

unfoldable pub resume_load : Outcome MeResponse → State → State
unfolding loaded
resume_load rejected s = s
resume_load (settled status body) s =
    if s.cancelled then s else record (loaded body s) { load_state = ready }

refusal : Option (List String) → String
unfolding join_with
refusal none = "Could not save quiet hours."
refusal (some es) = join_with " " es

answered : Bool → ℕ → Option MeResponse → State → State
unfolding show refusal
answered clear status none s = record s { error = some "Could not save quiet hours." }
answered clear status (some body) s =
    if (status == 200) && is_number body.status 1
    then record (show body.quiet_hours s) {
      flash = some (if clear then "Quiet hours cleared." else "Quiet hours saved.");
    }
    else record s { error = some (refusal body.errors) }

-- There is no `catch`: where the request rejects, nothing behind the `await` runs.
unfoldable pub resume_put : Bool → Outcome MeResponse → State → State
unfolding answered
resume_put clear rejected s = s
resume_put clear (settled status body) s = answered clear status body (record s { busy = false })

unfoldable pub resume : Call → Outcome MeResponse → State → State
unfolding resume_load resume_put
resume load a s = resume_load a s
resume (put clear body) a s = resume_put clear a s

abbrev pub page : Machine
page = record {
  State = State;
  Input = Input;
  Call = Call;
  Answer = λ c. Outcome MeResponse;
  start = (mounted, load ∷ []);
  Enabled = Enabled;
  handle = handle;
  resume = λ c a s. (resume c a s, []);
}
