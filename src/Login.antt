-- ===== src/Login.antt =====
-- web/app/login/page.tsx: the sign-in form.
pub mod Form
pub mod View
use pushfree.Common.{
  ℕ, String, Bool, true, false, Option, none, some, List, [], ◌∷◌, ◌≡◌, ◌==◌, ◌&&◌, if◌then◌else◌,
  is_number,
}
use pushfree.Api.{Outcome, rejected, settled}
use pushfree.Wire.{AckResponse, first_error}
use pushfree.Machine.{Machine}

pub record State : Type 0 where
  pub email : String
  pub password : String
  pub error : Option String
  pub busy : Bool
  pub replaced : List String

pub data Input : Type 0 where
  type_email type_password : String → Input
  submit : Input

-- The probe of the effect, and the login with the email and the password that it sends.
pub data Call : Type 0 where
  session : Call
  login : (email password : String) → Call

abbrev pub mounted : State
mounted = record { email = ""; password = ""; error = none; busy = false; replaced = [] }

-- The form's button is disabled while the page is busy, and so is submitting by the Enter key.
abbrev pub Enabled : Input → State → Type 0
Enabled (type_email t) s = Unit
Enabled (type_password t) s = Unit
Enabled submit s = s.busy ≡ false

unfoldable pub handle : Input → State → State × List Call
handle (type_email t) s = (record s { email = t }, [])
handle (type_password t) s = (record s { password = t }, [])
handle submit s = (record s { busy = true; error = none }, login s.email s.password ∷ [])

unfoldable pub resume_session : Outcome AckResponse → State → State
resume_session rejected s = s
resume_session (settled status body) s =
    if status == 200 then record s { replaced = "/dashboard" ∷ s.replaced } else s

-- The `try` behind the `await`; `finally` is `done`.
try_login : ℕ → Option AckResponse → State → State
try_login status none s = record s { error = some "Login failed." }
try_login status (some body) s =
    if (status == 200) && is_number body.status 1
    then record s { replaced = "/dashboard" ∷ s.replaced }
    else record s { error = some (first_error body.errors "Login failed.") }

done : State → State
done s = record s { busy = false }

unfoldable pub resume_login : Outcome AckResponse → State → State
unfolding try_login done
resume_login rejected s = done (record s { error = some "Could not reach the server." })
resume_login (settled status body) s = done (try_login status body s)

unfoldable pub resume : Call → Outcome AckResponse → State → State
unfolding resume_session resume_login
resume session a s = resume_session a s
resume (login email password) a s = resume_login a s

abbrev pub page : Machine
page = record {
  State = State;
  Input = Input;
  Call = Call;
  Answer = λ c. Outcome AckResponse;
  start = (mounted, session ∷ []);
  Enabled = Enabled;
  handle = handle;
  resume = λ c a s. (resume c a s, []);
}
