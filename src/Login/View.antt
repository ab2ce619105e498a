-- ===== src/Login/View.antt =====
-- The markup of web/app/login/page.tsx: what it shows of the state.
use pushfree.Common.{String, Bool, Option, if◌then◌else◌}
use pushfree.Login.{State}

pub record View : Type 0 where
  pub email : String
  pub password : String
  pub button_label : String
  pub button_disabled : Bool
  pub alert : Option String

unfoldable pub render : State → View
render s = record {
  email = s.email;
  password = s.password;
  button_label = if s.busy then "Signing in…" else "Sign in";
  button_disabled = s.busy;
  alert = s.error;
}
