-- ===== src/Tests/Sessions.antt =====
-- Accounts, sessions and the redirects of the dashboard at concrete inputs.
use pushfree.Common.{
  String, false, Option, none, some, List, [], ◌∷◌, ◌≡◌, ◌≢◌, ◌↔◌, ◌==◌, refl, arith, str_eq,
  if◌then◌else◌, ltb, inr,
}
use pushfree.Text.{append}
use pushfree.Layout.{shell, nav_items}
use pushfree.QuietWindow.{Location}
use pushfree.QuietWindow.Fixed.{utc}
use pushfree.QuietHours.{State, window, mounted, ready}
use pushfree.QuietHours.View.{render}
use pushfree.Accounts.{User, QuietHoursRequest, get_by_id, quiet_hours, valid_hhmm}
use pushfree.Accounts.Valid.{Valid}
use pushfree.Accounts.Stored.{Effect, quiet_hours_lem}
use pushfree.Accounts.Page.{saved, page_saved, page_opened, page_saved_lem, outcome_of}
use pushfree.Accounts.Sessions.{sign_session, parse_session, me_route, login, get_by_email}
use pushfree.Accounts.Sessions.Cookies.{parse_session-sign_session, Vouched, parse_session-Vouched}
use pushfree.Accounts.Redirects.{home, dashboard, sign_in, browse, browse-me_route}
use pushfree.Accounts.SignedIn.{screen_at, login-screen_at}

abbrev zones : String → Option Location
zones tz = if str_eq tz "UTC" then some utc else none

abbrev ada : User
ada = record {
  id = 7;
  email = "ada@example.org";
  user_key = "k";
  pass_hash = "h";
  role = "admin";
  quiet_start = none;
  quiet_end = none;
  quiet_tz = some "UTC";
}

abbrev users : List User
users = ada ∷ []

abbrev night : QuietHoursRequest
night = record { quiet_start = "22:00"; quiet_end = "07:30"; tz = "UTC" }

night-Valid : Valid zones night
unfolding valid_hhmm
night-Valid = (inr (refl, refl), refl, λ e. cc)

quiet_hours_lem_example :
    let (reply, after) = quiet_hours zones false 7 (some night) users in
    ((reply.status ≡ 200) ↔ (Valid zones night × (get_by_id 7 users ≢ none)))
    × Effect zones 7 night users (reply, after)
quiet_hours_lem_example = quiet_hours_lem zones 7 night users

abbrev edited : State
edited = record mounted { start = "22:00"; end = "07:30"; load_state = ready }

page_saved_lem_example :
    let t = page_saved zones 7 users false edited in
    let r = page_opened 7 (saved zones 7 users false edited).1 in
    ((render t).flash ≡ some (if false then "Quiet hours cleared." else "Quiet hours saved."))
    × ((render t).error ≡ none)
    × ((render t).form
        ≡ some (record {
          start = if false then "" else edited.start;
          end = if false then "" else edited.end;
          tz = edited.tz;
          save_label = "Save";
          save_disabled = false;
          clear_disabled = false;
        }))
    × ((render r).form ≡ (render t).form)
unfolding window get_by_id
page_saved_lem_example = page_saved_lem zones 7 users false edited night-Valid (λ e. cc) refl

abbrev mac : String → String
mac text = append "mac of " text

parse_session-sign_session_example :
    parse_session mac 1000 (sign_session mac 7 2000) ≡ (if ltb 1000 2000 then some 7 else none)
parse_session-sign_session_example =
    parse_session-sign_session mac 1000 7 2000 (omega arith) (omega arith)

parse_session-Vouched_example : Vouched mac 1000 7 (sign_session mac 7 2000)
parse_session-Vouched_example =
    parse_session-Vouched mac 1000 7 (sign_session mac 7 2000) parse_session-sign_session_example

browse-me_route_example :
    let r = me_route mac 1000 false (some (sign_session mac 7 2000)) users in
    browse 3 (outcome_of r) home ≡ some (if r.status == 200 then dashboard else sign_in)
browse-me_route_example = browse-me_route mac 1000 false (some (sign_session mac 7 2000)) users home

login-screen_at_example :
    let r =
      login mac (λ p h. str_eq h "h") 2592000 1000 (some ("ada@example.org", "secret")) users in
    (r.status ≡ 200)
    × (r.body.status ≡ some 1)
    × (screen_at mac 2000 r.cookie users (some "/dashboard")
        ≡ shell (nav_items (some "/dashboard")) (some ada.email) (some ada.role))
unfolding get_by_email get_by_id
login-screen_at_example =
    login-screen_at mac (λ p h. str_eq h "h") 2592000 1000 2000 "ada@example.org" "secret" users ada
      (some "/dashboard") refl refl refl (omega arith) (omega arith) (omega arith)
