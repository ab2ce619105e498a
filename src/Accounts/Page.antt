-- ===== src/Accounts/Page.antt =====
-- web/app/dashboard/quiet-hours/page.tsx against server/internal/api/accounts.go: saving the window, and
-- the page that is opened behind it. The body is JSON that the server decodes.
use pushfree.Common.{
  ℕ, String, Bool, true, false, Option, some, none, List, ◌≡◌, ◌≢◌, refl, Option-cases, inl, inr,
  if◌then◌else◌,
}
use pushfree.Text.{truthy}
use pushfree.Api.{Outcome, settled}
use pushfree.Wire.{MeResponse}
use pushfree.QuietWindow.{Location}
use pushfree.QuietHours.{State, Window, save, put, window, handle, resume, mounted, load, ready}
use pushfree.QuietHours.View.{render}
use pushfree.Accounts.{User, get_by_id, Reply, me, QuietHoursRequest, normalize_tz, quiet_hours}
use pushfree.Accounts.Valid.{Valid}
use pushfree.Accounts.Stored.{quiet_hours-Valid, me-update_quiet_hours}

abbrev pub request_of : Window → QuietHoursRequest
request_of w = record { quiet_start = w.quiet_start; quiet_end = w.quiet_end; tz = w.tz }

abbrev pub outcome_of : Reply → Outcome MeResponse
outcome_of r = settled r.status (some r.body)

flash-truthy :
    (clear : Bool) → truthy (if clear then "Quiet hours cleared." else "Quiet hours saved.") ≡ true
flash-truthy true = refl
flash-truthy false = refl

-- The page that is opened with those accounts.
abbrev pub page_opened : (uid : ℕ) → List User → State
page_opened uid users = resume load (outcome_of (me false uid users)) mounted

module _ (load_location : String → Option Location) where
  -- The server's answer to a save, the accounts behind it, and the page behind the answer.
  abbrev pub saved : (uid : ℕ) (users : List User) (clear : Bool) → State → Reply × List User
  saved uid users clear s =
      quiet_hours load_location false uid (some (request_of (window clear s))) users

  abbrev pub page_saved : (uid : ℕ) (users : List User) (clear : Bool) → State → State
  page_saved uid users clear s =
      resume (put clear (window clear s)) (outcome_of (saved uid users clear s).0)
        (handle (save clear) s).0

  -- Saving a window that is valid, by a user who is there, on the page that has loaded: the page says
  -- that it is saved or cleared, shows no error, and its form is enabled and shows what was sent; and
  -- whoever opens the page afterwards finds the very same form.
  pub page_saved_lem :
      (uid : ℕ) (users : List User) (clear : Bool) (s : State)
      → Valid load_location (request_of (window clear s))
      → get_by_id uid users ≢ none
      → s.load_state ≡ ready
      → let t = page_saved uid users clear s in
        let r = page_opened uid (saved uid users clear s).1 in
        ((render t).flash ≡ some (if clear then "Quiet hours cleared." else "Quiet hours saved."))
        × ((render t).error ≡ none)
        × ((render t).form
            ≡ some (record {
              start = if clear then "" else s.start;
              end = if clear then "" else s.end;
              tz = s.tz;
              save_label = "Save";
              save_disabled = false;
              clear_disabled = false;
            }))
        × ((render r).form ≡ (render t).form)
  unfolding window handle resume render normalize_tz
  page_saved_lem uid users clear s valid here at_ready = elim (Option-cases (get_by_id uid users)) [
    | inl missing ↦ absurd (here missing)
    | inr (u, found) ↦
        let req = request_of (window clear s) in
        rw
          (
            quiet_hours-Valid load_location uid req users u valid found,
            me-update_quiet_hours uid req users u found,
            at_ready,
            valid.1,
            flash-truthy clear,
          )
          (refl, refl, refl, refl)
  ]
