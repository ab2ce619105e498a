-- ===== src/Accounts/Usable.antt =====
-- The quiet hours that server/internal/api/accounts.go lets in, as
-- server/internal/quiethours/quiethours.go uses them.
use pushfree.Common.{
  ℕ, String, true, ◌&&◌, ◌==◌, Option, some, ◌≡◌, refl, inl, inr, Option-cases, if◌then◌else◌,
}
use pushfree.Text.{truthy}
use pushfree.QuietWindow.{
  Location, Settings, settings_from_account, hhmm, contains, guarded, window_contains, unusable,
}
use pushfree.Accounts.{QuietHoursRequest}
use pushfree.Accounts.Clocked.{valid_hhmm-hhmm}
use pushfree.Accounts.Valid.{Valid, valid_hhmm-truthy}

-- The settings of an account that has a request's values.
abbrev pub account_settings : QuietHoursRequest → Settings
account_settings req = settings_from_account req.quiet_start req.quiet_end req.tz

module _ (load_location : String → Option Location) where
  -- A valid request that sets a window sets one that is in force: it is enabled, its zone is found,
  -- both of its times are read, and whether an instant is in it is decided by them, but for the window
  -- whose two times are the same.
  pub Valid-window :
      (req : QuietHoursRequest)
      → Valid load_location req
      → truthy req.quiet_start ≡ true
      → ((account_settings req).enabled ≡ true)
        × (loc : Location) × (start : ℕ × ℕ) × (end : ℕ × ℕ) × (load_location req.tz ≡ some loc)
        × (hhmm req.quiet_start ≡ some start)
        × (hhmm req.quiet_end ≡ some end)
        × ((now : ℕ)
            → window_contains load_location now (account_settings req) ≡ (
                if (start.0 == end.0) && (start.1 == end.1)
                then unusable
                else contains loc now start end))
  unfolding settings_from_account window_contains guarded
  Valid-window req (inl (empty, _), named, found) set = cc
  Valid-window req (inr (vs, ve), named, found) set = elim (Option-cases (load_location req.tz)) [
    | inl missing ↦ absurd (found missing)
    | inr (loc, here) ↦
        let (start, reads_start) = valid_hhmm-hhmm req.quiet_start vs in
        let (end, reads_end) = valid_hhmm-hhmm req.quiet_end ve in
        (
          rw (set, valid_hhmm-truthy req.quiet_end ve) refl,
          loc,
          start,
          end,
          here,
          reads_start,
          reads_end,
          λ now. rw (named, here, reads_start, reads_end) refl,
        )
  ]
