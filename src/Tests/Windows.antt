-- ===== src/Tests/Windows.antt =====
-- Quiet windows at concrete inputs.
use pushfree.Common.{
  ℕ, ◌+◌, ◌*◌, ◌/◌, ◌%◌, ◌<◌, String, true, Option, none, some, ◌≡◌, ◌≢◌, ◌↔◌, arith, pos, str_eq,
  if◌then◌else◌, get_or, ap, subst, Bool-cases, inl, inr, false,
}
use pushfree.QuietWindow.{
  Location, Settings, settings_from_account, hold, contains, evaluate, in_window, release_at,
}
use pushfree.QuietWindow.Fixed.{utc, InWindow, contains_lem}
use pushfree.QuietWindow.Holding.{Laws, Quiet, evaluate_lem}

-- Half past six in the morning of the eleventh day, in a window from 22:30 to 07:00.
abbrev morning : ℕ
morning = 10 * 86400 + 6 * 3600 + 30 * 60

contains_lem_example :
    ((contains utc morning (22, 30) (7, 0)).in_window ≡ true)
    ↔ InWindow 1350 420 (morning % 86400 / 60)
contains_lem_example = contains_lem morning 22 30 7 0

utc-Laws : Laws utc
utc-Laws = record {
  day_order = λ a b h. omega (arith, h);
  day-date = λ d h m hh hm. omega (arith, hh, hm);
  day-next_day = λ t. omega arith;
}

abbrev zones : String → Option Location
zones tz = if str_eq tz "UTC" then some utc else none

zones-Laws : (tz : String) (loc : Location) → zones tz ≡ some loc → Laws loc
zones-Laws tz loc e = elim (Bool-cases (str_eq tz "UTC")) [
  | inl known ↦ subst Laws (ap (λ o. get_or o utc) (rw known at e)) utc-Laws
  | inr other ↦ absurd (unknown other)
]
  where
    unknown : str_eq tz "UTC" ≡ false → ⊥
    unknown other = ne (rw other at e)
      where
        ne : ◌≡◌ {A = Option Location} none (some loc) → ⊥
        ne h = cc h

abbrev night : Settings
night = settings_from_account "22:30" "07:00" "UTC"

evaluate_lem_example :
    ((evaluate zones morning night (pos 0) ≡ hold)
      ↔ (Quiet (pos 0) × (night.enabled ≡ true) × (in_window zones morning night ≡ true)))
    × ((in_window zones morning night ≡ true) ↔ (release_at zones morning night ≢ none))
    × ((r : ℕ) → release_at zones morning night ≡ some r → morning < r)
evaluate_lem_example = evaluate_lem zones zones-Laws morning night (pos 0)
