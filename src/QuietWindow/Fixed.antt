-- ===== src/QuietWindow/Fixed.antt =====
-- The window of server/internal/quiethours/quiethours.go in a zone without clock changes.
use pushfree.Common.{ℕ, ◌+◌, ◌*◌, ◌/◌, ◌%◌, ◌≤◌, ◌<◌, true, some, ◌≡◌, ◌↔◌, ◌⊎◌, arith}
use pushfree.QuietWindow.{Location, contains, mins}

-- A zone that is UTC, with instants in seconds.
abbrev pub utc : Location
utc = record {
  day = λ t. t / 86400;
  date = λ d h m. d * 86400 + h * 3600 + m * 60;
  next_day = λ t. t + 86400;
}

-- A time of the day, in minutes, in the half-open window, which may cross midnight.
abbrev pub InWindow : (start end minute : ℕ) → Type 0
InWindow start end minute =
    ((start ≤ end) × (start ≤ minute) × (minute < end))
    ⊎ ((end < start) × ((start ≤ minute) ⊎ (minute < end)))

-- In UTC an instant is in the window exactly if its minute of the day is, across midnight too.
pub contains_lem :
    (now sh sm eh em : ℕ)
    → let s = sh * 60 + sm in
      let e = eh * 60 + em in
      ((contains utc now (sh, sm) (eh, em)).in_window ≡ true) ↔ InWindow s e (now % 86400 / 60)
unfolding contains mins
contains_lem now sh sm eh em = ground arith

-- In UTC, with the end before midnight: the release of an instant in the window is at the end's time of
-- day, after the instant, and at most a day after it.
pub release_lem :
    (now sh sm eh em r : ℕ)
    → eh * 60 + em < 1440
    → (contains utc now (sh, sm) (eh, em)).release ≡ some r
    → (r % 86400 ≡ (eh * 60 + em) * 60) × (now < r) × (r ≤ now + 86400)
unfolding contains mins
release_lem now sh sm eh em r h e = ground arith
