-- ===== src/QuietWindow.antt =====
-- server/internal/quiethours/quiethours.go: whether a message is held in a recipient's quiet window.
-- Time zones are a parameter: `load_location` finds a zone, and a zone gives the local day of an
-- instant, the instant of a local time on a day, and the same local time a day later (`AddDate`).
pub mod Clock
pub mod Fixed
pub mod Holding
use pushfree.Common.{
  ℕ, ◌+◌, ◌*◌, ◌-◌, String, Bool, true, false, not, ◌&&◌, ◌||◌, Option, none, some, List, [], ◌∷◌,
  if◌then◌else◌, ltb, leb, ◌==◌, code, ℤ, pos, negsuc,
}
use pushfree.Text.{truthy}
use pushfree.Text.Query.Scan.{split}

pub record Settings : Type 0 where
  pub start : String
  pub end : String
  pub tz : String
  pub enabled : Bool

unfoldable pub settings_from_account : (start end tz : String) → Settings
settings_from_account start end tz = record {
  start = start;
  end = end;
  tz = if truthy tz then tz else "UTC";
  enabled = truthy start && truthy end;
}

pub data Decision : Type 0 where
  deliver hold : Decision

pub record Location : Type 0 where
  pub day : ℕ → ℕ
  pub date : (day hour minute : ℕ) → ℕ
  pub next_day : ℕ → ℕ

-- The digits of `strconv.Atoi`, read with the number in front of them.
unfoldable pub digits : ℕ → String → Option ℕ
digits n String.[] = some n
digits n (String.◌∷◌ c s) =
    let rest = digits (10 * n + (code c - b'0')) s in
    if leb b'0' (code c) && leb (code c) b'9' then rest else none

unfoldable pub some_digits : String → Option ℕ
unfolding digits
some_digits s = if truthy s then digits 0 s else none

-- `-n` is none of the hours and minutes but for `-0`.
unfoldable pub negated : Option ℕ → Option ℕ
negated none = none
negated (some n) = if n == 0 then some 0 else none

-- `strconv.Atoi` where its result is not negative; of a larger number than an int holds it is an
-- error there and a number here, and both are out of every range that is tested.
unfoldable pub atoi : String → Option ℕ
unfolding some_digits negated
atoi String.[] = none
atoi (String.◌∷◌ c s) =
    if code c == b'+'
    then some_digits s
    else if code c == b'-'
    then negated (some_digits s)
    else some_digits (String.◌∷◌ c s)

unfoldable pub up_to : ℕ → Option ℕ → Option ℕ
up_to limit none = none
up_to limit (some n) = if leb n limit then some n else none

unfoldable pub paired : Option ℕ → Option ℕ → Option (ℕ × ℕ)
paired (some h) (some m) = some (h, m)
paired _ _ = none

unfoldable pub from_parts : List String → Option (ℕ × ℕ)
unfolding atoi up_to paired
from_parts (h ∷ m ∷ []) = paired (up_to 23 (atoi h)) (up_to 59 (atoi m))
from_parts _ = none

unfoldable pub hhmm : String → Option (ℕ × ℕ)
unfolding split from_parts
hhmm s = from_parts (split b':' s)

unfoldable pub mins : ℕ × ℕ → ℕ
mins (h, m) = h * 60 + m

-- `(inWindow, release, ok)`, with `none` for the zero instant.
pub record Verdict : Type 0 where
  pub in_window : Bool
  pub release : Option ℕ
  pub ok : Bool

abbrev pub unusable : Verdict
unusable = record { in_window = false; release = none; ok = false }

abbrev pub outside : Verdict
outside = record { in_window = false; release = none; ok = true }

abbrev pub inside : ℕ → Verdict
inside release = record { in_window = true; release = some release; ok = true }

-- The window on the day of `now`, once the settings are read.
unfoldable pub contains : Location → (now : ℕ) → (start end : ℕ × ℕ) → Verdict
unfolding mins
contains loc now start end =
    let start_today = loc.date (loc.day now) start.0 start.1 in
    let end_today = loc.date (loc.day now) end.0 end.1 in
    if not (ltb (mins end) (mins start))
    then (if not (ltb now start_today) && ltb now end_today then inside end_today else outside)
    else if not (ltb now start_today)
    then inside (loc.next_day end_today)
    else if ltb now end_today
    then inside end_today
    else outside

-- The tests in front: both times, the zone, and a window that is not empty.
unfoldable pub guarded : Option Location → (now : ℕ) → Option (ℕ × ℕ) → Option (ℕ × ℕ) → Verdict
unfolding contains
guarded (some loc) now (some start) (some end) =
    if (start.0 == end.0) && (start.1 == end.1) then unusable else contains loc now start end
guarded _ now _ _ = unusable

-- `priority >= 1`
unfoldable pub bypasses : ℤ → Bool
bypasses (pos n) = leb 1 n
bypasses (negsuc n) = false

module _ (load_location : String → Option Location) where
  unfoldable pub window_contains : (now : ℕ) → Settings → Verdict
  unfolding hhmm guarded
  window_contains now s = guarded (load_location s.tz) now (hhmm s.start) (hhmm s.end)

  unfoldable pub evaluate : (now : ℕ) → Settings → (priority : ℤ) → Decision
  unfolding bypasses window_contains
  evaluate now s priority =
      if bypasses priority
      then deliver
      else if not s.enabled
      then deliver
      else if not (window_contains now s).ok || not (window_contains now s).in_window
      then deliver
      else hold

  unfoldable pub in_window : (now : ℕ) → Settings → Bool
  unfolding window_contains
  in_window now s = (window_contains now s).in_window

  unfoldable pub release_at : (now : ℕ) → Settings → Option ℕ
  unfolding window_contains
  release_at now s =
      if (window_contains now s).in_window then (window_contains now s).release else none
