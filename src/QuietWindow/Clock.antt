-- ===== src/QuietWindow/Clock.antt =====
-- The times of server/internal/quiethours/quiethours.go: `hhmm`.
use pushfree.Common.{
  ℕ, ◌/◌, ◌%◌, ◌≤◌, ◌<◌, String, Bool, true, false, ◌&&◌, Option, none, some, List, [], ◌∷◌, ◌≡◌,
  refl, ap, arith, all_below, all_below_sound, ◌==◌,
}
use pushfree.Text.Uri.{hex_digit}
use pushfree.Text.Query.Scan.{split}
use pushfree.QuietWindow.{atoi, up_to, paired, from_parts, hhmm}

-- Two digits in front of a text.
two : ℕ → String → String
unfolding hex_digit
two n s = String.◌∷◌ (hex_digit (n / 10)) (String.◌∷◌ (hex_digit (n % 10)) s)

-- A time of day as `HH:MM`.
unfoldable pub clock : ℕ → ℕ → String
unfolding two
clock h m = two h (String.◌∷◌ ":" (two m ""))

is_time : Option (ℕ × ℕ) → ℕ → ℕ → Bool
is_time none h m = false
is_time (some t) h m = (t.0 == h) && (t.1 == m)

is_time_sound : (o : Option (ℕ × ℕ)) (h m : ℕ) → is_time o h m ≡ true → o ≡ some (h, m)
unfolding is_time
is_time_sound none h m e = cc
is_time_sound (some (a, b)) h m e = ground arith

checked : all_below 24 (λ h. all_below 60 (λ m. is_time (hhmm (clock h m)) h m)) ≡ true
unfolding hhmm clock is_time
checked = refl

-- Every time of the day that is written as `HH:MM` is read back.
pub hhmm-clock : (h m : ℕ) → h < 24 → m < 60 → hhmm (clock h m) ≡ some (h, m)
hhmm-clock h m hh hm =
    let row =
      all_below_sound 24 (λ h. all_below 60 (λ m. is_time (hhmm (clock h m)) h m)) h checked hh in
    is_time_sound (hhmm (clock h m)) h m
      (all_below_sound 60 (λ m. is_time (hhmm (clock h m)) h m) m row hm)

up_to-le : (limit : ℕ) (o : Option ℕ) (n : ℕ) → up_to limit o ≡ some n → n ≤ limit
unfolding up_to
up_to-le limit none n h = cc
up_to-le limit (some k) n h = ground arith

hour_of : Option (ℕ × ℕ) → ℕ
hour_of none = 0
hour_of (some t) = t.0

minute_of : Option (ℕ × ℕ) → ℕ
minute_of none = 0
minute_of (some t) = t.1

paired-some : (a b : Option ℕ) (h m : ℕ) → paired a b ≡ some (h, m) → (a ≡ some h) × (b ≡ some m)
unfolding paired hour_of minute_of
paired-some none none h m e = cc
paired-some none (some y) h m e = cc
paired-some (some x) none h m e = cc
paired-some (some x) (some y) h m e = (ap (λ o. some (hour_of o)) e, ap (λ o. some (minute_of o)) e)

from_parts-range :
    (parts : List String) (h m : ℕ) → from_parts parts ≡ some (h, m) → (h < 24) × (m < 60)
unfolding from_parts
from_parts-range [] h m e = cc
from_parts-range (a ∷ []) h m e = cc
from_parts-range (a ∷ (b ∷ [])) h m e =
    let (hour, minute) = paired-some (up_to 23 (atoi a)) (up_to 59 (atoi b)) h m e in
    (omega (arith, up_to-le 23 (atoi a) h hour), omega (arith, up_to-le 59 (atoi b) m minute))
from_parts-range (a ∷ (b ∷ (c ∷ cs))) h m e = cc

-- Whatever the text: an hour and a minute that are read from it are those of a day.
pub hhmm_lem : (s : String) (h m : ℕ) → hhmm s ≡ some (h, m) → (h < 24) × (m < 60)
unfolding hhmm
hhmm_lem s h m e = from_parts-range (split b':' s) h m e
