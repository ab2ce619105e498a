-- ===== src/Text/Query/Scan.antt =====
-- Splitting a text at a character, and reading one field of a URL's query.
use pushfree.Common.{
  ℕ, ◌/◌, ◌%◌, ◌<◌, Char, code, String, Bool, true, not, ◌||◌, List, [], ◌∷◌, ==_iff, ◌==◌,
  if◌then◌else◌, Option, none, ◌≡◌, refl, ap, arith, Bool-cases, inl, inr, all_below_sound, All,
  str_eq,
}
use pushfree.Text.{append}
use pushfree.Text.Uri.{is_unreserved, utf8, hex_digit, percent, percent_all, encode_uri_component}
use pushfree.Text.Query.Decode.{decode, IsByte, code-lt, utf8-IsByte}

-- What stands in front of the first `k`, or the whole text.
unfoldable pub before : ℕ → String → String
before k String.[] = ""
before k (String.◌∷◌ c s) = let rest = before k s in if code c == k then "" else String.◌∷◌ c rest

-- What stands behind the first `k`, or nothing.
unfoldable pub after : ℕ → String → String
after k String.[] = ""
after k (String.◌∷◌ c s) = let rest = after k s in if code c == k then s else rest

unfoldable pub cons_head : Char → List String → List String
cons_head c [] = String.◌∷◌ c "" ∷ []
cons_head c (s ∷ ss) = String.◌∷◌ c s ∷ ss

-- The pieces between the `k`s.
unfoldable pub split : ℕ → String → List String
unfolding cons_head
split k String.[] = "" ∷ []
split k (String.◌∷◌ c s) =
    let rest = split k s in if code c == k then "" ∷ rest else cons_head c rest

-- The value of the first field with the name, in bytes.
unfoldable pub field_value : String → List String → Option (List ℕ)
unfolding before after decode
field_value name [] = none
field_value name (f ∷ fs) =
    let rest = field_value name fs in
    if str_eq (before b'=' f) name then decode (after b'=' f) else rest

unfoldable pub query_value : String → String → Option (List ℕ)
unfolding before after split field_value
query_value name url = field_value name (split b'&' (after b'?' (before b'#' url)))

-- Every character of the text passes the test.
abbrev pub AllChars : (ℕ → Bool) → String → Type 0
AllChars p String.[] = Unit
AllChars p (String.◌∷◌ c s) = (p (code c) ≡ true) × AllChars p s

pub AllChars-append :
    (p : ℕ → Bool) (s t : String) → AllChars p s → AllChars p t → AllChars p (append s t)
unfolding append
AllChars-append p String.[] t hs ht = ht
AllChars-append p (String.◌∷◌ c s) t (hc, hs) ht = (hc, AllChars-append p s t hs ht)

abbrev pub is_safe : ℕ → Bool
is_safe c = is_unreserved c || (c == b'%')

hex_digit-safe : (n : ℕ) → n < 16 → is_safe (code (hex_digit n)) ≡ true
unfolding is_unreserved hex_digit
hex_digit-safe n h = all_below_sound 16 (λ k. is_safe (code (hex_digit k))) n refl h

percent_all-safe :
    (bs : List ℕ) (s : String)
    → All IsByte bs
    → AllChars is_safe s
    → AllChars is_safe (percent_all bs s)
unfolding percent_all percent is_unreserved
percent_all-safe [] s hb hs = hs
percent_all-safe (b ∷ bs) s (hb, h) hs = (
  refl,
  (
    hex_digit-safe (b / 16) (omega arith),
    (hex_digit-safe (b % 16) (omega arith), percent_all-safe bs s h hs),
  ),
)

unreserved-safe : (c : ℕ) → is_unreserved c ≡ true → is_safe c ≡ true
unreserved-safe c h = rw h

-- An encoded text holds unreserved characters and `%` alone.
pub encode_uri_component-safe : (s : String) → AllChars is_safe (encode_uri_component s)
unfolding encode_uri_component
encode_uri_component-safe String.[] = tt
encode_uri_component-safe (String.◌∷◌ c s) = elim (Bool-cases (is_unreserved (code c))) [
  | inl kept ↦ rw kept (unreserved-safe (code c) kept, encode_uri_component-safe s)
  | inr escaped ↦ rw escaped (
      percent_all-safe (utf8 (code c)) (encode_uri_component s) (utf8-IsByte (code c) (code-lt c))
        (encode_uri_component-safe s))
]

abbrev pub is_not : ℕ → ℕ → Bool
is_not k c = not (c == k)

-- A text without `k` is what stands in front of the first `k`, also where `k` and more follow.
pub before_free : (k : ℕ) (s : String) → AllChars (is_not k) s → before k s ≡ s
unfolding before
before_free k String.[] h = refl
before_free k (String.◌∷◌ c s) (hc, h) = elim (Bool-cases (code c == k)) [
  | inl same ↦ cc (rw (same, not) at hc)
  | inr other ↦ rw other (ap (String.◌∷◌ c) (before_free k s h))
]

pub before-append_free :
    (k : ℕ) (s t : String) → AllChars (is_not k) s → before k (append s t) ≡ append s (before k t)
unfolding before append
before-append_free k String.[] t h = refl
before-append_free k (String.◌∷◌ c s) t (hc, h) = elim (Bool-cases (code c == k)) [
  | inl same ↦ cc (rw (same, not) at hc)
  | inr other ↦ rw other (ap (String.◌∷◌ c) (before-append_free k s t h))
]

pub after-append_free :
    (k : ℕ) (s t : String) → AllChars (is_not k) s → after k (append s t) ≡ after k t
unfolding after append
after-append_free k String.[] t h = refl
after-append_free k (String.◌∷◌ c s) t (hc, h) = elim (Bool-cases (code c == k)) [
  | inl same ↦ cc (rw (same, not) at hc)
  | inr other ↦ rw other (after-append_free k s t h)
]

pub split_free : (k : ℕ) (s : String) → AllChars (is_not k) s → split k s ≡ s ∷ []
unfolding split
split_free k String.[] h = refl
split_free k (String.◌∷◌ c s) (hc, h) = elim (Bool-cases (code c == k)) [
  | inl same ↦ cc (rw (same, not) at hc)
  | inr other ↦ rw (other, split_free k s h)
]

pub split-append_free :
    (k : ℕ) (s : String) (c : Char) (t : String)
    → AllChars (is_not k) s
    → code c ≡ k
    → split k (append s (String.◌∷◌ c t)) ≡ s ∷ split k t
unfolding split append
split-append_free k String.[] c t h e = rw ((==_iff (code c) k).1 e)
split-append_free k (String.◌∷◌ d s) c t (hd, h) e = elim (Bool-cases (code d == k)) [
  | inl same ↦ cc (rw (same, not) at hd)
  | inr other ↦ rw (other, split-append_free k s c t h e)
]
