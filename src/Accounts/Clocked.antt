-- ===== src/Accounts/Clocked.antt =====
-- The times that server/internal/api/security.go lets in (validHHMM) are times that
-- server/internal/quiethours/quiethours.go reads (hhmm).
use pushfree.Common.{
  ℕ, ◌+◌, ◌-◌, ◌*◌, String, Char, code, true, false, ◌==◌, some, leb, ◌≡◌, refl, ap, arith,
}
use pushfree.Text.Query.Scan.{split, cons_head}
use pushfree.QuietWindow.{digits, some_digits, atoi, up_to, paired, from_parts, hhmm}
use pushfree.Accounts.{is_digit, valid_five, valid_hhmm}

-- The number of two digits.
abbrev value : Char → Char → ℕ
value a b = 10 * (code a - b'0') + (code b - b'0')

-- A digit is no sign.
unsigned : (a : Char) → is_digit a ≡ true → ((code a == b'+') ≡ false) × ((code a == b'-') ≡ false)
unsigned a h = (ground arith, ground arith)

atoi_two :
    (a b : Char)
    → is_digit a ≡ true
    → is_digit b ≡ true
    → atoi (String.◌∷◌ a (String.◌∷◌ b "")) ≡ some (value a b)
unfolding atoi some_digits digits
atoi_two a b ha hb =
    let (plus, minus) = unsigned a ha in rw (plus, minus, ha, hb) (ap some (omega arith))

split_five :
    (a b k c d : Char)
    → is_digit a ≡ true
    → is_digit b ≡ true
    → (code k == b':') ≡ true
    → is_digit c ≡ true
    → is_digit d ≡ true
    → hhmm (String.◌∷◌ a (String.◌∷◌ b (String.◌∷◌ k (String.◌∷◌ c (String.◌∷◌ d "")))))
      ≡ paired (up_to 23 (some (value a b))) (up_to 59 (some (value c d)))
unfolding hhmm split cons_head from_parts
split_five a b k c d ha hb hk hc hd =
    let na : (code a == b':') ≡ false = ground arith in
    let nb : (code b == b':') ≡ false = ground arith in
    let nc : (code c == b':') ≡ false = ground arith in
    let nd : (code d == b':') ≡ false = ground arith in
    rw (na, nb, hk, nc, nd) (rw (atoi_two a b ha hb, atoi_two c d hc hd) refl)

valid_five-hhmm :
    (a b k c d : Char)
    → valid_five a b k c d ≡ true
    → (t : ℕ × ℕ) × (hhmm
          (String.◌∷◌ a (String.◌∷◌ b (String.◌∷◌ k (String.◌∷◌ c (String.◌∷◌ d "")))))
        ≡ some t)
unfolding valid_five up_to paired
valid_five-hhmm a b k c d h =
    let ha : is_digit a ≡ true = ground arith in
    let hb : is_digit b ≡ true = ground arith in
    let hk : (code k == b':') ≡ true = ground arith in
    let hc : is_digit c ≡ true = ground arith in
    let hd : is_digit d ≡ true = ground arith in
    let (plus_a, minus_a) = unsigned a ha in
    let (plus_c, minus_c) = unsigned c hc in
    let ranges = rw (ha, hb, hk, hc, hd, plus_a, minus_a, plus_c, minus_c) at h in
    let hours : leb (value a b) 23 ≡ true = ground arith in
    let minutes : leb (value c d) 59 ≡ true = ground arith in
    ((value a b, value c d), rw (split_five a b k c d ha hb hk hc hd, hours, minutes) refl)

-- A text that the account's settings may hold as a time is read as an hour and a minute.
pub valid_hhmm-hhmm : (s : String) → valid_hhmm s ≡ true → (t : ℕ × ℕ) × (hhmm s ≡ some t)
unfolding valid_hhmm
valid_hhmm-hhmm (String.◌∷◌ a (String.◌∷◌ b (String.◌∷◌ k (String.◌∷◌ c (String.◌∷◌ d String.[])))))
      h =
    valid_five-hhmm a b k c d h
valid_hhmm-hhmm String.[] h = cc
valid_hhmm-hhmm (String.◌∷◌ a String.[]) h = cc
valid_hhmm-hhmm (String.◌∷◌ a (String.◌∷◌ b String.[])) h = cc
valid_hhmm-hhmm (String.◌∷◌ a (String.◌∷◌ b (String.◌∷◌ k String.[]))) h = cc
valid_hhmm-hhmm (String.◌∷◌ a (String.◌∷◌ b (String.◌∷◌ k (String.◌∷◌ c String.[])))) h = cc
valid_hhmm-hhmm
      (String.◌∷◌ a (String.◌∷◌ b (String.◌∷◌ k (String.◌∷◌ c (String.◌∷◌ d (String.◌∷◌ e s))))))
      h =
    cc
