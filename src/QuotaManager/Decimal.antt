-- ===== src/QuotaManager/Decimal.antt =====
-- `strconv.Itoa` and `strconv.FormatInt(_, 10)` of numbers that are not negative, as
-- server/internal/api/applimit.go writes its headers with.
use pushfree.Common.{
  ℕ, zero, suc, ◌+◌, ◌*◌, ◌/◌, ◌%◌, ◌≤◌, ◌<◌, Char, String, some, ◌≡◌, refl, ◌∙◌, if◌then◌else◌,
  ltb, ◌==◌, arith, ==_iff, all_below_sound, code, ◌-◌, Bool-cases, inl, inr,
}
use pushfree.QuietWindow.{digits}

unfoldable pub digit : ℕ → Char
digit n =
    if n == 0
    then "0"
    else if n == 1
    then "1"
    else if n == 2
    then "2"
    else if n == 3
    then "3"
    else if n == 4
    then "4"
    else if n == 5
    then "5"
    else if n == 6
    then "6"
    else if n == 7
    then "7"
    else if n == 8
    then "8"
    else "9"

-- The digits of `n` in front of a text. The fuel `n` is enough, since a tenth is smaller.
unfoldable pub print : (fuel n : ℕ) → String → String
unfolding digit
print zero n s = s
print (suc fuel) n s =
    let rest = print fuel (n / 10) (String.◌∷◌ (digit (n % 10)) s) in
    if ltb n 10 then String.◌∷◌ (digit n) s else rest

unfoldable pub itoa : ℕ → String
unfolding print
itoa n = print (suc n) n ""

code-digit : (n : ℕ) → n < 10 → code (digit n) ≡ b'0' + n
unfolding digit
code-digit n h =
    (==_iff (code (digit n)) (b'0' + n)).0
      (all_below_sound 10 (λ k. code (digit k) == (b'0' + k)) n refl h)

digits-digit :
    (a n k : ℕ) (s : String)
    → n < 10
    → 10 * a + n ≡ k
    → digits a (String.◌∷◌ (digit n) s) ≡ digits k s
unfolding digits
digits-digit a n k s h eq =
    let read : 10 * a + (code (digit n) - b'0') ≡ k = omega (arith, code-digit n h) in
    rw read (ground (arith, code-digit n h))

digits-print : (fuel n : ℕ) (s : String) → n < fuel → digits 0 (print fuel n s) ≡ digits n s
unfolding print
digits-print zero n s h = absurd (omega arith)
digits-print (suc fuel) n s h = elim (Bool-cases (ltb n 10)) [
  | inl small ↦ rw small (digits-digit 0 n n s (ground (arith, small)) (omega arith))
  | inr large ↦
      let many : 10 ≤ n = ground (arith, large) in
      rw large (
        digits-print fuel (n / 10) (String.◌∷◌ (digit (n % 10)) s) (omega arith)
        ∙ digits-digit (n / 10) (n % 10) n s (omega arith) (omega arith))
]

-- Reading the digits that are written for a number gives the number back.
pub digits-itoa : (n : ℕ) → digits 0 (itoa n) ≡ some n
unfolding itoa digits
digits-itoa n = digits-print (suc n) n "" (omega arith)
