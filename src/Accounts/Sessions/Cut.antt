-- ===== src/Accounts/Sessions/Cut.antt =====
-- The payload of a cookie of server/internal/api/security.go: its numerals, and where it is cut.
use pushfree.Common.{
  ℕ, zero, suc, ◌-◌, ◌/◌, ◌%◌, ◌^◌, ◌≤◌, ◌<◌, Char, code, String, Bool, true, false, not, ◌&&◌,
  Option, none, some, ◌≡◌, refl, sym, ap, arith, ◌==◌, ==_iff, ltb, leb, Bool-cases, Option-cases,
  inl, inr, all_below_sound,
}
use pushfree.Text.{append, truthy}
use pushfree.Text.Query.Scan.{AllChars, AllChars-append, is_not}
use pushfree.QuietWindow.{digits, some_digits, atoi, up_to}
use pushfree.QuotaManager.Decimal.{digit, print, itoa, digits-itoa}
use pushfree.Accounts.Sessions.{cut, cons_cut, parse_int, payload}

abbrev numeral : ℕ → Bool
numeral c = leb b'0' c && leb c b'9'

digit-numeral : (n : ℕ) → n < 10 → numeral (code (digit n)) ≡ true
unfolding digit
digit-numeral n h = all_below_sound 10 (λ k. numeral (code (digit k))) n refl h

print-numeral : (fuel n : ℕ) (s : String) → AllChars numeral s → AllChars numeral (print fuel n s)
unfolding print
print-numeral zero n s hs = hs
print-numeral (suc fuel) n s hs = elim (Bool-cases (ltb n 10)) [
  | inl small ↦ rw small (digit-numeral n (ground (arith, small)), hs)
  | inr large ↦ rw large (
      print-numeral fuel (n / 10) (String.◌∷◌ (digit (n % 10)) s)
        (digit-numeral (n % 10) (omega arith), hs))
]

pub itoa-numeral : (n : ℕ) → AllChars numeral (itoa n)
unfolding itoa
itoa-numeral n = print-numeral (suc n) n "" tt

-- A numeral is read as its digits, with no sign in front.
atoi-numeral : (s : String) → AllChars numeral s → truthy s ≡ true → atoi s ≡ digits 0 s
unfolding atoi some_digits
atoi-numeral String.[] hs t = cc
atoi-numeral (String.◌∷◌ c s) (hc, hs) t =
    let plus : (code c == b'+') ≡ false = ground arith in
    let minus : (code c == b'-') ≡ false = ground arith in rw (plus, minus) refl

print-truthy : (fuel n : ℕ) (s : String) → truthy s ≡ true → truthy (print fuel n s) ≡ true
unfolding print
print-truthy zero n s h = h
print-truthy (suc fuel) n s h = elim (Bool-cases (ltb n 10)) [
  | inl small ↦ rw small refl
  | inr large ↦ rw large (print-truthy fuel (n / 10) (String.◌∷◌ (digit (n % 10)) s) refl)
]

itoa-truthy : (n : ℕ) → truthy (itoa n) ≡ true
unfolding itoa print
itoa-truthy n = elim (Bool-cases (ltb n 10)) [
  | inl small ↦ rw small refl
  | inr large ↦ rw large (print-truthy n (n / 10) (String.◌∷◌ (digit (n % 10)) "") refl)
]

pub parse_int-itoa : (n : ℕ) → n ≤ 2 ^ 63 - 1 → parse_int (itoa n) ≡ some n
unfolding parse_int up_to
parse_int-itoa n h =
    let small : leb n (2 ^ 63 - 1) ≡ true = ground arith in
    rw (atoi-numeral (itoa n) (itoa-numeral n) (itoa-truthy n), digits-itoa n, small) refl

-- A text without `k`, then `k`, is cut between the two.
pub cut_free :
    (k : ℕ) (s : String) (c : Char) (t : String)
    → AllChars (is_not k) s
    → (code c == k) ≡ true
    → cut k (append s (String.◌∷◌ c t)) ≡ some (s, t)
unfolding cut append cons_cut
cut_free k String.[] c t hs hc = rw hc refl
cut_free k (String.◌∷◌ a s) c t (ha, hs) hc = elim (Bool-cases (code a == k)) [
  | inl same ↦ cc (rw (same, not) at ha)
  | inr other ↦ rw (other, cut_free k s c t hs hc) refl
]

AllChars-weaken :
    (p q : ℕ → Bool) (s : String)
    → ((c : ℕ) → p c ≡ true → q c ≡ true)
    → AllChars p s
    → AllChars q s
AllChars-weaken p q String.[] f hs = tt
AllChars-weaken p q (String.◌∷◌ c s) f (hc, hs) = (f (code c) hc, AllChars-weaken p q s f hs)

pub numeral-free : (k : ℕ) → numeral k ≡ false → (n : ℕ) → AllChars (is_not k) (itoa n)
numeral-free k h n =
    AllChars-weaken numeral (is_not k) (itoa n) (λ c d. ground arith) (itoa-numeral n)

pub payload-free : (uid expiry : ℕ) → AllChars (is_not b'.') (payload uid expiry)
unfolding payload
payload-free uid expiry =
    AllChars-append (is_not b'.') (itoa uid) (String.◌∷◌ ":" (itoa expiry))
      (numeral-free b'.' refl uid) (refl, numeral-free b'.' refl expiry)

pub cut-payload : (uid expiry : ℕ) → cut b':' (payload uid expiry) ≡ some (itoa uid, itoa expiry)
unfolding payload
cut-payload uid expiry =
    cut_free b':' (itoa uid) ":" (itoa expiry) (numeral-free b':' refl uid) refl

-- Two pairs that are the same have the same parts.
abbrev fst_of : Option (String × String) → String
fst_of none = ""
fst_of (some p) = p.0

abbrev snd_of : Option (String × String) → String
snd_of none = ""
snd_of (some p) = p.1

cons_cut-some :
    (k : ℕ) (c : Char) (s a b : String)
    → ((a b : String)
        → cut k s ≡ some (a, b)
        → (d : Char) × (code d ≡ k) × (s ≡ append a (String.◌∷◌ d b)))
    → cons_cut c (cut k s) ≡ some (a, b)
    → (d : Char) × (code d ≡ k) × (String.◌∷◌ c s ≡ append a (String.◌∷◌ d b))
unfolding cons_cut append
cons_cut-some k c s a b rec h = elim (Option-cases (cut k s)) [
  | inl whole ↦ cc (rw whole at h)
  | inr ((a1, b1), parts) ↦
      let h1 = rw parts at h in
      let front : a ≡ String.◌∷◌ c a1 = ap fst_of (sym h1) in
      let behind : b ≡ b1 = ap snd_of (sym h1) in
      let (d, is_k, joins) = rec a1 b1 parts in
      (d, is_k, rw (front, behind) (ap (String.◌∷◌ c) joins))
]

-- What a cut text was.
pub cut-some :
    (k : ℕ) (s a b : String)
    → cut k s ≡ some (a, b)
    → (c : Char) × (code c ≡ k) × (s ≡ append a (String.◌∷◌ c b))
unfolding cut cons_cut append
cut-some k String.[] a b h = cc
cut-some k (String.◌∷◌ c s) a b h = elim (Bool-cases (code c == k)) [
  | inl same ↦
      let h1 = rw same at h in
      let front : a ≡ "" = ap fst_of (sym h1) in
      let behind : b ≡ s = ap snd_of (sym h1) in
      (c, (==_iff (code c) k).0 same, rw (front, behind) refl)
  | inr other ↦ cons_cut-some k c s a b (cut-some k s) (rw other at h)
]
