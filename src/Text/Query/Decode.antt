-- ===== src/Text/Query/Decode.antt =====
-- Percent-decoding, and the round trip with `encodeURIComponent`.
use pushfree.Common.{
  ℕ, ◌+◌, ◌-◌, ◌*◌, ◌/◌, ◌%◌, ◌<◌, Char, code, String, true, ◌&&◌, List, [], ◌∷◌, ◌++◌, leb, ◌==◌,
  if◌then◌else◌, Option, none, some, ◌≡◌, refl, arith, Bool-cases, inl, inr, is_number,
  all_below_sound, is_number-eq_some, All,
}
use pushfree.Text.Uri.{is_unreserved, utf8, hex_digit, percent, percent_all, encode_uri_component}

hex_value : ℕ → Option ℕ
hex_value c =
    if leb b'0' c && leb c b'9'
    then some (c - b'0')
    else if leb b'A' c && leb c b'F'
    then some (c - 55)
    else if leb b'a' c && leb c b'f'
    then some (c - 87)
    else none

-- Inside an escape: none of its digits read, or the first.
pub data Mode : Type 0 where
  plain first_digit : Mode
  second_digit : ℕ → Mode

prepend : ℕ → Option (List ℕ) → Option (List ℕ)
prepend b none = none
prepend b (some bs) = some (b ∷ bs)

-- The rest of an escape whose digit has the value given, if it is one.
close_escape : ℕ → Option ℕ → Option (List ℕ) → Option (List ℕ)
unfolding prepend
close_escape hi none rest = none
close_escape hi (some lo) rest = prepend (16 * hi + lo) rest

open_escape : Option ℕ → (ℕ → Option (List ℕ)) → Option (List ℕ)
open_escape none rest = none
open_escape (some hi) rest = rest hi

decode_from : Mode → String → Option (List ℕ)
unfolding hex_value prepend close_escape open_escape
decode_from plain String.[] = some []
decode_from first_digit String.[] = none
decode_from (second_digit hi) String.[] = none
decode_from plain (String.◌∷◌ c s) =
    let escape = decode_from first_digit s in
    let other = decode_from plain s in
    if code c == b'%' then escape else prepend (if code c == b'+' then b' ' else code c) other
decode_from first_digit (String.◌∷◌ c s) =
    open_escape (hex_value (code c)) (λ hi. decode_from (second_digit hi) s)
decode_from (second_digit hi) (String.◌∷◌ c s) =
    close_escape hi (hex_value (code c)) (decode_from plain s)

-- The bytes of a query value, or `none` where an escape is malformed.
unfoldable pub decode : String → Option (List ℕ)
unfolding decode_from
decode s = decode_from plain s

-- The bytes of a text in UTF-8.
unfoldable pub bytes : String → List ℕ
unfolding utf8
bytes String.[] = []
bytes (String.◌∷◌ c s) = utf8 (code c) ++ bytes s

hex_value-hex_digit : (n : ℕ) → n < 16 → hex_value (code (hex_digit n)) ≡ some n
unfolding hex_value hex_digit
hex_value-hex_digit n h =
    (is_number-eq_some _ n).0
      (all_below_sound 16 (λ k. is_number (hex_value (code (hex_digit k))) k) n refl h)

decode_escape :
    (c d : Char) (s : String)
    → decode_from plain (String.◌∷◌ "%" (String.◌∷◌ c (String.◌∷◌ d s)))
      ≡ open_escape
          (hex_value (code c))
          (λ hi. close_escape hi (hex_value (code d)) (decode_from plain s))
unfolding decode_from
decode_escape c d s = refl

decode_from-percent :
    (b : ℕ) (s : String)
    → b < 256
    → decode_from plain (percent b s) ≡ prepend b (decode_from plain s)
unfolding percent open_escape close_escape
decode_from-percent b s h =
    let whole : 16 * (b / 16) + b % 16 ≡ b = omega arith in
    rw (
      decode_escape,
      hex_value-hex_digit (b / 16) (omega arith),
      hex_value-hex_digit (b % 16) (omega arith),
      whole,
    )

prepend_all : List ℕ → Option (List ℕ) → Option (List ℕ)
prepend_all [] o = o
prepend_all (b ∷ bs) o = prepend b (prepend_all bs o)

prepend_all-some : (bs cs : List ℕ) → prepend_all bs (some cs) ≡ some (bs ++ cs)
unfolding prepend_all prepend
prepend_all-some [] cs = refl
prepend_all-some (b ∷ bs) cs = rw (prepend_all-some bs cs)

abbrev pub IsByte : ℕ → Type 0
IsByte b = b < 256

decode_from-percent_all :
    (bs : List ℕ) (s : String)
    → All IsByte bs
    → decode_from plain (percent_all bs s) ≡ prepend_all bs (decode_from plain s)
unfolding percent_all prepend_all
decode_from-percent_all [] s h = refl
decode_from-percent_all (b ∷ bs) s (hb, h) =
    rw (decode_from-percent b (percent_all bs s) hb, decode_from-percent_all bs s h)

pub code-lt : (c : Char) → code c < 0x110000
code-lt (Char.char n p) = ground arith

pub utf8-IsByte : (c : ℕ) → c < 0x110000 → All IsByte (utf8 c)
unfolding utf8
utf8-IsByte c h = ground arith

-- An unreserved character stands for itself, as one byte.
decode_from-unreserved :
    (c : Char) (s : String)
    → is_unreserved (code c) ≡ true
    → decode_from plain (String.◌∷◌ c s) ≡ prepend_all (utf8 (code c)) (decode_from plain s)
unfolding decode_from is_unreserved utf8 prepend_all
decode_from-unreserved c s h = ground arith

-- A server that decodes an encoded text gets the bytes of the text, whatever its characters.
pub decode-encode_uri_component : (s : String) → decode (encode_uri_component s) ≡ some (bytes s)
unfolding decode encode_uri_component bytes
decode-encode_uri_component String.[] = refl
decode-encode_uri_component (String.◌∷◌ c s) = elim (Bool-cases (is_unreserved (code c))) [
  | inl kept ↦ rw kept (
      rw (decode_from-unreserved c (encode_uri_component s) kept)
        (rw (decode-encode_uri_component s) (prepend_all-some (utf8 (code c)) (bytes s))))
  | inr escaped ↦ rw escaped (
      rw
        (decode_from-percent_all (utf8 (code c)) (encode_uri_component s)
          (utf8-IsByte (code c) (code-lt c)))
        (rw (decode-encode_uri_component s) (prepend_all-some (utf8 (code c)) (bytes s))))
]
