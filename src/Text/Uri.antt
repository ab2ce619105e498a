-- ===== src/Text/Uri.antt =====
-- `encodeURIComponent`, as the dashboard puts tokens and credentials into a URL.
use pushfree.Common.{
  ℕ, ◌+◌, ◌/◌, ◌%◌, Char, code, String, Bool, ◌&&◌, ◌||◌, List, [], ◌∷◌, leb, ltb, ◌==◌, ◌≡◌, refl,
  if◌then◌else◌,
}

-- A letter, a digit, or one of the marks - _ . ! ~ * ' ( ).
unfoldable pub is_unreserved : ℕ → Bool
is_unreserved c =
    (leb b'A' c && leb c b'Z')
    || (leb b'a' c && leb c b'z')
    || (leb b'0' c && leb c b'9')
    || (c == b'-')
    || (c == b'_')
    || (c == b'.')
    || (c == b'!')
    || (c == b'~')
    || (c == b'*')
    || (c == 0x27)
    || (c == b'(')
    || (c == b')')

-- The bytes of a character in UTF-8.
unfoldable pub utf8 : ℕ → List ℕ
utf8 c =
    if ltb c 0x80
    then c ∷ []
    else if ltb c 0x800
    then (0xc0 + c / 64) ∷ (0x80 + c % 64) ∷ []
    else if ltb c 0x10000
    then (0xe0 + c / 4096) ∷ (0x80 + c / 64 % 64) ∷ (0x80 + c % 64) ∷ []
    else (0xf0 + c / 262144) ∷ (0x80 + c / 4096 % 64) ∷ (0x80 + c / 64 % 64) ∷ (0x80 + c % 64) ∷ []

-- A hexadecimal digit, in upper case as the language writes it.
unfoldable pub hex_digit : ℕ → Char
hex_digit n =
    if n == 0
    then "0"
    else if n == 1
    then "1"
    else if n == 2
    then "2"
    else if n == 3
    then "3"
    else if n == 4
    then "4"
    else if n == 5
    then "5"
    else if n == 6
    then "6"
    else if n == 7
    then "7"
    else if n == 8
    then "8"
    else if n == 9
    then "9"
    else if n == 10
    then "A"
    else if n == 11
    then "B"
    else if n == 12
    then "C"
    else if n == 13
    then "D"
    else if n == 14
    then "E"
    else "F"

-- `%XY` for a byte, in front of a text.
unfoldable pub percent : ℕ → String → String
unfolding hex_digit
percent b s = String.◌∷◌ "%" (String.◌∷◌ (hex_digit (b / 16)) (String.◌∷◌ (hex_digit (b % 16)) s))

unfoldable pub percent_all : List ℕ → String → String
unfolding percent
percent_all [] s = s
percent_all (b ∷ bs) s = percent b (percent_all bs s)

unfoldable pub encode_uri_component : String → String
unfolding is_unreserved utf8 percent_all
encode_uri_component String.[] = String.[]
encode_uri_component (String.◌∷◌ c s) =
    let rest = encode_uri_component s in
    if is_unreserved (code c) then String.◌∷◌ c rest else percent_all (utf8 (code c)) rest

encode_test : encode_uri_component "a b&é" ≡ "a%20b%26%C3%A9"
unfolding encode_uri_component
encode_test = refl
