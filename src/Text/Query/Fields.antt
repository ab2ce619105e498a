-- ===== src/Text/Query/Fields.antt =====
-- What a server reads from a URL whose query was written with `encodeURIComponent`.
use pushfree.Common.{
  ℕ, code, String, Bool, true, false, ◌&&◌, ==_iff, ◌==◌, ◌≡◌, Bool-cases, inl, inr,
}
use pushfree.Text.{append}
use pushfree.Text.Uri.{encode_uri_component}
use pushfree.Text.Query.Scan.{AllChars, AllChars-append, is_safe, is_not, encode_uri_component-safe}

unfoldable pub all_chars : (ℕ → Bool) → String → Bool
all_chars p String.[] = true
all_chars p (String.◌∷◌ c s) = p (code c) && all_chars p s

all_chars_sound : (p : ℕ → Bool) (s : String) → all_chars p s ≡ true → AllChars p s
unfolding all_chars
all_chars_sound p String.[] h = tt
all_chars_sound p (String.◌∷◌ c s) h = elim (Bool-cases (p (code c))) [
  | inl pass ↦ (pass, all_chars_sound p s (rw pass at h))
  | inr fail ↦ cc (rw fail at h)
]

safe-is_not : (k c : ℕ) → is_safe k ≡ false → is_safe c ≡ true → is_not k c ≡ true
safe-is_not k c hk hc = elim (Bool-cases (c == k)) [
  | inl same ↦ cc ((==_iff c k).0 same)
  | inr other ↦ rw other
]

pub AllChars-is_not :
    (k : ℕ) (s : String) → is_safe k ≡ false → AllChars is_safe s → AllChars (is_not k) s
AllChars-is_not k String.[] hk h = tt
AllChars-is_not k (String.◌∷◌ c s) hk (hc, h) =
    (safe-is_not k (code c) hk hc, AllChars-is_not k s hk h)

-- A literal piece and an encoded text behind it are free of `k`.
pub piece_free :
    (k : ℕ) (literal s : String)
    → is_safe k ≡ false
    → all_chars (is_not k) literal ≡ true
    → AllChars (is_not k) (append literal (encode_uri_component s))
piece_free k literal s hk h =
    AllChars-append (is_not k) literal (encode_uri_component s)
      (all_chars_sound (is_not k) literal h)
      (AllChars-is_not k (encode_uri_component s) hk (encode_uri_component-safe s))
