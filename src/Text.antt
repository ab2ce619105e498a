-- ===== src/Text.antt =====
-- The text operations of the language that the dashboard (web/) uses: truth of a text, template
-- literals, `trim`, `startsWith`, `slice`. A text is a list of code points; a lone surrogate has none.
pub mod Trim
pub mod Prefix
pub mod Uri
pub mod Query
use Prim.Native.String.{[], ◌∷◌}
use pushfree.Common.{
  ℕ, zero, suc, ◌+◌, Char, code, String, Bool, true, false, not, ◌&&◌, ◌||◌, List, ◌∷◌, leb, ◌==◌,
  if◌then◌else◌, Option, none, some,
}

-- A text as a condition: every text but the empty one is true.
abbrev pub truthy : String → Bool
truthy [] = false
truthy (c ∷ s) = true

-- `a + b`
unfoldable pub append : String → String → String
append [] t = t
append (c ∷ s) t = c ∷ append s t

-- A template literal: its pieces in order.
unfoldable pub concat : List String → String
unfolding append
concat List.[] = ""
concat (s ∷ List.[]) = s
concat (s ∷ t ∷ ss) = append s (concat (t ∷ ss))

-- The white space and line terminators that `trim` removes.
pub is_space : ℕ → Bool
is_space c =
    (leb 0x09 c && leb c 0x0d)
    || (c == 0x20)
    || (c == 0xa0)
    || (c == 0x1680)
    || (leb 0x2000 c && leb c 0x200a)
    || (c == 0x2028)
    || (c == 0x2029)
    || (c == 0x202f)
    || (c == 0x205f)
    || (c == 0x3000)
    || (c == 0xfeff)

trim_start : String → String
trim_start [] = []
trim_start (c ∷ s) = if is_space (code c) then trim_start s else c ∷ s

trim_end : String → String
trim_end [] = []
trim_end (c ∷ s) =
    let rest = trim_end s in if is_space (code c) && not (truthy rest) then [] else c ∷ rest

unfoldable pub trim : String → String
unfolding trim_start trim_end is_space
trim s = trim_end (trim_start s)

-- `s.startsWith(t)`
unfoldable pub starts_with : String → String → Bool
starts_with s [] = true
starts_with [] (d ∷ t) = false
starts_with (c ∷ s) (d ∷ t) = (code c == code d) && starts_with s t

-- `s.slice(n)` at a count of characters below 0x10000.
unfoldable pub drop : ℕ → String → String
drop zero s = s
drop (suc n) [] = []
drop (suc n) (c ∷ s) = drop n s

-- `s.slice(0, n)`, which counts UTF-16 units: a character from 0x10000 on is two. Where the cut
-- parts the two halves of one, what is left of it is shown as the replacement character.
unfoldable pub slice : ℕ → String → String
slice n [] = []
slice zero (c ∷ s) = []
slice (suc zero) (c ∷ s) = (if leb 0x10000 (code c) then "�" else c) ∷ []
slice (suc (suc n)) (c ∷ s) =
    c ∷ (elim (leb 0x10000 (code c)) [ true ↦ slice n s | false ↦ slice (suc n) s ])

-- `texts.join(sep)`
unfoldable pub join_with : String → List String → String
unfolding append
join_with sep List.[] = ""
join_with sep (s ∷ List.[]) = s
join_with sep (s ∷ t ∷ ss) = append s (append sep (join_with sep (t ∷ ss)))

-- A character's number, with ASCII letters in lower case.
lower : ℕ → ℕ
lower n = if leb b'A' n && leb n b'Z' then n + 32 else n

-- Whether two texts are the same but for the case of ASCII letters.
unfoldable pub eq_ignore_case : String → String → Bool
unfolding lower
eq_ignore_case [] [] = true
eq_ignore_case (c ∷ s) (d ∷ t) = (lower (code c) == lower (code d)) && eq_ignore_case s t
eq_ignore_case _ _ = false
