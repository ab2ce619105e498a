-- ===== src/Text/Prefix.antt =====
-- Laws of `startsWith` and of a cut behind a prefix.
use pushfree.Common.{String, true, false, ◌&&◌, ◌||◌, ◌≡◌, refl, arith, Bool-cases, inl, inr}
use pushfree.Text.{append, starts_with}

pub starts_with-append : (s t : String) → starts_with (append s t) s ≡ true
unfolding starts_with append
starts_with-append String.[] t = refl
starts_with-append (String.◌∷◌ c s) t = ground (arith, starts_with-append s t)

-- Two texts that both begin one text: one of them begins the other.
starts_with_both :
    (p s t : String)
    → starts_with p s ≡ true
    → starts_with p t ≡ true
    → (starts_with s t || starts_with t s) ≡ true
unfolding starts_with
starts_with_both p String.[] String.[] hs ht = refl
starts_with_both p String.[] (String.◌∷◌ d t) hs ht = refl
starts_with_both p (String.◌∷◌ d s) String.[] hs ht = refl
starts_with_both String.[] (String.◌∷◌ d s) (String.◌∷◌ e t) hs ht = cc
starts_with_both (String.◌∷◌ c p) (String.◌∷◌ d s) (String.◌∷◌ e t) hs ht =
    ground (arith, starts_with_both p s t)

-- Texts of which neither begins the other do not both begin a path.
pub starts_with_not_both :
    (p s t : String)
    → (starts_with s t || starts_with t s) ≡ false
    → (starts_with p s && starts_with p t) ≡ false
starts_with_not_both p s t h = elim (Bool-cases (starts_with p s)) [
  | inl a ↦ elim (Bool-cases (starts_with p t)) [
    | inl b ↦ cc (starts_with_both p s t a b)
    | inr b ↦ rw (a, b)
  ]
  | inr a ↦ rw a
]
