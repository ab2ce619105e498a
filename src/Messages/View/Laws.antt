-- ===== src/Messages/View/Laws.antt =====
-- The headings and the badges of web/app/dashboard/messages/page.tsx.
use pushfree.Common.{
  ℕ, zero, suc, String, true, false, ◌≡◌, ◌↔◌, refl, arith, ℤ, pos, negsuc, leb, ◌==◌, ◌≤◌,
  Bool-cases, inl, inr, get_or, eq_iff,
}
use pushfree.Text.{truthy, slice}
use pushfree.Messages.{LiveMessage}
use pushfree.Messages.View.{
  PriorityLabel, named, numbered, priority_label, priority_class, or_text, heading,
}

slice-truthy : (n : ℕ) (s : String) → truthy s ≡ true → truthy (slice (suc n) s) ≡ true
unfolding slice
slice-truthy n String.[] h = cc
slice-truthy zero (String.◌∷◌ c s) h = refl
slice-truthy (suc n) (String.◌∷◌ c s) h = refl

slice-not_truthy : (n : ℕ) (s : String) → truthy s ≡ false → truthy (slice n s) ≡ false
unfolding slice
slice-not_truthy n String.[] h = refl
slice-not_truthy n (String.◌∷◌ c s) h = cc

or_text-truthy : (a b : String) → truthy b ≡ true → truthy (or_text a b) ≡ true
unfolding or_text
or_text-truthy a b h = elim (Bool-cases (truthy a)) [ inl yes' ↦ rw yes' yes' | inr no' ↦ rw no' h ]

-- Every row has a heading that is not empty: the title where it is not empty, else the first 60
-- units of the message where it is not empty, else `(no body)`.
pub heading_lem :
    (m : LiveMessage)
    → (truthy (heading m) ≡ true)
      × (truthy (get_or m.title "") ≡ true → heading m ≡ get_or m.title "")
      × (truthy (get_or m.title "") ≡ false
          → truthy m.message ≡ true
          → heading m ≡ slice 60 m.message)
      × (truthy (get_or m.title "") ≡ false → truthy m.message ≡ false → heading m ≡ "(no body)")
unfolding heading
heading_lem m = (
  or_text-truthy (get_or m.title "") (or_text (slice 60 m.message) "(no body)")
      (or_text-truthy (slice 60 m.message) "(no body)" refl),
  λ title. rw title,
  λ no_title text. rw (no_title, slice-truthy 59 m.message text),
  λ no_title blank. rw (no_title, slice-not_truthy 60 m.message blank),
)

-- The priorities that the server accepts: -2 to 2.
abbrev pub Accepted : ℤ → Type 0
Accepted (pos n) = n ≤ 2
Accepted (negsuc n) = n ≤ 1

abbrev pub Urgent : ℤ → Type 0
Urgent (pos n) = 2 ≤ n
Urgent (negsuc n) = ⊥

abbrev pub IsNamed : PriorityLabel → Type 0
IsNamed (named t) = Unit
IsNamed (numbered p) = ⊥

label_lem : (p : ℤ) → IsNamed (priority_label p) ↔ Accepted p
unfolding priority_label
label_lem (negsuc zero) = (λ _. omega arith, λ _. tt)
label_lem (negsuc (suc zero)) = (λ _. omega arith, λ _. tt)
label_lem (negsuc (suc (suc n))) = (λ h. elim h [ ], λ h. absurd (omega arith))
label_lem (pos zero) = (λ _. omega arith, λ _. tt)
label_lem (pos (suc zero)) = (λ _. omega arith, λ _. tt)
label_lem (pos (suc (suc zero))) = (λ _. omega arith, λ _. tt)
label_lem (pos (suc (suc (suc n)))) = (λ h. elim h [ ], λ h. absurd (omega arith))

plain_ne_danger : ◌≡◌ {A = String} "badge" "badge danger" → ⊥
plain_ne_danger e = cc ((eq_iff "badge" "badge danger").1 e)

warn_ne_danger : ◌≡◌ {A = String} "badge warn" "badge danger" → ⊥
warn_ne_danger e = cc ((eq_iff "badge warn" "badge danger").1 e)

class_lem : (p : ℤ) → (priority_class p ≡ "badge danger") ↔ Urgent p
unfolding priority_class
class_lem (negsuc n) = (plain_ne_danger, λ h. elim h [ ])
class_lem (pos n) = elim (Bool-cases (leb 2 n)) [
  | inl high ↦ rw high (λ _. ground arith, λ _. refl)
  | inr low ↦ elim (Bool-cases (n == 1)) [
    | inl one ↦ rw (low, one) (λ e. absurd (warn_ne_danger e), λ h. ground arith)
    | inr other ↦ rw (low, other) (λ e. absurd (plain_ne_danger e), λ h. ground arith)
  ]
]

-- A priority is shown by a name exactly if it is one that the server accepts, -2 to 2, and its badge
-- is red exactly from 2 on.
pub priority_lem :
    (p : ℤ)
    → (IsNamed (priority_label p) ↔ Accepted p) × ((priority_class p ≡ "badge danger") ↔ Urgent p)
priority_lem p = (label_lem p, class_lem p)
