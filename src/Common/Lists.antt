-- ===== src/Common/Lists.antt =====
-- Lists measured by native numbers, under the library's names.
use Prim.Native.Nat.{ℕ, zero, suc, ◌≤◌, ◌<◌, min}
use mathlib.Core.Path.{◌≡◌, refl, ap}
use mathlib.Core.Logic.{inl, inr}
use mathlib.Core.Bool.{Bool, true, false, ◌||◌}
use mathlib.Core.Option.{Option, none, some}
use mathlib.Core.List.{List, [], ◌∷◌, ◌++◌}
use native.Mathlib.Omega.{arith}
use pushfree.Common.Tests.{if◌then◌else◌, Bool-cases}

module _ {ℓ} {A : Type ℓ} where
  abbrev pub length : List A → ℕ
  length [] = 0
  length (x ∷ xs) = suc (length xs)

  -- `xs.slice(0, n)`
  abbrev pub take : ℕ → List A → List A
  take zero xs = []
  take (suc n) [] = []
  take (suc n) (x ∷ xs) = x ∷ take n xs

  pub length-take : (n : ℕ) (xs : List A) → length (take n xs) ≡ min n (length xs)
  length-take zero xs = omega arith
  length-take (suc n) [] = omega arith
  length-take (suc n) (x ∷ xs) = omega (arith, length-take n xs)

  pub take-take : (m k : ℕ) (xs : List A) → m ≤ k → take m (take k xs) ≡ take m xs
  take-take zero k xs h = refl
  take-take (suc m) zero xs h = absurd (omega arith)
  take-take (suc m) (suc k) [] h = refl
  take-take (suc m) (suc k) (x ∷ xs) h = ap (x ∷◌) (take-take m k xs (omega arith))

  -- Cutting twice, with an element put in front between the cuts, is cutting once.
  pub take-cons-take : (n : ℕ) (x : A) (xs : List A) → take n (x ∷ take n xs) ≡ take n (x ∷ xs)
  take-cons-take zero x xs = refl
  take-cons-take (suc n) x xs = ap (x ∷◌) (take-take n (suc n) xs (omega arith))

  -- `xs.find(test)`
  abbrev pub find : (A → Bool) → List A → Option A
  find test [] = none
  find test (x ∷ xs) = let rest = find test xs in if test x then some x else rest

  -- `xs.some(test)`
  abbrev pub any : (A → Bool) → List A → Bool
  any test [] = false
  any test (x ∷ xs) = test x || any test xs

  -- `xs[0]`
  abbrev pub first : List A → Option A
  first [] = none
  first (x ∷ xs) = some x

  -- The elements that pass the test.
  abbrev pub keep : (A → Bool) → List A → List A
  keep test [] = []
  keep test (x ∷ xs) = let rest = keep test xs in if test x then x ∷ rest else rest

  pub keep-append : (p : A → Bool) (xs ys : List A) → keep p (xs ++ ys) ≡ keep p xs ++ keep p ys
  keep-append p [] ys = refl
  keep-append p (x ∷ xs) ys = elim (Bool-cases (p x)) [
    | inl kept ↦ rw kept (ap (x ∷◌) (keep-append p xs ys))
    | inr gone ↦ rw gone (keep-append p xs ys)
  ]

  pub take-whole : (n : ℕ) (xs : List A) → length xs ≤ n → take n xs ≡ xs
  take-whole zero [] h = refl
  take-whole zero (x ∷ xs) h = absurd (omega arith)
  take-whole (suc n) [] h = refl
  take-whole (suc n) (x ∷ xs) h = ap (x ∷◌) (take-whole n xs (omega arith))

module _ {ℓ κ} {A : Type ℓ} (P : A → Type κ) where
  abbrev pub All : List A → Type κ
  All [] = Unit
  All (x ∷ xs) = P x × All xs

  pub All-append : (xs ys : List A) → All xs → All ys → All (xs ++ ys)
  All-append [] ys hx hy = hy
  All-append (x ∷ xs) ys hx hy = (hx.0, All-append xs ys hx.1 hy)

  pub All-parts : (xs ys : List A) → All (xs ++ ys) → All xs × All ys
  All-parts [] ys h = (tt, h)
  All-parts (x ∷ xs) ys h = ((h.0, (All-parts xs ys h.1).0), (All-parts xs ys h.1).1)

  pub All-keep : (p : A → Bool) (xs : List A) → All xs → All (keep p xs)
  All-keep p [] h = tt
  All-keep p (x ∷ xs) h = elim (Bool-cases (p x)) [
    | inl kept ↦ rw kept (h.0, All-keep p xs h.1)
    | inr gone ↦ rw gone (All-keep p xs h.1)
  ]

  pub All-take : (n : ℕ) (xs : List A) → All xs → All (take n xs)
  All-take zero xs h = tt
  All-take (suc n) [] h = tt
  All-take (suc n) (x ∷ xs) h = (h.0, All-take n xs h.1)

module _ {ℓ κ μ} {A : Type ℓ} {P : A → Type κ} {Q : A → Type μ} (f : (x : A) → P x → Q x) where
  pub All-map : (xs : List A) → All P xs → All Q xs
  All-map [] h = tt
  All-map (x ∷ xs) h = (f x h.0, All-map xs h.1)

module _ {ℓ} {A : Type ℓ} where
  pub keep-eq : (p q : A → Bool) (xs : List A) → All (λ x. p x ≡ q x) xs → keep p xs ≡ keep q xs
  keep-eq p q [] h = refl
  keep-eq p q (x ∷ xs) h = rw (h.0, keep-eq p q xs h.1)

  pub keep-none : (p : A → Bool) (xs : List A) → All (λ x. p x ≡ false) xs → keep p xs ≡ []
  keep-none p [] h = refl
  keep-none p (x ∷ xs) h = rw h.0 (keep-none p xs h.1)

  pub keep-all : (p : A → Bool) (xs : List A) → All (λ x. p x ≡ true) xs → keep p xs ≡ xs
  keep-all p [] h = refl
  keep-all p (x ∷ xs) h = rw h.0 (ap (x ∷◌) (keep-all p xs h.1))

  pub All-true : (P : A → Type 0) (f : (x : A) → P x) (xs : List A) → All P xs
  All-true P f [] = tt
  All-true P f (x ∷ xs) = (f x, All-true P f xs)

  -- An element of a list.
  abbrev pub Among : A → List A → Type ℓ
  Among x xs = (before : List A) × (after : List A) × (xs ≡ before ++ x ∷ after)

-- A list whose keys go up.
module _ {ℓ} {A : Type ℓ} (key : A → ℕ) where
  abbrev pub Ascends : List A → Type 0
  Ascends [] = Unit
  Ascends (x ∷ xs) = All (λ y. key x < key y) xs × Ascends xs

  pub Ascends-append :
      (n : ℕ) (xs ys : List A)
      → Ascends xs
      → Ascends ys
      → All (λ x. key x < n) xs
      → All (λ y. n ≤ key y) ys
      → Ascends (xs ++ ys)
  Ascends-append n [] ys hx hy lo hi = hy
  Ascends-append n (x ∷ xs) ys hx hy lo hi = (
    All-append (λ y. key x < key y) xs ys hx.0 (All-map (λ y h. omega (arith, lo.0)) ys hi),
    Ascends-append n xs ys hx.1 hy lo.1 hi,
  )

  pub Ascends-parts : (xs ys : List A) → Ascends (xs ++ ys) → Ascends xs × Ascends ys
  Ascends-parts [] ys h = (tt, h)
  Ascends-parts (x ∷ xs) ys h =
      let rest = Ascends-parts xs ys h.1 in
      (((All-parts (λ y. key x < key y) xs ys h.0).0, rest.0), rest.1)

  pub Ascends-keep : (p : A → Bool) (xs : List A) → Ascends xs → Ascends (keep p xs)
  Ascends-keep p [] h = tt
  Ascends-keep p (x ∷ xs) h = elim (Bool-cases (p x)) [
    | inl kept ↦ rw kept (All-keep (λ y. key x < key y) p xs h.0, Ascends-keep p xs h.1)
    | inr gone ↦ rw gone (Ascends-keep p xs h.1)
  ]

  pub Ascends-take : (n : ℕ) (xs : List A) → Ascends xs → Ascends (take n xs)
  Ascends-take zero xs h = tt
  Ascends-take (suc n) [] h = tt
  Ascends-take (suc n) (x ∷ xs) h = (All-take (λ y. key x < key y) n xs h.0, Ascends-take n xs h.1)
