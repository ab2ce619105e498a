-- ===== src/Timers/Exclusive.antt =====
-- Two claims of server/internal/store/sqlite/timer.go, one behind the other: no timer is handed out
-- twice.
use pushfree.Common.{
  ℕ, zero, suc, ◌<◌, false, some, List, [], ◌∷◌, ◌≡◌, ◌≢◌, refl, arith, All, Bool-cases, inl, inr,
}
use pushfree.Timers.{Timer, due, claim_rows}
use pushfree.Timers.Claims.{due-claimed}

-- The ids are in ascending order, as the table's key.
abbrev pub Ascending : List Timer → Type 0
Ascending [] = Unit
Ascending (t ∷ ts) = All (λ u. t.id < u.id) ts × Ascending ts

-- What holds of all ids holds of the ids that are handed out, and of those that are left.
pub claim_rows-All :
    (P : ℕ → Type 0) (now limit : ℕ) (ts : List Timer)
    → All (λ t. P t.id) ts
    → All (λ t. P t.id) (claim_rows now limit ts).0 × All (λ t. P t.id) (claim_rows now limit ts).1
unfolding claim_rows
claim_rows-All P now zero ts h = (tt, h)
claim_rows-All P now (suc n) [] h = (tt, tt)
claim_rows-All P now (suc n) (t ∷ ts) (ht, hs) = elim (Bool-cases (due now t)) [
  | inl ripe ↦
      let (handed, left) = claim_rows-All P now n ts hs in rw ripe ((ht, handed), (ht, left))
  | inr not_yet ↦
      let (handed, left) = claim_rows-All P now (suc n) ts hs in rw not_yet (handed, (ht, left))
]

abbrev pub Distinct : List Timer → List Timer → Type 0
Distinct xs ys = All (λ y. All (λ x. x.id ≢ y.id) xs) ys

Distinct-nil : (ys : List Timer) → Distinct [] ys
Distinct-nil [] = tt
Distinct-nil (y ∷ ys) = (tt, Distinct-nil ys)

Distinct-below :
    (t : Timer) (xs ys : List Timer)
    → All (λ y. t.id < y.id) ys
    → Distinct xs ys
    → Distinct (t ∷ xs) ys
Distinct-below t xs [] lt d = tt
Distinct-below t xs (y ∷ ys) (lt, lts) (d, ds) =
    (((λ e. absurd (omega arith)), d), Distinct-below t xs ys lts ds)

above-other : (t : Timer) (xs : List Timer) → All (λ x. t.id < x.id) xs → All (λ x. x.id ≢ t.id) xs
above-other t [] h = tt
above-other t (x ∷ xs) (h, hs) = ((λ e. absurd (omega arith)), above-other t xs hs)

-- A timer that is not due is not handed out.
claim_rows-skip :
    (now limit : ℕ) (t : Timer) (ts : List Timer)
    → due now t ≡ false
    → (claim_rows now limit (t ∷ ts)).0 ≡ (claim_rows now limit ts).0
unfolding claim_rows
claim_rows-skip now zero t ts h = refl
claim_rows-skip now (suc n) t ts h = rw h refl

-- A list beside what a claim hands out of a timer and others, which are all above it.
beside_cons :
    (later more : ℕ) (t : Timer) (xs ts : List Timer)
    → All (λ x. x.id ≢ t.id) xs
    → ((k : ℕ) → Distinct xs (claim_rows later k ts).0)
    → Distinct xs (claim_rows later more (t ∷ ts)).0
unfolding claim_rows
beside_cons later zero t xs ts other d = tt
beside_cons later (suc k) t xs ts other d = elim (Bool-cases (due later t)) [
  | inl ripe ↦ rw ripe (other, d k)
  | inr not_yet ↦ rw not_yet (d (suc k))
]

-- Of two workers that claim one behind the other, at whatever instants and with whatever batches, none
-- is handed a timer that the other is handed.
pub claim_rows-Distinct :
    (now later limit more : ℕ) (ts : List Timer)
    → Ascending ts
    → Distinct (claim_rows now limit ts).0 (claim_rows later more (claim_rows now limit ts).1).0
unfolding claim_rows
claim_rows-Distinct now later zero more ts h = Distinct-nil (claim_rows later more ts).0
claim_rows-Distinct now later (suc n) more [] h = Distinct-nil (claim_rows later more []).0
claim_rows-Distinct now later (suc n) more (t ∷ ts) (above, h) = elim (Bool-cases (due now t)) [
  | inl ripe ↦
      let (handed, left) = claim_rows-All (λ i. t.id < i) now n ts above in
      let taken : Timer = record t { claimed_at = some now } in
      rw (ripe, claim_rows-skip later more taken (claim_rows now n ts).1 (due-claimed later now t))
        (Distinct-below taken (claim_rows now n ts).0
          (claim_rows later more (claim_rows now n ts).1).0
          (claim_rows-All (λ i. t.id < i) later more (claim_rows now n ts).1 left).0
          (claim_rows-Distinct now later n more ts h))
  | inr not_yet ↦
      let (handed, left) = claim_rows-All (λ i. t.id < i) now (suc n) ts above in
      rw not_yet (
        beside_cons later more t (claim_rows now (suc n) ts).0 (claim_rows now (suc n) ts).1
          (above-other t (claim_rows now (suc n) ts).0 handed)
          (λ k. claim_rows-Distinct now later (suc n) k ts h))
]
