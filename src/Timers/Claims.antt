-- ===== src/Timers/Claims.antt =====
-- The claim of server/internal/store/sqlite/timer.go: how many timers it hands out.
use pushfree.Common.{
  ℕ, zero, suc, ◌+◌, ◌-◌, ◌≤◌, false, some, List, [], ◌∷◌, ◌≡◌, refl, arith, length, min,
  Bool-cases, inl, inr, if◌then◌else◌, ◌==◌,
}
use pushfree.Timers.{Timer, Table, due, rfc3339_le, claim_rows, claim_due}

-- How many timers are due.
abbrev pub due_count : (now : ℕ) → List Timer → ℕ
due_count now [] = 0
due_count now (t ∷ ts) = (if due now t then 1 else 0) + due_count now ts

-- A timer that is claimed is not due.
pub due-claimed : (now at : ℕ) (t : Timer) → due now (record t { claimed_at = some at }) ≡ false
unfolding due
due-claimed now at t = elim (Bool-cases (rfc3339_le t.fire_at now)) [
  | inl late ↦ rw late refl
  | inr early ↦ rw early refl
]

-- A claim hands out as many of the due timers as its limit allows, and as many fewer are due.
claim_rows-count :
    (now limit : ℕ) (ts : List Timer)
    → (length (claim_rows now limit ts).0 ≡ min limit (due_count now ts))
      × (due_count now (claim_rows now limit ts).1 ≡ due_count now ts - limit)
unfolding claim_rows
claim_rows-count now zero ts = (omega arith, omega arith)
claim_rows-count now (suc n) [] = (omega arith, omega arith)
claim_rows-count now (suc n) (t ∷ ts) = elim (Bool-cases (due now t)) [
  | inl ripe ↦
      let (handed, left) = claim_rows-count now n ts in
      rw (ripe, due-claimed now now t) (omega (arith, handed), omega (arith, left))
  | inr not_yet ↦
      let (handed, left) = claim_rows-count now (suc n) ts in
      rw (not_yet, not_yet) (omega (arith, handed), omega (arith, left))
]

pub due_count-le : (now : ℕ) (ts : List Timer) → due_count now ts ≤ length ts
due_count-le now [] = omega arith
due_count-le now (t ∷ ts) = ground (arith, due_count-le now ts)

pub claim_due-count :
    (now batch : ℕ) (tab : Table)
    → 1 ≤ batch
    → due_count now (claim_due now batch tab).1.rows ≡ due_count now tab.rows - batch
unfolding claim_due
claim_due-count now batch tab h =
    let given : (batch == 0) ≡ false = ground arith in
    rw given ((claim_rows-count now batch tab.rows).1)
