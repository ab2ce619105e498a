-- ===== src/Timers/Handing.antt =====
-- Claims of server/internal/store/sqlite/timer.go one behind the other: every timer whose instant is past
-- is handed out.
use pushfree.Common.{
  ℕ, zero, suc, ◌+◌, ◌*◌, ◌^◌, ◌≤◌, true, none, some, List, [], ◌∷◌, ◌++◌, ◌≡◌, ◌⊎◌, ap, arith,
  length, Bool-cases, inl, inr, if◌then◌else◌, ◌==◌,
}
use pushfree.Timers.{Timer, Table, due, is_unclaimed, claim_rows, claim_due, default_batch}
use native.Mathlib.Nat.{suc-mul}
use pushfree.Timers.Order.{rfc3339_le_lem}
use pushfree.Timers.Claims.{due_count, claim_due-count, due_count-le}
use pushfree.Timers.Kept.{Any, Any-left}

-- What a number of claims at one instant hand out, one behind the other.
unfoldable pub handed : (now batch times : ℕ) → Table → List Timer
handed now batch zero tab = []
handed now batch (suc k) tab =
    (claim_due now batch tab).0 ++ handed now batch k (claim_due now batch tab).1

Any-right : (P : Timer → Type 0) (xs ys : List Timer) → Any P ys → Any P (xs ++ ys)
Any-right P [] ys h = h
Any-right P (x ∷ xs) ys h = inr (Any-right P xs ys h)

abbrev pub claimed : ℕ → Timer → Timer
claimed now t = record t { claimed_at = some now }

-- A due timer is handed out or stays as it is.
abbrev Either : (now : ℕ) → Timer → List Timer → List Timer → Type 0
Either now t out left = Any (λ r. r ≡ claimed now t) out ⊎ Any (λ r. r ≡ t) left

Either-more :
    (now : ℕ) (t u v : Timer) (out left : List Timer)
    → Either now t out left
    → Either now t (u ∷ out) (v ∷ left)
Either-more now t u v out left (inl h) = inl (inr h)
Either-more now t u v out left (inr h) = inr (inr h)

Either-skip :
    (now : ℕ) (t v : Timer) (out left : List Timer)
    → Either now t out left
    → Either now t out (v ∷ left)
Either-skip now t v out left (inl h) = inl h
Either-skip now t v out left (inr h) = inr (inr h)

claim_rows-Either :
    (now limit : ℕ) (t : Timer) (ts : List Timer)
    → due now t ≡ true
    → Any (λ r. r ≡ t) ts
    → Either now t (claim_rows now limit ts).0 (claim_rows now limit ts).1
unfolding claim_rows
claim_rows-Either now zero t ts ripe h = inr h
claim_rows-Either now (suc n) t [] ripe h = absurd h
claim_rows-Either now (suc n) t (u ∷ ts) ripe (inl is) =
    let mine : due now u ≡ true = rw is ripe in rw mine (inl (inl (ap (claimed now) is)))
claim_rows-Either now (suc n) t (u ∷ ts) ripe (inr h) = elim (Bool-cases (due now u)) [
  | inl also ↦ rw also (
      Either-more now t (claimed now u) (claimed now u) (claim_rows now n ts).0
        (claim_rows now n ts).1 (claim_rows-Either now n t ts ripe h))
  | inr not_yet ↦ rw not_yet (
      Either-skip now t u (claim_rows now (suc n) ts).0 (claim_rows now (suc n) ts).1
        (claim_rows-Either now (suc n) t ts ripe h))
]

claim_due-Either :
    (now batch : ℕ) (t : Timer) (tab : Table)
    → due now t ≡ true
    → Any (λ r. r ≡ t) tab.rows
    → Either now t (claim_due now batch tab).0 (claim_due now batch tab).1.rows
unfolding claim_due
claim_due-Either now batch t tab =
    claim_rows-Either now (if batch == 0 then default_batch else batch) t tab.rows

due_count-pos :
    (now : ℕ) (t : Timer) (ts : List Timer)
    → due now t ≡ true
    → Any (λ r. r ≡ t) ts
    → 1 ≤ due_count now ts
due_count-pos now t [] ripe h = absurd h
due_count-pos now t (u ∷ ts) ripe (inl is) =
    let mine : due now u ≡ true = rw is ripe in rw mine (omega arith)
due_count-pos now t (u ∷ ts) ripe (inr h) = ground (arith, due_count-pos now t ts ripe h)

due-handed :
    (now batch times : ℕ) (t : Timer) (tab : Table)
    → 1 ≤ batch
    → due now t ≡ true
    → Any (λ r. r ≡ t) tab.rows
    → due_count now tab.rows ≤ times * batch
    → Any (λ r. r ≡ claimed now t) (handed now batch times tab)
unfolding handed
due-handed now batch zero t tab h ripe there few =
    absurd (omega (arith, due_count-pos now t tab.rows ripe there))
due-handed now batch (suc k) t tab h ripe there few =
    let (out, after) = claim_due now batch tab in
    elim (claim_due-Either now batch t tab ripe there) [
      | inl now_out ↦ Any-left (λ r. r ≡ claimed now t) out (handed now batch k after) now_out
      | inr stays ↦
          Any-right (λ r. r ≡ claimed now t) out (handed now batch k after)
            (due-handed now batch k t after h ripe stays
              (omega (arith, claim_due-count now batch tab h, suc-mul k batch)))
    ]

past-due : (now : ℕ) (t : Timer) → t.claimed_at ≡ none → t.fire_at + 10 ^ 9 ≤ now → due now t ≡ true
unfolding due is_unclaimed
past-due now t free late = rw ((rfc3339_le_lem t.fire_at now).1 late, free)

-- Whatever else stands in the table: a timer that nobody has claimed and that is a second past or more
-- is among those that claims in batches at that instant hand out, with the mark of the claim, where
-- `times * batch` is the size of the table or more.
pub handed_lem :
    (now batch times : ℕ) (t : Timer) (tab : Table)
    → 1 ≤ batch
    → length tab.rows ≤ times * batch
    → Any (λ r. r ≡ t) tab.rows
    → t.claimed_at ≡ none
    → t.fire_at + 10 ^ 9 ≤ now
    → Any (λ r. r ≡ record t { claimed_at = some now }) (handed now batch times tab)
handed_lem now batch times t tab given enough there free late =
    due-handed now batch times t tab given (past-due now t free late) there
      (omega (arith, due_count-le now tab.rows))
