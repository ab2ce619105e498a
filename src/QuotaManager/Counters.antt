-- ===== src/QuotaManager/Counters.antt =====
-- The counters of server/internal/store/sqlite/quota.go as a map from a user and a month, and what
-- the manager reads of them behind what it wrote.
use pushfree.Common.{
  ℕ, zero, suc, ◌+◌, ◌≤◌, true, false, some, List, [], ◌∷◌, ◌≡◌, ◌==◌, ◌&&◌, refl, if◌then◌else◌,
  arith,
}
use pushfree.QuotaManager.{period, Counter, get, increment, Manager, allow, charge}

-- Reading behind an increment: the key's count has grown by the delta, and no other has changed.
pub get-increment :
    (u p delta v q : ℕ) (cs : List Counter)
    → get v q (increment u p delta cs)
      ≡ (if (u == v) && (p == q) then get v q cs + delta else get v q cs)
unfolding get increment
get-increment u p delta v q [] = ground arith
get-increment u p delta v q (c ∷ cs) = ground (arith, get-increment u p delta v q cs)

pub get-increment_same :
    (u p delta : ℕ) (cs : List Counter) → get u p (increment u p delta cs) ≡ get u p cs + delta
get-increment_same u p delta cs = ground (arith, get-increment u p delta u p cs)

-- What the gate promises is what the charge behind it finds: where a number of recipients is allowed,
-- charging them in the same month leaves what the gate said would remain, and the count of that user
-- and month has grown by exactly their number and is within the limit; no other count has changed.
pub charge-allow :
    (m : Manager) (t1 t2 u n : ℕ) (cs : List Counter)
    → (allow m t1 false u n cs).allowed ≡ true
    → period m.loc t1 ≡ period m.loc t2
    → let (left, after) = charge m t2 false u n cs in
      (left ≡ some (allow m t1 false u n cs).remaining_after)
      × (get u (period m.loc t2) after ≡ get u (period m.loc t2) cs + n)
      × (1 ≤ n → get u (period m.loc t2) after ≤ m.limit)
      × ((v q : ℕ) → ((u == v) && (period m.loc t2 == q)) ≡ false → get v q after ≡ get v q cs)
unfolding allow charge
charge-allow m t1 t2 u zero cs h same =
    rw same (refl, ground arith, λ h. absurd (omega arith), λ v q h. refl)
charge-allow m t1 t2 u (suc n) cs h same =
    let p = period m.loc t2 in
    (
      ground (arith, same, get-increment_same u p (suc n) cs),
      ground (arith, get-increment_same u p (suc n) cs),
      λ _. ground (arith, same, get-increment_same u p (suc n) cs),
      λ v q other. ground (arith, other, get-increment u p (suc n) v q cs),
    )
