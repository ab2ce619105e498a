-- ===== src/QuotaManager/Overlap.antt =====
-- Two sends of one user at a time, in server/internal/api/messages.go: the gate only reads, so both can
-- pass it before either is charged.
use pushfree.Common.{ℕ, ◌+◌, ◌≤◌, ◌<◌, true, false, List, ◌≡◌, arith}
use pushfree.QuotaManager.{Location, period, Counter, get, increment, charge}
use pushfree.QuotaManager.Counters.{get-increment_same}
use pushfree.QuotaManager.Sends.{monthly_limit, quota_manager, precharge_quota}

-- The counters behind two sends whose gates both ran before their charges.
abbrev pub overlapped : Location → (now u n k : ℕ) → List Counter → List Counter
overlapped central now u n k cs =
    (charge (quota_manager central) now false u k
      (charge (quota_manager central) now false u n cs).1).1

-- Two sends that are each within what remains of the month and are not so together: where both gates
-- run before the charges, both allow, and the count behind the charges is above the limit. One after
-- the other, the second is refused.
pub overlapped-limit :
    (central : Location) (now u n k : ℕ) (cs : List Counter)
    → 1 ≤ n
    → 1 ≤ k
    → let c = get u (period central now) cs in
      c + n ≤ monthly_limit
      → c + k ≤ monthly_limit
      → monthly_limit < c + n + k
      → (precharge_quota central now false u n cs ≡ true)
        × (precharge_quota central now false u k cs ≡ true)
        × (get u (period central now) (overlapped central now u n k cs) ≡ c + n + k)
        × (precharge_quota central now false u k (charge (quota_manager central) now false u n cs).1
            ≡ false)
unfolding precharge_quota charge
overlapped-limit central now u n k cs n1 k1 fits_n fits_k both =
    let p = period central now in
    let first = get-increment_same u p n cs in
    (
      ground arith,
      ground arith,
      ground (arith, first, get-increment_same u p k (increment u p n cs)),
      ground (arith, first),
    )
