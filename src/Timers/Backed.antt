-- ===== src/Timers/Backed.antt =====
-- The tables of server/internal/store/sqlite/timer.go with the ids that AUTOINCREMENT gives, and the
-- claimed timers that a worker holds.
use pushfree.Common.{ℕ, suc, ◌<◌, List, [], ◌∷◌, arith, All, if◌then◌else◌, ◌==◌}
use pushfree.Timers.{
  Timer, Table, create, claim_due, delete, claim_rows, default_batch, reset_orphaned_claims,
}
use pushfree.Timers.Exclusive.{Ascending, claim_rows-All}
use pushfree.Timers.Kept.{
  All-end, All-map, Ascending-end, All-delete_rows, Ascending-delete_rows, claim_rows-Touched,
  reset_rows-Touched, All-Touched, Ascending-Touched, Same, claim_rows-Same,
}

-- Ids ascend, and none was given that is still to be given.
abbrev pub Ordered : Table → Type 0
Ordered tab = Ascending tab.rows × All (λ u. u.id < tab.next_id) tab.rows

-- A claimed timer and the table.
abbrev pub Backed : Table → Timer → Type 0
Backed tab t = (t.id < tab.next_id) × All (Same t) tab.rows

pub create-Ordered : (t : Timer) (tab : Table) → Ordered tab → Ordered (create t tab)
unfolding create
create-Ordered t tab (up, below) = (
  Ascending-end tab.rows (record t { id = tab.next_id }) up below,
  All-end (λ u. u.id < suc tab.next_id) tab.rows (record t { id = tab.next_id })
      (All-map (λ u. u.id < tab.next_id) (λ u. u.id < suc tab.next_id) tab.rows
        (λ u lt. omega arith) below)
      (omega arith),
)

pub create-Backed :
    (new : Timer) (tab : Table) (t : Timer) → Backed tab t → Backed (create new tab) t
unfolding create
create-Backed new tab t (lt, same) = (
  omega arith,
  All-end (Same t) tab.rows (record new { id = tab.next_id }) same (λ e. absurd (omega arith)),
)

pub delete-Ordered : (id : ℕ) (tab : Table) → Ordered tab → Ordered (delete id tab)
unfolding delete
delete-Ordered id tab (up, below) = (
  Ascending-delete_rows id tab.rows up,
  All-delete_rows (λ u. u.id < tab.next_id) id tab.rows below,
)

pub delete-Backed : (id : ℕ) (tab : Table) (t : Timer) → Backed tab t → Backed (delete id tab) t
unfolding delete
delete-Backed id tab t (lt, same) = (lt, All-delete_rows (Same t) id tab.rows same)

pub claim_due-Ordered :
    (now limit : ℕ) (tab : Table) → Ordered tab → Ordered (claim_due now limit tab).1
unfolding claim_due
claim_due-Ordered now limit tab (up, below) =
    let changed = claim_rows-Touched now (if limit == 0 then default_batch else limit) tab.rows in
    (
      Ascending-Touched changed up,
      All-Touched (λ u. u.id < tab.next_id) (λ u at lt. lt) changed below,
    )

All-pair : (P Q : Timer → Type 0) (ts : List Timer) → All P ts → All Q ts → All (λ t. P t × Q t) ts
All-pair P Q [] p q = tt
All-pair P Q (t ∷ ts) (p, ps) (q, qs) = ((p, q), All-pair P Q ts ps qs)

pub claim_due-Backed :
    (now limit : ℕ) (tab : Table)
    → Ordered tab
    → let (batch, after) = claim_due now limit tab in All (Backed after) batch
unfolding claim_due
claim_due-Backed now limit tab (up, below) =
    let n = if limit == 0 then default_batch else limit in
    All-pair (λ t. t.id < tab.next_id) (λ t. All (Same t) (claim_rows now n tab.rows).1)
      (claim_rows now n tab.rows).0 (claim_rows-All (λ i. i < tab.next_id) now n tab.rows below).0
      (claim_rows-Same now n tab.rows up)

pub reset-Ordered : (tab : Table) → Ordered tab → Ordered (reset_orphaned_claims tab)
unfolding reset_orphaned_claims
reset-Ordered tab (up, below) = (
  Ascending-Touched (reset_rows-Touched tab.rows) up,
  All-Touched (λ u. u.id < tab.next_id) (λ u at lt. lt) (reset_rows-Touched tab.rows) below,
)
