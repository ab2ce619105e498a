-- ===== src/Receipts/Rows.antt =====
-- The statements on a receipt's row: server/internal/store/sqlite/receipt_retry.go, receipt_ack.go,
-- receipt.go and cancel.go. A row is the one that `WHERE id = ?` picks, and an `UPDATE` with a guard
-- on the state changes it or leaves it. Instants are nanoseconds.
pub mod Laws
use pushfree.Common.{ℕ, suc, String, Bool, true, false, Option, none, some, if◌then◌else◌}
use pushfree.Text.{truthy}
use pushfree.Receipts.{State, pending, delivered, acknowledged, expired, canceled, same}

pub record Row : Type 0 where
  pub state : State
  pub retry_count : ℕ
  pub last_delivered_at : Option ℕ
  pub acknowledged_at : Option ℕ
  pub acknowledged_by : Option String
  pub acknowledged_by_device : Option String
  pub expired_at : Option ℕ
  pub canceled_at : Option ℕ

pub record Snapshot : Type 0 where
  pub state : State
  pub retry_count : ℕ

unfoldable pub get_receipt : Row → Snapshot
get_receipt r = record { state = r.state; retry_count = r.retry_count }

-- `state IN ('pending','delivered')`
unfoldable pub is_open : State → Bool
is_open pending = true
is_open delivered = true
is_open _ = false

unfoldable pub increment_retry : (at : ℕ) → Row → Row
unfolding is_open
increment_retry at r =
    if is_open r.state
    then record r { retry_count = suc r.retry_count; last_delivered_at = some at }
    else r

unfoldable pub set_expired : (at : ℕ) → Row → Row
unfolding is_open
set_expired at r = if is_open r.state then record r { state = expired; expired_at = some at } else r

-- `optStr`: the empty text is stored as NULL.
opt_str : String → Option String
opt_str t = if truthy t then some t else none

unfoldable pub acknowledge : (by device : String) (at : ℕ) → Row → Row
unfolding is_open opt_str
acknowledge by device at r =
    if is_open r.state
    then record r {
      state = acknowledged;
      acknowledged_at = some at;
      acknowledged_by = opt_str by;
      acknowledged_by_device = opt_str device;
    }
    else r

unfoldable pub mark_last_delivered : (at : ℕ) → Row → Row
mark_last_delivered at r = elim r.last_delivered_at [
  | none ↦ record r { last_delivered_at = some at }
  | some _ ↦ r
]

-- The row, and whether it was updated.
unfoldable pub cancel_pending : (at : ℕ) → Row → Row × Bool
unfolding same
cancel_pending at r =
    if same r.state pending
    then (record r { state = canceled; canceled_at = some at }, true)
    else (r, false)
