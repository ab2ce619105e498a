-- ===== src/Receipts/Scheduler/Delivered.antt =====
-- The state `delivered` of a receipt under the statements that write the row.
use pushfree.Common.{ℕ, String, true, ◌≡◌, ◌≢◌, sym, subst, arith, Option-cases, inl, inr}
use pushfree.Receipts.{pending, delivered, same}
use pushfree.Receipts.Rows.{
  Row, increment_retry, set_expired, acknowledge, mark_last_delivered, cancel_pending,
}
use pushfree.Receipts.Scheduler.{RetryPolicy, decide}
use pushfree.Receipts.Scheduler.Runs.{
  Sys, Runs, begin, acked, cancelled, marked, read, written, Wrote, act-Wrote,
}

writes :
    (at : ℕ) (by device : String) (r : Row)
    → r.state ≢ delivered
    → ((set_expired at r).state ≢ delivered)
      × ((acknowledge by device at r).state ≢ delivered)
      × ((cancel_pending at r).0.state ≢ delivered)
      × ((increment_retry at r).state ≢ delivered)
      × ((mark_last_delivered at r).state ≢ delivered)
unfolding set_expired acknowledge cancel_pending increment_retry mark_last_delivered
writes at by device r h = (
  ground arith,
  ground arith,
  ground arith,
  ground arith,
  elim (Option-cases r.last_delivered_at) [ inl unset ↦ rw unset h | inr (t, set) ↦ rw set h ],
)

module _ (created_at : ℕ) (policy : RetryPolicy) (start : Sys)
    (fresh : start.row.state ≢ delivered) where
  undelivered : {s : Sys} → Runs created_at policy start s → s.row.state ≢ delivered
  unfolding Wrote
  undelivered begin = fresh
  undelivered (acked {s} by device at r) = (writes at by device s.row (undelivered r)).1
  undelivered (cancelled {s} at r) = (writes at "" "" s.row (undelivered r)).2
  undelivered (marked {s} at r) = (writes at "" "" s.row (undelivered r)).4
  undelivered (read r free) = undelivered r
  undelivered (written {s} snap now f r claim) =
      let Undelivered : Row → Type 0 = λ x. x.state ≢ delivered in
      elim (act-Wrote f (decide created_at now policy snap) s.row) [
        | inl kept ↦ subst Undelivered (sym kept) (undelivered r)
        | inr (inl (at, out)) ↦
            subst Undelivered (sym out) (writes at "" "" s.row (undelivered r)).0
        | inr (inr (at, k, again, bump)) ↦
            subst Undelivered (sym bump) (writes at "" "" s.row (undelivered r)).3
      ]

  -- From a receipt that is not `delivered`: whatever the ticks, the first delivery and the statements
  -- from elsewhere write, the receipt never becomes `delivered`; and while it is `pending`, however
  -- often it was delivered, it can be canceled.
  pub Runs-delivered :
      {s : Sys}
      → Runs created_at policy start s
      → (s.row.state ≢ delivered)
        × (s.row.state ≡ pending → (at : ℕ) → (cancel_pending at s.row).1 ≡ true)
  unfolding cancel_pending same
  Runs-delivered r = (undelivered r, λ waiting at. rw waiting)
