-- ===== src/Timers/Tick.antt =====
-- What one firing of a retry timer does to a receipt: server/internal/timers/retry.go over the tick of
-- server/internal/receipts/scheduler.go.
use pushfree.Common.{
  ℕ, true, false, Option, some, ◌≡◌, refl, arith, Bool-cases, Option-cases, inl, inr,
}
use pushfree.Receipts.{terminal}
use pushfree.Receipts.Rows.{Row, get_receipt, is_open, set_expired, increment_retry}
use pushfree.Receipts.Rows.Laws.{closed}
use pushfree.Receipts.Scheduler.{
  RetryPolicy, Event, nothing, done, retry, expire, Faults, tick, act, decide, expired_at, is_early,
}

decide-done :
    (created_at now : ℕ) (policy : RetryPolicy) (r : Row)
    → decide created_at now policy (get_receipt r) ≡ done
    → terminal r.state ≡ true
unfolding decide get_receipt
decide-done created_at now policy r h =
    let snap = get_receipt r in
    elim (Bool-cases (terminal r.state)) [
      | inl over ↦ over
      | inr live ↦ elim (Option-cases (expired_at created_at now snap.retry_count policy)) [
        | inr (reason, is) ↦ cc (rw (live, is) at h)
        | inl within ↦ elim (Bool-cases (is_early created_at now snap.retry_count policy)) [
          | inl early ↦ cc (rw (live, within, early) at h)
          | inr ripe ↦ cc (rw (live, within, ripe) at h)
        ]
      ]
    ]

-- An event after which no timer follows leaves the receipt closed.
abbrev pub Over : Option Event → Row → Type 0
Over (some done) r = is_open r.state ≡ false
Over (some (expire at reason)) r = is_open r.state ≡ false
Over _ r = Unit

set_expired-closed : (at : ℕ) (r : Row) → is_open (set_expired at r).state ≡ false
unfolding set_expired is_open
set_expired-closed at r = ground arith

abbrev pub Kept : Row → Row → Type 0
Kept r r' = is_open r.state ≡ false → is_open r'.state ≡ false

increment_retry-Kept : (at : ℕ) (r : Row) → Kept r (increment_retry at r)
unfolding increment_retry
increment_retry-Kept at r h = rw h h

act-Over :
    (f : Faults) (e : Event) (r : Row)
    → (e ≡ done → terminal r.state ≡ true)
    → Kept r (act f e r).1 × Over (act f e r).0 (act f e r).1
unfolding act
act-Over f nothing r h = (λ c. c, tt)
act-Over f done r h = (λ c. c, (closed r.state (h refl)).0)
act-Over f (expire at reason) r h = elim (Bool-cases f.write_fails) [
  | inl lost ↦ rw lost (λ c. c, tt)
  | inr kept ↦ rw kept (λ c. set_expired-closed at r, set_expired-closed at r)
]
act-Over f (retry at attempt) r h = elim (Bool-cases f.redeliver_fails) [
  | inl unsent ↦ rw unsent (λ c. c, tt)
  | inr sent ↦ elim (Bool-cases f.write_fails) [
    | inl lost ↦ rw (sent, lost) (λ c. c, tt)
    | inr kept ↦ rw (sent, kept) (increment_retry-Kept at r, tt)
  ]
]

-- A tick does not open a receipt, and where no timer follows it, the receipt is closed.
pub tick-Over :
    (created_at now : ℕ) (policy : RetryPolicy) (f : Faults) (r : Row)
    → let (e, r') = tick created_at now policy f r in Kept r r' × Over e r'
unfolding tick
tick-Over created_at now policy f r = elim (Bool-cases f.read_fails) [
  | inl unread ↦ rw unread (λ c. c, tt)
  | inr known ↦ rw known (
      act-Over f (decide created_at now policy (get_receipt r)) r
        (decide-done created_at now policy r))
]
