-- ===== src/Receipts/Scheduler/Ending.antt =====
-- The end of the attempts of server/internal/receipts/scheduler.go.
use pushfree.Common.{
  ℕ, suc, ◌+◌, ◌*◌, ◌≤◌, ◌<◌, true, false, List, [], ◌∷◌, ◌≡◌, refl, ap, ◌∙◌, ltb, leb, arith, ◌⊎◌,
  Bool-cases, inl, inr, length,
}
use pushfree.Receipts.{
  State, pending, delivered, acknowledged, expired, canceled, unknown, terminal,
}
use pushfree.Receipts.Rows.{Row, get_receipt, is_open, increment_retry, set_expired}
use pushfree.Receipts.Scheduler.{RetryPolicy, Faults, act, tick}
use pushfree.Receipts.Scheduler.Policy.{Limits}
use pushfree.Receipts.Scheduler.Decisions.{decide_lem}

abbrev pub no_faults : Faults
no_faults = record { read_fails = false; redeliver_fails = false; write_fails = false }

module _ (created_at interval : ℕ) (policy : RetryPolicy) where
  -- Ticks that are each late by some delay after the instant at which the next attempt is due, with
  -- nothing else writing the row.
  unfoldable pub run_due : (delays : List ℕ) → Row → Row
  run_due [] r = r
  run_due (d ∷ ds) r =
      run_due ds (tick created_at (created_at + r.retry_count * interval + d) policy no_faults r).1

open-terminal : (a : State) → is_open a ≡ true → terminal a ≡ false
unfolding is_open terminal
open-terminal pending h = ground arith
open-terminal delivered h = ground arith
open-terminal acknowledged h = ground arith
open-terminal expired h = ground arith
open-terminal canceled h = ground arith
open-terminal (unknown t) h = ground arith

module _ {policy : RetryPolicy} {interval expiry attempts : ℕ}
    (limits : Limits policy interval expiry attempts) (created_at : ℕ) where
  -- Such a tick on a live receipt expires it or makes an attempt.
  due-tick :
      (d : ℕ) (r : Row)
      → is_open r.state ≡ true
      → let r' =
          (tick created_at (created_at + r.retry_count * interval + d) policy no_faults r).1 in
        (r'.state ≡ expired)
        ⊎ ((r'.state ≡ r.state) × (r'.retry_count ≡ suc r.retry_count) × (r.retry_count < attempts))
  unfolding tick act get_receipt increment_retry set_expired
  due-tick d r live =
      let now = created_at + r.retry_count * interval + d in
      let alive = open-terminal r.state live in
      let decisions = decide_lem limits created_at now (get_receipt r) in
      elim (Bool-cases (leb attempts r.retry_count)) [
        | inl full ↦ inl (rw (decisions.1.1 (alive, ground arith), live))
        | inr room ↦ elim (Bool-cases (ltb now (created_at + expiry))) [
          | inl in_time ↦ inr (
              rw (decisions.4.1 (alive, ground arith, ground arith, omega arith), live)
                (refl, refl, ground arith))
          | inr late ↦ inl (rw (decisions.2.1 (alive, ground arith, ground arith), live))
        ]
      ]

  over-tick :
      (now : ℕ) (r : Row)
      → r.state ≡ expired
      → (tick created_at now policy no_faults r).1.state ≡ expired
  unfolding tick act get_receipt terminal
  over-tick now r over =
      let stop = (decide_lem limits created_at now (get_receipt r)).0.1 (ap terminal over) in
      rw stop over

  over-run_due :
      (ds : List ℕ) (r : Row)
      → r.state ≡ expired
      → (run_due created_at interval policy ds r).state ≡ expired
  unfolding run_due
  over-run_due [] r over = over
  over-run_due (d ∷ ds) r over = over-run_due ds _ (over-tick _ r over)

  -- Under a policy whose products do not wrap around: a live receipt that nobody acknowledges or
  -- cancels, and whose ticks succeed and are none of them early, is expired once there were more ticks
  -- than attempts left, however late each of them was.
  pub run_due-expired :
      (ds : List ℕ) (r : Row)
      → is_open r.state ≡ true
      → r.retry_count ≤ attempts
      → attempts < r.retry_count + length ds
      → (run_due created_at interval policy ds r).state ≡ expired
  unfolding run_due
  run_due-expired [] r live few many = absurd (omega arith)
  run_due-expired (d ∷ ds) r live few many = elim (due-tick d r live) [
    | inl over ↦ over-run_due ds _ over
    | inr (same, more, room) ↦
        run_due-expired ds _ (ap is_open same ∙ live) (omega (arith, more)) (omega (arith, more))
  ]
