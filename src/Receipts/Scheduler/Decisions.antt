-- ===== src/Receipts/Scheduler/Decisions.antt =====
-- What a tick of server/internal/receipts/scheduler.go decides.
use pushfree.Common.{
  ℕ, suc, ◌+◌, ◌*◌, ◌%◌, ◌^◌, ◌≤◌, ◌<◌, true, false, not, some, none, ◌≡◌, ◌↔◌, arith, Bool-cases,
  inl, inr, ltb, leb, if◌then◌else◌,
}
use native.Mathlib.Nat.{mul-le-mul_right}
use pushfree.Receipts.{terminal}
use pushfree.Receipts.Rows.{Snapshot}
use pushfree.Receipts.Scheduler.{
  RetryPolicy, times, before, at_least, int64, expired_at, is_early, nothing, done, retry, expire,
  cap, timeout, decide,
}
use pushfree.Receipts.Scheduler.Policy.{Limits}

module _ {policy : RetryPolicy} {interval expiry attempts : ℕ}
    (limits : Limits policy interval expiry attempts) where
  pub is_early_lem :
      (created_at now count : ℕ)
      → count ≤ attempts
      → is_early created_at now count policy ≡ ltb now (created_at + count * interval)
  unfolding is_early times before int64
  is_early_lem created_at now count h =
      let bound = mul-le-mul_right interval h in
      let fits : (count * interval) % 2 ^ 64 ≡ count * interval = omega (arith, limits.small) in
      let sign : ltb (count * interval) (2 ^ 63) ≡ true = ground (arith, limits.small) in
      rw (limits.normal_interval_eq, fits, sign)

  expired_at_lem :
      (created_at now count : ℕ)
      → expired_at created_at now count policy ≡ (
          if leb attempts count
          then some cap
          else if not (ltb now (created_at + expiry))
          then some timeout
          else none)
  unfolding expired_at at_least before
  expired_at_lem created_at now count = rw (limits.normal_attempts_eq, limits.normal_expire_eq)

  -- What the decision is, with the policy's numbers in place.
  pub decided :
      (created_at now : ℕ) (snap : Snapshot)
      → decide created_at now policy snap ≡ (
          if terminal snap.state
          then done
          else if leb attempts snap.retry_count
          then expire now cap
          else if not (ltb now (created_at + expiry))
          then expire now timeout
          else if ltb now (created_at + snap.retry_count * interval)
          then nothing
          else retry now (suc snap.retry_count))
  unfolding decide
  decided created_at now snap =
      let count = snap.retry_count in
      elim (Bool-cases (terminal snap.state)) [
        | inl over ↦ rw over
        | inr live ↦ elim (Bool-cases (leb attempts count)) [
          | inl full ↦ rw (live, expired_at_lem created_at now count, full)
          | inr room ↦
              let below : count ≤ attempts = ground arith in
              elim (Bool-cases (ltb now (created_at + expiry))) [
                | inl in_time ↦ rw (
                  live,
                  expired_at_lem created_at now count,
                  room,
                  in_time,
                  is_early_lem created_at now count below,
                )
                | inr late ↦ rw (live, expired_at_lem created_at now count, room, late)
              ]
        ]
      ]

  -- Under a policy whose products do not wrap around, a tick decides exactly one of five things: a
  -- terminal receipt is done; a live one is expired by the cap once all attempts are made, else by the
  -- timeout from `created_at + expire` on, else nothing is due before `created_at` plus one interval
  -- for each attempt made, and else the next attempt is made. The cap wins over the timeout, and the
  -- timeout over an attempt that is due at the same instant.
  pub decide_lem :
      (created_at now : ℕ) (snap : Snapshot)
      → let event = decide created_at now policy snap in
        let count = snap.retry_count in
        let live = terminal snap.state ≡ false in
        ((event ≡ done) ↔ (terminal snap.state ≡ true))
        × ((event ≡ expire now cap) ↔ (live × (attempts ≤ count)))
        × ((event ≡ expire now timeout) ↔ (live × (count < attempts) × (created_at + expiry ≤ now)))
        × ((event ≡ nothing) ↔ (
            live
            × (count < attempts)
            × (now < created_at + expiry)
            × (now < created_at + count * interval)))
        × ((event ≡ retry now (suc count)) ↔ (
            live
            × (count < attempts)
            × (now < created_at + expiry)
            × (created_at + count * interval ≤ now)))
  decide_lem created_at now snap = ground (arith, decided created_at now snap)
