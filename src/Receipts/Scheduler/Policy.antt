-- ===== src/Receipts/Scheduler/Policy.antt =====
-- The limits of server/internal/receipts/scheduler.go, and what a tick decides under them.
use pushfree.Common.{
  ℕ, ◌*◌, ◌^◌, ◌≤◌, ◌<◌, ◌≡◌, refl, arith, ℤ, pos, negsuc, Bool-cases, inl, inr, ltb, leb,
}
use pushfree.Receipts.Scheduler.{
  RetryPolicy, normalize, min_retry_interval, max_expire, max_attempts, normal_interval,
  normal_expire, normal_attempts,
}

abbrev pub Between : ℕ → ℕ → ℤ → Type 0
Between lo hi (pos n) = (lo ≤ n) × (n ≤ hi)
Between lo hi (negsuc n) = ⊥

abbrev pub AtLeast : ℕ → ℤ → Type 0
AtLeast lo (pos n) = lo ≤ n
AtLeast lo (negsuc n) = ⊥

abbrev pub InRange : RetryPolicy → Type 0
InRange p =
    AtLeast min_retry_interval p.retry_interval
    × Between 1 max_expire p.expire
    × Between 1 max_attempts p.attempts

interval_in : (d : ℤ) → AtLeast min_retry_interval (normal_interval d)
unfolding normal_interval
interval_in (pos n) = elim (Bool-cases (ltb n min_retry_interval)) [
  | inl low ↦ rw low (omega arith)
  | inr high ↦ rw high (ground arith)
]
interval_in (negsuc n) = omega arith

expire_in : (d : ℤ) → Between 1 max_expire (normal_expire d)
unfolding normal_expire
expire_in (pos n) = elim (Bool-cases (leb n 0)) [
  | inl low ↦ rw low (omega arith, omega arith)
  | inr high ↦ elim (Bool-cases (ltb max_expire n)) [
    | inl above ↦ rw (high, above) (omega arith, omega arith)
    | inr below ↦ rw (high, below) (ground arith)
  ]
]
expire_in (negsuc n) = (omega arith, omega arith)

attempts_in : (d : ℤ) → Between 1 max_attempts (normal_attempts d)
unfolding normal_attempts
attempts_in (pos n) = elim (Bool-cases (leb n 0)) [
  | inl low ↦ rw low (omega arith, omega arith)
  | inr high ↦ elim (Bool-cases (ltb max_attempts n)) [
    | inl above ↦ rw (high, above) (omega arith, omega arith)
    | inr below ↦ rw (high, below) (ground arith)
  ]
]
attempts_in (negsuc n) = (omega arith, omega arith)

interval_kept : (d : ℤ) → AtLeast min_retry_interval d → normal_interval d ≡ d
unfolding normal_interval
interval_kept (pos n) h = ground arith
interval_kept (negsuc n) h = elim h [ ]

expire_kept : (d : ℤ) → Between 1 max_expire d → normal_expire d ≡ d
unfolding normal_expire
expire_kept (pos n) h = ground arith
expire_kept (negsuc n) h = elim h [ ]

attempts_kept : (d : ℤ) → Between 1 max_attempts d → normal_attempts d ≡ d
unfolding normal_attempts
attempts_kept (pos n) h = ground arith
attempts_kept (negsuc n) h = elim h [ ]

-- Whatever its fields, negative ones too, a normalized policy has an interval of at least 30 seconds,
-- a positive expiry of at most 3 hours, and 1 to 50 attempts; a policy within these limits is left as
-- it is.
pub normalize_lem : (p : RetryPolicy) → InRange (normalize p) × (InRange p → normalize p ≡ p)
unfolding normalize
normalize_lem p = (
  (interval_in p.retry_interval, expire_in p.expire, attempts_in p.attempts),
  λ (interval, expiry, attempts).
      rw
        (
          interval_kept p.retry_interval interval,
          expire_kept p.expire expiry,
          attempts_kept p.attempts attempts,
        )
        refl,
)

-- A policy whose normalized fields are these, and whose products do not wrap around.
pub record Limits (p : RetryPolicy) (interval expiry attempts : ℕ) : Type 0 where
  pub normal_interval_eq : (normalize p).retry_interval ≡ pos interval
  pub normal_expire_eq : (normalize p).expire ≡ pos expiry
  pub normal_attempts_eq : (normalize p).attempts ≡ pos attempts
  pub small : attempts * interval < 2 ^ 63
