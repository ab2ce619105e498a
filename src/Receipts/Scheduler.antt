-- ===== src/Receipts/Scheduler.antt =====
-- server/internal/receipts/scheduler.go: the retry policy, and one tick of a receipt's scheduler.
-- Instants are nanoseconds, and a duration is an int64 of nanoseconds whose product wraps around.
pub mod Policy
pub mod Decisions
pub mod Runs
pub mod Delivered
pub mod Ending
use pushfree.Common.{
  ℕ, suc, ◌+◌, ◌*◌, ◌-◌, ◌%◌, ◌^◌, String, Bool, true, false, not, Option, none, some,
  if◌then◌else◌, ltb, leb, ℤ, pos, negsuc,
}
use pushfree.Receipts.{State, terminal}
use pushfree.Receipts.Rows.{Row, Snapshot, get_receipt, increment_retry, set_expired}

abbrev pub second : ℕ
second = 1000000000

abbrev pub default_retry_interval : ℕ
default_retry_interval = 30 * second

abbrev pub min_retry_interval : ℕ
min_retry_interval = 30 * second

abbrev pub default_expire : ℕ
default_expire = 10800 * second

abbrev pub max_expire : ℕ
max_expire = 10800 * second

abbrev pub max_attempts : ℕ
max_attempts = 50

pub record RetryPolicy : Type 0 where
  pub retry_interval : ℤ
  pub expire : ℤ
  pub attempts : ℤ

normal_interval : ℤ → ℤ
normal_interval (negsuc n) = pos min_retry_interval
normal_interval (pos n) = if ltb n min_retry_interval then pos min_retry_interval else pos n

normal_expire : ℤ → ℤ
normal_expire (negsuc n) = pos default_expire
normal_expire (pos n) =
    if leb n 0 then pos default_expire else if ltb max_expire n then pos max_expire else pos n

normal_attempts : ℤ → ℤ
normal_attempts (negsuc n) = pos max_attempts
normal_attempts (pos n) =
    if leb n 0 then pos max_attempts else if ltb max_attempts n then pos max_attempts else pos n

unfoldable pub normalize : RetryPolicy → RetryPolicy
unfolding normal_interval normal_expire normal_attempts
normalize p = record {
  retry_interval = normal_interval p.retry_interval;
  expire = normal_expire p.expire;
  attempts = normal_attempts p.attempts;
}

abbrev pub default_retry_policy : RetryPolicy
default_retry_policy = normalize record {
  retry_interval = pos default_retry_interval;
  expire = pos default_expire;
  attempts = pos max_attempts;
}

-- `now.Before(base.Add(d))`
unfoldable pub before : (now base : ℕ) → ℤ → Bool
before now base (pos d) = ltb now (base + d)
before now base (negsuc d) = ltb (now + suc d) base

-- An int64 from its 64 bits.
int64 : ℕ → ℤ
int64 n = if ltb (n % 2 ^ 64) (2 ^ 63) then pos (n % 2 ^ 64) else negsuc (2 ^ 64 - 1 - n % 2 ^ 64)

-- `time.Duration(count) * d`
unfoldable pub times : ℕ → ℤ → ℤ
unfolding int64
times count (pos d) = int64 (count * d)
times count (negsuc d) = int64 (2 ^ 64 - (count * suc d) % 2 ^ 64)

pub data ExpireReason : Type 0 where
  cap timeout : ExpireReason

-- `n >= limit`
at_least : ℕ → ℤ → Bool
at_least n (pos limit) = leb limit n
at_least n (negsuc limit) = true

unfoldable pub expired_at : (created_at now retry_count : ℕ) → RetryPolicy → Option ExpireReason
unfolding normalize before at_least
expired_at created_at now retry_count policy =
    if at_least retry_count (normalize policy).attempts
    then some cap
    else if not (before now created_at (normalize policy).expire)
    then some timeout
    else none

-- `now.Before(NextRetryAt(createdAt, retryCount, p))`
unfoldable pub is_early : (created_at now retry_count : ℕ) → RetryPolicy → Bool
unfolding normalize before times
is_early created_at now retry_count policy =
    before now created_at (times retry_count (normalize policy).retry_interval)

pub data Event : Type 0 where
  nothing done : Event
  retry : (at attempt : ℕ) → Event
  expire : (at : ℕ) → ExpireReason → Event

-- What a tick does with what it read, before it writes.
unfoldable pub decide : (created_at now : ℕ) → RetryPolicy → Snapshot → Event
unfolding expired_at is_early
decide created_at now policy snap =
    if terminal snap.state then done else elim (expired_at created_at now snap.retry_count policy) [
      | some reason ↦ expire now reason
      | none ↦
          if is_early created_at now snap.retry_count policy
          then nothing
          else retry now (suc snap.retry_count)
    ]

-- The store's errors, and the redelivery's, one flag for each step that may fail.
pub record Faults : Type 0 where
  pub read_fails : Bool
  pub redeliver_fails : Bool
  pub write_fails : Bool

-- The writes of a tick on the row as it is by then, and what the tick returns.
unfoldable pub act : Faults → Event → Row → Option Event × Row
act f nothing r = (some nothing, r)
act f done r = (some done, r)
act f (expire at reason) r =
    if f.write_fails then (none, r) else (some (expire at reason), set_expired at r)
act f (retry at attempt) r =
    if f.redeliver_fails
    then (none, r)
    else if f.write_fails
    then (none, r)
    else (some (retry at attempt), increment_retry at r)

-- `Tick`, with nothing between its reading and its writing.
unfoldable pub tick : (created_at now : ℕ) → RetryPolicy → Faults → Row → Option Event × Row
unfolding decide act
tick created_at now policy f r =
    if f.read_fails then (none, r) else act f (decide created_at now policy (get_receipt r)) r
