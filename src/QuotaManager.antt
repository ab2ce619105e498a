-- ===== src/QuotaManager.antt =====
-- server/internal/quota/quota.go and server/internal/store/sqlite/quota.go: the monthly limit of a
-- user and the counters behind it. A month is its number, counted from a first month, which the text
-- `YYYY-MM` of the source names; a zone is a parameter, and an epoch is a count of seconds.
pub mod Counters
pub mod Sends
pub mod Overlap
pub mod Decimal
pub mod Answer
pub mod Shown
use pushfree.Common.{
  ℕ, suc, ◌+◌, ◌-◌, Bool, true, false, Option, none, some, List, [], ◌∷◌, ◌==◌, ◌&&◌, if◌then◌else◌,
  ltb, get_or, ℤ, pos, negsuc,
}

-- The month of an instant in the zone, and the first instant of a month.
pub record Location : Type 0 where
  pub month : ℕ → ℕ
  pub month_start : ℕ → ℕ

unfoldable pub period : Location → (now : ℕ) → ℕ
period loc now = loc.month now

unfoldable pub next_reset : Location → (now : ℕ) → ℕ
next_reset loc now = loc.month_start (suc (loc.month now))

-- A row of the table `quota_counters`.
pub record Counter : Type 0 where
  pub user_id : ℕ
  pub period : ℕ
  pub count : ℕ

abbrev pub is_key : (user_id period : ℕ) → Counter → Bool
is_key user_id period c = (c.user_id == user_id) && (c.period == period)

-- What `Get` reads: a period that was never touched has the count 0.
unfoldable pub get : (user_id period : ℕ) → List Counter → ℕ
get u p [] = 0
get u p (c ∷ cs) = let rest = get u p cs in if is_key u p c then c.count else rest

-- The row is created, or `delta` is added to it.
unfoldable pub increment : (user_id period delta : ℕ) → List Counter → List Counter
increment u p delta [] = record { user_id = u; period = p; count = delta } ∷ []
increment u p delta (c ∷ cs) =
    let rest = increment u p delta cs in
    if is_key u p c then record c { count = c.count + delta } ∷ cs else c ∷ rest

pub record Manager : Type 0 where
  pub limit : ℕ
  pub loc : Location

abbrev pub default_limit : ℕ
default_limit = 10000

unfoldable pub new_manager : (central : Location) (limit : ℤ) → Option Location → Manager
new_manager central (negsuc n) loc = record { limit = default_limit; loc = get_or loc central }
new_manager central (pos n) loc = record {
  limit = if ltb 0 n then n else default_limit;
  loc = get_or loc central;
}

-- `(count, limit, remaining, reset)` and whether there is an error with it.
pub record Snapshot : Type 0 where
  pub count : ℕ
  pub limit : ℕ
  pub remaining : ℕ
  pub reset : ℕ
  pub fails : Bool

-- `fails` says that the store cannot be read.
unfoldable pub snapshot : Manager → (now : ℕ) (fails : Bool) (user_id : ℕ) → List Counter → Snapshot
unfolding get period next_reset
snapshot m now true u cs = record {
  count = 0;
  limit = m.limit;
  remaining = 0;
  reset = next_reset m.loc now;
  fails = true;
}
snapshot m now false u cs = record {
  count = get u (period m.loc now) cs;
  limit = m.limit;
  remaining = m.limit - get u (period m.loc now) cs;
  reset = next_reset m.loc now;
  fails = false;
}

-- `(allowed, remainingAfter, reset)` and whether there is an error with it.
pub record Allowance : Type 0 where
  pub allowed : Bool
  pub remaining_after : ℕ
  pub reset : ℕ
  pub fails : Bool

allowance : ℕ → Snapshot → Allowance
allowance n s =
    if s.fails
    then record { allowed = false; remaining_after = 0; reset = s.reset; fails = true }
    else if n == 0
    then record { allowed = true; remaining_after = s.remaining; reset = s.reset; fails = false }
    else if ltb s.remaining n
    then record { allowed = false; remaining_after = 0; reset = s.reset; fails = false }
    else record {
      allowed = true;
      remaining_after = s.remaining - n;
      reset = s.reset;
      fails = false;
    }

-- `n` counts recipients, so that `n <= 0` is `n == 0`.
unfoldable pub allow : Manager → (now : ℕ) (fails : Bool) (user_id n : ℕ) → List Counter → Allowance
unfolding snapshot allowance
allow m now fails u n cs = allowance n (snapshot m now fails u cs)

-- What `Charge` returns, where there is no error, and the counters behind it. The count behind the
-- increment is read in its transaction.
unfoldable pub charge :
    Manager → (now : ℕ) (fails : Bool) (user_id n : ℕ) → List Counter → Option ℕ × List Counter
unfolding snapshot get increment period
charge m now true u n cs = (none, cs)
charge m now false u n cs = if n == 0 then (some (m.limit - get u (period m.loc now) cs), cs) else (
  some (m.limit - get u (period m.loc now) (increment u (period m.loc now) n cs)),
  increment u (period m.loc now) n cs,
)
