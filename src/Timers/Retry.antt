-- ===== src/Timers/Retry.antt =====
-- server/internal/timers/retry.go: the handler of the timers of kind `retry`, as
-- server/cmd/pushfree/main.go registers it: the one handler of the engine, with the default policy and
-- without jitter. JSON of a payload is a parameter.
use pushfree.Common.{
  ℕ, suc, ◌+◌, ◌-◌, String, Bool, Option, none, some, ◌&&◌, not, if◌then◌else◌, str_eq, ℤ, pos,
  negsuc,
}
use pushfree.Accounts.{opt_str}
use pushfree.Receipts.Rows.{Row, get_receipt, cancel_pending}
use pushfree.Receipts.Scheduler.{
  RetryPolicy, normalize, default_retry_policy, times, Event, nothing, done, retry, expire, Faults,
  tick,
}
use pushfree.Timers.{
  Timer, Table, create, claim_due, delete, reset_orphaned_claims, delete_timers_of, Store, Fired,
  cancelled, unhandled, failed, undeleted, fired,
}

pub record RetryPayload : Type 0 where
  pub receipt_id : String
  pub created_at : ℕ

-- The rows of the receipts by their ids, and the table of the timers.
pub record World : Type 0 where
  pub receipts : String → Row
  pub table : Table

abbrev pub set_receipt : String → Row → World → World
set_receipt id row w = record w {
  receipts = λ other. if str_eq other id then row else w.receipts other;
}

abbrev pub on_table : (Table → Table) → World → World
on_table f w = record w { table = f w.table }

-- A cancellation of server/internal/receipts/cancel.go that reads the receipt as pending: the conditional
-- update, and where that changed the row, the deletion of the receipt's timers, whose failure is
-- swallowed.
unfoldable pub cancel_receipt : (delete_fails : Bool) (id : String) (at : ℕ) → World → World
unfolding cancel_pending delete_timers_of
cancel_receipt delete_fails id at w =
    let (row, ok) = cancel_pending at (w.receipts id) in
    let w' = set_receipt id row w in
    if ok && not delete_fails then on_table (delete_timers_of id) w' else w'

-- The engine's store, beside the receipts.
abbrev pub world_store : Store World
world_store = record {
  create_timer = λ t. on_table (create t);
  claim_due = λ now limit w.
      ((claim_due now limit w.table).0, record w { table = (claim_due now limit w.table).1 });
  delete_timer = λ id. on_table (delete id);
  reset_orphaned = on_table reset_orphaned_claims;
}

-- `t.Add(d)`
later_by : ℕ → ℤ → ℕ
later_by base (pos d) = base + d
later_by base (negsuc d) = base - suc d

unfoldable pub next_retry_at : (created_at retry_count : ℕ) → RetryPolicy → ℕ
unfolding later_by times normalize
next_retry_at created_at retry_count policy =
    later_by created_at (times retry_count (normalize policy).retry_interval)

-- Which of the steps of one firing fail: those of the tick, the second reading, the creation of the next
-- timer, and the deletion of the one that fired. `stops` is a context that is cancelled before.
pub record FiringFaults : Type 0 where
  pub stops : Bool
  pub tick : Faults
  pub recheck_fails : Bool
  pub create_fails : Bool
  pub delete_fails : Bool

-- The handler has returned nil, and the engine deletes the timer.
unfoldable pub finish : FiringFaults → World → Fired World
finish f w = if f.delete_fails then undeleted w else fired w

module _ (decode : String → Option RetryPayload) (encode : RetryPayload → String) where
  unfoldable pub next_timer : RetryPayload → (at : ℕ) → Timer
  unfolding opt_str
  next_timer p at = record {
    id = 0;
    kind = "retry";
    receipt_id = opt_str p.receipt_id;
    fire_at = at;
    payload = encode p;
    claimed_at = none;
  }

  unfoldable pub reschedule : FiringFaults → RetryPayload → (at : ℕ) → World → Fired World
  unfolding next_timer finish
  reschedule f p at w =
      if f.create_fails then failed w else finish f (on_table (create (next_timer p at)) w)

  -- What the handler does of the tick's event.
  unfoldable pub after_tick : FiringFaults → RetryPayload → Option Event → World → Fired World
  unfolding reschedule finish next_retry_at get_receipt
  after_tick f p none w = failed w
  after_tick f p (some done) w = finish f w
  after_tick f p (some (expire at reason)) w = finish f w
  after_tick f p (some (retry at attempt)) w =
      reschedule f p (next_retry_at p.created_at attempt default_retry_policy) w
  after_tick f p (some nothing) w =
      if f.recheck_fails
      then failed w
      else reschedule f p
          (next_retry_at p.created_at (get_receipt (w.receipts p.receipt_id)).retry_count
            default_retry_policy)
          w

  unfoldable pub retry_handler :
      (now : ℕ) → FiringFaults → Option RetryPayload → World → Fired World
  unfolding after_tick tick
  retry_handler now f none w = failed w
  retry_handler now f (some p) w =
      let (event, row) =
        tick p.created_at now default_retry_policy f.tick (w.receipts p.receipt_id) in
      after_tick f p event (set_receipt p.receipt_id row w)

  -- The engine's handlers. `now` is what the clock shows when a timer fires.
  unfoldable pub handlers : (Timer → ℕ) → (Timer → FiringFaults) → Timer → World → Fired World
  unfolding retry_handler
  handlers now faults t w =
      if (faults t).stops
      then cancelled
      else if str_eq t.kind "retry"
      then retry_handler (now t) (faults t) (decode t.payload) w
      else unhandled

  -- `SeedRetry` (server/internal/server/retry.go), where nothing fails: the policy that it makes of the
  -- two parameters of the request goes to the log alone.
  unfoldable pub seed_retry :
      (receipt_id : String) (retry_interval expire_seconds created_at : ℕ) → World → World
  unfolding next_timer
  seed_retry receipt_id retry_interval expire_seconds created_at =
      on_table (
        create
          (next_timer (record { receipt_id = receipt_id; created_at = created_at }) created_at))
