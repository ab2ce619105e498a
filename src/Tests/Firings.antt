-- ===== src/Tests/Firings.antt =====
-- The timers at concrete inputs.
use pushfree.Common.{
  ℕ, String, false, Option, none, some, [], ◌∷◌, ◌≡◌, refl, arith, All, inl, inr, List,
}
use pushfree.Text.{append}
use pushfree.Receipts.{pending, terminal}
use pushfree.Receipts.Rows.{is_open, increment_retry}
use pushfree.QuietWindow.{digits}
use pushfree.QuotaManager.Decimal.{itoa, digits-itoa}
use pushfree.Accounts.Sessions.{cut}
use pushfree.Accounts.Sessions.Cut.{cut_free, numeral-free}
use pushfree.Timers.{
  Timer, Table, create, claim_due, claim_rows, table_store, Fired, failed, fired, fire, fire_one,
  poll, ticks,
}
use pushfree.Timers.Handing.{handed, handed_lem}
use pushfree.Timers.Exclusive.{Distinct, claim_rows-Distinct}
use pushfree.Timers.Firing.{StaysClaimed, ticks-failed}
use pushfree.Timers.Kept.{Any}
use pushfree.Timers.Retry.{
  RetryPayload, World, world_store, FiringFaults, handlers, seed_retry, after_tick,
}
use pushfree.Timers.Handled.{Carries}
use pushfree.Timers.Emergencies.{Runs, begin, polled, Runs-Own}

abbrev timer : ℕ → ℕ → Timer
timer id at = record {
  id = id;
  kind = "retry";
  receipt_id = some "r1";
  fire_at = at;
  payload = "";
  claimed_at = none;
}

abbrev three : Table
three = record {
  rows = timer 1 1000000000 ∷ timer 2 2000000000 ∷ timer 4 9000000000 ∷ [];
  next_id = 5;
}

handed_lem_example :
    Any
      (λ r. r ≡ record (timer 2 2000000000) { claimed_at = some 5000000000 })
      (handed 5000000000 2 2 three)
handed_lem_example =
    handed_lem 5000000000 2 2 (timer 2 2000000000) three (omega arith) (omega arith)
      (inr (inl refl)) refl (omega arith)

claim_rows-Distinct_example :
    Distinct
      (claim_rows 5000000000 1 three.rows).0
      (claim_rows 6000000000 100 (claim_rows 5000000000 1 three.rows).1).0
claim_rows-Distinct_example =
    claim_rows-Distinct 5000000000 6000000000 1 100 three.rows
      (((omega arith), ((omega arith), tt)), (((omega arith), tt), (tt, tt)))

abbrev unreachable : Timer → Table → Fired Table
unreachable t tab = failed tab

abbrev working : Timer → Table → Fired Table
working t tab = fired tab

abbrev two_claimed : List Timer
two_claimed =
    record (timer 1 1000000000) { claimed_at = some 5000000000 }
    ∷ record (timer 2 2000000000) { claimed_at = some 5000000000 }
    ∷ []

first_two : (claim_due 5000000000 2 three).0 ≡ two_claimed
unfolding claim_due
first_two = refl

ticks-failed_example :
    let o = ticks table_store 2 ((5000000000, unreachable) ∷ (6000000000, working) ∷ []) three in
    (o.ok ≡ false)
    × (o.count ≡ 0)
    × All (StaysClaimed 5000000000 o.world.rows) two_claimed
    × ((at limit : ℕ) → Distinct two_claimed (claim_due at limit o.world).0)
ticks-failed_example =
    ticks-failed 5000000000 2 unreachable
      (record (timer 1 1000000000) { claimed_at = some 5000000000 })
      (record (timer 2 2000000000) { claimed_at = some 5000000000 } ∷ []) three
      ((6000000000, working) ∷ [])
      (((omega arith), ((omega arith), tt)), (((omega arith), tt), (tt, tt))) first_two refl

-- A codec for payloads: the instant in digits, a colon, and the receipt.
encode : RetryPayload → String
encode p = append (itoa p.created_at) (String.◌∷◌ ":" p.receipt_id)

with_instant : String → Option ℕ → Option RetryPayload
with_instant id none = none
with_instant id (some n) = some (record { receipt_id = id; created_at = n })

parts : Option (String × String) → Option RetryPayload
unfolding with_instant
parts none = none
parts (some (a, b)) = with_instant b (digits 0 a)

decode : String → Option RetryPayload
unfolding parts
decode s = parts (cut b':' s)

decode-encode : (p : RetryPayload) → decode (encode p) ≡ some p
unfolding decode encode
decode-encode p =
    rw
      (
        cut_free b':' (itoa p.created_at) ":" p.receipt_id (numeral-free b':' refl p.created_at)
            refl,
        digits-itoa p.created_at,
      )
      refl

abbrev quiet : World
quiet = record {
  receipts = λ id. record {
    state = pending;
    retry_count = 0;
    last_delivered_at = none;
    acknowledged_at = none;
    acknowledged_by = none;
    acknowledged_by_device = none;
    expired_at = none;
    canceled_at = none;
  };
  table = record { rows = []; next_id = 1 };
}

abbrev sound : FiringFaults
sound = record {
  stops = false;
  tick = record { read_fails = false; redeliver_fails = false; write_fails = false };
  recheck_fails = false;
  create_fails = false;
  delete_fails = false;
}

abbrev emergency : World
emergency = seed_retry decode encode "r1" 60 3600 1000000000 quiet

abbrev first_fired : World
first_fired =
    (poll world_store 2000000000 100 (handlers decode encode (λ t. 2000000000) (λ t. sound))
      emergency).world

first_run : Runs decode encode emergency first_fired
first_run = polled 2000000000 100 (λ t. 2000000000) (λ t. sound) begin

Runs-Own_example :
    Any (Carries decode encode decode-encode "r1") first_fired.table.rows
    × Any
        (λ t. Carries decode encode decode-encode "r1" t × (t.claimed_at ≡ none))
        (world_store.reset_orphaned first_fired).table.rows
unfolding poll fire fire_one claim_due handlers after_tick is_open seed_retry create decode cut
    encode append itoa digits terminal increment_retry
Runs-Own_example =
    Runs-Own decode encode decode-encode "r1" quiet first_fired 60 3600 1000000000 (tt, tt)
      first_run refl
