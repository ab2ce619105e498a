-- ===== src/Tests/Emergencies.antt =====
-- Emergency receipts at concrete inputs.
use pushfree.Common.{
  ℕ, map, String, if◌then◌else◌, ◌+◌, ◌*◌, ◌≤◌, ◌<◌, true, false, none, some, [], ◌∷◌, ◌≡◌, ◌≢◌,
  ◌↔◌, refl, arith,
}
use pushfree.Receipts.{pending, delivered, expired, terminal}
use pushfree.Receipts.Rows.{Row, Snapshot, get_receipt, acknowledge, cancel_pending, is_open}
use pushfree.Receipts.Rows.Laws.{Legal}
use pushfree.Receipts.Scheduler.{
  default_retry_policy, normalize, second, done, nothing, retry, expire, cap, timeout, decide, act,
}
use pushfree.Receipts.Scheduler.Policy.{Limits}
use pushfree.Receipts.Scheduler.Decisions.{decide_lem}
use pushfree.Receipts.Scheduler.Runs.{Sys, Runs, begin, read, acked, written, runs_lem}
use pushfree.Receipts.Scheduler.Delivered.{Runs-delivered}
use pushfree.Receipts.Scheduler.Ending.{no_faults, run_due, run_due-expired}
use pushfree.Receipts.Cancel
use pushfree.Receipts.Cancel.{Entry, Db, Faults, cancel_by_tag, matches, update_pending}
use pushfree.Receipts.Cancel.Listed.{IsMeant}
use pushfree.Receipts.Cancel.Tags.{call_off, cancel_by_tag_lem}

abbrev fresh : Row
fresh = record {
  state = pending;
  retry_count = 0;
  last_delivered_at = none;
  acknowledged_at = none;
  acknowledged_by = none;
  acknowledged_by_device = none;
  expired_at = none;
  canceled_at = none;
}

default-Limits : Limits default_retry_policy (30 * second) (10800 * second) 50
unfolding normalize
default-Limits = record {
  normal_interval_eq = refl;
  normal_expire_eq = refl;
  normal_attempts_eq = refl;
  small = omega arith;
}

abbrev twice : Snapshot
twice = record { state = pending; retry_count = 2 }

decide_lem_example :
    let event = decide 0 (65 * second) default_retry_policy twice in
    ((event ≡ done) ↔ (terminal pending ≡ true))
    × ((event ≡ expire (65 * second) cap) ↔ ((terminal pending ≡ false) × (50 ≤ 2)))
    × ((event ≡ expire (65 * second) timeout)
        ↔ ((terminal pending ≡ false) × (2 < 50) × (0 + 10800 * second ≤ 65 * second)))
    × ((event ≡ nothing) ↔ (
        (terminal pending ≡ false)
        × (2 < 50)
        × (65 * second < 0 + 10800 * second)
        × (65 * second < 0 + 2 * (30 * second))))
    × ((event ≡ retry (65 * second) 3) ↔ (
        (terminal pending ≡ false)
        × (2 < 50)
        × (65 * second < 0 + 10800 * second)
        × (0 + 2 * (30 * second) ≤ 65 * second)))
decide_lem_example = decide_lem default-Limits 0 (65 * second) twice

-- An acknowledgement between a tick's reading and its writing.
abbrev started : Sys
started = record { row = fresh; claimed = none }

abbrev first_read : Snapshot
first_read = record { state = pending; retry_count = 0 }

abbrev between : Sys
between = record { row = acknowledge "a@b.c" "" 5 fresh; claimed = some first_read }

abbrev ended : Sys
ended = record {
  row = (act no_faults (decide 0 10 default_retry_policy first_read) between.row).1;
  claimed = none;
}

race : Runs 0 default_retry_policy started ended
unfolding get_receipt
race = written first_read 10 no_faults (acked "a@b.c" "" 5 (read begin refl)) refl

runs_lem_example :
    (ended.row.retry_count ≤ 50)
    × Legal pending ended.row.state
    × (terminal pending ≡ true → (ended.row.state ≡ pending) × (ended.row.retry_count ≡ 0))
runs_lem_example = runs_lem default-Limits 0 started refl (omega arith) race

abbrev nearly : Row
nearly = record fresh { retry_count = 49 }

nearly_open : is_open nearly.state ≡ true
unfolding is_open
nearly_open = refl

run_due-expired_example :
    (run_due 0 (30 * second) default_retry_policy (0 ∷ 7 ∷ []) nearly).state ≡ expired
run_due-expired_example =
    run_due-expired default-Limits 0 (0 ∷ 7 ∷ []) nearly nearly_open (omega arith) (omega arith)

abbrev entry : String → ℕ → Entry
entry id app_id = record { id = id; app_id = app_id; tag = some "disk"; row = fresh }

abbrev tables : Db
tables = record { receipts = entry "r1" 1 ∷ entry "r2" 2 ∷ []; timers = "r1" ∷ "r2" ∷ [] }

abbrev sound : Faults
sound = record { list_fails = false; update_fails = λ id. false; delete_fails = λ id. true }

cancel_by_tag_lem_example :
    let batch = cancel_by_tag sound "disk" 2 9 tables in
    (batch.db.receipts ≡ map (λ e. if matches "disk" 2 e then call_off 9 e else e) tables.receipts)
    × ((e : Entry) → (matches "disk" 2 e ≡ true) ↔ IsMeant "disk" 2 e)
    × (batch.failed ≡ false)
cancel_by_tag_lem_example =
    cancel_by_tag_lem sound "disk" 2 9 tables refl (λ id. refl) ((refl, tt), (tt, tt))

abbrev redelivered : Sys
redelivered = record {
  row = (act no_faults (decide 0 10 default_retry_policy first_read) fresh).1;
  claimed = none;
}

redelivery : Runs 0 default_retry_policy started redelivered
unfolding get_receipt
redelivery = written first_read 10 no_faults (read begin refl) refl

not_delivered : pending ≢ delivered
not_delivered e = cc e

Runs-delivered_example :
    (redelivered.row.state ≢ delivered)
    × (redelivered.row.state ≡ pending → (at : ℕ) → (cancel_pending at redelivered.row).1 ≡ true)
Runs-delivered_example = Runs-delivered 0 default_retry_policy started not_delivered redelivery
