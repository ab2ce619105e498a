-- ===== src/Tests/Allowances.antt =====
-- The monthly quota of the server, and the page that shows it, at concrete inputs. Months of a
-- hundred seconds stand for a calendar.
use pushfree.Common.{
  ◌+◌, ◌-◌, ◌*◌, ◌/◌, ◌≤◌, true, false, String, some, List, [], ◌∷◌, ◌≡◌, ◌↔◌, refl, arith,
}
use pushfree.Machine.{begin}
use pushfree.Quota.{State, mounted}
use pushfree.Quota.View.{Usage, render}
use pushfree.QuotaManager.{Location, period, next_reset, Counter, get, charge}
use pushfree.QuotaManager.Sends.{
  monthly_limit, quota_manager, precharge_quota, Faults, send, Sends, begin, sent, Sends-limit,
}
use pushfree.QuotaManager.Overlap.{overlapped, overlapped-limit}
use pushfree.QuotaManager.Decimal.{itoa}
use pushfree.QuotaManager.Answer.{App, validate_app_token}
use pushfree.QuotaManager.Shown.{page_after, page_after_lem}

abbrev calendar : Location
calendar = record { month = λ t. t / 100; month_start = λ m. m * 100 }

abbrev nearly_full : List Counter
nearly_full = record { user_id = 7; period = 3; count = 9998 } ∷ []

abbrev sound : Faults
sound = record { read_fails = false; ingest_fails = false; charge_fails = false }

-- The month turns between the gate and the charge of the second send.
both_sent :
    Sends calendar 401 (send calendar 399 401 sound 7 3 (send calendar 398 398 sound 7 9000 []).1).1
both_sent =
    sent 399 401 sound 7 3 (sent 398 398 sound 7 9000 begin (omega arith) (omega arith))
      (omega arith) (omega arith)

Sends-limit_example :
    get 7 4 (send calendar 399 401 sound 7 3 (send calendar 398 398 sound 7 9000 []).1).1
    ≤ monthly_limit
Sends-limit_example = Sends-limit calendar (λ s t h. omega arith) both_sent 7 4

overlapped-limit_example :
    (precharge_quota calendar 305 false 7 2 nearly_full ≡ true)
    × (precharge_quota calendar 305 false 7 1 nearly_full ≡ true)
    × (get 7 (period calendar 305) (overlapped calendar 305 7 2 1 nearly_full)
        ≡ get 7 (period calendar 305) nearly_full + 2 + 1)
    × (precharge_quota calendar 305 false 7 1
          (charge (quota_manager calendar) 305 false 7 2 nearly_full).1
        ≡ false)
unfolding period get
overlapped-limit_example =
    overlapped-limit calendar 305 7 2 1 nearly_full (omega arith) (omega arith) (omega arith)
      (omega arith) (omega arith)

abbrev known_token : String
known_token = "abcdefghijABCDEFGHIJ0123456789"

abbrev apps : List App
apps = record { id = 1; user_id = 7; token = known_token; name = "grafana" } ∷ []

abbrev reading : State
reading = record mounted { token = known_token; busy = true }

page_after_lem_example :
    let c = get 7 (period calendar 310) nearly_full in
    let left = monthly_limit - c in
    let t = page_after calendar 309 310 known_token apps nearly_full reading in
    (t.busy ≡ false)
    × (v : Usage) × ((render t).usage ≡ some v)
    × (v.used ≡ c)
    × (v.limit ≡ monthly_limit)
    × (v.remaining ≡ left)
    × (v.headers
        ≡ some (record {
          limit = itoa monthly_limit;
          remaining = itoa left;
          reset = itoa (next_reset calendar 310);
        }))
    × ((v.badge_label ≡ "exhausted") ↔ (precharge_quota calendar 310 false 7 1 nearly_full ≡ false))
unfolding validate_app_token period
page_after_lem_example =
    page_after_lem calendar 309 310 7 known_token apps nearly_full reading refl (ground arith) refl
