-- ===== src/QuotaManager/Shown.antt =====
-- The server's limits.json (server/internal/api/quota.go) as web/app/dashboard/quota/page.tsx shows it.
use pushfree.Common.{
  ℕ, ◌-◌, false, String, none, some, List, ◌≡◌, ◌≢◌, ◌↔◌, refl, ap, suc, arith, Bool-cases, inl,
  inr, ==_iff, ◌*◌, ◌==◌, ltb, if◌then◌else◌,
}
use pushfree.Api.{RawOutcome}
use pushfree.Wire.{LimitsBody, limit_headers}
use pushfree.Quota.{State, read, resume, badge_class, badge_label}
use pushfree.Quota.View.{Usage, render}
use pushfree.QuotaManager.{Location, period, next_reset, Counter, get}
use pushfree.QuotaManager.Sends.{monthly_limit, precharge_quota, precharge_quota_iff}
use pushfree.QuotaManager.Decimal.{itoa}
use pushfree.QuotaManager.Answer.{App, validate_app_token, Faults, limits_json, header_lines}

abbrev pub no_faults : Faults
no_faults = record { wrap_app = false; wrap_counter = false; app = false; counter = false }

-- The body of a user's limits, and the headers beside it.
abbrev pub body_of : Location → (now u : ℕ) → List Counter → LimitsBody
body_of central now u cs = record {
  count = get u (period central now) cs;
  limit = monthly_limit;
  remaining = monthly_limit - get u (period central now) cs;
  reset = next_reset central now;
}

pub limits_json-owner :
    (central : Location) (wrapped handled u : ℕ) (token : String) (apps : List App)
    (cs : List Counter)
    → validate_app_token false token apps ≡ some u
    → u ≢ 0
    → limits_json central wrapped handled no_faults token apps cs
      ≡ RawOutcome.settled 200 (some (body_of central handled u cs)) (
          header_lines central (
            monthly_limit,
            monthly_limit - get u (period central wrapped) cs,
            next_reset central wrapped,
          ))
unfolding limits_json
limits_json-owner central wrapped handled u token apps cs owner known =
    let other : (u == 0) ≡ false = ground arith in rw (owner, other) refl

limit_headers-header_lines :
    (central : Location) (limit remaining reset : ℕ)
    → limit_headers (header_lines central (limit, remaining, reset))
      ≡ record { limit = itoa limit; remaining = itoa remaining; reset = itoa reset }
unfolding header_lines limit_headers
limit_headers-header_lines central limit remaining reset = refl

-- One month has one end.
next_reset-period :
    (central : Location) (s t : ℕ)
    → period central s ≡ period central t
    → next_reset central s ≡ next_reset central t
unfolding next_reset period
next_reset-period central s t same = ap (λ m. central.month_start (suc m)) same

exhausted_iff : (l : LimitsBody) → (badge_label l ≡ "exhausted") ↔ (l.remaining ≡ 0)
unfolding badge_label
exhausted_iff l = elim (Bool-cases (l.remaining == 0)) [
  | inl gone ↦ rw gone (λ h. (==_iff l.remaining 0).0 gone, λ h. refl)
  | inr left ↦ elim (Bool-cases (ltb (10 * l.remaining) l.limit)) [
    | inl few ↦ rw (left, few) (λ h. cc h, λ h. absurd (ground (arith, left, h)))
    | inr many ↦ rw (left, many) (λ h. cc h, λ h. absurd (ground (arith, left, h)))
  ]
]

badge_label-precharge :
    (central : Location) (now u : ℕ) (cs : List Counter)
    → (badge_label (body_of central now u cs) ≡ "exhausted")
      ↔ (precharge_quota central now false u 1 cs ≡ false)
badge_label-precharge central now u cs =
    let shown = exhausted_iff (body_of central now u cs) in
    let passes = precharge_quota_iff central now u 1 cs (omega arith) in
    (λ h. ground (arith, shown.0 h, passes), λ h. shown.1 (ground (arith, h, passes)))

-- The page behind the answer to a reading that was sent with `token`.
abbrev pub page_after :
    Location → (wrapped handled : ℕ) (token : String) → List App → List Counter → State → State
page_after central wrapped handled token apps cs s =
    resume (read token) (limits_json central wrapped handled no_faults token apps cs) s

-- Where the store can be read and the token is a user's, the page shows that user's count of this
-- month, the monthly limit and what remains; the headers that it shows below say the same in digits,
-- with the end of the month; and the badge says `exhausted` exactly where the gate refuses a send to
-- one recipient. The month does not turn between the middleware and the handler.
pub page_after_lem :
    (central : Location) (wrapped handled u : ℕ) (token : String) (apps : List App)
    (cs : List Counter) (s : State)
    → validate_app_token false token apps ≡ some u
    → u ≢ 0
    → period central wrapped ≡ period central handled
    → let c = get u (period central handled) cs in
      let left = monthly_limit - c in
      let t = page_after central wrapped handled token apps cs s in
      (t.busy ≡ false)
      × (v : Usage) × ((render t).usage ≡ some v)
      × (v.used ≡ c)
      × (v.limit ≡ monthly_limit)
      × (v.remaining ≡ left)
      × (v.headers
          ≡ some (record {
            limit = itoa monthly_limit;
            remaining = itoa left;
            reset = itoa (next_reset central handled);
          }))
      × ((v.badge_label ≡ "exhausted") ↔ (precharge_quota central handled false u 1 cs ≡ false))
unfolding resume render badge_label badge_class
page_after_lem central wrapped handled u token apps cs s owner known same =
    let l = body_of central handled u cs in
    rw (limits_json-owner central wrapped handled u token apps cs owner known) (
      refl,
      record {
        used = l.count;
        limit = l.limit;
        remaining = l.remaining;
        badge_class = badge_class l;
        badge_label = badge_label l;
        reset = if ltb 0 l.reset then some l.reset else none;
        headers = some (
            limit_headers (
              header_lines central (
                monthly_limit,
                monthly_limit - get u (period central wrapped) cs,
                next_reset central wrapped,
              )));
      },
      refl,
      refl,
      refl,
      refl,
      rw (limit_headers-header_lines, same, next_reset-period central wrapped handled same) refl,
      badge_label-precharge central handled u cs,
    )
