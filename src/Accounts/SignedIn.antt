-- ===== src/Accounts/SignedIn.antt =====
-- From the sign-in of server/internal/api/accounts.go to the dashboard that web/app/dashboard/layout.tsx
-- renders.
use pushfree.Common.{
  ℕ, ◌+◌, ◌-◌, ◌^◌, ◌≤◌, ◌<◌, String, Bool, true, false, Option, some, List, ◌≡◌, refl, arith, ltb,
}
use pushfree.Layout.{resume_probe, mounted, render, shell, nav_items}
use pushfree.Accounts.{User, get_by_id, me, account_reply}
use pushfree.Accounts.Page.{outcome_of}
use pushfree.Accounts.Sessions.{me_route, with_session, login, admit, get_by_email}
use pushfree.Accounts.Sessions.Cookies.{parse_session-sign_session}

-- What the dashboard renders at a path, with a cookie.
abbrev pub screen_at :
    (mac : String → String) (now : ℕ) (cookie : Option String)
    → List User
    → (pathname : Option String) → pushfree.Layout.Screen
screen_at mac now cookie users pathname =
    render pathname (resume_probe (outcome_of (me_route mac now false cookie users)) mounted)

-- A login with the password of an account sets a cookie with which, until it expires, the dashboard
-- renders its shell, with the email and the role of that very account.
pub login-screen_at :
    (mac : String → String) (verify : String → String → Bool) (ttl signed later : ℕ)
    (email password : String) (users : List User) (u : User) (pathname : Option String)
    → get_by_email email users ≡ some u
    → get_by_id u.id users ≡ some u
    → verify password u.pass_hash ≡ true
    → u.id ≤ 2 ^ 63 - 1
    → signed + ttl ≤ 2 ^ 63 - 1
    → later < signed + ttl
    → let r = login mac verify ttl signed (some (email, password)) users in
      (r.status ≡ 200)
      × (r.body.status ≡ some 1)
      × (screen_at mac later r.cookie users pathname
          ≡ shell (nav_items pathname) (some u.email) (some u.role))
unfolding login admit me_route with_session me account_reply render resume_probe
login-screen_at mac verify ttl signed later email password users u pathname named here fits hid hexp
      soon =
    let early : ltb later (signed + ttl) ≡ true = ground arith in
    rw (named, fits)
      (
        refl,
        refl,
        rw (parse_session-sign_session mac later u.id (signed + ttl) hid hexp, early, here) refl,
      )
