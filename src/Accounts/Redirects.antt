-- ===== src/Accounts/Redirects.antt =====
-- Where the browser ends: the redirects of web/app/page.tsx, web/app/dashboard/layout.tsx and
-- web/app/login/page.tsx, each probing `/v1/accounts/me`, which answers all of them alike.
use pushfree.Common.{
  ℕ, zero, suc, String, Bool, true, false, Option, none, some, List, ◌≡◌, ◌≢◌, refl, arith, inl,
  inr, str_eq, if◌then◌else◌, first, ◌==◌, is_number, is_number-eq_some, ==_iff, Bool-cases,
}
use pushfree.Api.{Outcome, rejected, settled}
use pushfree.Wire.{MeResponse, AckResponse}
use pushfree.Layout.{resume_probe, mounted}
use pushfree.Login.{resume_session, mounted as login_mounted}
use pushfree.Home.{home_replaced}
use pushfree.Accounts.{User, Reply, get_by_id, account_reply, me, write_errors}
use pushfree.Accounts.Page.{outcome_of}
use pushfree.Accounts.Sessions.{me_route, parse_session, with_session}

-- The sign-in page's view of the same answer.
abbrev pub ack_of : Outcome MeResponse → Outcome AckResponse
ack_of rejected = rejected
ack_of (settled status none) = settled status none
ack_of (settled status (some body)) =
    settled status (some (record { status = body.status; errors = body.errors }))

pub data Place : Type 0 where
  home dashboard sign_in : Place

abbrev pub path_of : Place → String
path_of home = "/"
path_of dashboard = "/dashboard"
path_of sign_in = "/login"

-- What the page at a place calls `router.replace` with, once its probe is answered.
unfoldable pub replaced_at : Outcome MeResponse → Place → Option String
unfolding resume_probe resume_session
replaced_at a home = some home_replaced
replaced_at a dashboard = first (resume_probe a mounted).replaced
replaced_at a sign_in = first (resume_session (ack_of a) login_mounted).replaced

-- The place of a path that the pages redirect to.
abbrev pub place_of : String → Place
place_of path = if str_eq path "/dashboard" then dashboard else sign_in

follow : Place → Option String → (Place → Option Place) → Option Place
follow here none go = some here
follow here (some path) go = go (place_of path)

-- Where the browser ends, unless it still goes on after `fuel` pages.
unfoldable pub browse : (fuel : ℕ) → Outcome MeResponse → Place → Option Place
unfolding follow replaced_at
browse zero a here = none
browse (suc fuel) a here = follow here (replaced_at a here) (browse fuel a)

-- An answer with status 200 says so in its body, too.
abbrev pub Truthful : Reply → Type 0
Truthful r = r.status ≡ 200 → r.body.status ≡ some 1

account_reply-Truthful : (found : Option User) → Truthful (account_reply found)
unfolding account_reply write_errors
account_reply-Truthful none h = ground arith
account_reply-Truthful (some u) h = refl

me-Truthful : (fails : Bool) (uid : ℕ) (users : List User) → Truthful (me fails uid users)
unfolding me write_errors
me-Truthful true uid users h = ground arith
me-Truthful false uid users h = account_reply-Truthful (get_by_id uid users) h

with_session-Truthful :
    (mac : String → String) (fails : Bool) (session : Option ℕ) (users : List User)
    → Truthful (with_session mac fails session users)
unfolding with_session write_errors
with_session-Truthful mac fails none users h = ground arith
with_session-Truthful mac fails (some uid) users h = me-Truthful fails uid users h

pub me_route-Truthful :
    (mac : String → String) (now : ℕ) (fails : Bool) (cookie : Option String) (users : List User)
    → Truthful (me_route mac now fails cookie users)
unfolding me_route write_errors
me_route-Truthful mac now fails none users h = ground arith
me_route-Truthful mac now fails (some cookie) users h =
    with_session-Truthful mac fails (parse_session mac now cookie) users h

welcomed :
    (r : Reply) (here : Place)
    → (r.status == 200) ≡ true
    → is_number r.body.status 1 ≡ true
    → browse 3 (outcome_of r) here ≡ some (if r.status == 200 then dashboard else sign_in)
unfolding browse follow replaced_at
welcomed r home fine one = rw (fine, one) refl
welcomed r dashboard fine one = rw (fine, one) refl
welcomed r sign_in fine one = rw (fine, one, fine) refl

turned_away :
    (r : Reply) (here : Place)
    → (r.status == 200) ≡ false
    → browse 3 (outcome_of r) here ≡ some (if r.status == 200 then dashboard else sign_in)
unfolding browse follow replaced_at
turned_away r home refused = rw (refused, refused) refl
turned_away r dashboard refused = rw (refused, refused) refl
turned_away r sign_in refused = rw refused refl

browse-Truthful :
    (r : Reply) (here : Place)
    → Truthful r
    → browse 3 (outcome_of r) here ≡ some (if r.status == 200 then dashboard else sign_in)
unfolding browse
browse-Truthful r here h = elim (Bool-cases (r.status == 200)) [
  | inl fine ↦
      let one : is_number r.body.status 1 ≡ true =
        (is_number-eq_some r.body.status 1).1 (h ((==_iff r.status 200).0 fine)) in
      welcomed r here fine one
  | inr refused ↦ turned_away r here refused
]

-- Wherever the browser is on the dashboard's site, with whatever cookie, the redirects end behind at
-- most three pages: on the dashboard where the server accepts the session, and else on the sign-in page.
pub browse-me_route :
    (mac : String → String) (now : ℕ) (fails : Bool) (cookie : Option String) (users : List User)
    (here : Place)
    → let r = me_route mac now fails cookie users in
      browse 3 (outcome_of r) here ≡ some (if r.status == 200 then dashboard else sign_in)
browse-me_route mac now fails cookie users here =
    browse-Truthful (me_route mac now fails cookie users) here
      (me_route-Truthful mac now fails cookie users)

around :
    (body : MeResponse)
    → is_number body.status 1 ≡ false
    → (fuel : ℕ) (here : Place) → browse fuel (settled 200 (some body)) here ≡ none
unfolding browse follow replaced_at
around body other zero here = refl
around body other (suc fuel) home = around body other fuel dashboard
around body other (suc fuel) dashboard = rw other (around body other fuel sign_in)
around body other (suc fuel) sign_in = around body other fuel dashboard

-- The two pages test different things: an answer with status 200 whose body does not have the status 1
-- sends the dashboard to the sign-in page and the sign-in page to the dashboard, without an end.
pub browse-unvouched :
    (body : MeResponse) (fuel : ℕ) (here : Place)
    → body.status ≢ some 1
    → browse fuel (settled 200 (some body)) here ≡ none
unfolding browse
browse-unvouched body fuel here h =
    let other : is_number body.status 1 ≡ false =
      ground (arith, h, is_number-eq_some body.status 1) in
    around body other fuel here
