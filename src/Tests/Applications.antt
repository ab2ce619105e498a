-- ===== src/Tests/Applications.antt =====
-- The server's table of application tokens, and the page that creates them, at concrete inputs.
use pushfree.Common.{
  ℕ, zero, suc, ◌<◌, ◌≤◌, ◌/◌, ◌*◌, Bool, true, false, String, Option, some, none, [], ◌∷◌, ◌≡◌,
  ◌≢◌, refl, arith, subst,
}
use pushfree.Text.{trim}
use pushfree.Text.Trim.{AllSpace, truthy-trim_iff}
use pushfree.Wire.{AppItem}
use pushfree.Apps.{State, mounted}
use pushfree.QuotaManager.{Location}
use pushfree.QuotaManager.Answer.{App, get_by_token, validate_app_token, user_key_re, limits_json}
use pushfree.QuotaManager.Shown.{body_of, no_faults}
use pushfree.AppTokens.{
  Table, list_by_user, list_apps, app_publics, trim_space, create_app, delete_app, contains,
  ack_errors,
}
use pushfree.AppTokens.Revoked.{Owns, delete_app_lem}
use pushfree.AppTokens.Kept.{WellFormed}
use pushfree.AppTokens.History.{begin, creating, deleting, Runs-WellFormed}
use pushfree.AppTokens.Revoking.{Gone, Stays, refused_page, revoked_page, revoked_page_lem}
use pushfree.AppTokens.Page.{Keys, Ends, created_page, reply, created_page_lem}

-- Months of a hundred seconds.
abbrev calendar : Location
calendar = record { month = λ t. t / 100; month_start = λ m. m * 100 }

abbrev ci_token : String
ci_token = "abcdefghijklmnopqrstuvwxyz0123"

abbrev web_token : String
web_token = "ABCDEFGHIJKLMNOPQRSTUVWXYZ4567"

-- The first draw is a token that the table has.
abbrev draws : ℕ → Option String
draws zero = some web_token
draws (suc k) = some ci_token

abbrev steady : ℕ → Bool
steady i = false

-- The app of user 7 has sent a message.
abbrev table : Table
table = record {
  next_id = 5;
  apps = record { id = 4; user_id = 7; token = web_token; name = "web" } ∷ [];
  used = 4 ∷ [];
}

abbrev typed : State
typed = record mounted { name = " ci " }

draws-Keys : Keys draws
unfolding user_key_re
draws-Keys zero tok drawn =
    let same : web_token ≡ tok = cc in subst (λ w. user_key_re w ≡ true) same refl
draws-Keys (suc k) tok drawn =
    let same : ci_token ≡ tok = cc in subst (λ w. user_key_re w ≡ true) same refl

solid : ¬ (AllSpace " ci ")
unfolding trim
solid h = absurd (ne ((truthy-trim_iff " ci ").1 h))
  where
    ne : true ≢ false
    ne e = cc e

created_page_lem_example :
    let after = (reply draws steady 7 table typed).1 in
    (tok : String) × ((k : ℕ) × (draws k ≡ some tok))
    × (let app : AppItem = record { id = 5; token = tok; name = trim_space (trim typed.name) } in
        Ends (app_publics (list_by_user 7 table.apps)) app (body_of calendar 310 7 []) typed (
          created_page
            (reply draws steady 7 table typed).0
            (list_apps false 7 after)
            (limits_json calendar 309 310 no_faults tok after.apps [])
            tok
            app
            typed))
unfolding create_app trim
created_page_lem_example =
    created_page_lem draws steady calendar 7 table [] 309 310 typed draws-Keys (ground arith) refl
      solid refl

table-WellFormed : WellFormed table
unfolding get_by_token
table-WellFormed = ((refl, tt), (omega arith, tt))

abbrev web : App
web = record { id = 4; user_id = 7; token = web_token; name = "web" }

-- After a creation, whose app nothing refers to.
abbrev more : Table
more = (create_app draws steady 7 (some " ci ") table).1

delete_app_lem_example :
    ((a : App)
      → Owns 7 web_token table.apps a
      → contains a.id table.used ≡ false
      → let p = delete_app false 7 web_token table in
        (p.0 ≡ (200, record { status = some 1; errors = none }))
        × ((unread : Bool) → validate_app_token unread web_token p.1.apps ≡ none)
        × ((other : String)
            → other ≢ web_token
            → get_by_token other p.1.apps ≡ get_by_token other table.apps))
    × ((a : App)
        → Owns 7 web_token table.apps a
        → contains a.id table.used ≡ true
        → delete_app false 7 web_token table ≡ ((500, ack_errors "could not revoke app"), table))
    × (((a : App) → ¬ (Owns 7 web_token table.apps a))
        → delete_app false 7 web_token table ≡ ((404, ack_errors "app not found"), table))
delete_app_lem_example = delete_app_lem 7 web_token table refl table-WellFormed.0

Runs-WellFormed_example :
    let t = (delete_app false 7 ci_token more).1 in
    WellFormed t
    × (table.next_id ≤ t.next_id)
    × ((tok : String) (a : App)
        → get_by_token tok t.apps ≡ some a
        → a.id < table.next_id
        → get_by_token tok table.apps ≡ some a)
Runs-WellFormed_example =
    Runs-WellFormed (deleting false 7 ci_token (creating draws steady 7 (some " ci ") begin))
      table-WellFormed

-- Both apps of the user on the page, the panel of the first open.
abbrev listing : State
listing = record mounted { selected = some (record { id = 4; token = web_token; name = "web" }) }

revoked_page_lem_example :
    let item : AppItem = record { id = 4; token = web_token; name = "web" } in
    let (answer, after) = delete_app false 7 web_token table in
    (contains web.id table.used ≡ false
      → Gone 7 table item web listing (revoked_page answer (list_apps false 7 after) item listing))
    × (contains web.id table.used ≡ true
        → Stays 7 table item web listing (refused_page answer item listing) × (after ≡ table))
unfolding get_by_token
revoked_page_lem_example =
    revoked_page_lem 7 table (record { id = 4; token = web_token; name = "web" }) web listing
      table-WellFormed.0 refl (refl, refl)
