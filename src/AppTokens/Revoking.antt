-- ===== src/AppTokens/Revoking.antt =====
-- `onDelete` of web/app/dashboard/apps/page.tsx against deleteApp of server/internal/api/apps.go.
use pushfree.Common.{
  ℕ, true, false, String, some, none, List, [], ◌∷◌, ◌≡◌, refl, find, str_eq, ◌==◌, Bool-cases, inl,
  inr,
}
use pushfree.Machine.{Steps, begin, act_alone, settle_alone}
use pushfree.Text.{truthy}
use pushfree.Api.{Outcome}
use pushfree.Wire.{AppItem, AppsResponse, AckResponse}
use pushfree.Apps.{State, delete, list, revoke, revoked, handle, resume, is_selected, opened, page}
use pushfree.Apps.Revoke.{delete_run}
use pushfree.QuotaManager.Answer.{App, get_by_token}
use pushfree.AppTokens.{
  Table, list_by_user, list_apps, app_publics, delete_app, contains, without, ack_errors,
}
use pushfree.AppTokens.Revoked.{Unique, Owns, free_lem, used_lem}
use pushfree.AppTokens.Page.{outcome_of}

find-absent :
    (u : ℕ) (tok : String) (apps : List App)
    → get_by_token tok apps ≡ none
    → find (λ a. str_eq a.token tok) (app_publics (list_by_user u apps)) ≡ none
unfolding get_by_token list_by_user app_publics
find-absent u tok [] h = refl
find-absent u tok (a ∷ rest) h = elim (Bool-cases (str_eq a.token tok)) [
  | inl held ↦ cc (rw held at h)
  | inr other ↦
      let absent = find-absent u tok rest (rw other at h) in
      elim (Bool-cases (a.user_id == u)) [
        | inl own ↦ rw (own, other) absent
        | inr foreign ↦ rw foreign absent
      ]
]

-- The page behind the answer to a confirmed revocation, and behind the reload that follows a success.
abbrev pub refused_page : ℕ × AckResponse → AppItem → State → State
refused_page reply app s =
    (resume (revoke app s.selected) (outcome_of reply) (handle (delete app true) s).0).0

abbrev pub revoked_page : ℕ × AckResponse → ℕ × AppsResponse → AppItem → State → State
revoked_page reply items app s =
    (resume (list revoked) (outcome_of items) (refused_page reply app s)).0

module _ (u : ℕ) (t : Table) (app : AppItem) (a : App) (s : State) where
  -- The page shows that the token is gone.
  abbrev pub Gone : State → Type 0
  Gone e =
      Steps page s [] e []
      × (find (λ x. str_eq x.token app.token) e.apps ≡ none)
      × (e.flash ≡ some "Token revoked.")
      × (is_selected s.selected app ≡ true
          → (e.selected ≡ none) × (e.limits ≡ none) × (e.headers ≡ none))

  -- The page shows an error and the list that it has shown.
  abbrev pub Stays : State → Type 0
  Stays e =
      Steps page s [] e []
      × (e.apps ≡ s.apps)
      × (e.error ≡ some "could not revoke app")
      × (e.selected ≡ s.selected)

  gone :
      get_by_token app.token (without u app.token t.apps) ≡ none
      → Gone (
          revoked_page
            (200, record { status = some 1; errors = none })
            (list_apps false u (record t { apps = without u app.token t.apps }))
            app
            s)
  unfolding list_apps opened
  gone absent =
      let rows = without u app.token t.apps in
      let items = app_publics (list_by_user u rows) in
      let body : AppsResponse = record { status = some 1; apps = some items; errors = none } in
      let run = delete_run s app 200 (some body) in
      (run.0, find-absent u app.token rows absent, run.1, run.2)

  stays : Stays (refused_page (500, ack_errors "could not revoke app") app s)
  unfolding ack_errors opened
  stays =
      let answer : Outcome AckResponse = outcome_of (500, ack_errors "could not revoke app") in
      let click = act_alone page (delete app true) begin tt refl in
      (settle_alone page (revoke app s.selected) answer click refl, refl, refl, refl)

  -- A confirmed revocation of an app that is the user's own, in a table in which no token stands twice,
  -- where the store does not fail and nothing is clicked before it has ended. Where no row of another
  -- table refers to the app, the page ends with the notice, with a list in which the token is not
  -- found, and with the app's panel closed if it was open at the click. Where one does, as the send of
  -- a message of the app does, the page ends with an error and the list and the panel that it had, and
  -- the table is as it was.
  pub revoked_page_lem :
      Unique t.apps
      → truthy app.token ≡ true
      → Owns u app.token t.apps a
      → let (reply, after) = delete_app false u app.token t in
        (contains a.id t.used ≡ false → Gone (revoked_page reply (list_apps false u after) app s))
        × (contains a.id t.used ≡ true → Stays (refused_page reply app s) × (after ≡ t))
  revoked_page_lem unique filled own = (
    λ free.
        let (answer, absent) = free_lem u app.token t filled unique a own free in
        rw answer (gone absent),
    λ used. rw (used_lem u app.token t filled unique a own used) (stays, refl),
  )
