-- ===== src/Apps/View/Laws.antt =====
-- The panel of the selected app in web/app/dashboard/apps/page.tsx, from the click to the answer.
use pushfree.Common.{ℕ, String, Option, none, some, List, [], ◌≡◌, ◌≢◌, refl, arith}
use pushfree.Machine.{Steps, begin, act_alone, settle_alone}
use pushfree.Api.{RawOutcome}
use pushfree.Wire.{LimitsBody, AppItem, limit_headers}
use pushfree.Apps.{
  State, show_limits, read, AfterLimits, handle, resume, show_figures, after_limits, page,
}
use pushfree.Apps.View.{loading_quota, figures, shown_reset, render}

-- The page after the quota button of `app`, and after the answer to it.
abbrev pub opened_panel : AppItem → State → State
opened_panel app s = (handle (show_limits app) s).0

abbrev pub answered_panel : AppItem → ℕ → Option LimitsBody → List (String × String) → State → State
answered_panel app status body hs s =
    (resume (read app AfterLimits.alone) (RawOutcome.settled status body hs) (opened_panel app s)).0

-- The quota button shows the app's panel as loading at once, with no figures of another app; an
-- answer with status 200 puts its figures there, with the three headers of the same response.
pub show_limits_lem :
    (s : State) (app : AppItem) (l : LimitsBody) (hs : List (String × String))
    → let t = answered_panel app 200 (some l) hs s in
      ((render (opened_panel app s)).panel ≡ loading_quota app)
      × Steps page s [] t []
      × ((render t).panel ≡ figures app l (shown_reset l) (some (limit_headers hs)))
      × ((render t).error ≡ none)
unfolding render resume handle show_figures after_limits
show_limits_lem s app l hs =
    let click = act_alone page (show_limits app) begin tt refl in
    (
      refl,
      settle_alone page (read app AfterLimits.alone) (RawOutcome.settled 200 (some l) hs) click
          refl,
      refl,
      refl,
    )

-- Where the quota is answered with another status than 200, nothing is on its way any more and the
-- error is shown, and the panel still says that the quota is loading.
pub refused_quota-panel :
    (s : State) (app : AppItem) (status : ℕ) (body : Option LimitsBody)
    (hs : List (String × String))
    → status ≢ 200
    → let t = answered_panel app status body hs s in
      Steps page s [] t []
      × ((render t).panel ≡ loading_quota app)
      × ((render t).error ≡ some "Could not load quota for this app.")
unfolding render resume handle show_figures after_limits
refused_quota-panel s app status none hs h =
    let click = act_alone page (show_limits app) begin tt refl in
    (
      settle_alone page (read app AfterLimits.alone) (RawOutcome.settled status none hs) click refl,
      refl,
      refl,
    )
refused_quota-panel s app status (some l) hs h =
    let click = act_alone page (show_limits app) begin tt refl in
    (
      settle_alone page (read app AfterLimits.alone) (RawOutcome.settled status (some l) hs) click
          refl,
      ground arith,
      ground arith,
    )
