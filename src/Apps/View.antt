-- ===== src/Apps/View.antt =====
-- The markup of web/app/dashboard/apps/page.tsx: what it shows of the state. Times are shown in the
-- locale of the browser, so a time is its epoch here.
pub mod Laws
use pushfree.Common.{
  ℕ, ◌<◌, Bool, true, false, String, Option, none, some, List, [], ◌∷◌, map, length, if◌then◌else◌,
  ltb, ◌==◌,
}
use pushfree.Wire.{LimitsBody, LimitHeaders, AppItem}
use pushfree.Apps.{State, LoadState, loading, ready, failed, is_selected}

-- The head of the list: `Loading…`, or the count with its noun.
pub data CountLabel : Type 0 where
  loading_label : CountLabel
  count_label : (n : ℕ) (noun : String) → CountLabel

unfoldable pub noun : ℕ → String
noun n = if n == 1 then "app" else "apps"

unfoldable pub count_of : LoadState → List AppItem → CountLabel
unfolding noun
count_of loading apps = loading_label
count_of _ apps = count_label (length apps) (noun (length apps))

-- A row: the app, and the word on its quota button.
pub record Row : Type 0 where
  pub app : AppItem
  pub button : String

unfoldable pub rows : Option AppItem → List AppItem → List Row
rows selected apps =
    map (λ a. record { app = a; button = if is_selected selected a then "Selected" else "Quota" })
      apps

-- `limits.reset > 0 ? … : '—'`: the epoch that is shown, or none.
unfoldable pub shown_reset : LimitsBody → Option ℕ
shown_reset l = if ltb 0 l.reset then some l.reset else none

-- The panel below the list.
pub data Panel : Type 0 where
  no_panel : Panel
  loading_quota : AppItem → Panel
  figures : AppItem → LimitsBody → (reset : Option ℕ) → Option LimitHeaders → Panel

unfoldable pub panel_of : Option AppItem → Option LimitsBody → Option LimitHeaders → Panel
unfolding shown_reset
panel_of none limits headers = no_panel
panel_of (some app) none headers = loading_quota app
panel_of (some app) (some l) headers = figures app l (shown_reset l) headers

-- `flash && …` and `error && …` show a notice that is there; no notice of the page is the empty text.
pub record View : Type 0 where
  pub create_label : String
  pub create_disabled : Bool
  pub flash : Option String
  pub error : Option String
  pub count : CountLabel
  pub table : List Row
  pub panel : Panel

unfoldable pub render : State → View
unfolding count_of rows panel_of
render s = record {
  create_label = if s.busy then "Creating…" else "Create token";
  create_disabled = s.busy;
  flash = s.flash;
  error = s.error;
  count = count_of s.load_state s.apps;
  table = rows s.selected s.apps;
  panel = panel_of s.selected s.limits s.headers;
}
