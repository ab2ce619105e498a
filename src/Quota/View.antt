-- ===== src/Quota/View.antt =====
-- The markup of web/app/dashboard/quota/page.tsx: what it shows of the state. A time is shown in the
-- locale of the browser, so a time is its epoch here.
pub mod Laws
use pushfree.Common.{ℕ, String, Bool, Option, none, some, List, [], ◌∷◌, map, if◌then◌else◌, ltb}
use pushfree.Wire.{LimitsBody, LimitHeaders, AppItem}
use pushfree.Quota.{State, select_value, badge_class, badge_label}

-- The picker: its value, and its options with their values and their texts.
pub record Picker : Type 0 where
  pub value : String
  pub options : List (String × String)

-- `apps.length > 0 && …`
unfoldable pub picker_of : List AppItem → (value : String) → Option Picker
picker_of [] value = none
picker_of (a ∷ rest) value = some record {
  value = value;
  options = ("", "— select —") ∷ map (λ app. (app.token, app.name)) (a ∷ rest);
}

-- The table of the figures; `reset` is the epoch that is shown, or none for the dash.
pub record Usage : Type 0 where
  pub used : ℕ
  pub limit : ℕ
  pub remaining : ℕ
  pub badge_class : String
  pub badge_label : String
  pub reset : Option ℕ
  pub headers : Option LimitHeaders

-- `limits && …`
unfoldable pub usage_of : Option LimitsBody → Option LimitHeaders → Option Usage
unfolding badge_class badge_label
usage_of none headers = none
usage_of (some l) headers = some record {
  used = l.count;
  limit = l.limit;
  remaining = l.remaining;
  badge_class = badge_class l;
  badge_label = badge_label l;
  reset = if ltb 0 l.reset then some l.reset else none;
  headers = headers;
}

pub record View : Type 0 where
  pub token : String
  pub picker : Option Picker
  pub button_label : String
  pub button_disabled : Bool
  pub error : Option String
  pub usage : Option Usage

-- `error && …` shows an error that is there; no error of the page is the empty text.
unfoldable pub render : State → View
unfolding picker_of usage_of select_value
render s = record {
  token = s.token;
  picker = picker_of s.apps (select_value s);
  button_label = if s.busy then "Reading…" else "Read quota";
  button_disabled = s.busy;
  error = s.error;
  usage = usage_of s.limits s.headers;
}
