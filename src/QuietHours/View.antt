-- ===== src/QuietHours/View.antt =====
-- The markup of web/app/dashboard/quiet-hours/page.tsx: what it shows of the state.
use pushfree.Common.{String, Bool, Option, none, some, if◌then◌else◌}
use pushfree.Text.{truthy}
use pushfree.QuietHours.{LoadState, loading, ready, State}

-- The form, with the two buttons below its fields.
pub record Form : Type 0 where
  pub start : String
  pub end : String
  pub tz : String
  pub save_label : String
  pub save_disabled : Bool
  pub clear_disabled : Bool

-- The form stands in the place of `Loading…`.
unfoldable pub form_of : LoadState → State → Option Form
form_of loading s = none
form_of ready s = some record {
  start = s.start;
  end = s.end;
  tz = s.tz;
  save_label = if s.busy then "Saving…" else "Save";
  save_disabled = s.busy;
  clear_disabled = s.busy;
}

pub record View : Type 0 where
  pub form : Option Form
  pub flash : Option String
  pub error : Option String

-- `flash && …` and `error && …`: the empty text, which `errors.join(' ')` gives for an empty list, is
-- not shown.
unfoldable pub shown : Option String → Option String
shown none = none
shown (some text) = if truthy text then some text else none

unfoldable pub render : State → View
unfolding form_of shown
render s = record { form = form_of s.load_state s; flash = shown s.flash; error = shown s.error }
