-- ===== src/Tests/Tokens.antt =====
-- The page of the app tokens at concrete inputs.
use pushfree.Common.{◌≤◌, ◌<◌, true, false, String, none, some, List, [], ◌∷◌, ◌++◌, ◌≡◌, ◌≢◌, refl}
use pushfree.Machine.{total, Steps, Reach, begin, act}
use pushfree.Text.{trim, concat}
use pushfree.Text.Trim.{AllSpace, truthy-trim_iff}
use pushfree.Wire.{AppItem, LimitsBody, CreateResponse, AppsResponse}
use pushfree.Apps.{
  State, set_name, create, list, post, alone, handle, mounted, page, new_token, fresh_app,
}
use pushfree.Apps.Calls.{is_post, busy_of_post}
use pushfree.Apps.Create.{handle-create, create_run}
use pushfree.Apps.Create

abbrev grafana : AppItem
grafana = record { id = 1; token = "t1"; name = "grafana" }

abbrev backup : AppItem
backup = record { id = 2; token = "t2"; name = "backup" }

abbrev unused : LimitsBody
unused = record { count = 0; limit = 500; remaining = 500; reset = 0 }

abbrev limit_row : List (String × String)
limit_row = ("x-limit-app-limit", "10000") ∷ []

-- The page with its list, the first app selected and a name typed.
abbrev listing : State
listing = record mounted { apps = grafana ∷ backup ∷ []; name = " cron "; selected = some grafana }

solid : ¬ (AllSpace " cron ")
unfolding trim
solid h = absurd (ne ((truthy-trim_iff " cron ").1 h))
  where
    ne : true ≢ false
    ne e = cc e

abbrev typed : State
typed = (handle (set_name "cron") mounted).0

abbrev creating : State
creating = (handle create typed).0

create_clicked : Reach page creating ([] ++ post "cron" ∷ list alone ∷ [])
unfolding handle trim
create_clicked = act create (act (set_name "cron") begin tt) refl

busy_of_post_example :
    (total is_post ([] ++ post "cron" ∷ list alone ∷ []) ≤ 1)
    × (0 < total is_post ([] ++ post "cron" ∷ list alone ∷ []) → creating.busy ≡ true)
busy_of_post_example = busy_of_post create_clicked

abbrev answer_body : CreateResponse
answer_body = record { status = some 1; token = some "t2"; errors = none }

abbrev whole_list : AppsResponse
whole_list = record { status = some 1; apps = some (grafana ∷ backup ∷ []); errors = none }

token_made : new_token 201 answer_body ≡ some "t2"
unfolding new_token
token_made = refl

app_listed : fresh_app "t2" (some whole_list) ≡ some backup
unfolding fresh_app
app_listed = refl

abbrev done : State
done =
    Create.finished listing 201 answer_body "t2" token_made 500 none 200 (some whole_list) backup
      app_listed unused limit_row

create_run_example :
    Steps page listing [] done []
    × (done.selected ≡ some backup)
    × (done.limits ≡ some unused)
    × (done.flash ≡ some (concat ("Created “" ∷ "backup" ∷ "”." ∷ [])))
    × (done.error ≡ none)
    × (done.name ≡ "")
    × (done.busy ≡ false)
create_run_example =
    create_run listing 201 answer_body "t2" token_made 500 none 200 (some whole_list) backup
      app_listed unused limit_row refl solid
