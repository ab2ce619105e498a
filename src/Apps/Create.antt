-- ===== src/Apps/Create.antt =====
-- `onCreate` of web/app/dashboard/apps/page.tsx, from the click to its last answer.
use pushfree.Common.{
  ℕ, true, false, String, Option, none, some, List, [], ◌∷◌, ◌≡◌, ◌∙◌, refl, arith, Bool-cases, inl,
  inr,
}
use pushfree.Machine.{Steps, begin, act_alone, settle_alone}
use pushfree.Text.{truthy, trim, concat}
use pushfree.Text.Trim.{AllSpace, truthy-trim_iff}
use pushfree.Api.{Outcome, RawOutcome}
use pushfree.Wire.{AppsResponse, LimitsBody, CreateResponse, AppItem}
use pushfree.Apps.{
  State, create, list, read, post, look_up, created, announce, handle, resume, show_list,
  show_figures, after_load, after_limits, resume_post, resume_look_up, new_token, fresh_app, page,
}

-- A name of white space alone sends nothing and changes nothing; any other is sent trimmed, once,
-- with the old error and notice cleared.
pub handle-create :
    (s : State)
    → (AllSpace s.name → handle create s ≡ (s, []))
      × (¬ (AllSpace s.name)
          → handle create s
            ≡ (record s { busy = true; error = none; flash = none }, post (trim s.name) ∷ []))
unfolding handle
handle-create s = elim (Bool-cases (truthy (trim s.name))) [
  | inl sent ↦ (λ blank. cc ((truthy-trim_iff s.name).1 blank), λ _. rw sent)
  | inr blank ↦ (λ _. rw blank, λ solid. absurd (solid ((truthy-trim_iff s.name).0 blank)))
]

show_list-fields :
    (status : ℕ) (body : Option AppsResponse) (s : State)
    → ((show_list status body s).name ≡ s.name) × ((show_list status body s).busy ≡ s.busy)
unfolding show_list
show_list-fields status none s = (refl, refl)
show_list-fields status (some body) s = ground arith

posted-fields :
    (n : String) (status : ℕ) (body : CreateResponse) {token : String} (s : State)
    → new_token status body ≡ some token
    → let (t, calls) = resume_post n (Outcome.settled status (some body)) s in
      (calls ≡ list (created n token) ∷ []) × (t.name ≡ "") × (t.busy ≡ false)
unfolding resume_post
posted-fields n status body s made = rw made (refl, refl, refl)

look_up-fields :
    (n token : String) (status : ℕ) (body : Option AppsResponse) {app : AppItem} (s : State)
    → fresh_app token body ≡ some app
    → let (t, calls) = resume_look_up n token (Outcome.settled status body) s in
      (calls ≡ read app (announce app.name) ∷ [])
      × (t.name ≡ s.name)
      × (t.busy ≡ s.busy)
      × (t.selected ≡ some app)
      × (t.error ≡ none)
unfolding resume_look_up
look_up-fields n token status body s listed = rw listed (refl, refl, refl, refl, refl)

-- The answers of one creation: the new token, any answer to the reload, the list in which the token
-- is found, and the figures of its quota.
module _ (s : State) (status : ℕ) (body : CreateResponse) (token : String)
    (made : new_token status body ≡ some token) (reload_status : ℕ) (reload : Option AppsResponse)
    (found_status : ℕ) (found : Option AppsResponse) (app : AppItem)
    (listed : fresh_app token found ≡ some app) (figures : LimitsBody)
    (hs : List (String × String)) where
  -- The page after each of the five stretches between the awaits.
  abbrev pub clicked : State
  clicked = (handle create s).0

  abbrev pub answered : State
  answered = (resume (post (trim s.name)) (Outcome.settled status (some body)) clicked).0

  abbrev pub reloaded : State
  reloaded =
      (resume (list (created (trim s.name) token)) (Outcome.settled reload_status reload)
        answered).0

  abbrev pub chosen : State
  chosen = (resume (look_up (trim s.name) token) (Outcome.settled found_status found) reloaded).0

  abbrev pub finished : State
  finished =
      (resume (read app (announce app.name)) (RawOutcome.settled 200 (some figures) hs) chosen).0

  sent : ¬ (AllSpace s.name) → truthy (trim s.name) ≡ true
  sent solid = elim (Bool-cases (truthy (trim s.name))) [
    | inl solid' ↦ solid'
    | inr blank ↦ absurd (solid ((truthy-trim_iff s.name).0 blank))
  ]

  clicked_calls : ¬ (AllSpace s.name) → (handle create s).1 ≡ post (trim s.name) ∷ []
  unfolding handle
  clicked_calls solid = rw (sent solid)

  run : s.busy ≡ false → ¬ (AllSpace s.name) → Steps page s [] finished []
  unfolding resume after_load
  run idle solid =
      let click = act_alone page create begin idle (clicked_calls solid) in
      let answer =
        settle_alone page (post (trim s.name)) (Outcome.settled status (some body)) click
          (posted-fields (trim s.name) status body clicked made).0 in
      let reload =
        settle_alone page (list (created (trim s.name) token))
          (Outcome.settled reload_status reload) answer refl in
      let choice =
        settle_alone page (look_up (trim s.name) token) (Outcome.settled found_status found) reload
          (look_up-fields (trim s.name) token found_status found reloaded listed).0 in
      settle_alone page (read app (announce app.name)) (RawOutcome.settled 200 (some figures) hs)
        choice refl

  -- From a free form with a name that is not all white space, with nothing clicked in between: where
  -- the server returns a new token, the list fetched after the reload holds an app with it, and its
  -- quota is answered with status 200, the run ends with that app selected and its quota kept, a
  -- notice that names it, no error, an empty name field and a free form. This holds for every
  -- answer to the reload, a failed one too.
  pub create_run :
      s.busy ≡ false
      → ¬ (AllSpace s.name)
      → Steps page s [] finished []
        × (finished.selected ≡ some app)
        × (finished.limits ≡ some figures)
        × (finished.flash ≡ some (concat ("Created “" ∷ app.name ∷ "”." ∷ [])))
        × (finished.error ≡ none)
        × (finished.name ≡ "")
        × (finished.busy ≡ false)
  unfolding resume show_figures after_limits after_load
  create_run idle solid =
      let post = posted-fields (trim s.name) status body clicked made in
      let reload = show_list-fields reload_status reload answered in
      let choice = look_up-fields (trim s.name) token found_status found reloaded listed in
      (
        run idle solid,
        choice.3,
        refl,
        refl,
        choice.4,
        choice.1 ∙ reload.0 ∙ post.1,
        choice.2 ∙ reload.1 ∙ post.2,
      )
