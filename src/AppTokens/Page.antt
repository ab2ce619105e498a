-- ===== src/AppTokens/Page.antt =====
-- web/app/dashboard/apps/page.tsx against server/internal/api/apps.go and quota.go: a creation and a
-- revocation, each call answered by the server.
use pushfree.Common.{
  ℕ, Bool, ◌++◌, true, false, String, Option, none, some, List, [], ◌∷◌, ◌≡◌, ◌≢◌, refl, ap, sym,
  subst, ◌==◌, Bool-cases, inl, inr, arith,
}
use pushfree.Machine.{Steps}
use pushfree.Text.{truthy, trim, concat}
use pushfree.Text.Trim.{AllSpace}
use pushfree.Api.{Outcome, RawOutcome, settled}
use pushfree.Wire.{AppItem, AppsResponse, CreateResponse, LimitsBody}
use pushfree.Apps.{
  State, create, list, read, post, look_up, created, announce, handle, resume, new_token, fresh_app,
  ready, opened, page,
}
use pushfree.Apps.Create.{create_run}
use pushfree.QuotaManager.{Location, Counter}
use pushfree.QuotaManager.Answer.{App, get_by_token, validate_app_token, user_key_re, limits_json}
use pushfree.QuotaManager.Shown.{body_of, no_faults, limits_json-owner}
use pushfree.AppTokens.{Table, create_app, list_by_user, list_apps, app_publics, trim_space}
use pushfree.AppTokens.Issued.{
  row, with_app, Inserts, create_app-Issues, get_by_token-new, find-new,
}

abbrev pub outcome_of {ℓ} : {B : Type ℓ} → ℕ × B → Outcome B
outcome_of (status, body) = settled status (some body)

new_token-made :
    (tok : String)
    → truthy tok ≡ true
    → new_token 201 (record { status = some 1; token = some tok; errors = none }) ≡ some tok
unfolding new_token
new_token-made tok solid = rw solid refl

validate_app_token-new :
    (u id : ℕ) (tok name : String) (apps : List App)
    → user_key_re tok ≡ true
    → truthy tok ≡ true
    → get_by_token tok apps ≡ none
    → validate_app_token false tok (apps ++ (row id u tok name ∷ [])) ≡ some u
unfolding validate_app_token
validate_app_token-new u id tok name apps key solid fresh =
    rw (solid, key, get_by_token-new tok (row id u tok name) apps fresh refl) refl

-- The generator gives keys.
abbrev pub Keys : (ℕ → Option String) → Type 0
Keys new_app_token = (k : ℕ) (tok : String) → new_app_token k ≡ some tok → user_key_re tok ≡ true

listed-new :
    (u id : ℕ) (tok name : String) (apps : List App)
    → app_publics (list_by_user u (apps ++ (row id u tok name ∷ [])))
      ≡ app_publics (list_by_user u apps) ++ (record { id = id; token = tok; name = name } ∷ [])
unfolding list_by_user app_publics
listed-new u id tok name [] = let mine : (u == u) ≡ true = ground arith in rw mine
listed-new u id tok name (a ∷ rest) = elim (Bool-cases (a.user_id == u)) [
  | inl own ↦
      let item : AppItem = record { id = a.id; token = a.token; name = a.name } in
      rw own (ap (λ l. item ∷ l) (listed-new u id tok name rest))
  | inr foreign ↦ rw foreign (listed-new u id tok name rest)
]

-- The page behind a creation and the three readings that follow, by their answers.
abbrev pub created_page :
    ℕ × CreateResponse
    → ℕ × AppsResponse
    → RawOutcome LimitsBody
    → (tok : String) → AppItem
    → State
    → State
created_page reply items shown tok app s =
    (resume (read app (announce app.name)) shown
      (resume (look_up (trim s.name) tok) (outcome_of items)
        (resume (list (created (trim s.name) tok)) (outcome_of items)
          (resume (post (trim s.name)) (outcome_of reply) (handle create s).0).0).0).0).0

-- How the page ends.
abbrev pub Ends :
    (before : List AppItem) (app : AppItem) (figures : LimitsBody) (s e : State) → Type 0
Ends before app figures s e =
    Steps page s [] e []
    × (e.apps ≡ before ++ (app ∷ []))
    × (e.load_state ≡ ready)
    × (e.selected ≡ some app)
    × (e.limits ≡ some figures)
    × (e.flash ≡ some (concat ("Created “" ∷ app.name ∷ "”." ∷ [])))
    × (e.error ≡ none)
    × (e.name ≡ "")
    × (e.busy ≡ false)

issued-Ends :
    (u : ℕ) (t : Table) (name tok : String) (figures : LimitsBody) (hs : List (String × String))
    (s : State)
    → truthy tok ≡ true
    → get_by_token tok t.apps ≡ none
    → s.busy ≡ false
    → ¬ (AllSpace s.name)
    → let app : AppItem = record { id = t.next_id; token = tok; name = name } in
      Ends (app_publics (list_by_user u t.apps)) app figures s (
        created_page
          (201, record { status = some 1; token = some tok; errors = none })
          (list_apps false u (with_app u tok name t))
          (RawOutcome.settled 200 (some figures) hs)
          tok
          app
          s)
unfolding list_apps opened fresh_app
issued-Ends u t name tok figures hs s filled fresh idle solid =
    let apps = t.apps ++ (row t.next_id u tok name ∷ []) in
    let app : AppItem = record { id = t.next_id; token = tok; name = name } in
    let items = app_publics (list_by_user u apps) in
    let body : AppsResponse = record { status = some 1; apps = some items; errors = none } in
    let found = find-new u t.next_id tok name t.apps fresh in
    let run =
      create_run s 201 (record { status = some 1; token = some tok; errors = none }) tok
        (new_token-made tok filled) 200 (some body) 200 (some body) app found figures hs idle
        solid in
    (
      run.0,
      rw (new_token-made tok filled, found) (listed-new u t.next_id tok name t.apps),
      rw (new_token-made tok filled, found) refl,
      run.1,
      run.2,
      run.3,
      run.4,
      run.5,
      run.6,
    )

answered-Ends :
    (central : Location) (u : ℕ) (t : Table) (cs : List Counter) (wrapped handled : ℕ)
    (name tok : String) (s : State) (status : ℕ) (body : CreateResponse) (after : Table)
    → u ≢ 0
    → s.busy ≡ false
    → ¬ (AllSpace s.name)
    → user_key_re tok ≡ true
    → status ≡ 201
    → body ≡ record { status = some 1; token = some tok; errors = none }
    → truthy tok ≡ true
    → Inserts u tok name t after
    → let app : AppItem = record { id = t.next_id; token = tok; name = name } in
      Ends (app_publics (list_by_user u t.apps)) app (body_of central handled u cs) s (
        created_page
          (status, body)
          (list_apps false u after)
          (limits_json central wrapped handled no_faults tok after.apps cs)
          tok
          app
          s)
answered-Ends central u t cs wrapped handled name tok s status body after known idle solid key ok
      said filled (fresh, made) =
    let apps = t.apps ++ (row t.next_id u tok name ∷ []) in
    let app : AppItem = record { id = t.next_id; token = tok; name = name } in
    let valid = validate_app_token-new u t.next_id tok name t.apps key filled fresh in
    let shown = limits_json-owner central wrapped handled u tok apps cs valid known in
    let items = app_publics (list_by_user u t.apps) in
    let figures = body_of central handled u cs in
    let listed = list_apps false u (with_app u tok name t) in
    let ok_body : CreateResponse = record { status = some 1; token = some tok; errors = none } in
    rw (ok, said, made)
      (subst (λ x. Ends items app figures s (created_page (201, ok_body) listed x tok app s))
        (sym shown) (issued-Ends u t name tok figures _ s filled fresh idle solid))

-- The server's answer to the page's creation, and the table behind it.
abbrev pub reply :
    (new_app_token : ℕ → Option String) (fails : ℕ → Bool) (u : ℕ)
    → Table
    → State
    → (ℕ × CreateResponse) × Table
reply new_app_token fails u t s = create_app new_app_token fails u (some (trim s.name)) t

module _ (new_app_token : ℕ → Option String) (fails : ℕ → Bool) (central : Location) where
  -- Where the server answers the page's creation with 201 and its store can be read afterwards, the
  -- page, from a free form with a name that is not all white space and with no click in between,
  -- ends with a free and empty form, no error, the list of all the user's apps with the new one at
  -- its end, and the new app selected, with its owner's quota and the notice that names it: a token
  -- from the generator, and the name that the server has trimmed. The generator gives keys, and the
  -- user's id is not 0.
  pub created_page_lem :
      (u : ℕ) (t : Table) (cs : List Counter) (wrapped handled : ℕ) (s : State)
      → Keys new_app_token
      → u ≢ 0
      → s.busy ≡ false
      → ¬ (AllSpace s.name)
      → (reply new_app_token fails u t s).0.0 ≡ 201
      → let after = (reply new_app_token fails u t s).1 in
        (tok : String) × ((k : ℕ) × (new_app_token k ≡ some tok))
        × (let app : AppItem = record {
          id = t.next_id;
          token = tok;
          name = trim_space (trim s.name);
        } in
            Ends (app_publics (list_by_user u t.apps)) app (body_of central handled u cs) s (
              created_page
                (reply new_app_token fails u t s).0
                (list_apps false u after)
                (limits_json central wrapped handled no_faults tok after.apps cs)
                tok
                app
                s))
  created_page_lem u t cs wrapped handled s keys known idle solid ok =
      let (tok, said, filled, named, (inserts, k, draw)) =
        create_app-Issues new_app_token fails u (trim s.name) t ok in
      let (answer, after) = reply new_app_token fails u t s in
      (
        tok,
        (k, draw),
        answered-Ends central u t cs wrapped handled (trim_space (trim s.name)) tok s answer.0
            answer.1 after known idle solid (keys k tok draw) ok said filled inserts,
      )
