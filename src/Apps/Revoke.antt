-- ===== src/Apps/Revoke.antt =====
-- `onDelete` of web/app/dashboard/apps/page.tsx.
use pushfree.Common.{
  ℕ, true, false, Option, none, some, List, [], ◌∷◌, ◌++◌, ◌≡◌, ◌∙◌, refl, arith, subst,
}
use pushfree.Machine.{Steps, begin, act, settle, act_alone, settle_alone}
use pushfree.Api.{Outcome}
use pushfree.Wire.{AppsResponse, AckResponse, AppItem}
use pushfree.Apps.{
  State, delete, show_limits, Call, list, read, revoke, revoked, AfterLimits, handle, resume,
  resume_revoke, after_load, show_list, is_selected, page,
}

-- The server's answer to a revocation that it made.
abbrev pub ok_answer : Outcome AckResponse
ok_answer = Outcome.settled 200 (some (record { status = some 1; errors = none }))

-- The page after a confirmed revocation of `app` that the server made, with nothing clicked between,
-- and the reload's answer.
abbrev pub finished : AppItem → ℕ → Option AppsResponse → State → State
finished app status body s =
    (resume (list revoked) (Outcome.settled status body)
      (resume (revoke app s.selected) ok_answer (handle (delete app true) s).0).0).0

show_list-fields :
    (status : ℕ) (body : Option AppsResponse) (s : State)
    → ((show_list status body s).selected ≡ s.selected)
      × ((show_list status body s).limits ≡ s.limits)
      × ((show_list status body s).headers ≡ s.headers)
unfolding show_list
show_list-fields status none s = (refl, refl, refl)
show_list-fields status (some body) s = ground arith

revoke-fields :
    (app : AppItem) (sel : Option AppItem) (s : State)
    → let (t, calls) = resume_revoke app sel ok_answer s in
      (calls ≡ list revoked ∷ [])
      × (is_selected sel app ≡ true → (t.selected ≡ none) × (t.limits ≡ none) × (t.headers ≡ none))
      × (is_selected sel app ≡ false → (t.selected ≡ s.selected) × (t.limits ≡ s.limits))
unfolding resume_revoke
revoke-fields app sel s = ground arith

-- A confirmed revocation that the server makes, with no other click before it has ended: the panel of
-- the revoked app is closed with its figures, any other app's panel is left as it is, and the notice
-- is shown whether the reload succeeds or not.
pub delete_run :
    (s : State) (app : AppItem) (status : ℕ) (body : Option AppsResponse)
    → let t = finished app status body s in
      Steps page s [] t []
      × (t.flash ≡ some "Token revoked.")
      × (is_selected s.selected app ≡ true
          → (t.selected ≡ none) × (t.limits ≡ none) × (t.headers ≡ none))
      × (is_selected s.selected app ≡ false → (t.selected ≡ s.selected) × (t.limits ≡ s.limits))
unfolding resume after_load handle
delete_run s app status body =
    let asked = record s { error = none } in
    let made = revoke-fields app s.selected asked in
    let u = (resume_revoke app s.selected ok_answer asked).0 in
    let kept = show_list-fields status body u in
    let click = act_alone page (delete app true) begin tt refl in
    let answer = settle_alone page (revoke app s.selected) ok_answer click made.0 in
    (
      settle_alone page (list revoked) (Outcome.settled status body) answer refl,
      refl,
      λ same. (kept.0 ∙ (made.1 same).0, kept.1 ∙ (made.1 same).1, kept.2 ∙ (made.1 same).2),
      λ other. (kept.0 ∙ (made.2 other).0, kept.1 ∙ (made.2 other).1),
    )

-- Where another app or none is selected at the click on `Revoke`, and the user opens the app's panel
-- before the server's success is answered, the answer leaves the revoked app selected.
pub delete_stale :
    (s : State) (app : AppItem)
    → is_selected s.selected app ≡ false
    → let t =
        (resume
          (revoke app s.selected)
          ok_answer
          (handle (show_limits app) (handle (delete app true) s).0).0).0 in
      Steps page s [] t (list revoked ∷ read app AfterLimits.alone ∷ []) × (t.selected ≡ some app)
unfolding resume handle
delete_stale s app other =
    let asked = (handle (show_limits app) (handle (delete app true) s).0).0 in
    let made = revoke-fields app s.selected asked in
    let reading : List Call = read app AfterLimits.alone ∷ [] in
    let t = (resume_revoke app s.selected ok_answer asked).0 in
    (
      subst (λ calls. Steps page s [] t (calls ++ (reading ++ []))) made.0
          (settle reading (revoke app s.selected) [] ok_answer
            (act (show_limits app) (act (delete app true) begin tt) tt)),
      (made.2 other).0,
    )
