-- ===== src/Apps/Calls.antt =====
-- The create form of web/app/dashboard/apps/page.tsx and its call.
use pushfree.Common.{
  ℕ, ◌≤◌, ◌<◌, true, false, String, Option, none, some, List, ◌∷◌, ◌++◌, ◌≡◌, ◌⊎◌, refl, arith,
}
use pushfree.Machine.{total, total-middle, Steps, Reach}
use pushfree.Machine.Busy.{Begins, BusyForm, one_call, stuck}
use pushfree.Api.{Outcome, RawOutcome}
use pushfree.Wire.{AppsResponse, LimitsBody, CreateResponse, AckResponse, AppItem}
use pushfree.Apps.{
  State, Input, set_name, show_limits, create, delete, Call, list, read, post, look_up, revoke,
  Answer, AfterLoad, alone, revoked, created, AfterLimits, announce, after_load, show_list,
  show_figures, after_limits, handle, resume, resume_post, resume_look_up, resume_revoke, page,
}

-- How many of the calls create an app.
abbrev pub is_post : Call → ℕ
is_post (list then_do) = 0
is_post (read app then_do) = 0
is_post (post trimmed) = 1
is_post (look_up trimmed token) = 0
is_post (revoke app selected) = 0

handle-Begins :
    (i : Input) (s : State)
    → page.Enabled i s
    → Begins s.busy (handle i s).0.busy (total is_post (handle i s).1)
unfolding handle total
handle-Begins (set_name t) s e = ground arith
handle-Begins (show_limits app) s e = ground arith
handle-Begins create s e = ground arith
handle-Begins (delete app true) s e = ground arith
handle-Begins (delete app false) s e = ground arith

-- A continuation that creates no app, and leaves the flag alone.
abbrev Idle : State → State × List Call → Type 0
Idle s (t, calls) = (total is_post calls ≡ 0) × (t.busy ≡ s.busy)

after_load-Idle : (f : AfterLoad) (s : State) → Idle s (after_load f s)
unfolding after_load total
after_load-Idle alone s = ground arith
after_load-Idle revoked s = ground arith
after_load-Idle (created n t) s = ground arith

show_list-busy :
    (status : ℕ) (body : Option AppsResponse) (s : State) → (show_list status body s).busy ≡ s.busy
unfolding show_list
show_list-busy status none s = refl
show_list-busy status (some body) s = ground arith

show_figures-busy :
    (status : ℕ) (body : Option LimitsBody) (hs : List (String × String)) (s : State)
    → (show_figures status body hs s).busy ≡ s.busy
unfolding show_figures
show_figures-busy status none hs s = refl
show_figures-busy status (some body) hs s = ground arith

after_limits-busy : (f : AfterLimits) (s : State) → (after_limits f s).busy ≡ s.busy
unfolding after_limits
after_limits-busy AfterLimits.alone s = refl
after_limits-busy (announce name) s = refl

resume_look_up-Idle :
    (n t : String) (a : Outcome AppsResponse) (s : State) → Idle s (resume_look_up n t a s)
unfolding resume_look_up total
resume_look_up-Idle n t Outcome.rejected s = ground arith
resume_look_up-Idle n t (Outcome.settled status body) s = ground arith

resume_revoke-Idle :
    (app : AppItem) (selected : Option AppItem) (a : Outcome AckResponse) (s : State)
    → Idle s (resume_revoke app selected a s)
unfolding resume_revoke total
resume_revoke-Idle app selected Outcome.rejected s = ground arith
resume_revoke-Idle app selected (Outcome.settled status none) s = ground arith
resume_revoke-Idle app selected (Outcome.settled status (some body)) s = ground arith

resume_post-total :
    (n : String) (a : Outcome CreateResponse) (s : State) → total is_post (resume_post n a s).1 ≡ 0
unfolding resume_post total
resume_post-total n Outcome.rejected s = refl
resume_post-total n (Outcome.settled status none) s = refl
resume_post-total n (Outcome.settled status (some body)) s = ground arith

resume-settles :
    (c : Call) (a : Answer c) (s : State)
    → (total is_post (resume c a s).1 ≡ 0)
      × (((is_post c ≡ 0) × ((resume c a s).0.busy ≡ s.busy)) ⊎ (is_post c ≡ 1))
unfolding resume total
resume-settles (list f) Outcome.rejected s = ground arith
resume-settles (list f) (Outcome.settled status body) s =
    let t = show_list status body s in
    ground (arith, after_load-Idle f t, show_list-busy status body s)
resume-settles (read app f) RawOutcome.rejected s = ground arith
resume-settles (read app f) (RawOutcome.settled status body hs) s =
    let t = show_figures status body hs s in
    ground (arith, after_limits-busy f t, show_figures-busy status body hs s)
resume-settles (post n) a s = ground (arith, resume_post-total n a s)
resume-settles (look_up n t) a s = ground (arith, resume_look_up-Idle n t a s)
resume-settles (revoke app selected) a s = ground (arith, resume_revoke-Idle app selected a s)

abbrev form : BusyForm page
form = record {
  busy = λ s. s.busy;
  weight = is_post;
  starts = unfold total in (refl, refl);
  acts = handle-Begins;
  settles = resume-settles;
}

-- At most one creation is on its way, and the form is disabled while it is.
pub busy_of_post :
    {s : State} {p : List Call}
    → Reach page s p
    → (total is_post p ≤ 1) × (0 < total is_post p → s.busy ≡ true)
busy_of_post r = one_call page form r

-- A creation whose fetch rejects leaves the form disabled: no click and no later answer enables it.
pub rejected_post-busy :
    {s t : State} {q : List Call} (before after : List Call) (name : String)
    → Reach page s (before ++ post name ∷ after)
    → Steps page (resume (post name) Outcome.rejected s).0 (before ++ after) t q
    → t.busy ≡ true
unfolding resume resume_post
rejected_post-busy {s} before after name r steps =
    stuck page form before (post name) after Outcome.rejected refl
      ((busy_of_post r).1 (omega (arith, total-middle is_post before (post name) after))) r steps
