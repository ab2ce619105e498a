-- ===== src/Login/Form.antt =====
-- The sign-in form of web/app/login/page.tsx over time.
use pushfree.Common.{
  ℕ, ◌+◌, ◌≤◌, true, false, none, some, List, [], ◌∷◌, ◌≡◌, ◌↔◌, arith, is_number-eq_some,
}
use pushfree.Machine.{total, Reach, Steps-total}
use pushfree.Api.{Outcome, rejected, settled}
use pushfree.Wire.{AckResponse}
use pushfree.Login.{
  State, Input, type_email, type_password, submit, Call, session, login, handle, resume,
  resume_login, page,
}

-- How many of the calls are logins.
abbrev pub is_login : Call → ℕ
is_login session = 0
is_login (login email password) = 1

abbrev Inv : State → ℕ → Type 0
Inv s n = (n ≤ 1) × ((s.busy ≡ true) ↔ (n ≡ 1))

handle-Inv :
    (i : Input) (s : State) (n : ℕ)
    → page.Enabled i s
    → Inv s n
    → Inv (handle i s).0 (total is_login (handle i s).1 + n)
unfolding handle total
handle-Inv (type_email t) s n e h = ground arith
handle-Inv (type_password t) s n e h = ground arith
handle-Inv submit s n e h = ground arith

resume-Inv :
    (c : Call) (a : Outcome AckResponse) (s : State) (n : ℕ)
    → Inv s (is_login c + n)
    → Inv (resume c a s) (0 + n)
unfolding resume
resume-Inv session a s n h = ground arith
resume-Inv (login email password) rejected s n h = ground arith
resume-Inv (login email password) (settled status none) s n h = ground arith
resume-Inv (login email password) (settled status (some body)) s n h = ground arith

-- However the answers come, and also where the server cannot be reached: the form is disabled
-- exactly while one login is on its way, and never two are.
pub busy_iff :
    {s : State} {p : List Call}
    → Reach page s p
    → (total is_login p ≤ 1) × ((s.busy ≡ true) ↔ (total is_login p ≡ 1))
unfolding total
busy_iff r =
    Steps-total page is_login Inv handle-Inv (λ c a s n h. resume-Inv c a s n h) (ground arith) r

-- An answer to a login by which the browser goes on to the dashboard.
abbrev pub Succeeds : Outcome AckResponse → Type 0
Succeeds rejected = ⊥
Succeeds (settled status none) = ⊥
Succeeds (settled status (some body)) = (status ≡ 200) × (body.status ≡ some 1)

-- Any answer to a login, and its rejection, where the form shows no error and the browser was sent
-- nowhere: it is sent to the dashboard exactly on success, an error is shown exactly otherwise, and
-- the form is enabled again.
pub resume_login_lem :
    (a : Outcome AckResponse) (s : State)
    → s.error ≡ none
    → s.replaced ≡ []
    → let t = resume_login a s in
      (t.busy ≡ false)
      × ((t.replaced ≡ "/dashboard" ∷ []) ↔ Succeeds a)
      × ((t.error ≡ none) ↔ Succeeds a)
unfolding resume_login
resume_login_lem rejected s e r = ground arith
resume_login_lem (settled status none) s e r = ground arith
resume_login_lem (settled status (some body)) s e r =
    ground (arith, is_number-eq_some body.status 1)
