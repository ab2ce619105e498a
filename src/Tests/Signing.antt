-- ===== src/Tests/Signing.antt =====
-- The sign-in form at concrete inputs.
use pushfree.Common.{◌≤◌, true, List, [], ◌∷◌, ◌≡◌, ◌↔◌, refl}
use pushfree.Machine.{total, Reach, begin, act}
use pushfree.Login.{State, type_email, submit, Call, session, login, mounted, handle, page}
use pushfree.Login.Form.{is_login, busy_iff}

abbrev typed : State
typed = (handle (type_email "a@b.c") mounted).0

abbrev submitted : State
submitted = (handle submit typed).0

abbrev waiting : List Call
waiting = login "a@b.c" "" ∷ session ∷ []

submit_run : Reach page submitted waiting
unfolding handle
submit_run = act submit (act (type_email "a@b.c") begin tt) refl

busy_iff_example :
    (total is_login waiting ≤ 1) × ((submitted.busy ≡ true) ↔ (total is_login waiting ≡ 1))
busy_iff_example = busy_iff submit_run
