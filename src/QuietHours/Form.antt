-- ===== src/QuietHours/Form.antt =====
-- The form of web/app/dashboard/quiet-hours/page.tsx over time.
use pushfree.Common.{
  ℕ, ◌≤◌, ◌<◌, Bool, true, false, Option, none, some, List, [], ◌∷◌, ◌++◌, ◌≡◌, ◌⊎◌, refl, arith,
  if◌then◌else◌, is_number-eq_some,
}
use pushfree.Machine.{total, total-middle, Steps, Reach}
use pushfree.Machine.Busy.{Begins, BusyForm, one_call, stuck}
use pushfree.Api.{Outcome, rejected, settled}
use pushfree.Wire.{MeResponse}
use pushfree.QuietHours.{
  State, Window, Input, set_start, set_end, set_tz, save, unmount, Call, load, put, window, handle,
  resume, resume_put, page,
}

-- How many of the calls are saves.
abbrev pub is_put : Call → ℕ
is_put load = 0
is_put (put clear body) = 1

handle-Begins :
    (i : Input) (s : State)
    → page.Enabled i s
    → Begins s.busy (handle i s).0.busy (total is_put (handle i s).1)
unfolding handle total
handle-Begins (set_start t) s e = ground arith
handle-Begins (set_end t) s e = ground arith
handle-Begins (set_tz t) s e = ground arith
handle-Begins (save clear) s e = ground arith
handle-Begins unmount s e = ground arith

resume-settles :
    (c : Call) (a : Outcome MeResponse) (s : State)
    → (total is_put [] ≡ 0) × (((is_put c ≡ 0) × ((resume c a s).busy ≡ s.busy)) ⊎ (is_put c ≡ 1))
unfolding resume total
resume-settles load rejected s = ground arith
resume-settles load (settled status none) s = ground arith
resume-settles load (settled status (some me)) s = ground arith
resume-settles (put clear body) a s = ground arith

abbrev form : BusyForm page
form = record {
  busy = λ s. s.busy;
  weight = is_put;
  starts = unfold total in (refl, refl);
  acts = handle-Begins;
  settles = resume-settles;
}

-- At most one save is on its way, and the form's buttons are disabled while it is.
pub busy_of_put :
    {s : State} {p : List Call}
    → Reach page s p
    → (total is_put p ≤ 1) × (0 < total is_put p → s.busy ≡ true)
busy_of_put r = one_call page form r

-- The server's answer to a save that it accepts (server/internal/api/accounts.go, quietHours).
abbrev pub accepted : Window → MeResponse
accepted w = record {
  status = some 1;
  email = none;
  role = none;
  user_key = none;
  quiet_hours =
      some (record { start = some w.quiet_start; end = some w.quiet_end; tz = some w.tz });
  errors = none;
}

-- A save that the server accepts by repeating what was sent leaves the form at the window of the
-- moment of the click, whatever was typed since, or at the empty window where it was `Clear window`.
-- The notice says which of the two it was, and the buttons are free again.
pub resume_put-accepted :
    (clear : Bool) (s t : State)
    → let u = resume_put clear (settled 200 (some (accepted (window clear s)))) t in
      (u.start ≡ (if clear then "" else s.start))
      × (u.end ≡ (if clear then "" else s.end))
      × (u.tz ≡ s.tz)
      × (u.flash ≡ some (if clear then "Quiet hours cleared." else "Quiet hours saved."))
      × (u.busy ≡ false)
unfolding resume_put window
resume_put-accepted clear s t = (refl, refl, refl, refl, refl)

-- A save that is answered, and not with status 200 and a body whose status is 1, leaves the form's
-- three fields and the notice alone, shows an error and frees the buttons.
pub resume_put-refused :
    (clear : Bool) (status : ℕ) (body : Option MeResponse) (t : State)
    → (status ≡ 200 → (me : MeResponse) → body ≡ some me → me.status ≡ some 1 → ⊥)
    → let u = resume_put clear (settled status body) t in
      (window false u ≡ window false t)
      × (u.error ≡ none → ⊥)
      × (u.flash ≡ t.flash)
      × (u.busy ≡ false)
unfolding resume_put window
resume_put-refused clear status none t h = ground arith
resume_put-refused clear status (some me) t h = ground (
  arith,
  is_number-eq_some me.status 1,
  λ (p : status ≡ 200) (q : me.status ≡ some 1). h p me refl q,
)

-- A save whose fetch rejects leaves the buttons disabled: no click and no later answer enables them.
pub rejected_put-busy :
    {s t : State} {q : List Call} (before after : List Call) (clear : Bool) (body : Window)
    → Reach page s (before ++ put clear body ∷ after)
    → Steps page (resume (put clear body) rejected s) (before ++ after) t q
    → t.busy ≡ true
unfolding resume
rejected_put-busy {s} before after clear body r steps =
    stuck page form before (put clear body) after rejected refl
      ((busy_of_put r).1 (omega (arith, total-middle is_put before (put clear body) after))) r steps
