-- ===== src/Quota/Form.antt =====
-- The form of web/app/dashboard/quota/page.tsx over time.
use pushfree.Common.{
  ℕ, ◌≤◌, ◌<◌, true, String, none, some, List, [], ◌∷◌, ◌++◌, ◌≡◌, ◌⊎◌, ◌↔◌, refl, arith,
  Bool-cases, inl, inr,
}
use pushfree.Machine.{total, total-middle, Steps, Reach, Steps-state}
use pushfree.Machine.Busy.{Begins, BusyForm, one_call, stuck}
use pushfree.Text.{truthy, trim}
use pushfree.Text.Trim.{AllSpace, truthy-trim_iff}
use pushfree.Api.{Outcome, RawOutcome}
use pushfree.Quota.{
  State, Input, set_token, load_limits, Call, list, read, Answer, handle, resume, page,
}

-- How many of the calls read a quota.
abbrev pub is_read : Call → ℕ
is_read list = 0
is_read (read token) = 1

handle-Begins :
    (i : Input) (s : State)
    → page.Enabled i s
    → Begins s.busy (handle i s).0.busy (total is_read (handle i s).1)
unfolding handle total
handle-Begins (set_token t) s e = ground arith
handle-Begins load_limits s e = ground arith

resume-settles :
    (c : Call) (a : Answer c) (s : State)
    → (total is_read [] ≡ 0)
      × (((is_read c ≡ 0) × ((resume c a s).busy ≡ s.busy)) ⊎ (is_read c ≡ 1))
unfolding resume total
resume-settles list Outcome.rejected s = ground arith
resume-settles list (Outcome.settled status none) s = ground arith
resume-settles list (Outcome.settled status (some body)) s = ground arith
resume-settles (read token) a s = ground arith

abbrev form : BusyForm page
form = record {
  busy = λ s. s.busy;
  weight = is_read;
  starts = unfold total in (refl, refl);
  acts = handle-Begins;
  settles = resume-settles;
}

-- At most one reading of a quota is on its way, and the form is disabled while it is.
pub busy_of_read :
    {s : State} {p : List Call}
    → Reach page s p
    → (total is_read p ≤ 1) × (0 < total is_read p → s.busy ≡ true)
busy_of_read r = one_call page form r

-- A reading whose fetch rejects leaves the form disabled: no click and no later answer enables it.
pub rejected_read-busy :
    {s t : State} {q : List Call} (before after : List Call) (token : String)
    → Reach page s (before ++ read token ∷ after)
    → Steps page (resume (read token) RawOutcome.rejected s) (before ++ after) t q
    → t.busy ≡ true
unfolding resume
rejected_read-busy {s} before after token r steps =
    stuck page form before (read token) after RawOutcome.rejected refl
      ((busy_of_read r).1 (omega (arith, total-middle is_read before (read token) after))) r steps

-- A token of white space alone is refused on the spot, and nothing is sent. Any other is asked for
-- trimmed, and the figures, the headers and the error of the reading before are cleared.
pub handle-load_limits :
    (s : State)
    → (AllSpace s.token
        → handle load_limits s ≡ (record s { error = some "Enter or select an app token." }, []))
      × (¬ (AllSpace s.token)
          → let (t, calls) = handle load_limits s in
            (calls ≡ read (trim s.token) ∷ [])
            × (t.limits ≡ none)
            × (t.headers ≡ none)
            × (t.error ≡ none)
            × (t.busy ≡ true)
            × (t.token ≡ s.token))
unfolding handle
handle-load_limits s = elim (Bool-cases (truthy (trim s.token))) [
  | inl sent ↦ (
    λ blank. cc ((truthy-trim_iff s.token).1 blank),
    λ _. rw sent (refl, refl, refl, refl, refl, refl),
  )
  | inr blank ↦ (λ _. rw blank, λ solid. absurd (solid ((truthy-trim_iff s.token).0 blank)))
]

abbrev Paired : State → Type 0
Paired s = (s.limits ≡ none) ↔ (s.headers ≡ none)

handle-Paired : (i : Input) (s : State) → Paired s → Paired (handle i s).0
unfolding handle
handle-Paired (set_token t) s h = h
handle-Paired load_limits s h = ground arith

resume-Paired : (c : Call) (a : Answer c) (s : State) → Paired s → Paired (resume c a s)
unfolding resume
resume-Paired list Outcome.rejected s h = h
resume-Paired list (Outcome.settled status none) s h = h
resume-Paired list (Outcome.settled status (some body)) s h = h
resume-Paired (read token) RawOutcome.rejected s h = h
resume-Paired (read token) (RawOutcome.settled status none hs) s h = h
resume-Paired (read token) (RawOutcome.settled status (some body) hs) s h = ground arith

-- The figures and the headers are shown together or not at all.
pub limits-headers :
    {s : State} {p : List Call} → Reach page s p → (s.limits ≡ none) ↔ (s.headers ≡ none)
limits-headers r =
    Steps-state page Paired (λ i s e h. handle-Paired i s h) resume-Paired (ground arith) r
