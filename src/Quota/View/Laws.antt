-- ===== src/Quota/View/Laws.antt =====
-- What web/app/dashboard/quota/page.tsx shows in the states that it comes to.
use pushfree.Common.{
  ℕ, ◌+◌, ◌≤◌, ◌<◌, String, true, Option, none, some, List, [], ◌∷◌, ◌≡◌, ◌↔◌, ◌≢◌, refl, arith,
  any, map, str_eq,
}
use pushfree.Machine.{total, Reach, Steps-total}
use pushfree.Api.{Outcome, RawOutcome}
use pushfree.Wire.{AppItem, LimitsBody, LimitHeaders}
use pushfree.Quota.{
  State, Input, set_token, load_limits, Call, list, read, Answer, handle, resume, page,
  select_value, option_values,
}
use pushfree.Quota.Form.{is_read}
use pushfree.Quota.Badge.{select_value-option}
use pushfree.Quota.View.{Picker, picker_of, Usage, usage_of, render}

record Inv (s : State) (n : ℕ) : Type 0 where
  once : n ≤ 1
  waits : 0 < n → s.busy ≡ true
  cleared : 0 < n → s.limits ≡ none
  paired : (s.limits ≡ none) ↔ (s.headers ≡ none)

handle-Inv :
    (i : Input) (s : State) (n : ℕ)
    → page.Enabled i s
    → Inv s n
    → Inv (handle i s).0 (total is_read (handle i s).1 + n)
unfolding handle total
handle-Inv (set_token t) s n e h = ground arith
handle-Inv load_limits s n e h = ground arith

resume-Inv :
    (c : Call) (a : Answer c) (s : State) (n : ℕ)
    → Inv s (is_read c + n)
    → Inv (resume c a s) (0 + n)
unfolding resume
resume-Inv list Outcome.rejected s n h = h
resume-Inv list (Outcome.settled status none) s n h = h
resume-Inv list (Outcome.settled status (some body)) s n h = ground arith
resume-Inv (read token) RawOutcome.rejected s n h = ground arith
resume-Inv (read token) (RawOutcome.settled status none hs) s n h = ground arith
resume-Inv (read token) (RawOutcome.settled status (some body) hs) s n h = ground arith

Reach-Inv : {s : State} {p : List Call} → Reach page s p → Inv s (total is_read p)
unfolding total
Reach-Inv r =
    Steps-total page is_read Inv handle-Inv (λ c a s n h. resume-Inv c a s n h) (ground arith) r

-- The picker shows one of its own options as chosen.
abbrev pub Chosen : Option Picker → Type 0
Chosen none = Unit
Chosen (some p) = any (λ o. str_eq o.0 p.value) p.options ≡ true

any-map_fst :
    (v : String) (apps : List AppItem)
    → any (λ (o : String × String). str_eq o.0 v) (map (λ app. (app.token, app.name)) apps)
      ≡ any (λ x. str_eq x v) (map (λ app. app.token) apps)
any-map_fst v [] = refl
any-map_fst v (a ∷ rest) = rw (any-map_fst v rest) refl

picker_of-Chosen :
    (v : String) (apps : List AppItem)
    → any (λ x. str_eq x v) ("" ∷ map (λ a. a.token) apps) ≡ true
    → Chosen (picker_of apps v)
unfolding picker_of
picker_of-Chosen v [] h = tt
picker_of-Chosen v (a ∷ rest) h = rw (any-map_fst v rest) h

-- The figures stand there with the headers of the same response.
abbrev pub Whole : Option Usage → Type 0
Whole none = Unit
Whole (some u) = u.headers ≢ none

usage_of-Whole :
    (l : Option LimitsBody) (hs : Option LimitHeaders)
    → (l ≡ none) ↔ (hs ≡ none)
    → Whole (usage_of l hs)
unfolding usage_of
usage_of-Whole none hs h = tt
usage_of-Whole (some l) hs h = λ eq. cc (h.1 eq)

-- What the page shows in every state that it comes to: the picker has one of its options chosen, the
-- figures stand there with the headers of their response, and while a reading is on its way, of which
-- there is one at most, the button is disabled and says so, and the figures of the reading before are
-- gone.
pub render_lem :
    {s : State} {p : List Call}
    → Reach page s p
    → let v = render s in
      Chosen v.picker
      × Whole v.usage
      × (total is_read p ≤ 1)
      × (0 < total is_read p
          → (v.button_disabled ≡ true) × (v.button_label ≡ "Reading…") × (v.usage ≡ none))
unfolding render option_values
render_lem {s} r =
    let h = Reach-Inv r in
    (
      picker_of-Chosen (select_value s) s.apps (select_value-option s),
      usage_of-Whole s.limits s.headers h.paired,
      h.once,
      λ waits. let gone = h.cleared waits in rw (h.waits waits, gone) (refl, refl, refl),
    )
