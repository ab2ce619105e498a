-- ===== src/Apps/Race.antt =====
-- `showLimits` of web/app/dashboard/apps/page.tsx, called twice before the first answer.
use pushfree.Common.{some, List, [], ◌∷◌, ◌≡◌, refl, String}
use pushfree.Machine.{Steps, begin, act, settle}
use pushfree.Api.{RawOutcome}
use pushfree.Wire.{LimitsBody, AppItem}
use pushfree.Apps.{State, show_limits, Call, read, AfterLimits, handle, resume, opened, page}

abbrev pub asked : AppItem → Call
asked app = read app AfterLimits.alone

abbrev pub shown : LimitsBody → List (String × String) → RawOutcome LimitsBody
shown figures hs = RawOutcome.settled 200 (some figures) hs

abbrev pub answer : AppItem → LimitsBody → List (String × String) → State → State
answer app figures hs s = (resume (asked app) (shown figures hs) s).0

-- Both buttons clicked, `a` first, with neither answered.
abbrev pub both_asked : AppItem → AppItem → State → State
both_asked a b s = (handle (show_limits b) (handle (show_limits a) s).0).0

-- Two quotas asked for before either is answered, and both answered with status 200: where the
-- answers come in the order of the clicks, the page ends with the second app and its figures; where
-- they come in the other order, it ends with the second app and the figures of the first.
pub both_asked_lem :
    (s : State) (a b : AppItem) (for_a for_b : LimitsBody) (hs : List (String × String))
    → (let t = answer b for_b hs (answer a for_a hs (both_asked a b s)) in
        Steps page s [] t [] × (t.selected ≡ some b) × (t.limits ≡ some for_b))
      × (let t = answer a for_a hs (answer b for_b hs (both_asked a b s)) in
          Steps page s [] t [] × (t.selected ≡ some b) × (t.limits ≡ some for_a))
unfolding opened
both_asked_lem s a b for_a for_b hs = (
  (
    settle [] (asked b) [] (shown for_b hs)
        (settle (asked b ∷ []) (asked a) [] (shown for_a hs) both),
    refl,
    refl,
  ),
  (
    settle [] (asked a) [] (shown for_a hs)
        (settle [] (asked b) (asked a ∷ []) (shown for_b hs) both),
    refl,
    refl,
  ),
)
  where
    both : Steps page s [] (both_asked a b s) (asked b ∷ asked a ∷ [])
    both = act (show_limits b) (act (show_limits a) begin tt) tt
