-- ===== src/Tests/Guarding.antt =====
-- The dashboard's guard and its navigation at concrete inputs.
use pushfree.Common.{none, some, [], ◌≡◌, refl}
use pushfree.Machine.{Reach, begin, settle}
use pushfree.Api.{settled}
use pushfree.Wire.{MeResponse}
use pushfree.Layout.{State, probe, mounted, resume_probe, guard, nav_items, shell, render}
use pushfree.Layout.Guard.{Any, answers, render-shell}

abbrev me : MeResponse
me = record {
  status = some 1;
  email = some "a@b.c";
  role = some "user";
  user_key = some "k";
  quiet_hours = none;
  errors = none;
}

abbrev entered : State
entered = resume_probe (settled 200 (some me)) mounted

entered_run : Reach guard entered []
entered_run = settle [] probe [] (settled 200 (some me)) begin

entered_shell :
    render (some "/dashboard") entered
    ≡ shell (nav_items (some "/dashboard")) (some "a@b.c") (some "user")
unfolding render resume_probe
entered_shell = refl

render-shell_example :
    ((x : MeResponse) × (entered.me ≡ some x)
      × (x.status ≡ some 1)
      × Any (λ a. a ≡ settled 200 (some x)) (answers entered_run))
    × (entered.replaced ≡ [])
render-shell_example =
    render-shell (some "/dashboard") (nav_items (some "/dashboard")) (some "a@b.c") (some "user")
      entered_run entered_shell
