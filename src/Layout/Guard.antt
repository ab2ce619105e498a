-- ===== src/Layout/Guard.antt =====
-- The auth guard of web/app/dashboard/layout.tsx over time.
use pushfree.Common.{
  ℕ, ◌+◌, ◌≤◌, ◌<◌, String, true, Option, none, some, List, [], ◌∷◌, ◌≡◌, refl, arith, ◌↔◌, ◌⊎◌, ap,
  sym, ◌∙◌, inl, inr, Bool-cases, false, ◌==◌, ◌&&◌, is_number, is_number-eq_some,
}
use pushfree.Machine.{total, Steps, Reach, begin, act, settle, Steps-total, Steps-state}
use pushfree.Api.{Outcome, rejected, settled}
use pushfree.Wire.{MeResponse}
use pushfree.Layout.{
  State, Call, probe, mounted, loading, authed, error, resume_probe, guard, shell, NavItem, render,
}

-- An answer to the probe by which the session is valid.
abbrev pub Accepts : Outcome MeResponse → Type 0
Accepts rejected = ⊥
Accepts (settled status none) = ⊥
Accepts (settled status (some me)) = (status ≡ 200) × (me.status ≡ some 1)

record Inv (s : State) (n : ℕ) : Type 0 where
  once : n ≤ 1
  waiting : 0 < n → s.replaced ≡ []
  entered : s.state ≡ authed → s.replaced ≡ []
  undecided : 0 < n → s.state ≡ loading

abbrev one : Call → ℕ
one c = 1

settle-Inv :
    (a : Outcome MeResponse) (s : State) (n : ℕ) → Inv s (1 + n) → Inv (resume_probe a s) (0 + n)
unfolding resume_probe
settle-Inv rejected s n h = ground arith
settle-Inv (settled status none) s n h = ground arith
settle-Inv (settled status (some me)) s n h = ground (arith, is_number-eq_some me.status 1)

Reach-Inv : {s : State} {p : List Call} → Reach guard s p → Inv s (total one p)
unfolding total
Reach-Inv r =
    Steps-total guard one Inv (λ i s n e h. ground arith) (λ c a s n h. settle-Inv a s n h)
      (ground arith) r

-- What the probes of a run were answered with, the latest first.
unfoldable pub answers : {s : State} {p : List Call} → Reach guard s p → List (Outcome MeResponse)
answers begin = []
answers (act i r e) = answers r
answers (settle before probe after a r) = a ∷ answers r

abbrev pub Any : (Outcome MeResponse → Type 0) → List (Outcome MeResponse) → Type 0
Any P [] = ⊥
Any P (a ∷ rest) = P a ⊎ Any P rest

-- The session is the one of an answer with status 200 whose body has the status 1.
abbrev pub Vouched : State → List (Outcome MeResponse) → Type 0
Vouched s got =
    (me : MeResponse) × (s.me ≡ some me)
    × (me.status ≡ some 1)
    × Any (λ a. a ≡ settled 200 (some me)) got

from_cancelled : (a : Outcome MeResponse) (s : State) → s.cancelled ≡ true → resume_probe a s ≡ s
unfolding resume_probe
from_cancelled rejected s off = rw off
from_cancelled (settled status body) s off = rw off

both :
    (status : ℕ) (me : MeResponse)
    → ((status == 200) && is_number me.status 1) ≡ true
    → (status ≡ 200) × (me.status ≡ some 1)
both status me fine = ground (arith, is_number-eq_some me.status 1)

-- An answer to a state that is vouched for once it is authed.
settle-Vouched :
    (a : Outcome MeResponse) (s : State) (got : List (Outcome MeResponse))
    → (s.state ≡ authed → Vouched s got)
    → (resume_probe a s).state ≡ authed
    → Vouched (resume_probe a s) (a ∷ got)
unfolding resume_probe
settle-Vouched a s got h entered = elim (Bool-cases s.cancelled) [
  | inl off ↦
      let still = from_cancelled a s off in
      let (me, held, one, said) = h (ap (λ t. t.state) (sym still) ∙ entered) in
      (me, ap (λ t. t.me) still ∙ held, one, inr said)
  | inr on ↦ answered a on entered
]
  where
    answered :
        (a : Outcome MeResponse)
        → s.cancelled ≡ false
        → (resume_probe a s).state ≡ authed
        → Vouched (resume_probe a s) (a ∷ got)
    answered rejected on entered = cc (rw on at entered)
    answered (settled status none) on entered =
        let (me, held, one, said) = h (rw on at entered) in rw on (me, held, one, inr said)
    answered (settled status (some me)) on entered =
        elim (Bool-cases ((status == 200) && is_number me.status 1)) [
          | inl fine ↦
              let (ok, one) = both status me fine in
              rw (on, fine) (me, refl, one, inl (ap (λ n. settled n (some me)) ok))
          | inr refused ↦
              let (me', held, one, said) = h (rw (on, refused) at entered) in
              rw (on, refused) (me', held, one, inr said)
        ]

answers-Vouched :
    {s : State} {p : List Call} (r : Reach guard s p) → s.state ≡ authed → Vouched s (answers r)
unfolding answers
answers-Vouched begin entered = cc entered
answers-Vouched (act i r e) entered = answers-Vouched r entered
answers-Vouched (settle {s} before probe after a r) entered =
    settle-Vouched a s (answers r) (answers-Vouched r) entered

-- In every state that the guard comes to, where the shell with the children is rendered, the server has
-- answered a probe of that run with status 200 and a body whose status is 1, the layout holds that
-- body, and the browser was not sent to the login page.
pub render-shell :
    {s : State} {p : List Call} (pathname : Option String) (items : List NavItem)
    (email role : Option String) (r : Reach guard s p)
    → render pathname s ≡ shell items email role
    → Vouched s (answers r) × (s.replaced ≡ [])
unfolding render
render-shell {s} pathname items email role r h =
    let entered : s.state ≡ authed = ground (arith, h) in
    (answers-Vouched r entered, (Reach-Inv r).entered entered)

-- What the probe's answer does to the mounted layout: entry exactly on status 200 with a body whose
-- status is 1, the error screen exactly on a rejection, and the login page exactly otherwise.
pub resume_probe-mounted :
    (a : Outcome MeResponse)
    → let s = resume_probe a mounted in
      ((s.state ≡ authed) ↔ Accepts a)
      × ((s.state ≡ error) ↔ (a ≡ rejected))
      × ((s.replaced ≡ "/login" ∷ []) ↔ (s.state ≡ loading))
unfolding resume_probe
resume_probe-mounted rejected = ground arith
resume_probe-mounted (settled status none) = ground arith
resume_probe-mounted (settled status (some me)) = ground (arith, is_number-eq_some me.status 1)

-- Once the layout is unmounted, no late answer changes it.
pub Steps-unmounted :
    {s t : State} {p q : List Call} → s.cancelled ≡ true → Steps guard s p t q → t ≡ s
unfolding resume_probe
Steps-unmounted {s} h r =
    Steps-state guard (λ t. t ≡ s) (λ i t e k. cc) (λ c a t k. still a t k) refl r
  where
    still : (a : Outcome MeResponse) (t : State) → t ≡ s → resume_probe a t ≡ s
    still rejected t k = ground arith
    still (settled status body) t k = ground arith
