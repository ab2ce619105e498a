-- ===== src/Machine/Busy.antt =====
-- A page that disables a form by its `busy` flag while a call of the form is on its way.
use pushfree.Common.{ℕ, ◌+◌, ◌≤◌, ◌<◌, Bool, true, false, List, ◌∷◌, ◌++◌, ◌≡◌, ◌⊎◌, arith}
use pushfree.Machine.{Machine, total, total-append, total-middle, Steps, Reach, Steps-total}

-- What a handler does to the flag and to the form's calls: nothing, or it begins one.
abbrev pub Begins : Bool → Bool → ℕ → Type 0
Begins b b' k = ((k ≡ 0) × (b' ≡ b)) ⊎ ((k ≡ 1) × (b ≡ false) × (b' ≡ true))

-- `weight` is 1 at the calls of the form.
pub record BusyForm (m : Machine) : Type 0 where
  pub busy : m.State → Bool
  pub weight : m.Call → ℕ
  pub starts : (busy m.start.0 ≡ false) × (total weight m.start.1 ≡ 0)
  pub acts :
      (i : m.Input) (s : m.State)
      → m.Enabled i s
      → Begins (busy s) (busy (m.handle i s).0) (total weight (m.handle i s).1)
  pub settles :
      (c : m.Call) (a : m.Answer c) (s : m.State)
      → (total weight (m.resume c a s).1 ≡ 0)
        × (((weight c ≡ 0) × (busy (m.resume c a s).0 ≡ busy s)) ⊎ (weight c ≡ 1))

module _ (m : Machine) (f : BusyForm m) where
  open f use {busy, weight, starts, acts, settles}

  abbrev Inv : m.State → ℕ → Type 0
  Inv s n = (n ≤ 1) × (0 < n → busy s ≡ true)

  acts-Inv :
      (i : m.Input) (s : m.State) (n : ℕ)
      → m.Enabled i s
      → Inv s n
      → Inv (m.handle i s).0 (total weight (m.handle i s).1 + n)
  acts-Inv i s n e h = ground (arith, acts i s e)

  settles-Inv :
      (c : m.Call) (a : m.Answer c) (s : m.State) (n : ℕ)
      → Inv s (weight c + n)
      → Inv (m.resume c a s).0 (total weight (m.resume c a s).1 + n)
  settles-Inv c a s n h = ground (arith, settles c a s)

  -- At most one call of the form is on its way, and the form is disabled while it is.
  pub one_call :
      {s : m.State} {p : List m.Call}
      → Reach m s p
      → (total weight p ≤ 1) × (0 < total weight p → busy s ≡ true)
  one_call r = Steps-total m weight Inv acts-Inv settles-Inv (ground (arith, starts)) r

  abbrev Stuck : m.State → ℕ → Type 0
  Stuck s n = (n ≡ 0) × (busy s ≡ true)

  acts-Stuck :
      (i : m.Input) (s : m.State) (n : ℕ)
      → m.Enabled i s
      → Stuck s n
      → Stuck (m.handle i s).0 (total weight (m.handle i s).1 + n)
  acts-Stuck i s n e h = ground (arith, acts i s e)

  settles-Stuck :
      (c : m.Call) (a : m.Answer c) (s : m.State) (n : ℕ)
      → Stuck s (weight c + n)
      → Stuck (m.resume c a s).0 (total weight (m.resume c a s).1 + n)
  settles-Stuck c a s n h = ground (arith, settles c a s)

  -- A call of the form that settles without clearing the flag, as one does that rejects where there
  -- is no `catch`, disables the form for good.
  pub stuck :
      (before : List m.Call) (c : m.Call) (after : List m.Call) (a : m.Answer c) {s t : m.State}
      {q : List m.Call}
      → weight c ≡ 1
      → busy (m.resume c a s).0 ≡ true
      → Reach m s (before ++ c ∷ after)
      → Steps m (m.resume c a s).0 ((m.resume c a s).1 ++ (before ++ after)) t q
      → busy t ≡ true
  stuck before c after a {s} hw hb r steps =
      (Steps-total m weight Stuck acts-Stuck settles-Stuck
        (ground (
          arith,
          one_call r,
          settles c a s,
          total-middle weight before c after,
          total-append weight (m.resume c a s).1 (before ++ after),
        ))
        steps).1
