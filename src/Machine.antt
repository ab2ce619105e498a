-- ===== src/Machine.antt =====
-- A page of the dashboard as a machine: its React state and the awaits that have not settled.
-- A handler runs to its first `await` and leaves the calls that it awaits; a call settles at any
-- later time, in any order, and its continuation runs to the next `await`. A continuation's captured
-- variables are arguments of its call.
pub mod Busy
use pushfree.Common.{ℕ, ◌+◌, ◌≡◌, List, [], ◌∷◌, ◌++◌, append-nil, ◌∙◌, subst, arith}

-- `Answer c` is what the call `c` can settle with. `Enabled i s` says that the page shows the
-- control that causes `i`, and that the control is not disabled.
pub record Machine : Type 1 where
  pub State : Type 0
  pub Input : Type 0
  pub Call : Type 0
  pub Answer : Call → Type 0
  pub start : State × List Call
  pub Enabled : Input → State → Type 0
  pub handle : Input → State → State × List Call
  pub resume : (c : Call) → Answer c → State → State × List Call

-- The calls of a list, counted with a weight each.
unfoldable pub total {ℓ} : {C : Type ℓ} → (C → ℕ) → List C → ℕ
total w [] = 0
total w (c ∷ cs) = w c + total w cs

pub total-append {ℓ} :
    {C : Type ℓ} (w : C → ℕ) (xs ys : List C) → total w (xs ++ ys) ≡ total w xs + total w ys
unfolding total
total-append w [] ys = omega arith
total-append w (x ∷ xs) ys = omega (arith, total-append w xs ys)

pub total-middle {ℓ} :
    {C : Type ℓ} (w : C → ℕ) (xs : List C) (c : C) (ys : List C)
    → total w (xs ++ c ∷ ys) ≡ w c + total w (xs ++ ys)
unfolding total
total-middle w [] c ys = omega arith
total-middle w (x ∷ xs) c ys = omega (arith, total-middle w xs c ys)

module _ (m : Machine) where
  open m use {State, Input, Call, Answer, start, Enabled, handle, resume}

  -- What a run from a state and its unsettled calls comes to.
  pub data Steps (s0 : State) (p0 : List Call) : State → List Call → Type 0 where
    begin : Steps s0 p0 s0 p0
    act :
        {s : State} {p : List Call} (i : Input)
        → Steps s0 p0 s p
        → Enabled i s
        → Steps s0 p0 (handle i s).0 ((handle i s).1 ++ p)
    settle :
        {s : State} (before : List Call) (c : Call) (after : List Call) (a : Answer c)
        → Steps s0 p0 s (before ++ c ∷ after)
        → Steps s0 p0 (resume c a s).0 ((resume c a s).1 ++ (before ++ after))

  -- What the page comes to from its first effect.
  abbrev pub Reach : State → List Call → Type 0
  Reach = Steps start.0 start.1

  module _ (w : Call → ℕ) (P : State → ℕ → Type 0)
      (acts : (i : Input) (s : State) (n : ℕ)
        → Enabled i s
        → P s n
        → P (handle i s).0 (total w (handle i s).1 + n))
      (settles : (c : Call) (a : Answer c) (s : State) (n : ℕ)
        → P s (w c + n)
        → P (resume c a s).0 (total w (resume c a s).1 + n)) where
    -- An invariant over the state and the weight of the calls that have not settled.
    pub Steps-total :
        {s0 : State} {p0 : List Call} {s : State} {p : List Call}
        → P s0 (total w p0)
        → Steps s0 p0 s p
        → P s (total w p)
    Steps-total h begin = h
    Steps-total h (act {s} {p} i r e) = rw total-append (acts i s (total w p) e (Steps-total h r))
    Steps-total h (settle {s} before c after a r) =
        rw (total-append w (resume c a s).1 (before ++ after)) (
          settles c a s (total w (before ++ after))
            (rw (total-middle w before c after) at (Steps-total h r)))

  -- An invariant over the state alone.
  pub Steps-state :
      (P : State → Type 0)
      → ((i : Input) (s : State) → Enabled i s → P s → P (handle i s).0)
      → ((c : Call) (a : Answer c) (s : State) → P s → P (resume c a s).0)
      → {s0 : State} {p0 : List Call} {s : State} {p : List Call} → P s0
      → Steps s0 p0 s p
      → P s
  Steps-state P acts settles h begin = h
  Steps-state P acts settles h (act {s} i r e) = acts i s e (Steps-state P acts settles h r)
  Steps-state P acts settles h (settle {s} before c after a r) =
      settles c a s (Steps-state P acts settles h r)

  -- A run in which one thing at a time is on its way: an action where nothing is, and the answer to
  -- the one call.
  module _ {s0 : State} {p0 : List Call} {s : State} where
    pub act_alone :
        {calls : List Call} (i : Input)
        → Steps s0 p0 s []
        → Enabled i s
        → (handle i s).1 ≡ calls
        → Steps s0 p0 (handle i s).0 calls
    act_alone i r e eq =
        subst (Steps s0 p0 (handle i s).0) (append-nil (handle i s).1 ∙ eq) (act i r e)

    pub settle_alone :
        {calls : List Call} (c : Call) (a : Answer c)
        → Steps s0 p0 s (c ∷ [])
        → (resume c a s).1 ≡ calls
        → Steps s0 p0 (resume c a s).0 calls
    settle_alone c a r eq =
        subst (Steps s0 p0 (resume c a s).0) (append-nil (resume c a s).1 ∙ eq) (settle [] c [] a r)
