-- ===== src/Receipts/Lifecycle.antt =====
-- The transitions of server/internal/receipts/statemachine.go together.
use pushfree.Common.{true, false, none, ◌≡◌, ◌≢◌, ◌↔◌, ap, arith, Bool-cases, inl, inr}
use pushfree.Receipts.{
  State, pending, delivered, acknowledged, expired, canceled, unknown, valid, terminal,
  can_transition, is_idempotent, transition,
}

pub targets :
    (a b : State) → can_transition a b ≡ true → (b ≢ pending) × (terminal a ≡ true → b ≡ a)
unfolding can_transition terminal
targets pending b h = ground arith
targets delivered b h = ground arith
targets acknowledged b h = ground arith
targets expired b h = ground arith
targets canceled b h = ground arith
targets (unknown t) b h = ground arith

both_valid : (a b : State) → can_transition a b ≡ true → (valid a ≡ true) × (valid b ≡ true)
unfolding can_transition valid
both_valid pending b h = ground arith
both_valid delivered b h = ground arith
both_valid acknowledged b h = ground arith
both_valid expired b h = ground arith
both_valid canceled b h = ground arith
both_valid (unknown t) b h = ground arith

pub can_transition_trans :
    (a b c : State)
    → can_transition a b ≡ true
    → can_transition b c ≡ true
    → can_transition a c ≡ true
unfolding can_transition
can_transition_trans pending b c h k = ground arith
can_transition_trans delivered b c h k = ground arith
can_transition_trans acknowledged b c h k = ground arith
can_transition_trans expired b c h k = ground arith
can_transition_trans canceled b c h k = ground arith
can_transition_trans (unknown t) b c h k = ground arith

loops : (a : State) → (is_idempotent a a ≡ true) ↔ ((valid a ≡ true) × (a ≢ pending))
unfolding is_idempotent valid
loops pending = ground arith
loops delivered = ground arith
loops acknowledged = ground arith
loops expired = ground arith
loops canceled = ground arith
loops (unknown t) = ground arith

succeeds : (a b : State) → can_transition a b ≡ true → transition a b ≡ (b, none)
unfolding transition
succeeds a b h = let (va, vb) = both_valid a b h in rw (va, vb, h)

fails :
    (a b : State)
    → can_transition a b ≡ false
    → ((transition a b).1 ≢ none) × ((transition a b).0 ≡ a)
unfolding transition
fails a b h = ground arith

-- Of any two state texts: `Transition` succeeds exactly where `CanTransition` holds, and then both are
-- valid; where it fails it returns the old state. No transition leads to `pending`, none leaves a
-- terminal state for another one, and a state may be applied again exactly if it is valid and not
-- `pending`.
pub transition_lem :
    (from to : State)
    → ((transition from to ≡ (to, none)) ↔ (can_transition from to ≡ true))
      × (can_transition from to ≡ true → (valid from ≡ true) × (valid to ≡ true))
      × (can_transition from to ≡ false → (transition from to).0 ≡ from)
      × (can_transition from to ≡ true → (to ≢ pending) × (terminal from ≡ true → to ≡ from))
      × ((is_idempotent from from ≡ true) ↔ ((valid from ≡ true) × (from ≢ pending)))
transition_lem from to = (
  (
    λ ok. elim (Bool-cases (can_transition from to)) [
      | inl legal ↦ legal
      | inr illegal ↦ absurd ((fails from to illegal).0 (ap (λ r. r.1) ok))
    ],
    succeeds from to,
  ),
  both_valid from to,
  λ illegal. (fails from to illegal).1,
  targets from to,
  loops from,
)
