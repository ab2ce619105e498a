-- ===== src/Receipts/Rows/Laws.antt =====
-- The statements on a receipt's row against the transitions.
use pushfree.Common.{
  ℕ, String, true, false, Option-cases, ◌≡◌, refl, arith, ◌⊎◌, inl, inr, some, get_or,
}
use pushfree.Receipts.{
  State, pending, delivered, acknowledged, expired, canceled, unknown, same, terminal,
  can_transition,
}
use pushfree.Receipts.Rows.{
  Row, is_open, increment_retry, set_expired, acknowledge, mark_last_delivered, cancel_pending,
}

-- A write that moves a row by one legal transition, or keeps its state.
abbrev pub Legal : State → State → Type 0
Legal a b = (b ≡ a) ⊎ (can_transition a b ≡ true)

pub closed : (a : State) → terminal a ≡ true → (is_open a ≡ false) × (same a pending ≡ false)
unfolding terminal is_open same
closed pending h = ground arith
closed delivered h = ground arith
closed acknowledged h = ground arith
closed expired h = ground arith
closed canceled h = ground arith
closed (unknown t) h = ground arith

opened_targets :
    (a : State)
    → is_open a ≡ true
    → (can_transition a acknowledged ≡ true) × (can_transition a expired ≡ true)
unfolding can_transition is_open
opened_targets pending h = ground arith
opened_targets delivered h = ground arith
opened_targets acknowledged h = ground arith
opened_targets expired h = ground arith
opened_targets canceled h = ground arith
opened_targets (unknown t) h = ground arith

cancelable :
    (a : State) → same a pending ≡ true → (can_transition a canceled ≡ true) × (is_open a ≡ true)
unfolding same can_transition is_open
cancelable pending h = ground arith
cancelable delivered h = ground arith
cancelable acknowledged h = ground arith
cancelable expired h = ground arith
cancelable canceled h = ground arith
cancelable (unknown t) h = ground arith

pub rows_lem :
    (at : ℕ) (by device : String) (r : Row)
    → Legal r.state (set_expired at r).state
      × Legal r.state (acknowledge by device at r).state
      × Legal r.state (increment_retry at r).state
      × Legal r.state (cancel_pending at r).0.state
      × (mark_last_delivered at r
          ≡ record r { last_delivered_at = some (get_or r.last_delivered_at at) })
      × (terminal r.state ≡ true
          → (set_expired at r ≡ r)
            × (acknowledge by device at r ≡ r)
            × (increment_retry at r ≡ r)
            × (cancel_pending at r ≡ (r, false)))
unfolding set_expired acknowledge increment_retry cancel_pending mark_last_delivered
rows_lem at by device r =
    let open_targets = opened_targets r.state in
    let cancel = cancelable r.state in
    (
      ground (arith, open_targets),
      ground (arith, open_targets),
      ground arith,
      ground (arith, cancel),
      elim (Option-cases r.last_delivered_at) [ inl unset ↦ rw unset | inr (t, set) ↦ rw set ],
      λ over. let (shut, past) = closed r.state over in rw (shut, past) (refl, refl, refl, refl),
    )
