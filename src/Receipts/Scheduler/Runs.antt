-- ===== src/Receipts/Scheduler/Runs.antt =====
-- A receipt over time: ticks of its scheduler, whose reading and writing are apart, between
-- acknowledgements, cancellations and first deliveries from elsewhere. The timer engine claims a
-- receipt's timer for one worker at a time, so one tick at most is between its reading and its writing.
use pushfree.Common.{
  ℕ, suc, ◌≤◌, ◌<◌, String, true, some, none, Option, ◌≡◌, refl, sym, ◌∙◌, ap, subst, arith, ◌⊎◌,
  Option-cases, Bool-cases, inl, inr,
}
use pushfree.Receipts.{State, terminal}
use pushfree.Receipts.Lifecycle.{can_transition_trans, targets}
use pushfree.Receipts.Rows.{
  Row, Snapshot, get_receipt, increment_retry, set_expired, acknowledge, mark_last_delivered,
  cancel_pending,
}
use pushfree.Receipts.Rows.Laws.{Legal, rows_lem}
use pushfree.Receipts.Scheduler.{
  RetryPolicy, Event, nothing, done, retry, expire, Faults, decide, act,
}
use pushfree.Receipts.Scheduler.Policy.{Limits}
use pushfree.Receipts.Scheduler.Decisions.{decided}

-- The row, and what a tick has read that has not written yet.
pub record Sys : Type 0 where
  pub row : Row
  pub claimed : Option Snapshot

module _ (created_at : ℕ) (policy : RetryPolicy) where
  pub data Runs (start : Sys) : Sys → Type 0 where
    begin : Runs start start
    acked :
        {s : Sys} (by device : String) (at : ℕ)
        → Runs start s
        → Runs start (record s { row = acknowledge by device at s.row })
    cancelled :
        {s : Sys} (at : ℕ)
        → Runs start s
        → Runs start (record s { row = (cancel_pending at s.row).0 })
    marked :
        {s : Sys} (at : ℕ)
        → Runs start s
        → Runs start (record s { row = mark_last_delivered at s.row })
    read :
        {s : Sys}
        → Runs start s
        → s.claimed ≡ none
        → Runs start (record s { claimed = some (get_receipt s.row) })
    written :
        {s : Sys} (snap : Snapshot) (now : ℕ) (f : Faults)
        → Runs start s
        → s.claimed ≡ some snap
        → Runs start
            (record { row = (act f (decide created_at now policy snap) s.row).1; claimed = none })

-- The ways in which a tick can leave the row.
unfoldable pub Wrote : Event → Row → Row → Type 0
Wrote e r r' =
    (r' ≡ r)
    ⊎ ((at : ℕ) × (r' ≡ set_expired at r))
    ⊎ ((at : ℕ) × (k : ℕ) × (e ≡ retry at k) × (r' ≡ increment_retry at r))

pub act-Wrote : (f : Faults) (e : Event) (r : Row) → Wrote e r (act f e r).1
unfolding act Wrote
act-Wrote f nothing r = inl refl
act-Wrote f done r = inl refl
act-Wrote f (expire at reason) r = elim (Bool-cases f.write_fails) [
  | inl lost ↦ inl (rw lost)
  | inr kept ↦ inr (inl (at, rw kept))
]
act-Wrote f (retry at k) r = elim (Bool-cases f.redeliver_fails) [
  | inl unsent ↦ inl (rw unsent)
  | inr sent ↦ elim (Bool-cases f.write_fails) [
    | inl lost ↦ inl (rw (sent, lost))
    | inr kept ↦ inr (inr (at, k, refl, rw (sent, kept)))
  ]
]

Legal-trans : (a b c : State) → Legal a b → Legal b c → Legal a c
Legal-trans a b c h k = ground (arith, can_transition_trans a b c)

counts :
    (at : ℕ) (by device : String) (r : Row)
    → ((set_expired at r).retry_count ≡ r.retry_count)
      × ((acknowledge by device at r).retry_count ≡ r.retry_count)
      × ((cancel_pending at r).0.retry_count ≡ r.retry_count)
      × ((mark_last_delivered at r).retry_count ≡ r.retry_count)
unfolding set_expired acknowledge cancel_pending mark_last_delivered
counts at by device r = (
  ground arith,
  ground arith,
  ground arith,
  elim (Option-cases r.last_delivered_at) [ inl unset ↦ rw unset | inr (t, set) ↦ rw set ],
)

bumped :
    (at : ℕ) (r : Row)
    → ((increment_retry at r).retry_count ≤ suc r.retry_count)
      × (terminal r.state ≡ true → (increment_retry at r).retry_count ≡ r.retry_count)
unfolding increment_retry
bumped at r = (ground arith, λ over. ap (λ x. x.retry_count) ((rows_lem at "" "" r).5 over).2)

record Inv (attempts : ℕ) (start s : Sys) : Type 0 where
  bounded : s.row.retry_count ≤ attempts
  current : (snap : Snapshot) → s.claimed ≡ some snap → snap.retry_count ≡ s.row.retry_count
  legal : Legal start.row.state s.row.state
  frozen : terminal start.row.state ≡ true → s.row.retry_count ≡ start.row.retry_count

module _ {attempts : ℕ} (start s : Sys) (h : Inv attempts start s) where
  over-start : terminal start.row.state ≡ true → s.row.state ≡ start.row.state
  over-start over = elim h.legal [
    | inl same ↦ same
    | inr moved ↦ (targets start.row.state s.row.state moved).1 over
  ]

  -- A write that is no attempt, with the claim kept or given up.
  write-Inv :
      (r : Row) (claimed : Option Snapshot)
      → Legal s.row.state r.state
      → r.retry_count ≡ s.row.retry_count
      → ((snap : Snapshot) → claimed ≡ some snap → s.claimed ≡ some snap)
      → Inv attempts start (record { row = r; claimed = claimed })
  write-Inv r claimed step same kept = record {
    bounded = omega (arith, same, h.bounded);
    current = λ snap e. h.current snap (kept snap e) ∙ sym same;
    legal = Legal-trans start.row.state s.row.state r.state h.legal step;
    frozen = λ over. same ∙ h.frozen over;
  }

  attempt-Inv :
      (at : ℕ)
      → s.row.retry_count < attempts
      → Inv attempts start (record { row = increment_retry at s.row; claimed = none })
  attempt-Inv at room = record {
    bounded = omega (arith, (bumped at s.row).0);
    current = λ snap e. cc;
    legal = Legal-trans start.row.state s.row.state _ h.legal (rows_lem at "" "" s.row).2;
    frozen = λ over. (bumped at s.row).1 (ap terminal (over-start over) ∙ over) ∙ h.frozen over;
  }

module _ {policy : RetryPolicy} {interval expiry attempts : ℕ}
    (limits : Limits policy interval expiry attempts) where
  retried :
      (created_at : ℕ) (snap : Snapshot) (now at k : ℕ)
      → decide created_at now policy snap ≡ retry at k
      → snap.retry_count < attempts
  retried created_at snap now at k e = ground (arith, decided limits created_at now snap)

  written-Inv :
      (start s : Sys) (created_at : ℕ) (snap : Snapshot) (now : ℕ) (f : Faults)
      → Inv attempts start s
      → s.claimed ≡ some snap
      → Inv attempts start
          (record { row = (act f (decide created_at now policy snap) s.row).1; claimed = none })
  unfolding Wrote
  written-Inv start s created_at snap now f h claim =
      let event = decide created_at now policy snap in
      let Ends : Row → Type 0 = λ r. Inv attempts start (record { row = r; claimed = none }) in
      let released : (snap' : Snapshot) → none ≡ some snap' → s.claimed ≡ some snap' = λ t e. cc in
      elim (act-Wrote f event s.row) [
        | inl same ↦ subst Ends (sym same) (write-Inv start s h s.row none (inl refl) refl released)
        | inr (inl (at, out)) ↦ subst Ends (sym out) (
            write-Inv start s h (set_expired at s.row) none (rows_lem at "" "" s.row).0
              (counts at "" "" s.row).0 released)
        | inr (inr (at, k, again, bump)) ↦
            let room = retried created_at snap now at k again in
            subst Ends (sym bump)
              (attempt-Inv start s h at (omega (arith, room, h.current snap claim)))
      ]

  Runs-Inv :
      (created_at : ℕ) (start : Sys) {s : Sys}
      → Inv attempts start start
      → Runs created_at policy start s
      → Inv attempts start s
  unfolding get_receipt
  Runs-Inv created_at start h begin = h
  Runs-Inv created_at start h (acked {s} by device at r) =
      write-Inv start s (Runs-Inv created_at start h r) (acknowledge by device at s.row) s.claimed
        (rows_lem at by device s.row).1 (counts at by device s.row).1 (λ t e. e)
  Runs-Inv created_at start h (cancelled {s} at r) =
      write-Inv start s (Runs-Inv created_at start h r) (cancel_pending at s.row).0 s.claimed
        (rows_lem at "" "" s.row).3 (counts at "" "" s.row).2 (λ t e. e)
  Runs-Inv created_at start h (marked {s} at r) =
      write-Inv start s (Runs-Inv created_at start h r) (mark_last_delivered at s.row) s.claimed
        (inl (ap (λ r. r.state) (rows_lem at "" "" s.row).4)) (counts at "" "" s.row).3 (λ t e. e)
  Runs-Inv created_at start h (read {s} r free) =
      let k = Runs-Inv created_at start h r in
      record { bounded = k.bounded; current = λ snap e. cc; legal = k.legal; frozen = k.frozen }
  Runs-Inv created_at start h (written {s} snap now f r claim) =
      written-Inv start s created_at snap now f (Runs-Inv created_at start h r) claim

  -- Under a policy whose products do not wrap around, from a receipt that no tick has read yet, with
  -- no more attempts made than the policy has: however ticks, acknowledgements, cancellations and
  -- deliveries fall between each other, and whatever fails, the attempts made never exceed the
  -- policy's, the state is the first one or one legal transition from it, and a receipt that was
  -- terminal keeps its state and its count.
  pub runs_lem :
      (created_at : ℕ) (start : Sys) {s : Sys}
      → start.claimed ≡ none
      → start.row.retry_count ≤ attempts
      → Runs created_at policy start s
      → (s.row.retry_count ≤ attempts)
        × Legal start.row.state s.row.state
        × (terminal start.row.state ≡ true
            → (s.row.state ≡ start.row.state) × (s.row.retry_count ≡ start.row.retry_count))
  runs_lem created_at start {s} free few r =
      let first : Inv attempts start start = record {
        bounded = few;
        current = λ snap e. cc;
        legal = inl refl;
        frozen = λ _. refl;
      } in
      let h = Runs-Inv created_at start first r in
      (h.bounded, h.legal, λ over. (over-start start s h over, h.frozen over))
