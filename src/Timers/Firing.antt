-- ===== src/Timers/Firing.antt =====
-- How server/internal/timers/engine.go ends with an error: Fire, Poll and Run.
use pushfree.Common.{
  ℕ, zero, suc, false, some, List, [], ◌∷◌, ◌≡◌, refl, ap, sym, subst, All, if◌then◌else◌, ◌==◌,
  Bool-cases, inl, inr,
}
use pushfree.Timers.{
  Timer, Table, due, claim_rows, claim_due, table_store, Fired, failed, fire_one, fire, poll, ticks,
  default_batch,
}
use pushfree.Timers.Kept.{Any, All-map}
use pushfree.Timers.Exclusive.{Ascending, Distinct, claim_rows-Distinct}

-- A timer is claimed at an instant, and stands so among the rows.
abbrev pub StaysClaimed : (now : ℕ) → List Timer → Timer → Type 0
StaysClaimed now rows t = (t.claimed_at ≡ some now) × Any (λ r. r ≡ t) rows

behind_row :
    (now : ℕ) (u : Timer) (rows ts : List Timer)
    → All (StaysClaimed now rows) ts
    → All (StaysClaimed now (u ∷ rows)) ts
behind_row now u rows ts =
    All-map (StaysClaimed now rows) (StaysClaimed now (u ∷ rows)) ts
      (λ t (at, there). (at, inr there))

-- What a claim hands out stands in the table as it is handed out.
claim_rows-claimed :
    (now limit : ℕ) (ts : List Timer)
    → All (StaysClaimed now (claim_rows now limit ts).1) (claim_rows now limit ts).0
unfolding claim_rows
claim_rows-claimed now zero ts = tt
claim_rows-claimed now (suc n) [] = tt
claim_rows-claimed now (suc n) (t ∷ ts) = elim (Bool-cases (due now t)) [
  | inl ripe ↦
      let handed = claim_rows-claimed now n ts in
      rw ripe (
        (refl, inl refl),
        behind_row now (record t { claimed_at = some now }) (claim_rows now n ts).1
            (claim_rows now n ts).0 handed,
      )
  | inr not_yet ↦ rw not_yet (
      behind_row now t (claim_rows now (suc n) ts).1 (claim_rows now (suc n) ts).0
        (claim_rows-claimed now (suc n) ts))
]

claim_due-claimed :
    (now batch : ℕ) (tab : Table)
    → All (StaysClaimed now (claim_due now batch tab).1.rows) (claim_due now batch tab).0
unfolding claim_due
claim_due-claimed now batch tab =
    claim_rows-claimed now (if batch == 0 then default_batch else batch) tab.rows

claim_due-Distinct :
    (now batch : ℕ) (tab : Table)
    → Ascending tab.rows
    → (later more : ℕ)
    → Distinct (claim_due now batch tab).0 (claim_due later more (claim_due now batch tab).1).0
unfolding claim_due
claim_due-Distinct now batch tab up later more =
    claim_rows-Distinct now later (if batch == 0 then default_batch else batch)
      (if more == 0 then default_batch else more) tab.rows up

ticks-ends :
    (now batch : ℕ) (handler : Timer → Table → Fired Table) (t : Timer) (behind : List Timer)
    (tab : Table) (later : List (ℕ × (Timer → Table → Fired Table)))
    → (claim_due now batch tab).0 ≡ t ∷ behind
    → handler t (claim_due now batch tab).1 ≡ failed (claim_due now batch tab).1
    → ticks table_store batch ((now, handler) ∷ later) tab
      ≡ record { count = 0; ok = false; world = (claim_due now batch tab).1 }
unfolding ticks poll fire fire_one
ticks-ends now batch handler t behind tab later first fails = rw (first, fails) refl

-- One failing handler ends the engine. Where the ids of the table ascend, and the handler of the first
-- timer of a batch fails without having written, `Run` returns with an error whatever its later ticks
-- would have done. Every timer of the batch then stands in the table as claimed at that instant, also
-- those whose turn did not come, and no claim on that table, whatever its instant and its limit, hands
-- out one of them.
pub ticks-failed :
    (now batch : ℕ) (handler : Timer → Table → Fired Table) (t : Timer) (behind : List Timer)
    (tab : Table) (later : List (ℕ × (Timer → Table → Fired Table)))
    → Ascending tab.rows
    → (claim_due now batch tab).0 ≡ t ∷ behind
    → handler t (claim_due now batch tab).1 ≡ failed (claim_due now batch tab).1
    → let o = ticks table_store batch ((now, handler) ∷ later) tab in
      (o.ok ≡ false)
      × (o.count ≡ 0)
      × All (StaysClaimed now o.world.rows) (t ∷ behind)
      × ((at limit : ℕ) → Distinct (t ∷ behind) (claim_due at limit o.world).0)
ticks-failed now batch handler t behind tab later up first fails =
    let after = (claim_due now batch tab).1 in
    let eq = sym (ticks-ends now batch handler t behind tab later first fails) in
    let held = subst (All (StaysClaimed now after.rows)) first (claim_due-claimed now batch tab) in
    (
      ap (λ o. o.ok) (sym eq),
      ap (λ o. o.count) (sym eq),
      subst (λ o. All (StaysClaimed now o.world.rows) (t ∷ behind)) eq held,
      λ at limit.
          subst (λ o. Distinct (t ∷ behind) (claim_due at limit o.world).0) eq
            (subst (λ l. Distinct l (claim_due at limit after).0) first
              (claim_due-Distinct now batch tab up at limit)),
    )
