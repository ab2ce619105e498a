-- ===== src/Timers/Emergencies.antt =====
-- The timers and the receipts over time: polls of server/internal/timers/engine.go, its recovery, sends
-- that seed a timer, and what acknowledges, cancels and delivers receipts.
use pushfree.Common.{
  ℕ, Bool, String, true, Option, none, some, List, [], ◌∷◌, ◌≡◌, refl, All, Option-cases, ◌==◌, inl,
  inr, if◌then◌else◌,
}
use pushfree.Receipts
use pushfree.Receipts.Rows.{Row, is_open, acknowledge, mark_last_delivered}
use pushfree.Timers.{
  Timer, create, claim_due, default_batch, delete, reset_orphaned_claims, delete_timers_of, Fired,
  cancelled, unhandled, failed, undeleted, fired, Outcome, fire_one, fire, poll,
}
use pushfree.Timers.Kept.{
  Any, Any-end, All-map, Any-Touched, claim_rows-Touched, reset_rows-Touched, reset_rows-free,
}
use pushfree.Timers.Backed.{
  Ordered, Backed, create-Ordered, delete-Backed, claim_due-Ordered, claim_due-Backed,
  reset-Ordered,
}
use pushfree.Timers.Retry.{
  RetryPayload, World, set_receipt, cancel_receipt, on_table, world_store, FiringFaults, handlers,
  seed_retry, next_timer,
}
use pushfree.Timers.Tick.{Kept}
use pushfree.Timers.Handled.{Carries, Good, handlers-Good}
use pushfree.Timers.Canceled.{receipt-Inv, canceled-Inv, cleared-Inv}
use pushfree.Timers.Chain.{Live, Inv, Moves-Inv, deleted-Inv, fired-Inv, Wider-Backed}

module _ (decode : String → Option RetryPayload) (encode : RetryPayload → String) where
  -- What can happen, in any order. The faults of a poll stop it at any timer, and make any of its steps
  -- fail; a server that dies stops a poll, and the next one recovers.
  pub data Runs (start : World) : World → Type 0 where
    begin : Runs start start
    seeded :
        {w : World} (receipt_id : String) (retry_interval expire_seconds created_at : ℕ)
        → Runs start w
        → Runs start
            (seed_retry decode encode receipt_id retry_interval expire_seconds created_at w)
    polled :
        {w : World} (now batch : ℕ) (clock : Timer → ℕ) (faults : Timer → FiringFaults)
        → Runs start w
        → Runs start (poll world_store now batch (handlers decode encode clock faults) w).world
    recovered : {w : World} → Runs start w → Runs start (world_store.reset_orphaned w)
    acked :
        {w : World} (id by device : String) (at : ℕ)
        → Runs start w
        → Runs start (set_receipt id (acknowledge by device at (w.receipts id)) w)
    canceled :
        {w : World} (delete_fails : Bool) (id : String) (at : ℕ)
        → Runs start w
        → Runs start (cancel_receipt delete_fails id at w)
    -- The deletion of a cancellation whose update came earlier: it was `canceled`, without a deletion.
    cleared :
        {w : World} (id : String)
        → (w.receipts id).state ≡ Receipts.canceled
        → Runs start w
        → Runs start (on_table (delete_timers_of id) w)
    marked :
        {w : World} (id : String) (at : ℕ)
        → Runs start w
        → Runs start (set_receipt id (mark_last_delivered at (w.receipts id)) w)

module _ (decode : String → Option RetryPayload) (encode : RetryPayload → String)
    (decode-encode : (p : RetryPayload) → decode (encode p) ≡ some p) (rid : String) where
  abbrev I : World → Type 0
  I = Inv decode encode decode-encode rid

  fire_one-Inv :
      (t : Timer) (ts : List Timer) (w : World) (o : Fired World) (rest : World → Outcome World)
      → Good decode encode decode-encode rid t w o
      → I w
      → Backed w.table t
      → All (Backed w.table) ts
      → ((w' : World) → I w' → All (Backed w'.table) ts → I (rest w').world)
      → I (fire_one world_store t.id o rest w).world
  unfolding fire_one
  fire_one-Inv t ts w cancelled rest good inv b bs ih = inv
  fire_one-Inv t ts w unhandled rest good inv b bs ih =
      deleted-Inv decode encode decode-encode rid t w good b inv
  fire_one-Inv t ts w (failed w') rest good inv b bs ih =
      Moves-Inv decode encode decode-encode rid w w' good inv
  fire_one-Inv t ts w (undeleted w') rest good inv b bs ih =
      Moves-Inv decode encode decode-encode rid w w' good inv
  fire_one-Inv t ts w (fired w') rest (moves, follows) inv b bs ih =
      ih (on_table (delete t.id) w')
        (fired-Inv decode encode decode-encode rid t w w' moves follows b inv)
        (All-map (Backed w.table) (Backed (delete t.id w'.table)) ts
          (λ u bu.
            delete-Backed t.id w'.table u
              (Wider-Backed decode encode decode-encode rid w.table w'.table u moves.0 bu))
          bs)

  fire-Inv :
      (clock : Timer → ℕ) (faults : Timer → FiringFaults) (ts : List Timer) (w : World)
      → I w
      → All (Backed w.table) ts
      → I (fire world_store (handlers decode encode clock faults) ts w).world
  unfolding fire
  fire-Inv clock faults [] w inv bs = inv
  fire-Inv clock faults (t ∷ ts) w inv (b, bs) =
      fire_one-Inv t ts w (handlers decode encode clock faults t w)
        (fire world_store (handlers decode encode clock faults) ts)
        (handlers-Good decode encode decode-encode rid clock faults t w) inv b bs
        (λ w'. fire-Inv clock faults ts w')

  Own-Blind :
      (t : Timer) (at : Option ℕ)
      → Carries decode encode decode-encode rid t
      → Carries decode encode decode-encode rid (record t { claimed_at = at })
  Own-Blind t at h = h

  claimed-Live :
      (now batch : ℕ) (w : World)
      → Live decode encode decode-encode rid w
      → Live decode encode decode-encode rid (record w { table = (claim_due now batch w.table).1 })
  unfolding claim_due
  claimed-Live now batch w (inl shut) = inl shut
  claimed-Live now batch w (inr own) = inr (
      Any-Touched (Carries decode encode decode-encode rid) Own-Blind
        (claim_rows-Touched now (if batch == 0 then default_batch else batch) w.table.rows) own)

  recovered-Inv : (w : World) → I w → I (world_store.reset_orphaned w)
  unfolding reset_orphaned_claims
  recovered-Inv w (order, inl shut) = (reset-Ordered w.table order, inl shut)
  recovered-Inv w (order, inr own) = (
    reset-Ordered w.table order,
    inr (
        Any-Touched (Carries decode encode decode-encode rid) Own-Blind
          (reset_rows-Touched w.table.rows) own),
  )

  seed_retry-Inv :
      (id : String) (retry_interval expire_seconds created_at : ℕ) (w : World)
      → I w
      → I (seed_retry decode encode id retry_interval expire_seconds created_at w)
  unfolding seed_retry
  seed_retry-Inv id retry_interval expire_seconds created_at w =
      let first : Timer =
        next_timer decode encode (record { receipt_id = id; created_at = created_at }) created_at in
      Moves-Inv decode encode decode-encode rid w (on_table (create first) w)
        (inr (first, refl), λ shut. shut)

  first-Inv :
      (retry_interval expire_seconds created_at : ℕ) (w : World)
      → Ordered w.table
      → I (seed_retry decode encode rid retry_interval expire_seconds created_at w)
  unfolding seed_retry create next_timer
  first-Inv retry_interval expire_seconds created_at w order =
      let p : RetryPayload = record { receipt_id = rid; created_at = created_at } in
      let first : Timer = next_timer decode encode p created_at in
      (
        create-Ordered first w.table order,
        inr (
            Any-end (Carries decode encode decode-encode rid) w.table.rows
              (record first { id = w.table.next_id }) (refl, p, decode-encode p, refl, refl)),
      )

  acknowledge-Kept : (by device : String) (at : ℕ) (r : Row) → Kept r (acknowledge by device at r)
  unfolding acknowledge
  acknowledge-Kept by device at r shut = rw shut shut

  mark_last_delivered-Kept : (at : ℕ) (r : Row) → Kept r (mark_last_delivered at r)
  unfolding mark_last_delivered
  mark_last_delivered-Kept at r shut = elim (Option-cases r.last_delivered_at) [
    | inl unset ↦ rw unset shut
    | inr (t, set) ↦ rw set shut
  ]

  poll-Inv :
      (now batch : ℕ) (clock : Timer → ℕ) (faults : Timer → FiringFaults) (w : World)
      → I w
      → I (poll world_store now batch (handlers decode encode clock faults) w).world
  unfolding poll
  poll-Inv now batch clock faults w (order, live) =
      let (claimed, after) = claim_due now batch w.table in
      fire-Inv clock faults claimed (record w { table = after })
        (claim_due-Ordered now batch w.table order, claimed-Live now batch w live)
        (claim_due-Backed now batch w.table order)

  Runs-Inv : {w0 w : World} → Runs decode encode w0 w → I w0 → I w
  unfolding is_open
  Runs-Inv begin h = h
  Runs-Inv (seeded {w} id retry_interval expire_seconds created_at r) h =
      seed_retry-Inv id retry_interval expire_seconds created_at w (Runs-Inv r h)
  Runs-Inv (polled {w} now batch clock faults r) h =
      poll-Inv now batch clock faults w (Runs-Inv r h)
  Runs-Inv (recovered {w} r) h = recovered-Inv w (Runs-Inv r h)
  Runs-Inv (acked {w} id by device at r) h =
      receipt-Inv decode encode decode-encode rid id (acknowledge by device at (w.receipts id)) w
        (acknowledge-Kept by device at (w.receipts id)) (Runs-Inv r h)
  Runs-Inv (canceled {w} delete_fails id at r) h =
      canceled-Inv decode encode decode-encode rid delete_fails id at w (Runs-Inv r h)
  Runs-Inv (cleared {w} id was r) h =
      cleared-Inv decode encode decode-encode rid id w (rw was refl) (Runs-Inv r h)
  Runs-Inv (marked {w} id at r) h =
      receipt-Inv decode encode decode-encode rid id (mark_last_delivered at (w.receipts id)) w
        (mark_last_delivered-Kept at (w.receipts id)) (Runs-Inv r h)

  -- An emergency is not forgotten. Behind the send that seeds a receipt's timer, in a table whose ids are
  -- in order, come polls with whatever batches, clocks and failures, recoveries, other sends, and
  -- acknowledgements, deliveries, and cancellations, which delete the timers of their receipts at once or
  -- later, in any order: as long as the receipt is open, there is a timer that carries its retries, and the recovery of
  -- an engine that starts then leaves such a timer that nobody has claimed.
  pub Runs-Own :
      (w0 w : World) (retry_interval expire_seconds created_at : ℕ)
      → Ordered w0.table
      → Runs decode encode
          (seed_retry decode encode rid retry_interval expire_seconds created_at w0)
          w
      → is_open (w.receipts rid).state ≡ true
      → Any (Carries decode encode decode-encode rid) w.table.rows
        × Any
            (λ t. Carries decode encode decode-encode rid t × (t.claimed_at ≡ none))
            (world_store.reset_orphaned w).table.rows
  unfolding reset_orphaned_claims
  Runs-Own w0 w retry_interval expire_seconds created_at order r open_still =
      elim (Runs-Inv r (first-Inv retry_interval expire_seconds created_at w0 order)).1 [
        | inl shut ↦ cc (rw open_still at shut)
        | inr own ↦ (
          own,
          reset_rows-free (Carries decode encode decode-encode rid) w.table.rows Own-Blind own,
        )
      ]
