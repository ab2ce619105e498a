-- ===== src/Timers/Handled.antt =====
-- What the handlers of server/internal/timers/retry.go do, seen from one receipt.
use pushfree.Common.{
  ℕ, String, false, Option, none, some, ◌≡◌, ◌≢◌, refl, sym, ap, ◌∙◌, ◌⊎◌, subst, Bool-cases, inl,
  inr, str_eq, str_eq_refl, eq_iff,
}
use pushfree.Accounts.{opt_str}
use pushfree.Receipts.Rows.{Row, is_open, get_receipt}
use pushfree.Receipts.Scheduler.{Event, nothing, done, retry, expire, tick, default_retry_policy}
use pushfree.Timers.{Timer, Table, create, Fired, cancelled, unhandled, failed, undeleted, fired}
use pushfree.Timers.Retry.{
  RetryPayload, World, set_receipt, on_table, FiringFaults, next_timer, finish, reschedule,
  after_tick, retry_handler, handlers, next_retry_at,
}
use pushfree.Timers.Tick.{Over, Kept, tick-Over}

-- The receipt that a payload names.
abbrev payload_of : String → Option RetryPayload → String
payload_of default none = default
payload_of default (some p) = p.receipt_id

module _ (decode : String → Option RetryPayload) (encode : RetryPayload → String)
    (decode-encode : (p : RetryPayload) → decode (encode p) ≡ some p) (rid : String) where
  -- A timer that drives the receipt's retries, and is filed under the receipt.
  abbrev pub Carries : Timer → Type 0
  Carries t =
      (t.kind ≡ "retry")
      × (p : RetryPayload) × (decode t.payload ≡ some p)
      × (p.receipt_id ≡ rid)
      × (t.receipt_id ≡ opt_str rid)

  -- The table is as it was, or has one more timer.
  abbrev pub Extends : Table → Table → Type 0
  Extends tab tab' = (tab' ≡ tab) ⊎ ((t : Timer) × (tab' ≡ create t tab))

  -- The receipt is not opened again.
  abbrev pub Moves : World → World → Type 0
  Moves w w' =
      Extends w.table w'.table
      × (is_open (w.receipts rid).state ≡ false → is_open (w'.receipts rid).state ≡ false)

  -- Where the receipt's own timer has fired, the receipt is closed or has a new timer.
  abbrev pub Follows : Timer → World → World → Type 0
  Follows t w w' =
      Carries t
      → (is_open (w'.receipts rid).state ≡ false)
        ⊎ ((next : Timer) × Carries next × (w'.table ≡ create next w.table))

  abbrev pub Good : Timer → World → Fired World → Type 0
  Good t w cancelled = Unit
  Good t w unhandled = t.kind ≢ "retry"
  Good t w (failed w') = Moves w w'
  Good t w (undeleted w') = Moves w w'
  Good t w (fired w') = Moves w w' × Follows t w w'

  finish-Good :
      (t : Timer) (f : FiringFaults) (w w' : World)
      → Moves w w'
      → Follows t w w'
      → Good t w (finish f w')
  unfolding finish
  finish-Good t f w w' m s = elim (Bool-cases f.delete_fails) [
    | inl stays ↦ rw stays m
    | inr goes ↦ rw goes (m, s)
  ]

  next_timer-Carries :
      (p : RetryPayload) (at : ℕ) → p.receipt_id ≡ rid → Carries (next_timer decode encode p at)
  unfolding next_timer
  next_timer-Carries p at own = (refl, p, decode-encode p, own, ap opt_str own)

  reschedule-Good :
      (t : Timer) (f : FiringFaults) (p : RetryPayload) (at : ℕ) (w w' : World)
      → w'.table ≡ w.table
      → (is_open (w.receipts rid).state ≡ false → is_open (w'.receipts rid).state ≡ false)
      → (Carries t → p.receipt_id ≡ rid)
      → Good t w (reschedule decode encode f p at w')
  unfolding reschedule
  reschedule-Good t f p at w w' same kept own = elim (Bool-cases f.create_fails) [
    | inl lost ↦ rw lost (inl same, kept)
    | inr made ↦ rw made (
        finish-Good t f w (on_table (create (next_timer decode encode p at)) w')
          (
            inr (next_timer decode encode p at, ap (create (next_timer decode encode p at)) same),
            kept,
          )
          (λ c. inr (
            next_timer decode encode p at,
            next_timer-Carries p at (own c),
            ap (create (next_timer decode encode p at)) same,
          )))
  ]

  set_receipt-same :
      (id : String) (row : Row) (w : World) → (set_receipt id row w).receipts id ≡ row
  set_receipt-same id row w = rw (str_eq_refl id) refl

  ending-Good :
      (t : Timer) (f : FiringFaults) (p : RetryPayload) (row : Row) (w : World)
      → (is_open (w.receipts rid).state ≡ false
          → is_open ((set_receipt p.receipt_id row w).receipts rid).state ≡ false)
      → is_open row.state ≡ false
      → (Carries t → p.receipt_id ≡ rid)
      → Good t w (finish f (set_receipt p.receipt_id row w))
  ending-Good t f p row w kept shut own =
      finish-Good t f w (set_receipt p.receipt_id row w) (inl refl, kept)
        (λ c. inl (
          rw
            (subst (λ id. (set_receipt p.receipt_id row w).receipts id ≡ row) (own c)
              (set_receipt-same p.receipt_id row w))
            shut))

  -- The event `e` of a tick of the receipt that `p` names, which left `row`.
  after_tick-Good :
      (t : Timer) (f : FiringFaults) (p : RetryPayload) (e : Option Event) (row : Row) (w : World)
      → (is_open (w.receipts rid).state ≡ false
          → is_open ((set_receipt p.receipt_id row w).receipts rid).state ≡ false)
      → Over e row
      → (Carries t → p.receipt_id ≡ rid)
      → Good t w (after_tick decode encode f p e (set_receipt p.receipt_id row w))
  unfolding after_tick
  after_tick-Good t f p none row w kept over own = (inl refl, kept)
  after_tick-Good t f p (some done) row w kept over own = ending-Good t f p row w kept over own
  after_tick-Good t f p (some (expire at reason)) row w kept over own =
      ending-Good t f p row w kept over own
  after_tick-Good t f p (some (retry at attempt)) row w kept over own =
      reschedule-Good t f p (next_retry_at p.created_at attempt default_retry_policy) w
        (set_receipt p.receipt_id row w) refl kept own
  after_tick-Good t f p (some nothing) row w kept over own = elim (Bool-cases f.recheck_fails) [
    | inl lost ↦ rw lost (inl refl, kept)
    | inr read ↦ rw read (
        reschedule-Good t f p
          (next_retry_at p.created_at
            (get_receipt ((set_receipt p.receipt_id row w).receipts p.receipt_id)).retry_count
            default_retry_policy)
          w (set_receipt p.receipt_id row w) refl kept own)
  ]

  -- The rows of the other receipts stay, and the row of `p`'s moves as its tick says.
  pub set_receipt-Kept :
      (id : String) (row : Row) (w : World)
      → Kept (w.receipts id) row
      → is_open (w.receipts rid).state ≡ false
      → is_open ((set_receipt id row w).receipts rid).state ≡ false
  set_receipt-Kept id row w kept shut = elim (Bool-cases (str_eq rid id)) [
    | inl own ↦
        rw own
          (kept (subst (λ k. is_open (w.receipts k).state ≡ false) ((eq_iff rid id).0 own) shut))
    | inr other ↦ rw other shut
  ]

  retry_handler-Good :
      (t : Timer) (now : ℕ) (f : FiringFaults) (o : Option RetryPayload) (w : World)
      → decode t.payload ≡ o
      → Good t w (retry_handler decode encode now f o w)
  unfolding retry_handler
  retry_handler-Good t now f none w read = (inl refl, λ c. c)
  retry_handler-Good t now f (some p) w read =
      let r = w.receipts p.receipt_id in
      let (kept, over) = tick-Over p.created_at now default_retry_policy f.tick r in
      let (event, row) = tick p.created_at now default_retry_policy f.tick r in
      after_tick-Good t f p event row w (set_receipt-Kept p.receipt_id row w kept) over
        (λ c. ap (payload_of rid) (sym read ∙ c.2) ∙ c.3)

  -- Whatever fails, and whatever the clock shows: a handler opens no receipt again, adds one timer at
  -- most, and where the receipt's own timer has fired, the receipt is closed or has a timer that follows.
  pub handlers-Good :
      (now : Timer → ℕ) (faults : Timer → FiringFaults) (t : Timer) (w : World)
      → Good t w (handlers decode encode now faults t w)
  unfolding handlers
  handlers-Good now faults t w = elim (Bool-cases (faults t).stops) [
    | inl stopped ↦ rw stopped tt
    | inr goes ↦ elim (Bool-cases (str_eq t.kind "retry")) [
      | inl ours ↦
          rw (goes, ours) (retry_handler-Good t (now t) (faults t) (decode t.payload) w refl)
      | inr other ↦ rw (goes, other) (λ same. cc ((eq_iff t.kind "retry").1 same))
    ]
  ]
