-- ===== src/Timers/Canceled.antt =====
-- The timers behind a cancellation of server/internal/receipts/cancel.go, whose DeleteTimers is in
-- server/internal/store/sqlite/cancel.go.
use pushfree.Common.{
  ℕ, String, Bool, false, ◌<◌, Option, some, List, [], ◌∷◌, ◌≡◌, refl, ap, sym, subst, eq_iff,
  str_eq_refl, ◌∙◌, All, Bool-cases, inl, inr, str_eq,
}
use pushfree.Text.{truthy}
use pushfree.Accounts.{opt_str}
use pushfree.Receipts.{same, pending}
use pushfree.Receipts.Rows.{Row, is_open, cancel_pending}
use pushfree.Timers.{Timer, Table, belongs, without_receipt, delete_timers_of}
use pushfree.Timers.Kept.{Any}
use pushfree.Timers.Exclusive.{Ascending}
use pushfree.Timers.Backed.{Ordered}
use pushfree.Timers.Retry.{RetryPayload, World, set_receipt, on_table, cancel_receipt}
use pushfree.Timers.Tick.{Kept}
use pushfree.Timers.Handled.{Carries, set_receipt-Kept}
use pushfree.Timers.Chain.{Inv, Moves-Inv}

All-without :
    (P : Timer → Type 0) (id : String) (ts : List Timer) → All P ts → All P (without_receipt id ts)
unfolding without_receipt
All-without P id [] h = tt
All-without P id (t ∷ ts) (h, hs) = elim (Bool-cases (belongs id t.receipt_id)) [
  | inl gone ↦ rw gone (All-without P id ts hs)
  | inr stays ↦ rw stays (h, All-without P id ts hs)
]

Ascending-without :
    (id : String) (ts : List Timer) → Ascending ts → Ascending (without_receipt id ts)
unfolding without_receipt
Ascending-without id [] h = tt
Ascending-without id (t ∷ ts) (above, h) = elim (Bool-cases (belongs id t.receipt_id)) [
  | inl gone ↦ rw gone (Ascending-without id ts h)
  | inr stays ↦ rw stays (All-without (λ u. t.id < u.id) id ts above, Ascending-without id ts h)
]

delete_timers_of-Ordered :
    (id : String) (tab : Table) → Ordered tab → Ordered (delete_timers_of id tab)
unfolding delete_timers_of
delete_timers_of-Ordered id tab (up, below) =
    (Ascending-without id tab.rows up, All-without (λ u. u.id < tab.next_id) id tab.rows below)

-- What is filed under another receipt is not of this one.
belongs-other : (id rid : String) → str_eq rid id ≡ false → belongs id (opt_str rid) ≡ false
unfolding belongs opt_str
belongs-other id rid other = elim (Bool-cases (truthy rid)) [
  | inl filled ↦ rw filled other
  | inr empty ↦ rw empty
]

cancel_pending-Kept : (at : ℕ) (r : Row) → Kept r (cancel_pending at r).0
unfolding cancel_pending is_open
cancel_pending-Kept at r shut = elim (Bool-cases (same r.state pending)) [
  | inl is ↦ rw is refl
  | inr other ↦ rw other shut
]

module _ (decode : String → Option RetryPayload) (encode : RetryPayload → String)
    (decode-encode : (p : RetryPayload) → decode (encode p) ≡ some p) (rid : String) where
  abbrev Own : Timer → Type 0
  Own = Carries decode encode decode-encode rid

  Any-without :
      (id : String) (ts : List Timer)
      → str_eq rid id ≡ false
      → Any Own ts
      → Any Own (without_receipt id ts)
  unfolding without_receipt
  Any-without id [] other h = absurd h
  Any-without id (t ∷ ts) other (inl h) =
      let stays : belongs id t.receipt_id ≡ false =
        ap (belongs id) h.4 ∙ belongs-other id rid other in
      rw stays (inl h)
  Any-without id (t ∷ ts) other (inr h) = elim (Bool-cases (belongs id t.receipt_id)) [
    | inl gone ↦ rw gone (Any-without id ts other h)
    | inr stays ↦ rw stays (inr (Any-without id ts other h))
  ]

  pub receipt-Inv :
      (id : String) (row : Row) (w : World)
      → Kept (w.receipts id) row
      → Inv decode encode decode-encode rid w
      → Inv decode encode decode-encode rid (set_receipt id row w)
  receipt-Inv id row w kept inv =
      Moves-Inv decode encode decode-encode rid w (set_receipt id row w)
        (inl refl, set_receipt-Kept decode encode decode-encode rid id row w kept) inv

  -- A closed receipt needs no timer, and the timers of another receipt stay.
  pub cleared-Inv :
      (id : String) (w : World)
      → is_open (w.receipts id).state ≡ false
      → Inv decode encode decode-encode rid w
      → Inv decode encode decode-encode rid (on_table (delete_timers_of id) w)
  unfolding delete_timers_of
  cleared-Inv id w shut (order, live) = (
    delete_timers_of-Ordered id w.table order,
    elim (Bool-cases (str_eq rid id)) [
      | inl own ↦
          inl (subst (λ k. is_open (w.receipts k).state ≡ false) (sym ((eq_iff rid id).0 own)) shut)
      | inr other ↦ elim live [
        | inl closed ↦ inl closed
        | inr any ↦ inr (Any-without id w.table.rows other any)
      ]
    ],
  )

  pub canceled-Inv :
      (delete_fails : Bool) (id : String) (at : ℕ) (w : World)
      → Inv decode encode decode-encode rid w
      → Inv decode encode decode-encode rid (cancel_receipt delete_fails id at w)
  unfolding cancel_receipt cancel_pending is_open
  canceled-Inv delete_fails id at w inv =
      let row = (cancel_pending at (w.receipts id)).0 in
      let kept = receipt-Inv id row w (cancel_pending-Kept at (w.receipts id)) inv in
      elim (Bool-cases (same (w.receipts id).state pending)) [
        | inr past ↦ rw past (rw past at kept)
        | inl waiting ↦ elim (Bool-cases delete_fails) [
          | inl lost ↦ rw (waiting, lost) (rw waiting at kept)
          | inr made ↦
              rw (waiting, made)
                (cleared-Inv id (set_receipt id _ w) (rw (str_eq_refl id) refl)
                  (rw waiting at kept))
        ]
      ]
