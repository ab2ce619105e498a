-- ===== src/Hub/Marked.antt =====
-- Marking a delivery (OnDelivered of server/internal/hub/hub.go) in the tables of messages.
use pushfree.Common.{
  ℕ, ◌<◌, Bool, true, false, Option, none, some, List, [], ◌∷◌, ◌≡◌, ◌∙◌, refl, ap, sym, subst,
  ◌==◌, not, ◌||◌, Bool-cases, Option-cases, inl, inr, All, Ascends,
}
use pushfree.Text.{truthy}
use pushfree.Hub.{
  Send, Message, StoredMessage, from_row, Database, get_send, marked, mark_delivered, Faults,
  touch_receipt, on_delivered,
}
use pushfree.Hub.Stored.{with_send, joined, stored, Kept, message_id, WellFormed}

-- A marked row is the row but for its instant.
module _ (at : ℕ) (P : Message → Type 0)
    (same : (m : Message) (d : Option ℕ) → P m → P (record m { delivered_at = d })) where
  marked-keeps : (found : Bool) (d : Option ℕ) (m : Message) → P m → P (marked at found d m)
  unfolding marked
  marked-keeps true none m h = same m (some at) h
  marked-keeps true (some d) m h = h
  marked-keeps false d m h = h

  mark_delivered-All : (id : ℕ) (ms : List Message) → All P ms → All P (mark_delivered id at ms)
  unfolding mark_delivered
  mark_delivered-All id [] h = tt
  mark_delivered-All id (m ∷ ms) h =
      (marked-keeps (m.id == id) m.delivered_at m h.0, mark_delivered-All id ms h.1)

marked-joined :
    (at : ℕ) (found : Bool) (d : Option ℕ) (m : Message) (sends : List Send)
    (rest : List StoredMessage)
    → let n = marked at found d m in
      with_send n (get_send n.send_id sends) rest ≡ with_send m (get_send m.send_id sends) rest
unfolding marked from_row
marked-joined at true none m sends rest = elim (Option-cases (get_send m.send_id sends)) [
  | inl gone ↦ rw gone
  | inr (s, here) ↦ rw here
]
marked-joined at true (some e) m sends rest = refl
marked-joined at false d m sends rest = refl

marked-id : (at : ℕ) (found : Bool) (d : Option ℕ) (m : Message) → (marked at found d m).id ≡ m.id
unfolding marked
marked-id at true none m = refl
marked-id at true (some e) m = refl
marked-id at false d m = refl

mark_delivered-joined :
    (id at : ℕ) (sends : List Send) (ms : List Message)
    → joined sends (mark_delivered id at ms) ≡ joined sends ms
unfolding mark_delivered
mark_delivered-joined id at sends [] = refl
mark_delivered-joined id at sends (m ∷ ms) =
    marked-joined at (m.id == id) m.delivered_at m sends (joined sends (mark_delivered id at ms))
    ∙ ap (with_send m (get_send m.send_id sends)) (mark_delivered-joined id at sends ms)

mark_delivered-Ascends :
    (id at : ℕ) (ms : List Message)
    → Ascends message_id ms
    → Ascends message_id (mark_delivered id at ms)
unfolding mark_delivered
mark_delivered-Ascends id at [] h = tt
mark_delivered-Ascends id at (m ∷ ms) h =
    let first = marked-id at (m.id == id) m.delivered_at m in
    (
      subst (λ n. All (λ y. n < y.id) (mark_delivered id at ms)) (sym first)
          (mark_delivered-All at (λ y. m.id < y.id) (λ y d lt. lt) id ms h.0),
      mark_delivered-Ascends id at ms h.1,
    )

-- What marking a delivery leaves as it was: the messages, and that the tables are well formed.
abbrev pub Same : Database → Database → Type 0
Same db after =
    (WellFormed after) × (stored after ≡ stored db) × (after.next_message ≡ db.next_message)

touch_receipt-Same :
    (fails : Bool) (at : ℕ) (s : Option Send) (db after : Database)
    → Same db after
    → Same db (touch_receipt fails at s after)
unfolding touch_receipt
touch_receipt-Same fails at none db after h = h
touch_receipt-Same fails at (some s) db after h =
    elim (Bool-cases (not (truthy s.receipt_id) || fails)) [
      | inl skipped ↦ rw skipped h
      | inr touched ↦ rw touched h
    ]

pub on_delivered-Same :
    (f : Faults) (at : ℕ) (m : StoredMessage) (db : Database)
    → WellFormed db
    → Same db (on_delivered f at m db)
unfolding on_delivered
on_delivered-Same f at m db w =
    let marked : Database = record db { messages = mark_delivered m.id at db.messages } in
    let kept : Same db marked = (
      (
        mark_delivered-All at (Kept db.sends db.next_message db.next_send) (λ y d k. k) m.id
            db.messages w.0,
        mark_delivered-Ascends m.id at db.messages w.1,
      ),
      mark_delivered-joined m.id at db.sends db.messages,
      refl,
    ) in
    elim (Bool-cases f.mark) [
      | inl broken ↦ rw broken (w, refl, refl)
      | inr works ↦ elim (Bool-cases f.send) [
        | inl gone ↦ rw (works, gone) kept
        | inr here ↦
            rw (works, here)
              (touch_receipt-Same f.receipt at (get_send m.send_id db.sends) db marked kept)
      ]
    ]
