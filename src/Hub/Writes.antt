-- ===== src/Hub/Writes.antt =====
-- Storing a send (server/internal/store/sqlite/ingest.go) in the tables of messages.
use pushfree.Common.{
  ℕ, suc, ◌+◌, ◌<◌, ◌≤◌, String, Bool, true, false, Option, some, List, [], ◌∷◌, ◌++◌, ◌≡◌, ◌∙◌,
  refl, ap, sym, arith, ◌==◌, Option-cases, inl, inr, All, All-append, All-map, Ascends,
  Ascends-append, append-nil,
}
use pushfree.Hub.{
  Send, Message, StoredMessage, from_row, Database, get_send, insert_messages, count_of, ingest,
  fanout, receipt_of,
}
use pushfree.Hub.Stored.{joined, stored, Kept, message_id, stored_id, WellFormed}

joined-append :
    (sends : List Send) (xs ys : List Message)
    → joined sends (xs ++ ys) ≡ joined sends xs ++ joined sends ys
joined-append sends [] ys = refl
joined-append sends (m ∷ ms) ys = elim (Option-cases (get_send m.send_id sends)) [
  | inl gone ↦ rw (gone, joined-append sends ms ys)
  | inr (s, found) ↦ rw (found, joined-append sends ms ys)
]

-- A send with a new id hides no other.
Kept-more :
    (row : Send) (sends : List Send) (nm ns : ℕ) (m : Message)
    → row.id ≡ ns
    → Kept sends nm ns m
    → get_send m.send_id (row ∷ sends) ≡ get_send m.send_id sends
unfolding get_send
Kept-more row sends nm ns m new kept =
    let other : (row.id == m.send_id) ≡ false = ground (arith, new, kept.2) in rw other

joined-more :
    (row : Send) (sends : List Send) (nm ns : ℕ) (ms : List Message)
    → row.id ≡ ns
    → All (Kept sends nm ns) ms
    → joined (row ∷ sends) ms ≡ joined sends ms
joined-more row sends nm ns [] new h = refl
joined-more row sends nm ns (m ∷ ms) new h =
    rw (Kept-more row sends nm ns m new h.0, joined-more row sends nm ns ms new h.1)

joined-insert_messages :
    (row : Send) (sends : List Send) (next : ℕ) (users : List ℕ)
    → joined (row ∷ sends) (insert_messages row.id next users)
      ≡ fanout (some (row, insert_messages row.id next users))
unfolding insert_messages fanout get_send
joined-insert_messages row sends next [] = refl
joined-insert_messages row sends next (u ∷ us) =
    let same : (row.id == row.id) ≡ true = ground arith in
    rw (same, joined-insert_messages row sends (suc next) us)

insert_messages-Kept :
    (row : Send) (sends : List Send) (next : ℕ) (users : List ℕ)
    → All
        (Kept (row ∷ sends) (next + count_of users) (suc row.id))
        (insert_messages row.id next users)
unfolding insert_messages count_of get_send
insert_messages-Kept row sends next [] = tt
insert_messages-Kept row sends next (u ∷ us) =
    let same : (row.id == row.id) ≡ true = ground arith in
    (
      ((row, rw same), omega arith, omega arith),
      All-map (λ m kept. (kept.0, omega (arith, kept.1), kept.2))
          (insert_messages row.id (suc next) us) (insert_messages-Kept row sends (suc next) us),
    )

insert_messages-from :
    (id next : ℕ) (users : List ℕ) → All (λ m. next ≤ m.id) (insert_messages id next users)
unfolding insert_messages
insert_messages-from id next [] = tt
insert_messages-from id next (u ∷ us) =
    (omega arith, All-map (λ m h. omega (arith, h)) _ (insert_messages-from id (suc next) us))

insert_messages-Ascends :
    (id next : ℕ) (users : List ℕ) → Ascends message_id (insert_messages id next users)
unfolding insert_messages
insert_messages-Ascends id next [] = tt
insert_messages-Ascends id next (u ∷ us) = (
  All-map (λ m h. omega (arith, h)) _ (insert_messages-from id (suc next) us),
  insert_messages-Ascends id (suc next) us,
)

-- The messages that a handler goes on to publish are new ones, in the order of their ids.
abbrev pub New : ℕ → List StoredMessage → Type 0
New next ms = All (λ m. next ≤ m.id) ms × Ascends stored_id ms

fanout-All :
    (P : Message → Type 0) (Q : StoredMessage → Type 0) (row : Send) (ms : List Message)
    → ((m : Message) → P m → Q (from_row m row))
    → All P ms
    → All Q (fanout (some (row, ms)))
unfolding fanout
fanout-All P Q row [] f h = tt
fanout-All P Q row (m ∷ ms) f h = (f m h.0, fanout-All P Q row ms f h.1)

fanout-Ascends :
    (row : Send) (ms : List Message)
    → Ascends message_id ms
    → Ascends stored_id (fanout (some (row, ms)))
unfolding fanout from_row
fanout-Ascends row [] h = tt
fanout-Ascends row (m ∷ ms) h = (
  fanout-All (λ x. m.id < x.id) (λ x. m.id < x.id) row ms (λ x lt. lt) h.0,
  fanout-Ascends row ms h.1,
)

-- What storing a send does to the list of messages.
pub ingest-stored :
    (fails : Bool) (send : Send) (receipt : Option String) (users : List ℕ) (db : Database)
    → WellFormed db
    → let (made, after) = ingest fails send receipt users db in
      WellFormed after
      × (stored after ≡ stored db ++ fanout made)
      × New db.next_message (fanout made)
      × (db.next_message ≤ after.next_message)
unfolding ingest fanout from_row
ingest-stored true send receipt users db w =
    (w, sym (append-nil (stored db)), (tt, tt), omega arith)
ingest-stored false send receipt users db w =
    let row : Send = record send {
      id = db.next_send;
      receipt_id = receipt_of receipt send.receipt_id;
    } in
    let rows = insert_messages db.next_send db.next_message users in
    let from = insert_messages-from db.next_send db.next_message users in
    let up = insert_messages-Ascends db.next_send db.next_message users in
    (
      (
        All-append _ db.messages rows
            (All-map
              (λ m kept. (
                (
                  kept.0.0,
                  Kept-more row db.sends db.next_message db.next_send m refl kept ∙ kept.0.1,
                ),
                omega (arith, kept.1),
                omega (arith, kept.2),
              ))
              db.messages w.0)
            (insert_messages-Kept row db.sends db.next_message users),
        Ascends-append message_id db.next_message db.messages rows w.1 up
            (All-map (λ m kept. kept.1) db.messages w.0) from,
      ),
      joined-append (row ∷ db.sends) db.messages rows
          ∙ ap (λ l. l ++ joined (row ∷ db.sends) rows)
              (joined-more row db.sends db.next_message db.next_send db.messages refl w.0)
          ∙ ap (λ l. stored db ++ l) (joined-insert_messages row db.sends db.next_message users),
      (
        fanout-All (λ m. db.next_message ≤ m.id) (λ m. db.next_message ≤ m.id) row rows (λ m h. h)
            from,
        fanout-Ascends row rows up,
      ),
      omega arith,
    )
