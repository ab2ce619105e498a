-- ===== src/Hub/Stored.antt =====
-- What the tables hold of messages, as server/internal/hub/hub.go joins them: the list that a replay
-- pages through, and how storing a send and marking a delivery change it.
use pushfree.Common.{
  ℕ, zero, suc, ◌<◌, Bool, false, Option, none, some, List, [], ◌∷◌, ◌≡◌, ◌∙◌, refl, ap, ◌==◌, ◌&&◌,
  ltb, take, Bool-cases, Option-cases, inl, inr, keep, All, All-map, All-take, Ascends,
}
use pushfree.Hub.{
  Send, Message, StoredMessage, from_row, Database, get_send, rows_since, list_since, join,
  joined_with, list_messages,
}

abbrev pub with_send : Message → Option Send → List StoredMessage → List StoredMessage
with_send m none rest = rest
with_send m (some s) rest = from_row m s ∷ rest

-- The messages that some send has.
abbrev pub joined : List Send → List Message → List StoredMessage
joined sends [] = []
joined sends (m ∷ ms) = with_send m (get_send m.send_id sends) (joined sends ms)

abbrev pub stored : Database → List StoredMessage
stored db = joined db.sends db.messages

-- The row's send is there, and both of its ids have been given out.
abbrev pub Kept : List Send → (next_message next_send : ℕ) → Message → Type 0
Kept sends next_message next_send m =
    ((s : Send) × (get_send m.send_id sends ≡ some s))
    × (m.id < next_message)
    × (m.send_id < next_send)

abbrev pub message_id : Message → ℕ
message_id m = m.id

abbrev pub stored_id : StoredMessage → ℕ
stored_id m = m.id

abbrev pub WellFormed : Database → Type 0
WellFormed db =
    All (Kept db.sends db.next_message db.next_send) db.messages × Ascends message_id db.messages

-- The messages of a user behind an id.
abbrev pub wanted : (user after : ℕ) → StoredMessage → Bool
wanted user after m = (m.recipient_user_id == user) && ltb after m.id

abbrev pub backlog : (user after : ℕ) → Database → List StoredMessage
backlog user after db = keep (wanted user after) (stored db)

joined-All :
    (P : Message → Type 0) (Q : StoredMessage → Type 0) (sends : List Send) (ms : List Message)
    → ((m : Message) (s : Send) → P m → Q (from_row m s))
    → All P ms
    → All Q (joined sends ms)
joined-All P Q sends [] f h = tt
joined-All P Q sends (m ∷ ms) f h = elim (Option-cases (get_send m.send_id sends)) [
  | inl gone ↦ rw gone (joined-All P Q sends ms f h.1)
  | inr (s, found) ↦ rw found (f m s h.0, joined-All P Q sends ms f h.1)
]

joined-Ascends :
    (sends : List Send) (ms : List Message)
    → Ascends message_id ms
    → Ascends stored_id (joined sends ms)
unfolding from_row
joined-Ascends sends [] h = tt
joined-Ascends sends (m ∷ ms) h = elim (Option-cases (get_send m.send_id sends)) [
  | inl gone ↦ rw gone (joined-Ascends sends ms h.1)
  | inr (s, found) ↦ rw found (
    joined-All (λ x. m.id < x.id) (λ x. m.id < x.id) sends ms (λ x s lt. lt) h.0,
    joined-Ascends sends ms h.1,
  )
]

pub stored-Ascends : (db : Database) → WellFormed db → Ascends stored_id (stored db)
stored-Ascends db w = joined-Ascends db.sends db.messages w.1

pub stored-below : (db : Database) → WellFormed db → All (λ m. m.id < db.next_message) (stored db)
unfolding from_row
stored-below db w =
    joined-All (Kept db.sends db.next_message db.next_send) (λ m. m.id < db.next_message) db.sends
      db.messages (λ m s kept. kept.1) w.0

-- The send of every row is there.
abbrev Found : List Send → Message → Type 0
Found sends m = (s : Send) × (get_send m.send_id sends ≡ some s)

join-joined :
    (sends : List Send) (ms : List Message)
    → All (Found sends) ms
    → join sends ms ≡ some (joined sends ms)
unfolding join joined_with
join-joined sends [] h = refl
join-joined sends (m ∷ ms) (found, h) = rw (found.1, join-joined sends ms h) refl

joined-rows_since :
    (user after : ℕ) (sends : List Send) (ms : List Message)
    → joined sends (rows_since user after ms) ≡ keep (wanted user after) (joined sends ms)
unfolding rows_since from_row
joined-rows_since user after sends [] = refl
joined-rows_since user after sends (m ∷ ms) =
    let rest = joined-rows_since user after sends ms in
    elim (Option-cases (get_send m.send_id sends)) [
      | inl gone ↦ elim (Bool-cases ((m.recipient_user_id == user) && ltb after m.id)) [
        | inl kept ↦ rw (kept, gone) rest
        | inr not_kept ↦ rw (not_kept, gone) rest
      ]
      | inr (s, found) ↦ elim (Bool-cases ((m.recipient_user_id == user) && ltb after m.id)) [
        | inl kept ↦ rw (kept, found, kept) (ap (λ l. from_row m s ∷ l) rest)
        | inr not_kept ↦ rw (not_kept, found, not_kept) rest
      ]
    ]

joined-take :
    (n : ℕ) (sends : List Send) (ms : List Message)
    → All (Found sends) ms
    → joined sends (take n ms) ≡ take n (joined sends ms)
joined-take zero sends ms h = refl
joined-take (suc n) sends [] h = refl
joined-take (suc n) sends (m ∷ ms) (found, h) =
    rw found.1 (ap (λ l. from_row m found.0 ∷ l) (joined-take n sends ms h))

rows_since-All :
    (P : Message → Type 0) (user after : ℕ) (ms : List Message)
    → All P ms
    → All P (rows_since user after ms)
unfolding rows_since
rows_since-All P user after [] h = tt
rows_since-All P user after (m ∷ ms) h =
    elim (Bool-cases ((m.recipient_user_id == user) && ltb after m.id)) [
      | inl kept ↦ rw kept (h.0, rows_since-All P user after ms h.1)
      | inr gone ↦ rw gone (rows_since-All P user after ms h.1)
    ]

-- A page that can be read is the beginning of the user's backlog.
pub list_messages-backlog :
    (user after : ℕ) (db : Database)
    → WellFormed db
    → list_messages false user after 100 db ≡ some (take 100 (backlog user after db))
unfolding list_messages list_since
list_messages-backlog user after db w =
    let found = All-map {Q = Found db.sends} (λ m kept. kept.0) db.messages w.0 in
    let rows = rows_since user after db.messages in
    let each = rows_since-All (Found db.sends) user after db.messages found in
    join-joined db.sends (take 100 rows) (All-take (Found db.sends) 100 rows each)
    ∙ ap some (
        joined-take 100 db.sends rows each
        ∙ ap (take 100) (joined-rows_since user after db.sends db.messages))
