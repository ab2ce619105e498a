-- ===== src/Hub.antt =====
-- server/internal/hub/hub.go over the tables of server/internal/store/sqlite (send_message.go,
-- ingest.go): what is stored of a send, how its rows are joined for the clients, and what a delivery
-- writes back. Rows are kept by id; sends and receipts, newest first.
pub mod Stored
pub mod Writes
pub mod Marked
pub mod Connections
use pushfree.Common.{
  ℕ, suc, String, Bool, true, false, ◌&&◌, ◌==◌, Option, none, some, List, [], ◌∷◌, ◌++◌,
  if◌then◌else◌, ltb, ℤ, str_eq, take, not, ◌||◌, ◌+◌,
}
use pushfree.Text.{truthy}
use pushfree.Receipts.{pending}
use pushfree.Receipts.Rows.{Row, mark_last_delivered}

-- A row of `sends`, as far as a client is told of it.
pub record Send : Type 0 where
  pub id : ℕ
  pub priority : ℤ
  pub sound : String
  pub title : String
  pub body : String
  pub url : String
  pub url_title : String
  pub html : Bool
  pub monospace : Bool
  pub timestamp : ℕ
  pub ttl : ℕ
  pub tag : String
  pub encrypted : Bool
  pub receipt_id : String

-- A row of `messages`: one recipient of a send.
pub record Message : Type 0 where
  pub id : ℕ
  pub send_id : ℕ
  pub recipient_user_id : ℕ
  pub delivered_at : Option ℕ

pub record StoredMessage : Type 0 where
  pub id : ℕ
  pub send_id : ℕ
  pub recipient_user_id : ℕ
  pub priority : ℤ
  pub sound : String
  pub title : String
  pub body : String
  pub url : String
  pub url_title : String
  pub html : Bool
  pub monospace : Bool
  pub timestamp : ℕ
  pub ttl : ℕ
  pub tag : String
  pub encrypted : Bool
  pub receipt_id : String

unfoldable pub from_row : Message → Send → StoredMessage
from_row m s = record {
  id = m.id;
  send_id = m.send_id;
  recipient_user_id = m.recipient_user_id;
  priority = s.priority;
  sound = s.sound;
  title = s.title;
  body = s.body;
  url = s.url;
  url_title = s.url_title;
  html = s.html;
  monospace = s.monospace;
  timestamp = s.timestamp;
  ttl = s.ttl;
  tag = s.tag;
  encrypted = s.encrypted;
  receipt_id = s.receipt_id;
}

pub record Database : Type 0 where
  pub messages : List Message
  pub sends : List Send
  pub receipts : List (String × Row)
  pub next_message : ℕ
  pub next_send : ℕ

unfoldable pub get_send : ℕ → List Send → Option Send
get_send id [] = none
get_send id (s ∷ rest) = let found = get_send id rest in if s.id == id then some s else found

-- `WHERE recipient_user_id = ? AND id > ? ORDER BY id ASC`
unfoldable pub rows_since : (user after : ℕ) → List Message → List Message
rows_since user after [] = []
rows_since user after (m ∷ ms) =
    let rest = rows_since user after ms in
    if (m.recipient_user_id == user) && ltb after m.id then m ∷ rest else rest

unfoldable pub list_since : (user after limit : ℕ) → List Message → List Message
unfolding rows_since
list_since user after limit ms = take (if limit == 0 then 100 else limit) (rows_since user after ms)

-- `SELECT MAX(id)`, and 0 where there is no row.
unfoldable pub max_id : (user : ℕ) → List Message → ℕ
max_id user [] = 0
max_id user (m ∷ ms) =
    let rest = max_id user ms in
    if (m.recipient_user_id == user) && ltb rest m.id then m.id else rest

-- The send of each row in turn; one that is not found fails the whole list.
joined_with : Message → Option Send → Option (List StoredMessage) → Option (List StoredMessage)
unfolding from_row
joined_with m (some s) (some rest) = some (from_row m s ∷ rest)
joined_with m _ _ = none

unfoldable pub join : List Send → List Message → Option (List StoredMessage)
unfolding joined_with get_send
join sends [] = some []
join sends (m ∷ ms) = joined_with m (get_send m.send_id sends) (join sends ms)

-- `fails` says that the rows cannot be read.
unfoldable pub list_messages :
    (fails : Bool) (user after limit : ℕ) → Database → Option (List StoredMessage)
unfolding join list_since
list_messages fails user after limit db =
    if fails then none else join db.sends (list_since user after limit db.messages)

-- What is stored of a send: its row, one row for each recipient, and its receipt.
unfoldable pub insert_messages : (send_id next : ℕ) → List ℕ → List Message
insert_messages send_id next [] = []
insert_messages send_id next (user ∷ users) =
    record { id = next; send_id = send_id; recipient_user_id = user; delivered_at = none }
    ∷ insert_messages send_id (suc next) users

unfoldable pub count_of : List ℕ → ℕ
count_of [] = 0
count_of (user ∷ users) = suc (count_of users)

abbrev pub new_receipt : Row
new_receipt = record {
  state = pending;
  retry_count = 0;
  last_delivered_at = none;
  acknowledged_at = none;
  acknowledged_by = none;
  acknowledged_by_device = none;
  expired_at = none;
  canceled_at = none;
}

unfoldable pub insert_receipt : Option String → List (String × Row) → List (String × Row)
insert_receipt none rs = rs
insert_receipt (some id) rs = (id, new_receipt) ∷ rs

abbrev pub receipt_of : Option String → String → String
receipt_of none id = id
receipt_of (some receipt) id = receipt

-- The send as it is stored, with its rows; nothing where a statement fails, and then nothing is kept.
unfoldable pub ingest :
    (fails : Bool)
    → Send
    → (receipt : Option String) (users : List ℕ) → Database
    → Option (Send × List Message) × Database
unfolding insert_messages insert_receipt count_of
ingest true send receipt users db = (none, db)
ingest false send receipt users db =
    let row = record send { id = db.next_send; receipt_id = receipt_of receipt send.receipt_id } in
    let rows = insert_messages db.next_send db.next_message users in
    (
      some (row, rows),
      record {
        messages = db.messages ++ rows;
        sends = row ∷ db.sends;
        receipts = insert_receipt receipt db.receipts;
        next_message = db.next_message + count_of users;
        next_send = suc db.next_send;
      },
    )

-- The messages that PublishFanout publishes, with the send's content.
unfoldable pub fanout : Option (Send × List Message) → List StoredMessage
unfolding from_row
fanout none = []
fanout (some (send, [])) = []
fanout (some (send, m ∷ ms)) = from_row m send ∷ fanout (some (send, ms))

-- `found` says that the row is the one, and only a row without an instant is given one.
unfoldable pub marked : (at : ℕ) (found : Bool) → Option ℕ → Message → Message
marked at true none m = record m { delivered_at = some at }
marked at true (some earlier) m = m
marked at false delivered m = m

unfoldable pub mark_delivered : (id at : ℕ) → List Message → List Message
unfolding marked
mark_delivered id at [] = []
mark_delivered id at (m ∷ ms) = marked at (m.id == id) m.delivered_at m ∷ mark_delivered id at ms

unfoldable pub mark_receipt : (id : String) (at : ℕ) → List (String × Row) → List (String × Row)
unfolding mark_last_delivered
mark_receipt id at [] = []
mark_receipt id at ((key, r) ∷ rs) =
    (key, if str_eq key id then mark_last_delivered at r else r) ∷ mark_receipt id at rs

-- Which of the hook's three statements fail.
pub record Faults : Type 0 where
  pub mark : Bool
  pub send : Bool
  pub receipt : Bool

touch_receipt : (fails : Bool) (at : ℕ) → Option Send → Database → Database
unfolding mark_receipt
touch_receipt fails at none db = db
touch_receipt fails at (some s) db =
    if not (truthy s.receipt_id) || fails
    then db
    else record db { receipts = mark_receipt s.receipt_id at db.receipts }

-- `repoDeliveryHook`. Its error is logged, so only what it has written is left of it.
unfoldable pub on_delivered : Faults → (at : ℕ) → StoredMessage → Database → Database
unfolding mark_delivered touch_receipt get_send
on_delivered f at m db =
    if f.mark
    then db
    else let marked = record db { messages = mark_delivered m.id at db.messages } in
      if f.send then marked else touch_receipt f.receipt at (get_send m.send_id db.sends) marked
