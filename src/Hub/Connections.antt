-- ===== src/Hub/Connections.antt =====
-- The live connections of server/internal/hub: subscribe, Publish and unsubscribe of hub.go, and the
-- stream of sse.go, which the loop of ws.go shares. A run is what the handlers of sends, the streams
-- and the clients do in any order; publishing one message is one step.
pub mod Order
pub mod Safety
pub mod Queue
pub mod Stream
pub mod Whole
pub mod Drained
pub mod Lost
pub mod Shown
use pushfree.Common.{
  ℕ, zero, suc, String, Bool, true, false, ◌&&◌, ◌==◌, Option, none, some, List, [], ◌∷◌, ◌++◌, ◌≡◌,
  if◌then◌else◌, ltb, leb, length, get_or,
}
use pushfree.Hub.{
  Send, StoredMessage, Database, list_messages, max_id, ingest, fanout, Faults, on_delivered,
}

pub data Phase : Type 0 where
  subscribed live ended : Phase

-- A stream and its mailbox: `last_message_id` of its open event; `ch`, oldest first; and the messages
-- that have been written, newest first. `registered` says that the hub's map has the mailbox.
pub record Conn : Type 0 where
  pub user_id : ℕ
  pub since : ℕ
  pub high_water : ℕ
  pub phase : Phase
  pub registered : Bool
  pub ch : List StoredMessage
  pub last_sent : ℕ
  pub sent : List StoredMessage

-- `in_flight` is what is stored of sends whose handlers have not published it yet.
pub record World : Type 0 where
  pub db : Database
  pub in_flight : List StoredMessage
  pub conns : List Conn

abbrev pub inbox_cap : ℕ
inbox_cap = 256

abbrev pub message_page_limit : ℕ
message_page_limit = 100

unfoldable pub unsubscribe : Conn → Conn
unsubscribe c = record c { registered = false }

-- A mailbox that is full is taken out of the map.
unfoldable pub offer : StoredMessage → Conn → Conn
unfolding unsubscribe
offer m c =
    if ltb (length c.ch) inbox_cap then record c { ch = c.ch ++ (m ∷ []) } else unsubscribe c

unfoldable pub publish : (user : ℕ) → StoredMessage → List Conn → List Conn
unfolding offer
publish user m [] = []
publish user m (c ∷ cs) =
    (if c.registered && (c.user_id == user) then offer m c else c) ∷ publish user m cs

-- The stream up to its open event. `fails` says that the greatest id cannot be read.
unfoldable pub subscribe : (fails : Bool) (user since : ℕ) → Database → Conn
subscribe fails user since db = record {
  user_id = user;
  since = since;
  high_water = if fails then 0 else max_id user db.messages;
  phase = subscribed;
  registered = true;
  ch = [];
  last_sent = since;
  sent = [];
}

unfoldable pub leave : Conn → Conn
unfolding unsubscribe
leave c = record (unsubscribe c) { phase = ended }

-- A message that has been written.
unfoldable pub write : StoredMessage → Conn → Conn
write m c = record c { last_sent = m.id; sent = m ∷ c.sent }

-- The hook's instants and faults, by the number of the writing.
pub record Hook : Type 0 where
  pub at : ℕ → ℕ
  pub faults : ℕ → Faults

-- The page is written until a write fails, which ends the stream; `writes` succeed before that.
unfoldable pub replay_page :
    Hook → (writes : ℕ) → List StoredMessage → Conn × Database → Conn × Database
unfolding write leave
replay_page h writes [] (c, db) = (record c { phase = live }, db)
replay_page h zero (m ∷ ms) (c, db) = (leave c, db)
replay_page h (suc writes) (m ∷ ms) (c, db) =
    replay_page h writes ms (write m c, on_delivered (h.faults writes) (h.at writes) m db)

-- Where the rows cannot be read the stream goes on without them.
unfoldable pub replay : Hook → (fails : Bool) (writes : ℕ) → Conn → Database → Conn × Database
unfolding replay_page
replay h fails writes c db =
    replay_page h writes (get_or (list_messages fails c.user_id c.since message_page_limit db) [])
      (c, db)

-- The live loop takes a message from its mailbox; `ok` says that it can be written.
unfoldable pub receive :
    Hook
    → (ok : Bool) → StoredMessage
    → (rest : List StoredMessage) → Conn
    → Database
    → Conn × Database
unfolding write leave
receive h ok m rest c db =
    let taken = record c { ch = rest } in
    if leb m.id c.last_sent
    then (taken, db)
    else if ok
    then (write m taken, on_delivered (h.faults 0) (h.at 0) m db)
    else (leave taken, db)

-- A send is stored by its handler, which goes on to publish it.
unfoldable pub store :
    (fails : Bool) → Send → (receipt : Option String) (users : List ℕ) → World → World
unfolding fanout
store fails send receipt users w =
    let (made, db) = ingest fails send receipt users w.db in
    record w { db = db; in_flight = w.in_flight ++ fanout made }

abbrev pub put : (before : List Conn) → Conn × Database → (after : List Conn) → World → World
put before (c, db) after w = record w { db = db; conns = before ++ c ∷ after }

pub data Runs (s : World) : World → Type 0 where
  begin : Runs s s
  stores :
      {t : World} (fails : Bool) (send : Send) (receipt : Option String) (users : List ℕ)
      → Runs s t
      → Runs s (store fails send receipt users t)
  published :
      {t : World} (before : List StoredMessage) (m : StoredMessage) (after : List StoredMessage)
      → t.in_flight ≡ before ++ m ∷ after
      → Runs s t
      → Runs s
          (record t { in_flight = before ++ after; conns = publish m.recipient_user_id m t.conns })
  connected :
      {t : World} (fails : Bool) (user since : ℕ)
      → Runs s t
      → Runs s (record t { conns = subscribe fails user since t.db ∷ t.conns })
  replayed :
      {t : World} (before : List Conn) (c : Conn) (after : List Conn) (h : Hook) (fails : Bool)
      (writes : ℕ)
      → t.conns ≡ before ++ c ∷ after
      → c.phase ≡ subscribed
      → Runs s t
      → Runs s (put before (replay h fails writes c t.db) after t)
  received :
      {t : World} (before : List Conn) (c : Conn) (after : List Conn) (h : Hook) (ok : Bool)
      (m : StoredMessage) (rest : List StoredMessage)
      → t.conns ≡ before ++ c ∷ after
      → c.phase ≡ live
      → c.ch ≡ m ∷ rest
      → Runs s t
      → Runs s (put before (receive h ok m rest c t.db) after t)
  left :
      {t : World} (before : List Conn) (c : Conn) (after : List Conn)
      → t.conns ≡ before ++ c ∷ after
      → Runs s t
      → Runs s (put before (leave c, t.db) after t)
