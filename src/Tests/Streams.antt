-- ===== src/Tests/Streams.antt =====
-- The hub of the server and the live log behind it at a concrete run: a message is stored and published
-- while a stream subscribes, so that the replay and the mailbox both have it.
use mathlib.Core.List.{reverse}
use pushfree.Common.{
  ℕ, zero, suc, ◌<◌, true, false, none, List, [], ◌∷◌, ◌++◌, ◌≡◌, refl, arith, pos, All, Among,
  take, map, Bool,
}
use pushfree.Messages.{mounted_page}
use pushfree.Messages.Feed.{run_frames}
use pushfree.Hub.{Send, StoredMessage, Database, Faults, from_row, fanout, ingest, list_messages}
use pushfree.Hub.Stored.{stored, backlog}
use pushfree.Hub.Connections.{
  live, Conn, World, Hook, store, publish, subscribe, replay, receive, put, Runs, begin, stores,
  connected, published, replayed, received,
}
use pushfree.Hub.Connections.Order.{Descends}
use pushfree.Hub.Connections.Queue.{pending}
use pushfree.Hub.Connections.Safety.{Runs-sent}
use pushfree.Hub.Connections.Whole.{Orderly, Runs-backlog}
use pushfree.Hub.Connections.Shown.{ShownAs, marshal_message, frames, run_frames-backlog}
use pushfree.Hub.Connections.Drained.{Takes, Runs-drained}
use pushfree.Hub.Connections.Lost.{publish_all, publish-full, Later, WroteAbove, replay-behind}

abbrev alert : Send
alert = record {
  id = 0;
  priority = pos 1;
  sound = "";
  title = "disk";
  body = "Disk full";
  url = "";
  url_title = "";
  html = false;
  monospace = false;
  timestamp = 1700000000;
  ttl = 0;
  tag = "";
  encrypted = false;
  receipt_id = "";
}

abbrev empty_db : Database
empty_db = record { messages = []; sends = []; receipts = []; next_message = 1; next_send = 1 }

abbrev started : World
started = record { db = empty_db; in_flight = []; conns = [] }

abbrev steady : Faults
steady = record { mark = false; send = false; receipt = false }

abbrev hook : Hook
hook = record { at = λ k. 1700000001; faults = λ k. steady }

abbrev notice : StoredMessage
notice = record {
  id = 1;
  send_id = 1;
  recipient_user_id = 7;
  priority = pos 1;
  sound = "";
  title = "disk";
  body = "Disk full";
  url = "";
  url_title = "";
  html = false;
  monospace = false;
  timestamp = 1700000000;
  ttl = 0;
  tag = "";
  encrypted = false;
  receipt_id = "";
}

abbrev sent_once : World
sent_once = store false alert none (7 ∷ []) started

abbrev waiting : Conn
waiting = subscribe false 7 0 sent_once.db

abbrev offered : Conn
offered = record waiting { ch = notice ∷ [] }

abbrev on_air : World
on_air = record sent_once { in_flight = []; conns = offered ∷ [] }

abbrev shown : World
shown = put [] (replay hook false 5 offered on_air.db) [] on_air

abbrev replayed_conn : Conn
replayed_conn = (replay hook false 5 offered on_air.db).0

abbrev drained : World
drained = put [] (receive hook true notice [] replayed_conn shown.db) [] shown

abbrev drained_conn : Conn
drained_conn = (receive hook true notice [] replayed_conn shown.db).0

-- The stream has replayed what its mailbox holds too.
unfoldable overlapping : Runs started shown
unfolding store ingest fanout from_row subscribe publish replay list_messages
overlapping =
    replayed [] offered [] hook false 5 refl refl
      (published [] notice [] refl (connected false 7 0 (stores false alert none (7 ∷ []) begin)))

unfoldable streamed : Runs started drained
unfolding replay list_messages store ingest subscribe
streamed = received [] replayed_conn [] hook true notice [] refl refl refl overlapping

streamed-Orderly : Orderly streamed
unfolding streamed overlapping store ingest fanout from_row subscribe
streamed-Orderly = (refl, omega arith, (refl, tt))

Runs-sent_example :
    Descends drained_conn.sent
    × All
        (λ m. Among m (stored drained.db) × (m.recipient_user_id ≡ 7) × (0 < m.id))
        drained_conn.sent
unfolding replay receive list_messages store ingest fanout from_row subscribe
Runs-sent_example = Runs-sent [] drained_conn [] streamed (tt, tt) refl refl refl

Runs-backlog_example :
    backlog 7 0 drained.db
    ≡ reverse drained_conn.sent ++ pending drained_conn (drained_conn.ch ++ drained.in_flight)
unfolding replay receive list_messages store ingest fanout from_row subscribe
Runs-backlog_example =
    Runs-backlog [] drained_conn [] streamed streamed-Orderly (tt, tt) refl refl refl refl refl

run_frames-backlog_example :
    ((run_frames "http://localhost:8080" 0 (frames (reverse drained_conn.sent)) mounted_page).events
      ≡ take 200 (reverse (map marshal_message (backlog 7 0 drained.db))))
    × ((m : StoredMessage) → ShownAs m (marshal_message m))
unfolding replay receive list_messages store ingest fanout from_row subscribe
run_frames-backlog_example =
    run_frames-backlog [] drained_conn [] streamed "http://localhost:8080" 0 mounted_page
      streamed-Orderly (tt, tt) refl refl refl refl refl refl refl refl

-- A stream whose client stalls.
abbrev copies : ℕ → List StoredMessage
copies zero = []
copies (suc n) = notice ∷ copies n

abbrev stalled : Conn
stalled = record offered { ch = copies 256 }

publish-full_example :
    publish_all (notice ∷ notice ∷ []) (stalled ∷ []) ≡ record stalled { registered = false } ∷ []
unfolding subscribe store ingest
publish-full_example = publish-full notice (notice ∷ []) stalled refl refl (omega arith)

abbrev newer : StoredMessage
newer = record notice { id = 9 }

replay-behind_example :
    let (d, marked) = replay hook false 5 offered sent_once.db in
    let e = (receive hook true newer [] d marked).0 in
    (reverse e.sent ≡ take 100 (backlog 7 0 sent_once.db) ++ (newer ∷ []))
    × All
        (λ x.
          (h : Hook) (ok : Bool) (left : List StoredMessage) (now : Database)
          → receive h ok x left e now ≡ (record e { ch = left }, now))
        (backlog 7 0 sent_once.db)
    × ((f : Conn) → Later e f → WroteAbove 9 e f)
unfolding replay receive list_messages store ingest fanout from_row subscribe
replay-behind_example =
    replay-behind hook 5 newer [] offered sent_once.db
      ((((record alert { id = 1 }, refl), omega arith, omega arith), tt), (tt, tt))
      ((((([], [], refl), refl), tt), tt, tt, omega arith), λ e. (refl, refl)) refl refl
      (omega arith) (omega arith, tt)

Runs-drained_example :
    (u : World) × (d : Conn) × Takes [] [] shown u
    × (u.conns ≡ d ∷ [])
    × (d.ch ≡ [])
    × (d.phase ≡ live)
    × (reverse d.sent ≡ backlog 7 0 shown.db)
    × (stored u.db ≡ stored shown.db)
unfolding overlapping replay list_messages store ingest fanout from_row subscribe
Runs-drained_example =
    Runs-drained hook [] replayed_conn [] overlapping (refl, omega arith, (refl, tt)) (tt, tt) refl
      refl refl refl refl refl
