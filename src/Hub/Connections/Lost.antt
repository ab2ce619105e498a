-- ===== src/Hub/Connections/Lost.antt =====
-- Where a stream of server/internal/hub misses messages: a mailbox that is full, and a backlog of more
-- than one page.
use mathlib.Core.List.{reverse, reverse-cons}
use pushfree.Common.{
  ℕ, ◌<◌, ◌≤◌, Bool, true, false, List, [], ◌∷◌, ◌++◌, ◌≡◌, ◌∙◌, refl, ap, arith, inl, inr, All,
  Bool-cases, All-map, All-take, Ascends-keep, Ascends-take, take, length, ltb, leb, ◌==◌, ◌&&◌,
  if◌then◌else◌,
}
use pushfree.Hub.{StoredMessage, Database, list_messages}
use pushfree.Hub.Stored.{
  WellFormed, stored, stored_id, stored-Ascends, wanted, backlog, list_messages-backlog,
}
use pushfree.Hub.Connections.{
  subscribed, live, Conn, offer, unsubscribe, publish, leave, write, Hook, replay_page, replay,
  receive, inbox_cap,
}
use pushfree.Hub.Connections.Order.{Tidy, wanted-All, All-Among}
use pushfree.Hub.Connections.Stream.{replay_page-Paged}

-- What the hub publishes, one message after the other.
abbrev pub publish_all : List StoredMessage → List Conn → List Conn
publish_all [] cs = cs
publish_all (m ∷ ms) cs = publish_all ms (publish m.recipient_user_id m cs)

publish_all-unregistered :
    (ms : List StoredMessage) (c : Conn) → c.registered ≡ false → publish_all ms (c ∷ []) ≡ c ∷ []
unfolding publish
publish_all-unregistered [] c out = refl
publish_all-unregistered (m ∷ ms) c out =
    let skips : (c.registered && (c.user_id == m.recipient_user_id)) ≡ false =
      ground (arith, out) in
    ap (λ b. publish_all ms ((if b then offer m c else c) ∷ [])) skips
    ∙ publish_all-unregistered ms c out

-- A message that is published to a stream whose mailbox is full only takes the mailbox out of the map:
-- the stream is not closed, its phase and its mailbox are as they were, and nothing that is published
-- afterwards gets into its mailbox.
pub publish-full :
    (m : StoredMessage) (ms : List StoredMessage) (c : Conn)
    → c.registered ≡ true
    → m.recipient_user_id ≡ c.user_id
    → inbox_cap ≤ length c.ch
    → publish_all (m ∷ ms) (c ∷ []) ≡ record c { registered = false } ∷ []
unfolding publish offer unsubscribe
publish-full m ms c reg own full =
    let mine : (c.user_id == m.recipient_user_id) ≡ true = ground (arith, own) in
    let no_space : ltb (length c.ch) 256 ≡ false = ground (arith, full) in
    rw (reg, mine, no_space) (publish_all-unregistered ms (record c { registered = false }) refl)

-- What a stream comes to by what it takes from its mailbox, what is offered to the mailbox, and its end.
pub data Later (e : Conn) : Conn → Type 0 where
  now : Later e e
  takes :
      {c : Conn} (h : Hook) (ok : Bool) (x : StoredMessage) (rest : List StoredMessage)
      (db : Database)
      → c.phase ≡ live
      → c.ch ≡ x ∷ rest
      → Later e c
      → Later e (receive h ok x rest c db).0
  offered : {c : Conn} (x : StoredMessage) → Later e c → Later e (offer x c)
  leaves : {c : Conn} → Later e c → Later e (leave c)

-- The stream has written what the other had, and then only messages behind an id.
abbrev pub WroteAbove : ℕ → Conn → Conn → Type 0
WroteAbove n e c =
    (more : List StoredMessage) × (c.sent ≡ more ++ e.sent) × All (λ y. n < y.id) more

receive-WroteAbove :
    (n : ℕ) (h : Hook) (ok : Bool) (x : StoredMessage) (rest : List StoredMessage) (e c : Conn)
    (db : Database)
    → n ≤ c.last_sent
    → WroteAbove n e c
    → let d = (receive h ok x rest c db).0 in (n ≤ d.last_sent) × WroteAbove n e d
unfolding receive write leave unsubscribe
receive-WroteAbove n h ok x rest e c db high (more, wrote, above) =
    elim (Bool-cases (leb x.id c.last_sent)) [
      | inl old ↦ rw old (high, (more, wrote, above))
      | inr new ↦ elim (Bool-cases ok) [
        | inr broken ↦ rw (new, broken) (high, (more, wrote, above))
        | inl sound ↦
            let up : n < x.id = ground (arith, new) in
            rw (new, sound) (omega arith, (x ∷ more, ap (λ l. x ∷ l) wrote, (up, above)))
      ]
    ]

offer-WroteAbove :
    (n : ℕ) (x : StoredMessage) (e c : Conn)
    → n ≤ c.last_sent
    → WroteAbove n e c
    → (n ≤ (offer x c).last_sent) × WroteAbove n e (offer x c)
unfolding offer unsubscribe
offer-WroteAbove n x e c high wrote = elim (Bool-cases (ltb (length c.ch) 256)) [
  | inl space ↦ rw space (high, wrote)
  | inr full ↦ rw full (high, wrote)
]

Later-WroteAbove :
    (n : ℕ) {e c : Conn} → n ≤ e.last_sent → Later e c → (n ≤ c.last_sent) × WroteAbove n e c
unfolding leave unsubscribe
Later-WroteAbove n high now = (high, ([], refl, tt))
Later-WroteAbove n {e} high (takes {c} h ok x rest db going held l) =
    let (up, wrote) = Later-WroteAbove n high l in receive-WroteAbove n h ok x rest e c db up wrote
Later-WroteAbove n {e} high (offered {c} x l) =
    let (up, wrote) = Later-WroteAbove n high l in offer-WroteAbove n x e c up wrote
Later-WroteAbove n high (leaves l) = Later-WroteAbove n high l

-- A stream replays one page of its user's backlog and then writes a message that is newer than all of
-- it: it has written the page, which is a hundred messages at most, and that message. Of the backlog,
-- whatever it is handed next it passes over, as written already. And whatever is offered to its mailbox
-- and taken from it afterwards, up to the stream's end: all that it writes behind that message is newer
-- than the message, and so than all of the backlog.
pub replay-behind :
    (h : Hook) (writes : ℕ) (m : StoredMessage) (rest : List StoredMessage) (c : Conn)
    (db : Database)
    → WellFormed db
    → Tidy (stored db) c
    → c.phase ≡ subscribed
    → (replay h false writes c db).0.phase ≡ live
    → c.since < m.id
    → All (λ x. x.id < m.id) (backlog c.user_id c.since db)
    → let (d, marked) = replay h false writes c db in
      let e = (receive h true m rest d marked).0 in
      (reverse e.sent ≡ take 100 (backlog c.user_id c.since db) ++ (m ∷ []))
      × All
          (λ x.
            (hook : Hook) (ok : Bool) (left : List StoredMessage) (now : Database)
            → receive hook ok x left e now ≡ (record e { ch = left }, now))
          (backlog c.user_id c.since db)
      × ((f : Conn) → Later e f → WroteAbove m.id e f)
unfolding replay list_messages receive write
replay-behind h writes m rest c db w (core, fresh) first going behind newer =
    let all = stored db in
    let line = backlog c.user_id c.since db in
    let (start, empty) = fresh first in
    let (mine, low) = wanted-All c.user_id c.since all all (All-Among [] all) in
    let page = take 100 line in
    let d = (replay_page h writes page (c, db)).0 in
    let listed = list_messages-backlog c.user_id c.since db w in
    let (user, since, ch, reg, level, end) =
      replay_page-Paged h writes m.id page c db
        (rw start (All-take (λ x. c.since < x.id) 100 line low))
        (Ascends-take stored_id 100 line
          (Ascends-keep stored_id (wanted c.user_id c.since) all (stored-Ascends db w)))
        (All-take (λ x. x.id < m.id) 100 line newer) (inl start) in
    let goes : leb m.id d.last_sent ≡ false = elim level [
      | inl same ↦ ground (arith, same, since, behind)
      | inr before ↦ ground (arith, before)
    ] in
    let sent : reverse d.sent ≡ page =
      (end (rw listed at going)).0 ∙ ap (λ l. reverse l ++ page) empty in
    rw (listed, goes)
      (
        reverse-cons m d.sent ∙ ap (λ l. l ++ (m ∷ [])) sent,
        All-map
            (λ x lt hook ok left now.
              let old : leb x.id m.id ≡ true = ground (arith, lt) in rw old refl)
            line newer,
        λ f l. (Later-WroteAbove m.id (omega arith) l).1,
      )
