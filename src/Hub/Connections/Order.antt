-- ===== src/Hub/Connections/Order.antt =====
-- One stream of server/internal/hub: which messages its mailbox holds and which it has written, and
-- how the functions of the hub keep that.
use pushfree.Common.{
  ℕ, zero, suc, ◌<◌, ◌≤◌, Bool, true, false, List, [], ◌∷◌, ◌++◌, ◌≡◌, ◌≢◌, ◌∙◌, refl, ap, subst,
  arith, Bool-cases, inl, inr, append_assoc, All, All-append, All-map, All-take, Among, Ascends,
  Ascends-keep, Ascends-take, keep, take, ltb, leb, length,
}
use pushfree.Hub.{StoredMessage, Database, on_delivered, list_messages}
use pushfree.Hub.Stored.{
  WellFormed, stored, stored_id, wanted, backlog, stored-Ascends, list_messages-backlog,
}
use pushfree.Hub.Marked.{Same, on_delivered-Same}
use pushfree.Hub.Connections.{
  subscribed, live, Conn, offer, unsubscribe, leave, write, Hook, replay_page, replay, receive,
  inbox_cap,
}

-- Newest first.
abbrev pub Descends : List StoredMessage → Type 0
Descends [] = Unit
Descends (m ∷ ms) = All (λ x. x.id < m.id) ms × Descends ms

-- A message that is stored for a user.
abbrev pub Mine : List StoredMessage → (user : ℕ) → StoredMessage → Type 0
Mine all user m = Among m all × (m.recipient_user_id ≡ user)

-- A message of the stream's user behind `since`, and not behind `last`.
abbrev pub Given : List StoredMessage → (user since last : ℕ) → StoredMessage → Type 0
Given all user since last m =
    Among m all × (m.recipient_user_id ≡ user) × (since < m.id) × (m.id ≤ last)

abbrev pub Core : List StoredMessage → Conn → Type 0
Core all c =
    All (Mine all c.user_id) c.ch
    × All (Given all c.user_id c.since c.last_sent) c.sent
    × Descends c.sent
    × (c.since ≤ c.last_sent)

abbrev pub Fresh : Conn → Type 0
Fresh c = c.phase ≡ subscribed → (c.last_sent ≡ c.since) × (c.sent ≡ [])

abbrev pub Tidy : List StoredMessage → Conn → Type 0
Tidy all c = Core all c × Fresh c

pub Among-more : {A : Type 0} (x : A) (xs ys : List A) → Among x xs → Among x (xs ++ ys)
Among-more x xs ys (before, after, h) =
    (before, after ++ ys, ap (λ l. l ++ ys) h ∙ append_assoc before (x ∷ after) ys)

pub All-Among : {A : Type 0} (xs ys : List A) → All (λ x. Among x (xs ++ ys)) ys
All-Among xs [] = tt
All-Among xs (y ∷ ys) = (
  (xs, ys, refl),
  subst (λ l. All (λ x. Among x l) ys) (append_assoc xs (y ∷ []) ys) (All-Among (xs ++ y ∷ []) ys),
)

pub Core-more : (all more : List StoredMessage) (c : Conn) → Core all c → Core (all ++ more) c
Core-more all more c (ch, sent, order, low) = (
  All-map (λ m h. (Among-more m all more h.0, h.1)) c.ch ch,
  All-map (λ m h. (Among-more m all more h.0, h.1, h.2, h.3)) c.sent sent,
  order,
  low,
)

-- The mailbox, the map and the phase have no part in what has been written.
pub offer-Core :
    (all : List StoredMessage) (m : StoredMessage) (c : Conn)
    → Mine all c.user_id m
    → Core all c
    → Core all (offer m c)
unfolding offer unsubscribe
offer-Core all m c mine (ch, sent, order, low) = elim (Bool-cases (ltb (length c.ch) inbox_cap)) [
  | inl space ↦
      rw space (All-append (Mine all c.user_id) c.ch (m ∷ []) ch (mine, tt), sent, order, low)
  | inr full ↦ rw full (ch, sent, order, low)
]

write-Core :
    (all : List StoredMessage) (m : StoredMessage) (c : Conn)
    → Mine all c.user_id m
    → c.last_sent < m.id
    → Core all c
    → Core all (write m c)
unfolding write
write-Core all m c mine lt (ch, sent, order, low) = (
  ch,
  (
    (mine.0, mine.1, omega arith, omega arith),
    All-map (λ x h. (h.0, h.1, h.2, omega (arith, h.3))) c.sent sent,
  ),
  (All-map (λ x h. omega (arith, h.3)) c.sent sent, order),
  omega arith,
)

-- What the writing of a page, or of one message, leads to.
abbrev pub Wrote : List StoredMessage → Database → Conn × Database → Type 0
Wrote all db (c, after) = Core all c × (c.phase ≢ subscribed) × Same db after

pub Same-trans : (a b c : Database) → Same a b → Same b c → Same a c
Same-trans a b c ab bc = (bc.0, bc.1 ∙ ab.1, bc.2 ∙ ab.2)

pub replay_page-Wrote :
    (h : Hook) (writes : ℕ) (page all : List StoredMessage) (c : Conn) (db : Database)
    → WellFormed db
    → All (Mine all c.user_id) page
    → All (λ m. c.last_sent < m.id) page
    → Ascends stored_id page
    → Core all c
    → Wrote all db (replay_page h writes page (c, db))
unfolding replay_page leave unsubscribe write
replay_page-Wrote h writes [] all c db w mine low up core = (core, (λ e. cc), (w, refl, refl))
replay_page-Wrote h zero (m ∷ ms) all c db w mine low up core = (core, (λ e. cc), (w, refl, refl))
replay_page-Wrote h (suc writes) (m ∷ ms) all c db w mine low up core =
    let f = h.faults writes in
    let at = h.at writes in
    let next = on_delivered f at m db in
    let same = on_delivered-Same f at m db w in
    let rest =
      replay_page-Wrote h writes ms all (write m c) next same.0 mine.1 up.0 up.1
        (write-Core all m c mine.0 low.0 core) in
    (rest.0, rest.1, Same-trans db next (replay_page h writes ms (write m c, next)).1 same rest.2)

pub wanted-All :
    (user since : ℕ) (all xs : List StoredMessage)
    → All (λ m. Among m all) xs
    → let page = keep (wanted user since) xs in
      All (Mine all user) page × All (λ m. since < m.id) page
wanted-All user since all [] h = (tt, tt)
wanted-All user since all (m ∷ ms) h =
    let (mine, low) = wanted-All user since all ms h.1 in
    elim (Bool-cases (wanted user since m)) [
      | inr gone ↦ rw gone (mine, low)
      | inl kept ↦
          let own : m.recipient_user_id ≡ user = ground (arith, kept) in
          let behind : since < m.id = ground (arith, kept) in
          rw kept (((h.0, own), mine), (behind, low))
    ]

pub replay-Wrote :
    (h : Hook) (fails : Bool) (writes : ℕ) (c : Conn) (db : Database)
    → WellFormed db
    → Tidy (stored db) c
    → c.phase ≡ subscribed
    → Wrote (stored db) db (replay h fails writes c db)
unfolding replay list_messages
replay-Wrote h true writes c db w tidy first =
    replay_page-Wrote h writes [] (stored db) c db w tt tt tt tidy.0
replay-Wrote h false writes c db w tidy first =
    let all = stored db in
    let line = backlog c.user_id c.since db in
    let (mine, low) = wanted-All c.user_id c.since all all (All-Among [] all) in
    let start = (tidy.1 first).0 in
    rw (list_messages-backlog c.user_id c.since db w) (
      replay_page-Wrote h writes (take 100 line) all c db w
        (All-take (Mine all c.user_id) 100 line mine)
        (rw start (All-take (λ m. c.since < m.id) 100 line low))
        (Ascends-take stored_id 100 line
          (Ascends-keep stored_id (wanted c.user_id c.since) all (stored-Ascends db w)))
        tidy.0)

pub receive-Wrote :
    (h : Hook) (ok : Bool) (m : StoredMessage) (rest : List StoredMessage) (c : Conn)
    (db : Database)
    → WellFormed db
    → Core (stored db) c
    → c.phase ≡ live
    → c.ch ≡ m ∷ rest
    → Wrote (stored db) db (receive h ok m rest c db)
unfolding receive leave unsubscribe write
receive-Wrote h ok m rest c db w core going taken =
    let all = stored db in
    let box = subst (All (Mine all c.user_id)) taken core.0 in
    let left : Conn = record c { ch = rest } in
    let kept : Core all left = (box.1, core.1, core.2, core.3) in
    elim (Bool-cases (leb m.id c.last_sent)) [
      | inl old ↦ rw old (kept, (λ e. cc), (w, refl, refl))
      | inr new ↦ elim (Bool-cases ok) [
        | inr broken ↦ rw (new, broken) (kept, (λ e. cc), (w, refl, refl))
        | inl works ↦
            rw (new, works)
              (
                write-Core all m left box.0 (ground (arith, new)) kept,
                (λ e. cc),
                on_delivered-Same (h.faults 0) (h.at 0) m db w,
              )
      ]
    ]

pub offer-Tidy :
    (all : List StoredMessage) (m : StoredMessage) (c : Conn)
    → Mine all c.user_id m
    → Tidy all c
    → Tidy all (offer m c)
unfolding offer unsubscribe
offer-Tidy all m c mine (core, fresh) =
    let kept = offer-Core all m c mine core in
    (
      kept,
      elim (Bool-cases (ltb (length c.ch) inbox_cap)) [
        | inl space ↦ rw space fresh
        | inr full ↦ rw full fresh
      ],
    )
