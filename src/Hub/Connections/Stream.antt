-- ===== src/Hub/Connections/Stream.antt =====
-- Replaying and receiving on a stream of server/internal/hub/sse.go that misses nothing.
use mathlib.Core.List.{reverse, reverse-cons}
use pushfree.Common.{
  ℕ, zero, suc, ◌<◌, ◌≤◌, Bool, true, false, some, List, [], ◌∷◌, ◌++◌, ◌≡◌, ◌∙◌, refl, ap, sym,
  subst, arith, Bool-cases, inl, inr, append_assoc, append-nil, All, All-append, All-map, Among,
  Ascends, Ascends-keep, keep, keep-eq, keep-none, take-whole, leb, length,
}
use pushfree.Hub.{StoredMessage, Database, on_delivered, list_messages}
use pushfree.Hub.Stored.{
  WellFormed, stored, stored_id, stored-Ascends, stored-below, wanted, backlog,
  list_messages-backlog,
}
use pushfree.Hub.Connections.{
  subscribed, live, Conn, leave, unsubscribe, write, Hook, replay_page, replay, receive,
}
use pushfree.Hub.Connections.Order.{Mine, Core, Tidy, wanted-All, All-Among}
use pushfree.Hub.Connections.Queue.{pending, Level, Queued, All-each}

-- What writing a page changes.
abbrev Paged : ℕ → List StoredMessage → (before after : Conn) → Type 0
Paged next page c d =
    (d.user_id ≡ c.user_id)
    × (d.since ≡ c.since)
    × (d.ch ≡ c.ch)
    × (d.registered ≡ true → c.registered ≡ true)
    × Level next d
    × (d.phase ≡ live
        → (reverse d.sent ≡ reverse c.sent ++ page)
          × All (λ m. m.id ≤ d.last_sent) page
          × (c.last_sent ≤ d.last_sent))

pub replay_page-Paged :
    (h : Hook) (writes next : ℕ) (page : List StoredMessage) (c : Conn) (db : Database)
    → All (λ m. c.last_sent < m.id) page
    → Ascends stored_id page
    → All (λ m. m.id < next) page
    → Level next c
    → Paged next page c (replay_page h writes page (c, db)).0
unfolding replay_page leave unsubscribe write
replay_page-Paged h writes next [] c db low up below level =
    (refl, refl, refl, (λ e. e), level, λ _. (sym (append-nil (reverse c.sent)), tt, omega arith))
replay_page-Paged h zero next (m ∷ ms) c db low up below level =
    (refl, refl, refl, (λ e. cc), level, λ e. cc)
replay_page-Paged h (suc writes) next (m ∷ ms) c db low up below level =
    let then_db = on_delivered (h.faults writes) (h.at writes) m db in
    let (user, since, ch, reg, lev, whole) =
      replay_page-Paged h writes next ms (write m c) then_db up.0 up.1 below.1 (inr below.0) in
    (
      user,
      since,
      ch,
      reg,
      lev,
      λ going.
          let (sent, last, mono) = whole going in
          (
            sent
                ∙ ap (λ l. l ++ ms) (reverse-cons m c.sent)
                ∙ append_assoc (reverse c.sent) (m ∷ []) ms,
            (mono, last),
            omega (arith, mono, low.0),
          ),
    )

-- What passes the first test is not behind `last`, and so nothing passes the second.
none_left :
    (user since last : ℕ) (xs : List StoredMessage)
    → since ≤ last
    → All (λ m. m.id ≤ last) (keep (wanted user since) xs)
    → All (λ m. wanted user last m ≡ false) xs
none_left user since last [] le h = tt
none_left user since last (m ∷ ms) le h = elim (Bool-cases (wanted user since m)) [
  | inl kept ↦
      let (here, rest) = rw kept at h in
      (ground (arith, here), none_left user since last ms le rest)
  | inr gone ↦ (ground (arith, gone, le), none_left user since last ms le (rw gone at h))
]

pub replay-Queued :
    (h : Hook) (writes : ℕ) (flight : List StoredMessage) (c : Conn) (db : Database)
    → WellFormed db
    → Tidy (stored db) c
    → All (λ m. Among m (stored db)) flight
    → c.phase ≡ subscribed
    → length (backlog c.user_id c.since db) ≤ 100
    → Queued (stored db) flight db.next_message c
    → Queued (stored db) flight db.next_message (replay h false writes c db).0
unfolding replay list_messages
replay-Queued h writes flight c db w (core, fresh) held first few (level, order, whole) =
    let all = stored db in
    let next = db.next_message in
    let line = backlog c.user_id c.since db in
    let (start, empty) = fresh first in
    let (mine, low) = wanted-All c.user_id c.since all all (All-Among [] all) in
    let page : list_messages false c.user_id c.since 100 db ≡ some line =
      list_messages-backlog c.user_id c.since db w ∙ ap some (take-whole 100 line few) in
    let d = (replay_page h writes line (c, db)).0 in
    let below =
      All-each (λ m. m.id < next) all line (stored-below db w) (All-map (λ m a. a.0) line mine) in
    let (user, since, ch, reg, lev, end) =
      replay_page-Paged h writes next line c db (rw start low)
        (Ascends-keep stored_id (wanted c.user_id c.since) all (stored-Ascends db w)) below level in
    let boxes = All-append (λ m. Among m all) c.ch flight (All-map (λ m a. a.0) c.ch core.0) held in
    let result : Queued all flight next d = (
      lev,
      (λ r. subst (λ l. Ascends stored_id (l ++ flight)) (sym ch) (order (reg r))),
      λ going r.
          let (sent, last, mono) = end going in
          let nothing : All (λ m. wanted c.user_id d.last_sent m ≡ false) all =
            none_left c.user_id c.since d.last_sent all (omega (arith, start, mono)) last in
          let none_pending : pending d (d.ch ++ flight) ≡ [] =
            ap (λ u. keep (wanted u d.last_sent) (d.ch ++ flight)) user
            ∙ ap (λ l. keep (wanted c.user_id d.last_sent) (l ++ flight)) ch
            ∙ keep-none (wanted c.user_id d.last_sent) (c.ch ++ flight) (
                All-each (λ m. wanted c.user_id d.last_sent m ≡ false) all (c.ch ++ flight) nothing
                  boxes) in
          ap (λ u. keep (wanted u d.since) all) user
          ∙ ap (λ n. keep (wanted c.user_id n) all) since
          ∙ sym (
              ap (λ l. l ++ pending d (d.ch ++ flight)) (sent ∙ ap (λ l. reverse l ++ line) empty)
              ∙ ap (λ l. line ++ l) none_pending
              ∙ append-nil line),
    ) in
    rw page result

-- Taking the oldest message of the mailbox.
pub receive-Queued :
    (h : Hook) (ok : Bool) (m : StoredMessage) (rest flight : List StoredMessage) (c : Conn)
    (db : Database)
    → WellFormed db
    → Core (stored db) c
    → c.phase ≡ live
    → c.ch ≡ m ∷ rest
    → Queued (stored db) flight db.next_message c
    → Queued (stored db) flight db.next_message (receive h ok m rest c db).0
unfolding receive leave unsubscribe write
receive-Queued h ok m rest flight c db w core going taken (level, order, whole) =
    let all = stored db in
    let user = c.user_id in
    let mine = (subst (All (Mine all user)) taken core.0).0 in
    let up : c.registered ≡ true → Ascends stored_id (m ∷ (rest ++ flight)) =
      λ reg. subst (λ l. Ascends stored_id (l ++ flight)) taken (order reg) in
    let equal : c.registered ≡ true
        → keep (wanted user c.since) all
          ≡ reverse c.sent ++ keep (wanted user c.last_sent) (m ∷ (rest ++ flight)) =
      λ reg. whole going reg ∙ ap (λ l. reverse c.sent ++ pending c (l ++ flight)) taken in
    elim (Bool-cases (leb m.id c.last_sent)) [
      | inl old ↦
          let out : wanted user c.last_sent m ≡ false = ground (arith, old) in
          rw old (level, (λ reg. (up reg).1), λ _ reg. (rw out at (equal reg)))
      | inr new ↦ elim (Bool-cases ok) [
        | inr broken ↦ rw (new, broken) (level, (λ reg. cc), λ e. cc)
        | inl works ↦
            let goes : wanted user c.last_sent m ≡ true = ground (arith, new, mine.1) in
            let same : c.registered ≡ true
                → keep (wanted user c.last_sent) (rest ++ flight)
                  ≡ keep (wanted user m.id) (rest ++ flight) =
              λ reg.
                keep-eq (wanted user c.last_sent) (wanted user m.id) (rest ++ flight)
                  (All-map (λ x lt. ground (arith, new, lt)) (rest ++ flight) (up reg).0) in
            rw (new, works)
              (
                inr
                    (All-each (λ x. x.id < db.next_message) all (m ∷ []) (stored-below db w)
                      (mine.0, tt)).0,
                (λ reg. (up reg).1),
                λ _ reg.
                    (rw goes at (equal reg))
                    ∙ ap (λ l. reverse c.sent ++ m ∷ l) (same reg)
                    ∙ sym (
                        ap (λ l. l ++ keep (wanted user m.id) (rest ++ flight))
                          (reverse-cons m c.sent)
                        ∙ append_assoc (reverse c.sent) (m ∷ [])
                            (keep (wanted user m.id) (rest ++ flight))),
              )
      ]
    ]
