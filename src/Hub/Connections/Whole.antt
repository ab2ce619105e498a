-- ===== src/Hub/Connections/Whole.antt =====
-- Runs of the hub (server/internal/hub) in which no stream misses a message.
use mathlib.Core.List.{reverse}
use pushfree.Common.{
  ℕ, ◌<◌, ◌≤◌, Bool, true, false, Option, List, [], ◌∷◌, ◌++◌, ◌≡◌, ◌∙◌, refl, ap, sym, subst,
  String, Bool-cases, inl, inr, All, All-append, All-map, All-parts, Ascends, Ascends-append,
  length, ◌==◌, ◌&&◌,
}
use pushfree.Hub.{Send, StoredMessage, Database, ingest, fanout}
use pushfree.Hub.Stored.{WellFormed, stored, stored_id, backlog, stored-below}
use pushfree.Hub.Writes.{ingest-stored}
use pushfree.Hub.Marked.{Same}
use pushfree.Hub.Connections.{
  live, Conn, World, publish, subscribe, leave, unsubscribe, store, put, Runs, begin, stores,
  published, connected, replayed, received, left, replay, receive,
}
use pushfree.Hub.Connections.Order.{Tidy, replay-Wrote, receive-Wrote}
use pushfree.Hub.Connections.Safety.{Sound, Runs-Sound, the_conn}
use pushfree.Hub.Connections.Queue.{
  pending, Queued, All-each, store-Queued, passed-Queued, offer-Queued,
}
use pushfree.Hub.Connections.Stream.{replay-Queued, receive-Queued}

-- Messages are published in the order in which they were stored, and each replay can be read and is of
-- no more than one page.
abbrev pub Orderly : {s t : World} → Runs s t → Type 0
Orderly begin = Unit
Orderly (stores fails send receipt users r) = Orderly r
Orderly (published before m after split r) = (before ≡ []) × Orderly r
Orderly (connected fails user since r) = Orderly r
Orderly (replayed {t = t} before c after h fails writes split first r) =
    (fails ≡ false) × (length (backlog c.user_id c.since t.db) ≤ 100) × Orderly r
Orderly (received before c after h ok m rest split going taken r) = Orderly r
Orderly (left before c after split r) = Orderly r

abbrev Kept : World → Type 0
Kept t =
    Ascends stored_id t.in_flight × All (Queued (stored t.db) t.in_flight t.db.next_message) t.conns

publish-Kept :
    (all flight : List StoredMessage) (next : ℕ) (m : StoredMessage) (cs : List Conn)
    → All (Queued all (m ∷ flight) next) cs
    → All (Queued all flight next) (publish m.recipient_user_id m cs)
unfolding publish
publish-Kept all flight next m [] h = tt
publish-Kept all flight next m (c ∷ cs) h =
    let rest = publish-Kept all flight next m cs h.1 in
    elim (Bool-cases (c.registered && (c.user_id == m.recipient_user_id))) [
      | inl own ↦ rw own (offer-Queued all flight next m c h.0, rest)
      | inr other ↦ rw other (passed-Queued all flight next m c other h.0, rest)
    ]

store-Kept :
    (fails : Bool) (send : Send) (receipt : Option String) (users : List ℕ) (t : World)
    → Sound t
    → Kept t
    → Kept (store fails send receipt users t)
unfolding store
store-Kept fails send receipt users t (w, flight, conns) (up, queued) =
    let all = stored t.db in
    let next = t.db.next_message in
    let made = ingest fails send receipt users t.db in
    let more = fanout made.0 in
    let after = made.1.next_message in
    let (w', grown, new, le) = ingest-stored fails send receipt users t.db w in
    let below = stored-below t.db w in
    let each : (c : Conn)
        → Tidy all c × Queued all t.in_flight next c
        → Queued (all ++ more) (t.in_flight ++ more) after c =
      λ c both.
        store-Queued all t.in_flight more next after c both.0.0 below flight new le both.1 in
    (
      Ascends-append stored_id next t.in_flight more up new.1
          (All-each (λ m. m.id < next) all t.in_flight below flight) new.0,
      subst (λ l. All (Queued l (t.in_flight ++ more) after) t.conns) (sym grown)
          (All-map each t.conns (All-both t.conns conns queued)),
    )
  where
    All-both :
        (cs : List Conn)
        → All (Tidy (stored t.db)) cs
        → All (Queued (stored t.db) t.in_flight t.db.next_message) cs
        → All (λ c. Tidy (stored t.db) c × Queued (stored t.db) t.in_flight t.db.next_message c) cs
    All-both [] a b = tt
    All-both (c ∷ cs) a b = ((a.0, b.0), All-both cs a.1 b.1)

put-Kept :
    (before : List Conn) (c : Conn) (after : List Conn) (t : World) (made : Conn × Database)
    → t.conns ≡ before ++ c ∷ after
    → Same t.db made.1
    → Queued (stored t.db) t.in_flight t.db.next_message made.0
    → Kept t
    → Kept (put before made after t)
put-Kept before c after t made split same now (up, queued) =
    let all = stored t.db in
    let next = t.db.next_message in
    let P = Queued all t.in_flight next in
    let parts = All-parts P before (c ∷ after) (subst (All P) split queued) in
    let cs = before ++ made.0 ∷ after in
    let h : All P cs = All-append P before (made.0 ∷ after) parts.0 (now, parts.1.1) in
    (
      up,
      subst (λ n. All (Queued (stored made.1) t.in_flight n) cs) (sym same.2)
          (subst (λ l. All (Queued l t.in_flight next) cs) (sym same.1) h),
    )

Runs-Kept : {s t : World} (r : Runs s t) → Orderly r → Sound s → Kept s → Kept t
unfolding leave unsubscribe subscribe
Runs-Kept begin o sound kept = kept
Runs-Kept (stores {t = t} fails send receipt users r) o sound kept =
    store-Kept fails send receipt users t (Runs-Sound r sound) (Runs-Kept r o sound kept)
Runs-Kept (published {t = t} before m after split r) (head, o) sound kept =
    let (up, queued) = Runs-Kept r o sound kept in
    let all = stored t.db in
    let next = t.db.next_message in
    let front : t.in_flight ≡ m ∷ after = split ∙ ap (λ l. l ++ m ∷ after) head in
    let ups = subst (Ascends stored_id) front up in
    let moved =
      publish-Kept all after next m t.conns
        (subst (λ l. All (Queued all l next) t.conns) front queued) in
    let now = publish m.recipient_user_id m t.conns in
    subst (λ l. Ascends stored_id (l ++ after) × All (Queued all (l ++ after) next) now) (sym head)
      (ups.1, moved)
Runs-Kept (connected fails user since r) o sound kept =
    let (up, queued) = Runs-Kept r o sound kept in
    (up, ((inl refl, (λ reg. up), λ going. cc), queued))
Runs-Kept (replayed {t = t} before c after h fails writes split first r) (reads, few, o) sound
      kept =
    let (w, flight, conns) = Runs-Sound r sound in
    let (up, queued) = Runs-Kept r o sound kept in
    let all = stored t.db in
    let tidy = the_conn (Tidy all) before c after t.conns split conns in
    let mine =
      the_conn (Queued all t.in_flight t.db.next_message) before c after t.conns split queued in
    put-Kept before c after t (replay h fails writes c t.db) split
      (replay-Wrote h fails writes c t.db w tidy first).2
      (subst (λ b. Queued all t.in_flight t.db.next_message (replay h b writes c t.db).0)
        (sym reads) (replay-Queued h writes t.in_flight c t.db w tidy flight first few mine))
      (up, queued)
Runs-Kept (received {t = t} before c after h ok m rest split going taken r) o sound kept =
    let (w, flight, conns) = Runs-Sound r sound in
    let (up, queued) = Runs-Kept r o sound kept in
    let all = stored t.db in
    let core = (the_conn (Tidy all) before c after t.conns split conns).0 in
    let mine =
      the_conn (Queued all t.in_flight t.db.next_message) before c after t.conns split queued in
    put-Kept before c after t (receive h ok m rest c t.db) split
      (receive-Wrote h ok m rest c t.db w core going taken).2
      (receive-Queued h ok m rest t.in_flight c t.db w core going taken mine) (up, queued)
Runs-Kept (left {t = t} before c after split r) o sound kept =
    let (w, flight, conns) = Runs-Sound r sound in
    let (up, queued) = Runs-Kept r o sound kept in
    let mine =
      the_conn (Queued (stored t.db) t.in_flight t.db.next_message) before c after t.conns split
        queued in
    put-Kept before c after t (leave c, t.db) split (w, refl, refl) (mine.0, (λ reg. cc), λ e. cc)
      (up, queued)

-- Where messages are published in the order in which they were stored, and each replay can be read and
-- fits into one page: what a stream has written, in the order of writing, and then what its mailbox
-- and the handlers of sends still hold for it, is exactly what is stored for its user behind the id
-- that the client has asked from. No message is lost, and none stands there twice. This is of a
-- stream that has replayed and whose mailbox has not been taken out of the map.
pub Runs-backlog :
    {s t : World} (before : List Conn) (c : Conn) (after : List Conn) (r : Runs s t)
    → Orderly r
    → WellFormed s.db
    → s.in_flight ≡ []
    → s.conns ≡ []
    → t.conns ≡ before ++ c ∷ after
    → c.phase ≡ live
    → c.registered ≡ true
    → backlog c.user_id c.since t.db ≡ reverse c.sent ++ pending c (c.ch ++ t.in_flight)
Runs-backlog {s} {t} before c after r orderly w idle alone split going reg =
    let kept = Runs-Kept r orderly (w, rw idle tt, rw alone tt) (rw idle tt, rw alone tt) in
    let P = Queued (stored t.db) t.in_flight t.db.next_message in
    (the_conn P before c after t.conns split kept.1).2 going reg
