-- ===== src/Hub/Connections/Safety.antt =====
-- Any run of the hub (server/internal/hub) from its start: what its streams write.
use pushfree.Common.{
  ℕ, ◌<◌, Bool, Option, List, [], ◌∷◌, ◌++◌, ◌≡◌, refl, sym, subst, arith, String, Bool-cases, inl,
  inr, All, All-append, All-map, All-parts, Among, ◌==◌, ◌&&◌,
}
use pushfree.Hub.{Send, StoredMessage, Database, ingest, fanout}
use pushfree.Hub.Stored.{WellFormed, stored}
use pushfree.Hub.Writes.{ingest-stored}
use pushfree.Hub.Marked.{Same}
use pushfree.Hub.Connections.{
  Conn, World, publish, subscribe, leave, unsubscribe, store, put, Runs, begin, stores, published,
  connected, replayed, received, left, replay, receive,
}
use pushfree.Hub.Connections.Order.{
  Descends, Tidy, Among-more, All-Among, Core-more, offer-Tidy, replay-Wrote, receive-Wrote,
}

abbrev pub Sound : World → Type 0
Sound t =
    WellFormed t.db
    × All (λ m. Among m (stored t.db)) t.in_flight
    × All (Tidy (stored t.db)) t.conns

publish-Tidy :
    (all : List StoredMessage) (m : StoredMessage) (cs : List Conn)
    → Among m all
    → All (Tidy all) cs
    → All (Tidy all) (publish m.recipient_user_id m cs)
unfolding publish
publish-Tidy all m [] here h = tt
publish-Tidy all m (c ∷ cs) here h =
    let rest = publish-Tidy all m cs here h.1 in
    elim (Bool-cases (c.registered && (c.user_id == m.recipient_user_id))) [
      | inr other ↦ rw other (h.0, rest)
      | inl own ↦
          let same : m.recipient_user_id ≡ c.user_id = ground (arith, own) in
          rw own (offer-Tidy all m c (here, same) h.0, rest)
    ]

-- One stream and the tables have changed, and the messages are the same.
put-Sound :
    (before : List Conn) (c : Conn) (after : List Conn) (t : World) (made : Conn × Database)
    → t.conns ≡ before ++ c ∷ after
    → Sound t
    → Tidy (stored t.db) made.0
    → Same t.db made.1
    → Sound (put before made after t)
put-Sound before c after t made split (w, flight, conns) tidy same =
    let all = stored t.db in
    let parts = All-parts (Tidy all) before (c ∷ after) (subst (All (Tidy all)) split conns) in
    let now = All-append (Tidy all) before (made.0 ∷ after) parts.0 (tidy, parts.1.1) in
    (
      same.0,
      subst (λ l. All (λ m. Among m l) t.in_flight) (sym same.1) flight,
      subst (λ l. All (Tidy l) (before ++ made.0 ∷ after)) (sym same.1) now,
    )

pub the_conn :
    (P : Conn → Type 0) (before : List Conn) (c : Conn) (after : List Conn) (cs : List Conn)
    → cs ≡ before ++ c ∷ after
    → All P cs
    → P c
the_conn P before c after cs split h = (All-parts P before (c ∷ after) (subst (All P) split h)).1.0

store-Sound :
    (fails : Bool) (send : Send) (receipt : Option String) (users : List ℕ) (t : World)
    → Sound t
    → Sound (store fails send receipt users t)
unfolding store
store-Sound fails send receipt users t (w, flight, conns) =
    let all = stored t.db in
    let made = ingest fails send receipt users t.db in
    let more = fanout made.0 in
    let (w', grown, new, le) = ingest-stored fails send receipt users t.db w in
    (
      w',
      subst (λ l. All (λ m. Among m l) (t.in_flight ++ more)) (sym grown)
          (All-append (λ m. Among m (all ++ more)) t.in_flight more
            (All-map (λ m h. Among-more m all more h) t.in_flight flight) (All-Among all more)),
      subst (λ l. All (Tidy l) t.conns) (sym grown)
          (All-map (λ c h. (Core-more all more c h.0, h.1)) t.conns conns),
    )

pub Runs-Sound : {s t : World} → Runs s t → Sound s → Sound t
unfolding leave unsubscribe subscribe
Runs-Sound begin sound = sound
Runs-Sound (stores {t = t} fails send receipt users r) sound =
    store-Sound fails send receipt users t (Runs-Sound r sound)
Runs-Sound (published {t = t} before m after split r) sound =
    let (w, flight, conns) = Runs-Sound r sound in
    let here : StoredMessage → Type 0 = λ x. Among x (stored t.db) in
    let parts = All-parts here before (m ∷ after) (subst (All here) split flight) in
    (
      w,
      All-append here before after parts.0 parts.1.1,
      publish-Tidy (stored t.db) m t.conns parts.1.0 conns,
    )
Runs-Sound (connected fails user since r) sound =
    let (w, flight, conns) = Runs-Sound r sound in
    (w, flight, (((tt, tt, tt, omega arith), λ _. (refl, refl)), conns))
Runs-Sound (replayed {t = t} before c after h fails writes split first r) sound =
    let before_it = Runs-Sound r sound in
    let tidy = the_conn (Tidy (stored t.db)) before c after t.conns split before_it.2 in
    let wrote = replay-Wrote h fails writes c t.db before_it.0 tidy first in
    put-Sound before c after t (replay h fails writes c t.db) split before_it
      (wrote.0, λ e. absurd (wrote.1 e)) wrote.2
Runs-Sound (received {t = t} before c after h ok m rest split going taken r) sound =
    let before_it = Runs-Sound r sound in
    let tidy = the_conn (Tidy (stored t.db)) before c after t.conns split before_it.2 in
    let wrote = receive-Wrote h ok m rest c t.db before_it.0 tidy.0 going taken in
    put-Sound before c after t (receive h ok m rest c t.db) split before_it
      (wrote.0, λ e. absurd (wrote.1 e)) wrote.2
Runs-Sound (left {t = t} before c after split r) sound =
    let before_it = Runs-Sound r sound in
    let tidy = the_conn (Tidy (stored t.db)) before c after t.conns split before_it.2 in
    put-Sound before c after t (leave c, t.db) split before_it (tidy.0, λ e. cc)
      (before_it.0, refl, refl)

-- From a start without streams, whatever is stored, published in any order, received and lost: each
-- stream has written messages of its own user only, all of them stored and behind the id that the
-- client has asked from, and in the order of their ids, so that no message is written twice.
pub Runs-sent :
    {s t : World} (before : List Conn) (c : Conn) (after : List Conn)
    → Runs s t
    → WellFormed s.db
    → s.in_flight ≡ []
    → s.conns ≡ []
    → t.conns ≡ before ++ c ∷ after
    → Descends c.sent
      × All
          (λ m. Among m (stored t.db) × (m.recipient_user_id ≡ c.user_id) × (c.since < m.id))
          c.sent
Runs-sent {s} {t} before c after r w idle alone split =
    let none_yet : Sound s = (w, rw idle tt, rw alone tt) in
    let tidy =
      the_conn (Tidy (stored t.db)) before c after t.conns split (Runs-Sound r none_yet).2 in
    (tidy.0.2, All-map (λ m h. (h.0, h.1, h.2)) c.sent tidy.0.1)
