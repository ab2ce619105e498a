-- ===== src/Hub/Connections/Drained.antt =====
-- A stream of server/internal/hub/sse.go that goes on to take what its mailbox holds.
use mathlib.Core.List.{reverse}
use pushfree.Common.{
  Bool, true, List, [], ◌∷◌, ◌++◌, ◌≡◌, ◌∙◌, refl, ap, sym, Bool-cases, inl, inr, leb, append-nil,
  keep,
}
use pushfree.Hub.{StoredMessage, Database}
use pushfree.Hub.Stored.{WellFormed, stored, wanted, backlog}
use pushfree.Hub.Connections.{live, Conn, World, Hook, Runs, received, receive, write, put}
use pushfree.Hub.Connections.Order.{Tidy, receive-Wrote}
use pushfree.Hub.Connections.Safety.{Sound, Runs-Sound, the_conn}
use pushfree.Hub.Connections.Queue.{pending}
use pushfree.Hub.Connections.Whole.{Orderly, Runs-backlog}

-- A message that is taken, and written where it is new, leaves the stream as it was otherwise.
receive-fields :
    (h : Hook) (m : StoredMessage) (rest : List StoredMessage) (c : Conn) (db : Database)
    → let d = (receive h true m rest c db).0 in
      (d.ch ≡ rest)
      × (d.phase ≡ c.phase)
      × (d.registered ≡ c.registered)
      × (d.user_id ≡ c.user_id)
      × (d.since ≡ c.since)
unfolding receive write
receive-fields h m rest c db = elim (Bool-cases (leb m.id c.last_sent)) [
  | inl old ↦ rw old (refl, refl, refl, refl, refl)
  | inr new ↦ rw new (refl, refl, refl, refl, refl)
]

-- What comes of a run whose every step is that the stream between `before` and `after` takes a message
-- from its mailbox.
pub data Takes (before after : List Conn) (s : World) : World → Type 0 where
  stop : Takes before after s s
  takes :
      {t : World} (c : Conn) (h : Hook) (ok : Bool) (m : StoredMessage) (rest : List StoredMessage)
      → t.conns ≡ before ++ c ∷ after
      → c.phase ≡ live
      → c.ch ≡ m ∷ rest
      → Takes before after s t
      → Takes before after s (put before (receive h ok m rest c t.db) after t)

-- A run that goes on to where a stream has an empty mailbox.
abbrev Empties :
    (s m : World) {t : World}
    → Runs s t
    → (before : List Conn) → Conn
    → (after : List Conn) → Type 0
Empties s m {t} r before c after =
    (u : World) × (d : Conn) × (more : Runs s u) × Takes before after m u
    × (Orderly r → Orderly more)
    × (u.conns ≡ before ++ d ∷ after)
    × (d.ch ≡ [])
    × (d.phase ≡ live)
    × (d.registered ≡ c.registered)
    × (d.user_id ≡ c.user_id)
    × (d.since ≡ c.since)
    × (u.in_flight ≡ t.in_flight)
    × (stored u.db ≡ stored t.db)

drain :
    (h : Hook) (box : List StoredMessage) {s m t : World} (r : Runs s t) (before : List Conn)
    (c : Conn) (after : List Conn)
    → Takes before after m t
    → Sound s
    → t.conns ≡ before ++ c ∷ after
    → c.phase ≡ live
    → c.ch ≡ box
    → Empties s m r before c after
drain h [] {s} {t = t} r before c after so_far sound split going held =
    (t, c, r, so_far, (λ o. o), split, held, going, refl, refl, refl, refl, refl)
drain h (m ∷ rest) {s} {t = t} r before c after so_far sound split going held =
    let (w, flight, conns) = Runs-Sound r sound in
    let core = (the_conn (Tidy (stored t.db)) before c after t.conns split conns).0 in
    let (ch, phase, reg, user, since) = receive-fields h m rest c t.db in
    let now = (receive h true m rest c t.db).0 in
    let same = (receive-Wrote h true m rest c t.db w core going held).2 in
    let (u, d, more, all_takes, orderly, split', empty, going', reg', user', since', flight', all) =
      drain h rest (received before c after h true m rest split going held r) before now after
        (takes c h true m rest split going held so_far) sound refl (phase ∙ going) ch in
    (
      u,
      d,
      more,
      all_takes,
      orderly,
      split',
      empty,
      going',
      reg' ∙ reg,
      user' ∙ user,
      since' ∙ since,
      flight',
      all ∙ same.1,
    )

nothing_left :
    (c d : Conn) (all now flight : List StoredMessage)
    → d.ch ≡ []
    → flight ≡ []
    → d.user_id ≡ c.user_id
    → d.since ≡ c.since
    → now ≡ all
    → keep (wanted d.user_id d.since) now ≡ reverse d.sent ++ pending d (d.ch ++ flight)
    → reverse d.sent ≡ keep (wanted c.user_id c.since) all
nothing_left c d all now flight empty out user since same whole =
    let none_pending : pending d (d.ch ++ flight) ≡ [] =
      ap (λ l. pending d (l ++ flight)) empty ∙ ap (pending d) out in
    sym (
      sym (
        ap (λ n. keep (wanted n d.since) now) user
        ∙ ap (λ n. keep (wanted c.user_id n) now) since
        ∙ ap (keep (wanted c.user_id c.since)) same)
      ∙ whole
      ∙ ap (λ l. reverse d.sent ++ l) none_pending
      ∙ append-nil (reverse d.sent))

-- A stream that misses nothing, once everything that is stored has been published, can take what its
-- mailbox holds until nothing is left: from the world that the run has come to, steps in which the
-- stream takes a message from its mailbox, and no other steps, lead to a world in which the stream has
-- written, in the order of their ids, exactly the messages that are stored there for its user behind the
-- id that the client has asked from, and the messages that are stored are those from before.
pub Runs-drained :
    {s t : World} (h : Hook) (before : List Conn) (c : Conn) (after : List Conn) (r : Runs s t)
    → Orderly r
    → WellFormed s.db
    → s.in_flight ≡ []
    → s.conns ≡ []
    → t.conns ≡ before ++ c ∷ after
    → c.phase ≡ live
    → c.registered ≡ true
    → t.in_flight ≡ []
    → (u : World) × (d : Conn) × Takes before after t u
      × (u.conns ≡ before ++ d ∷ after)
      × (d.ch ≡ [])
      × (d.phase ≡ live)
      × (reverse d.sent ≡ backlog c.user_id c.since t.db)
      × (stored u.db ≡ stored t.db)
Runs-drained {s} {t} h before c after r orderly w idle alone split going reg out =
    let sound : Sound s = (w, rw idle tt, rw alone tt) in
    let (u, d, more, all_takes, keeps, split', empty, going', reg', user, since, flight, all) =
      drain h c.ch r before c after stop sound split going refl in
    let whole =
      Runs-backlog before d after more (keeps orderly) w idle alone split' going' (reg' ∙ reg) in
    (
      u,
      d,
      all_takes,
      split',
      empty,
      going',
      nothing_left c d (stored t.db) (stored u.db) u.in_flight empty (flight ∙ out) user since all
          whole,
      all,
    )
