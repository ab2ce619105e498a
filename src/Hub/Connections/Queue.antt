-- ===== src/Hub/Connections/Queue.antt =====
-- One stream of server/internal/hub that misses nothing: what it has written, and what its mailbox and
-- the handlers of sends still hold for it, are the messages that are stored for it.
use mathlib.Core.List.{reverse}
use pushfree.Common.{
  ℕ, ◌<◌, ◌≤◌, Bool, true, false, List, [], ◌∷◌, ◌++◌, ◌≡◌, ◌∙◌, ◌⊎◌, ap, sym, subst, arith,
  Bool-cases, inl, inr, append_assoc, All, All-append, All-map, All-parts, Among, Ascends,
  Ascends-append, keep, keep-append, keep-eq, ltb, length, ◌==◌, ◌&&◌,
}
use pushfree.Hub.{StoredMessage}
use pushfree.Hub.Stored.{stored_id, wanted}
use pushfree.Hub.Writes.{New}
use pushfree.Hub.Connections.{live, Conn, offer, unsubscribe, inbox_cap}
use pushfree.Hub.Connections.Order.{Core}

-- What is still to come for a stream, of a list of messages.
abbrev pub pending : Conn → List StoredMessage → List StoredMessage
pending c ms = keep (wanted c.user_id c.last_sent) ms

abbrev pub Whole : List StoredMessage → List StoredMessage → Conn → Type 0
Whole all flight c =
    c.phase ≡ live
    → c.registered ≡ true
    → keep (wanted c.user_id c.since) all ≡ reverse c.sent ++ pending c (c.ch ++ flight)

-- The last id that was written, if one was, has been given out.
abbrev pub Level : ℕ → Conn → Type 0
Level next c = (c.last_sent ≡ c.since) ⊎ (c.last_sent < next)

abbrev pub InOrder : List StoredMessage → Conn → Type 0
InOrder flight c = c.registered ≡ true → Ascends stored_id (c.ch ++ flight)

abbrev pub Queued : (all flight : List StoredMessage) (next : ℕ) → Conn → Type 0
Queued all flight next c = Level next c × InOrder flight c × Whole all flight c

pub All-at : {A : Type 0} (P : A → Type 0) (x : A) (xs : List A) → All P xs → Among x xs → P x
All-at P x xs h (before, after, split) =
    (All-parts P before (x ∷ after) (subst (All P) split h)).1.0

pub All-each :
    {A : Type 0} (P : A → Type 0) (all xs : List A)
    → All P all
    → All (λ x. Among x all) xs
    → All P xs
All-each P all xs h among = All-map (λ x a. All-at P x all h a) xs among

-- Storing more messages, which the handler still holds.
pub store-Queued :
    (all flight more : List StoredMessage) (next after : ℕ) (c : Conn)
    → Core all c
    → All (λ m. m.id < next) all
    → All (λ m. Among m all) flight
    → New next more
    → next ≤ after
    → Queued all flight next c
    → Queued (all ++ more) (flight ++ more) after c
store-Queued all flight more next after c core below held (from, up) le (level, order, whole) =
    let user = c.user_id in
    let boxes = All-map (λ m h. h.0) c.ch core.0 in
    let low =
      All-append (λ m. m.id < next) c.ch flight (All-each (λ m. m.id < next) all c.ch below boxes)
        (All-each (λ m. m.id < next) all flight below held) in
    let same : keep (wanted user c.since) more ≡ keep (wanted user c.last_sent) more = elim level [
      | inl start ↦ rw start
      | inr given ↦
          keep-eq (wanted user c.since) (wanted user c.last_sent) more
            (All-map (λ m h. ground (arith, core.3, given, h)) more from)
    ] in
    (
      (elim level [ inl start ↦ inl start | inr given ↦ inr (omega arith) ]),
      (λ reg.
          subst (Ascends stored_id) (append_assoc c.ch flight more)
            (Ascends-append stored_id next (c.ch ++ flight) more (order reg) up low from)),
      λ going reg.
          keep-append (wanted user c.since) all more
          ∙ ap (λ l. l ++ keep (wanted user c.since) more) (whole going reg)
          ∙ append_assoc (reverse c.sent) (pending c (c.ch ++ flight))
              (keep (wanted user c.since) more)
          ∙ ap (λ l. reverse c.sent ++ (pending c (c.ch ++ flight) ++ l)) same
          ∙ ap (λ l. reverse c.sent ++ l)
              (sym (keep-append (wanted user c.last_sent) (c.ch ++ flight) more)
                ∙ ap (pending c) (append_assoc c.ch flight more)),
    )

-- The oldest message that a handler holds is published.
drop-Ascends :
    (xs : List StoredMessage) (m : StoredMessage) (ys : List StoredMessage)
    → Ascends stored_id (xs ++ m ∷ ys)
    → Ascends stored_id (xs ++ ys)
drop-Ascends [] m ys h = h.1
drop-Ascends (x ∷ xs) m ys h =
    let parts = All-parts (λ y. x.id < y.id) xs (m ∷ ys) h.0 in
    (All-append (λ y. x.id < y.id) xs ys parts.0 parts.1.1, drop-Ascends xs m ys h.1)

keep-drop :
    (p : StoredMessage → Bool) (xs : List StoredMessage) (m : StoredMessage)
    (ys : List StoredMessage)
    → p m ≡ false
    → keep p (xs ++ m ∷ ys) ≡ keep p (xs ++ ys)
keep-drop p xs m ys h = keep-append p xs (m ∷ ys) ∙ (rw h (sym (keep-append p xs ys)))

pub passed-Queued :
    (all flight : List StoredMessage) (next : ℕ) (m : StoredMessage) (c : Conn)
    → (c.registered && (c.user_id == m.recipient_user_id)) ≡ false
    → Queued all (m ∷ flight) next c
    → Queued all flight next c
passed-Queued all flight next m c other (level, order, whole) =
    let out : c.registered ≡ true → wanted c.user_id c.last_sent m ≡ false =
      λ reg. ground (arith, other, reg) in
    (
      level,
      (λ reg. drop-Ascends c.ch m flight (order reg)),
      λ going reg.
          whole going reg
          ∙ ap (λ l. reverse c.sent ++ l)
              (keep-drop (wanted c.user_id c.last_sent) c.ch m flight (out reg)),
    )

pub offer-Queued :
    (all flight : List StoredMessage) (next : ℕ) (m : StoredMessage) (c : Conn)
    → Queued all (m ∷ flight) next c
    → Queued all flight next (offer m c)
unfolding offer unsubscribe
offer-Queued all flight next m c (level, order, whole) =
    elim (Bool-cases (ltb (length c.ch) inbox_cap)) [
      | inr full ↦ rw full (level, (λ reg. cc), λ going reg. cc)
      | inl space ↦
          let moved = append_assoc c.ch (m ∷ []) flight in
          rw space (
            level,
            (λ reg. subst (Ascends stored_id) (sym moved) (order reg)),
            λ going reg. whole going reg ∙ ap (λ l. reverse c.sent ++ pending c l) (sym moved),
          )
    ]
