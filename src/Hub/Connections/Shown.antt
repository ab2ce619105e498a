-- ===== src/Hub/Connections/Shown.antt =====
-- web/app/dashboard/messages/page.tsx behind the stream of server/internal/hub/sse.go: what the log of
-- the page shows of what is stored.
use mathlib.Core.List.{reverse, reverse-cons}
use pushfree.Common.{
  ℕ, String, Bool, true, false, ◌≢◌, ◌==◌, get_or, Bool-cases, inl, inr, arith, Option, none, some,
  List, [], ◌∷◌, ◌++◌, ◌≡◌, ◌∙◌, refl, ap, sym, append_assoc, append-nil, map, take, if◌then◌else◌,
}
use pushfree.Text.{truthy}
use pushfree.Messages.{State, LiveMessage}
use pushfree.Messages.Feed.{newest_first, run_frames, events-run_frames}
use pushfree.Hub.{StoredMessage}
use pushfree.Hub.Stored.{WellFormed, backlog}
use pushfree.Hub.Connections.{live, Conn, World, Runs}
use pushfree.Hub.Connections.Whole.{Orderly, Runs-backlog}

-- `omitempty`
unfoldable pub if_any : String → Option String
if_any s = if truthy s then some s else none

if_set : Bool → Option Bool
if_set b = if b then some true else none

if_nonzero : ℕ → Option ℕ
if_nonzero n = if n == 0 then none else some n

-- The fields of a message's frame that the page names.
unfoldable pub marshal_message : StoredMessage → LiveMessage
unfolding if_any if_set if_nonzero
marshal_message m = record {
  id = m.id;
  send_id = some m.send_id;
  title = if_any m.title;
  message = m.body;
  priority = m.priority;
  timestamp = m.timestamp;
  sound = if_any m.sound;
  url = if_any m.url;
  url_title = if_any m.url_title;
  html = if_set m.html;
  monospace = if_set m.monospace;
  ttl = if_nonzero m.ttl;
  tag = if_any m.tag;
  encrypted = if_set m.encrypted;
}

-- The field has the value, and is absent where the value is the type's zero.
abbrev pub Field {ℓ} : {A : Type ℓ} → A → Option A → A → Type ℓ
Field zero_value field value = (get_or field zero_value ≡ value) × (field ≢ some zero_value)

-- The frame has the fields of the stored message.
abbrev pub ShownAs : StoredMessage → LiveMessage → Type 0
ShownAs m v =
    (v.id ≡ m.id)
    × (v.send_id ≡ some m.send_id)
    × Field "" v.title m.title
    × (v.message ≡ m.body)
    × (v.priority ≡ m.priority)
    × (v.timestamp ≡ m.timestamp)
    × Field "" v.sound m.sound
    × Field "" v.url m.url
    × Field "" v.url_title m.url_title
    × Field false v.html m.html
    × Field false v.monospace m.monospace
    × Field 0 v.ttl m.ttl
    × Field "" v.tag m.tag
    × Field false v.encrypted m.encrypted

if_any-Field : (s : String) → Field "" (if_any s) s
unfolding if_any
if_any-Field String.[] = (refl, λ e. cc e)
if_any-Field (String.◌∷◌ c s) = (refl, λ e. cc (ap (λ o. truthy (get_or o "")) e))

if_set-Field : (b : Bool) → Field false (if_set b) b
unfolding if_set
if_set-Field true = (refl, λ e. cc e)
if_set-Field false = (refl, λ e. cc e)

if_nonzero-Field : (n : ℕ) → Field 0 (if_nonzero n) n
unfolding if_nonzero
if_nonzero-Field n = elim (Bool-cases (n == 0)) [
  | inl none_left ↦ rw none_left (ground (arith, none_left), λ e. cc e)
  | inr some_left ↦ rw some_left (refl, λ e. ground (arith, some_left, ap (λ o. get_or o 1) e))
]

marshal_message-ShownAs : (m : StoredMessage) → ShownAs m (marshal_message m)
unfolding marshal_message
marshal_message-ShownAs m = (
  refl,
  refl,
  if_any-Field m.title,
  refl,
  refl,
  refl,
  if_any-Field m.sound,
  if_any-Field m.url,
  if_any-Field m.url_title,
  if_set-Field m.html,
  if_set-Field m.monospace,
  if_nonzero-Field m.ttl,
  if_any-Field m.tag,
  if_set-Field m.encrypted,
)

-- The frames of a stream in the order of writing, as the page's listener reads them.
abbrev pub frames : List StoredMessage → List (Option LiveMessage)
frames ms = map (λ m. some (marshal_message m)) ms

newest_first-frames :
    (ms : List StoredMessage) (log : List LiveMessage)
    → newest_first (frames ms) log ≡ reverse (map marshal_message ms) ++ log
newest_first-frames [] log = refl
newest_first-frames (m ∷ ms) log =
    newest_first-frames ms (marshal_message m ∷ log)
    ∙ sym (
        ap (λ l. l ++ log) (reverse-cons (marshal_message m) (map marshal_message ms))
        ∙ append_assoc (reverse (map marshal_message ms)) (marshal_message m ∷ []) log)

-- The page that has an empty log and reads a stream that misses nothing, once everything that is stored
-- has been published and the stream's mailbox is empty: its log shows the two hundred newest of the
-- messages that are stored for the user behind the id that the stream began at, newest first, by their
-- frames, and a frame has the fields of the message: its id, send, title, text, priority, time, sound,
-- link, style, time to live, tag and encryption, a field being absent where its value is empty.
pub run_frames-backlog :
    {s t : World} (before : List Conn) (c : Conn) (after : List Conn) (r : Runs s t)
    (api_base : String) (source : ℕ) (view : State)
    → Orderly r
    → WellFormed s.db
    → s.in_flight ≡ []
    → s.conns ≡ []
    → t.conns ≡ before ++ c ∷ after
    → c.phase ≡ live
    → c.registered ≡ true
    → c.ch ≡ []
    → t.in_flight ≡ []
    → view.events ≡ []
    → ((run_frames api_base source (frames (reverse c.sent)) view).events
        ≡ take 200 (reverse (map marshal_message (backlog c.user_id c.since t.db))))
      × ((m : StoredMessage) → ShownAs m (marshal_message m))
run_frames-backlog {t = t} before c after r base i view orderly w idle alone split going reg taken
      out blank =
    let all = Runs-backlog before c after r orderly w idle alone split going reg in
    let line = backlog c.user_id c.since t.db in
    let whole : line ≡ reverse c.sent = rw (taken, out, append-nil (reverse c.sent)) at all in
    (
      events-run_frames base i (frames (reverse c.sent)) [] view blank
          ∙ ap (take 200) (
              newest_first-frames (reverse c.sent) []
              ∙ append-nil (reverse (map marshal_message (reverse c.sent)))
              ∙ ap (λ l. reverse (map marshal_message l)) (sym whole)),
      marshal_message-ShownAs,
    )
