-- ===== src/Messages/View.antt =====
-- The markup of web/app/dashboard/messages/page.tsx: what it shows of the state. A time is shown in
-- the locale of the browser, so it is its epoch here.
pub mod Laws
use pushfree.Common.{
  ℕ, zero, suc, String, Bool, Option, none, some, List, map, ℤ, pos, negsuc, if◌then◌else◌, leb,
  ◌==◌, get_or,
}
use pushfree.Text.{truthy, slice}
use pushfree.Messages.{
  State, ConnState, idle, connecting, open_conn, error_conn, LiveMessage, can_connect,
}

-- `PRIORITY_LABEL[p] ?? `p${p}``
pub data PriorityLabel : Type 0 where
  named : String → PriorityLabel
  numbered : ℤ → PriorityLabel

unfoldable pub priority_label : ℤ → PriorityLabel
priority_label (negsuc zero) = named "low"
priority_label (negsuc (suc zero)) = named "lowest"
priority_label (negsuc (suc (suc n))) = numbered (negsuc (suc (suc n)))
priority_label (pos zero) = named "normal"
priority_label (pos (suc zero)) = named "high"
priority_label (pos (suc (suc zero))) = named "emergency"
priority_label (pos (suc (suc (suc n)))) = numbered (pos (suc (suc (suc n))))

unfoldable pub priority_class : ℤ → String
priority_class (negsuc n) = "badge"
priority_class (pos n) =
    if leb 2 n then "badge danger" else if n == 1 then "badge warn" else "badge"

-- `a || b` for texts
unfoldable pub or_text : String → String → String
or_text a b = if truthy a then a else b

unfoldable pub heading : LiveMessage → String
unfolding or_text slice
heading m = or_text (get_or m.title "") (or_text (slice 60 m.message) "(no body)")

-- The text of the link: `m.url_title || m.url`, where there is a link.
unfoldable pub link_text : LiveMessage → Option String
unfolding or_text
link_text m =
    if truthy (get_or m.url "")
    then some (or_text (get_or m.url_title "") (get_or m.url ""))
    else none

unfoldable pub state_label : ConnState → String
state_label idle = "disconnected"
state_label connecting = "connecting…"
state_label open_conn = "live"
state_label error_conn = "reconnecting…"

unfoldable pub state_class : ConnState → String
state_class idle = "dot"
state_class connecting = "dot connecting"
state_class open_conn = "dot open"
state_class error_conn = "dot error"

pub record Row : Type 0 where
  pub heading_text : String
  pub badge : String
  pub label : PriorityLabel
  pub body : Option String
  pub id : ℕ
  pub send : Option ℕ
  pub tag : Option String
  pub time : Option ℕ
  pub link : Option String

-- `m.send_id ? … : null` and `unix ? … : ''`
unfoldable pub if_not_zero : Option ℕ → Option ℕ
if_not_zero none = none
if_not_zero (some n) = if n == 0 then none else some n

-- `m.tag ? … : null`
unfoldable pub if_not_empty : Option String → Option String
if_not_empty none = none
if_not_empty (some t) = if truthy t then some t else none

unfoldable pub row : LiveMessage → Row
unfolding heading priority_class priority_label link_text if_not_zero if_not_empty
row m = record {
  heading_text = heading m;
  badge = priority_class m.priority;
  label = priority_label m.priority;
  body = if truthy (get_or m.title "") then some m.message else none;
  id = m.id;
  send = if_not_zero m.send_id;
  tag = if_not_empty m.tag;
  time = if_not_zero (some m.timestamp);
  link = link_text m;
}

pub record View : Type 0 where
  pub register_label : String
  pub register_disabled : Bool
  pub error : Option String
  pub dot : String
  pub label : String
  pub button : String
  pub log : List Row

unfoldable pub render : State → View
unfolding state_label state_class row
render s = record {
  register_label = if s.busy then "Registering…" else "Register viewer device";
  register_disabled = s.busy;
  error = s.error;
  dot = state_class s.conn;
  label = state_label s.conn;
  button = if can_connect s.conn then "Connect" else "Disconnect";
  log = map row s.events;
}
