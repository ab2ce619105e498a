-- ===== src/Messages.antt =====
-- web/app/dashboard/messages/page.tsx: the live log over server-sent events. The browser's
-- `EventSource` objects are a heap of sources; `es_ref` holds the page's current one.
pub mod Sources
pub mod Feed
pub mod Register
pub mod View
use pushfree.Common.{
  ℕ, suc, String, Bool, true, false, not, Option, none, some, List, [], ◌∷◌, ◌≡◌, ◌⊎◌, ◌==◌, ◌&&◌,
  if◌then◌else◌, ℤ, take, is_number, any,
}
use pushfree.Text.{truthy, append}
use pushfree.Api.{Outcome, rejected, settled}
use pushfree.Api.Urls.{sse_path}
use pushfree.Wire.{DeviceLoginResponse, first_error}
use pushfree.Machine.{Machine}

pub record LiveMessage : Type 0 where
  pub id : ℕ
  pub send_id : Option ℕ
  pub title : Option String
  pub message : String
  pub priority : ℤ
  pub timestamp : ℕ
  pub sound : Option String
  pub url : Option String
  pub url_title : Option String
  pub html : Option Bool
  pub monospace : Option Bool
  pub ttl : Option ℕ
  pub tag : Option String
  pub encrypted : Option Bool

pub data ConnState : Type 0 where
  idle connecting open_conn error_conn : ConnState

-- A source with its number in the heap.
pub record Source : Type 0 where
  pub id : ℕ
  pub url : String
  pub closed : Bool

pub record State : Type 0 where
  pub device_id : String
  pub secret : String
  pub conn : ConnState
  pub events : List LiveMessage
  pub error : Option String
  pub busy : Bool
  pub es_ref : Option ℕ
  pub sources : List Source
  pub next_id : ℕ
  pub mounted : Bool

-- What the user does, and what the browser reports of a source. A frame is `none` where its data is
-- no JSON.
pub data Input : Type 0 where
  set_device_id set_secret : String → Input
  register connect disconnect unmount : Input
  opened errored : (source : ℕ) → Input
  frame : (source : ℕ) → Option LiveMessage → Input

pub data Call : Type 0 where
  login : Call

-- A closed source reports nothing (HTML standard, EventSource.close).
abbrev pub is_live : ℕ → Source → Bool
is_live i x = (x.id == i) && not x.closed

abbrev pub Reports : ℕ → State → Type 0
Reports i s = any (is_live i) s.sources ≡ true

-- Which of the two buttons of the connection is rendered.
abbrev pub can_connect : ConnState → Bool
can_connect idle = true
can_connect error_conn = true
can_connect _ = false

abbrev pub Enabled : Input → State → Type 0
Enabled (set_device_id t) s = s.mounted ≡ true
Enabled (set_secret t) s = s.mounted ≡ true
Enabled register s = (s.mounted ≡ true) × (s.busy ≡ false)
Enabled connect s = (s.mounted ≡ true) × (can_connect s.conn ≡ true)
Enabled disconnect s = (s.mounted ≡ true) × (can_connect s.conn ≡ false)
Enabled unmount s = s.mounted ≡ true
Enabled (opened i) s = Reports i s
Enabled (errored i) s = Reports i s
Enabled (frame i m) s = Reports i s

-- `es.close()`
unfoldable pub close : ℕ → List Source → List Source
close i [] = []
close i (x ∷ xs) = (if x.id == i then record x { closed = true } else x) ∷ close i xs

-- `esRef.current?.close(); esRef.current = null`
close_current : Option ℕ → State → State
unfolding close
close_current none s = record s { es_ref = none }
close_current (some i) s = record s { es_ref = none; sources = close i s.sources }

unfoldable pub hang_up : State → State
unfolding close_current
hang_up s = close_current s.es_ref s

unfoldable pub handle_disconnect : State → State
unfolding hang_up
handle_disconnect s = record (hang_up s) { conn = idle }

-- `new EventSource(url)`, which the page keeps.
unfoldable pub new_source : String → State → State
new_source url s = record s {
  es_ref = some s.next_id;
  sources = record { id = s.next_id; url = url; closed = false } ∷ s.sources;
  next_id = suc s.next_id;
}

unfoldable pub handle_connect : String → State → State
unfolding handle_disconnect new_source
handle_connect api_base s =
    if truthy s.device_id && truthy s.secret
    then new_source (append api_base (sse_path s.device_id s.secret))
        (record (handle_disconnect s) { error = none; conn = connecting })
    else record s {
      error = some "Device ID and secret are required. Register a viewer device or paste your own.";
    }

-- `[m, ...prev].slice(0, 200)`, or nothing for a malformed frame.
unfoldable pub receive : Option LiveMessage → List LiveMessage → List LiveMessage
receive none prev = prev
receive (some m) prev = take 200 (m ∷ prev)

credentials : Option DeviceLoginResponse → Option (String × String)
credentials none = none
credentials (some body) = elim body.device_id [
  | none ↦ none
  | some d ↦ elim body.secret [
    | none ↦ none
    | some k ↦ if truthy d && truthy k then some (d, k) else none
  ]
]

register_error : Option DeviceLoginResponse → String
register_error none = "Could not register a viewer device."
register_error (some body) = first_error body.errors "Could not register a viewer device."

accepts : ℕ → Option DeviceLoginResponse → Bool
accepts status none = false
accepts status (some body) = (status == 200) && is_number body.status 1

registered : Option (String × String) → String → State → State
registered none message s = record s { error = some message }
registered (some (d, k)) message s = record s { device_id = d; secret = k }

-- There is no `catch` here either.
unfoldable pub resume_login : Outcome DeviceLoginResponse → State → State
unfolding credentials register_error accepts registered
resume_login rejected s = s
resume_login (settled status body) s =
    registered (if accepts status body then credentials body else none) (register_error body)
      (record s { busy = false })

module _ (api_base : String) where
  unfoldable pub handle : Input → State → State × List Call
  unfolding handle_connect handle_disconnect hang_up receive
  handle (set_device_id t) s = (record s { device_id = t }, [])
  handle (set_secret t) s = (record s { secret = t }, [])
  handle register s = (record s { busy = true; error = none }, login ∷ [])
  handle connect s = (handle_connect api_base s, [])
  handle disconnect s = (handle_disconnect s, [])
  handle unmount s = (record (hang_up s) { mounted = false }, [])
  handle (opened i) s = (record s { conn = open_conn }, [])
  handle (errored i) s = (record s { conn = error_conn }, [])
  handle (frame i m) s = (record s { events = receive m s.events }, [])

abbrev pub mounted_page : State
mounted_page = record {
  device_id = "";
  secret = "";
  conn = idle;
  events = [];
  error = none;
  busy = false;
  es_ref = none;
  sources = [];
  next_id = 0;
  mounted = true;
}

abbrev pub page : String → Machine
page api_base = record {
  State = State;
  Input = Input;
  Call = Call;
  Answer = λ c. Outcome DeviceLoginResponse;
  start = (mounted_page, []);
  Enabled = Enabled;
  handle = handle api_base;
  resume = λ c a s. (resume_login a s, []);
}
