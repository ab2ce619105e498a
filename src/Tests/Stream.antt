-- ===== src/Tests/Stream.antt =====
-- The live log at concrete inputs.
use pushfree.Common.{
  ◌≤◌, true, false, String, none, some, [], ◌∷◌, ◌≡◌, ◌≢◌, ◌↔◌, ◌&&◌, refl, map, pos,
}
use pushfree.Machine.{Reach, begin, act}
use pushfree.Text.{truthy, append}
use pushfree.Text.Query.Decode.{bytes}
use pushfree.Text.Query.Scan.{query_value, AllChars, is_not}
use pushfree.Api.Urls.{sse_path}
use pushfree.Messages.{
  State, LiveMessage, idle, connecting, set_device_id, set_secret, connect, errored, handle,
  mounted_page, page,
}
use pushfree.Messages.Sources.{open_count, OnlyCurrent, sources_lem}
use pushfree.Messages.Register.{let_go, handle-connect}

abbrev origin : String
origin = "http://localhost:8080"

abbrev message : LiveMessage
message = record {
  id = 7;
  send_id = none;
  title = none;
  message = "Disk full";
  priority = pos 2;
  timestamp = 1700000000;
  sound = none;
  url = none;
  url_title = none;
  html = none;
  monospace = none;
  ttl = none;
  tag = none;
  encrypted = none;
}

abbrev filled : State
filled = (handle origin (set_secret "k&y") (handle origin (set_device_id "d1") mounted_page).0).0

abbrev connected : State
connected = (handle origin connect filled).0

-- A source that failed is replaced by a new one.
abbrev reconnected : State
reconnected = (handle origin connect (handle origin (errored 0) connected).0).0

reconnect_run : Reach (page origin) reconnected []
unfolding handle
reconnect_run =
    act connect
      (act (errored 0)
        (act connect (act (set_secret "k&y") (act (set_device_id "d1") begin refl) refl)
          (refl, refl))
        refl)
      (refl, refl)

sources_lem_example :
    (open_count reconnected.sources ≤ 1)
    × OnlyCurrent reconnected.es_ref reconnected.sources
    × (reconnected.mounted ≡ true → ((reconnected.conn ≡ idle) ↔ (reconnected.es_ref ≡ none)))
    × (reconnected.mounted ≡ false → open_count reconnected.sources ≡ 0)
sources_lem_example = sources_lem origin reconnect_run

no_question : AllChars (is_not b'?') origin
no_question = search

no_fragment : AllChars (is_not b'#') origin
no_fragment = search

handle-connect_example :
    let t = (handle origin connect filled).0 in
    ((truthy filled.device_id && truthy filled.secret) ≡ false
      → (t.sources ≡ filled.sources)
        × (t.es_ref ≡ filled.es_ref)
        × (t.conn ≡ filled.conn)
        × (t.error ≢ none))
    × ((truthy filled.device_id && truthy filled.secret) ≡ true
        → let url = append origin (sse_path filled.device_id filled.secret) in
          (t.sources
            ≡ record { id = filled.next_id; url = url; closed = false }
              ∷ map (let_go filled.es_ref) filled.sources)
          × (t.es_ref ≡ some filled.next_id)
          × (t.conn ≡ connecting)
          × (t.error ≡ none)
          × (query_value "device_id" url ≡ some (bytes filled.device_id))
          × (query_value "secret" url ≡ some (bytes filled.secret)))
handle-connect_example = handle-connect origin no_question no_fragment filled
