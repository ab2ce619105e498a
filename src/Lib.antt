-- ===== src/Lib.antt =====
-- PushFree's dashboard, a statically exported browser application that talks to the PushFree server
-- with `fetch` and listens to it with server-sent events; and parts of the server: emergency receipts,
-- which are redelivered until somebody acknowledges them or they expire, with the timers that drive
-- them; the decision whether a quiet window holds a message; the monthly quota; accounts and their
-- sessions; the application tokens; and the hub with its live streams.
--
-- How the parts interact. Every page under web/app/dashboard is rendered by
-- web/app/dashboard/layout.tsx, which first asks the server for the session. A page keeps its state
-- in React, reads and writes the server through the wrappers of web/lib/api.ts, and decides by the
-- answer's status and body. The live log opens an event source with the credentials of a device. On
-- the server a message of priority 2 gets a receipt, whose scheduler, acknowledgements and
-- cancellations write one row; the engine of the timers claims its timer, and the timer's handler
-- ticks the scheduler and creates the next one. The decision of the quiet hours says of a message of
-- priority 0 or less whether the window that the page of the quiet hours sets holds it; no handler
-- asks it yet. A login signs a cookie, which the middleware reads back; the guard of the dashboard
-- asks for the account of the cookie. The page of the apps creates, lists and revokes the tokens with
-- which messages are sent. What is stored of a send is published to the streams of its recipients,
-- and the live log of the dashboard reads one of them. A send passes the gate of the quota and is
-- charged behind it, and the page of the quota shows the counter.
--
-- Where the parts are modelled:
--   Common        names of the library, Boolean tests, lemmas on lists and options.
--   Text          texts: trim, startsWith, slice, template literals; encodeURIComponent, and what a
--                 server reads from a query (Text/Query).
--   Machine       a page as a machine. An asynchronous handler is cut at its awaits: `handle` runs to
--                 the first one and leaves the calls awaited, `resume` runs from an await to the next.
--                 A call carries what its continuation captured. `Steps` is a run in which enabled
--                 controls are used and calls settle in any order; `Reach` starts at the first effect.
--                 Machine/Busy is the form that is disabled while its call is on its way.
--   Api           web/lib/api.ts: parseBody, postJSON, putJSON, deleteJSON, getJSON, getJSONRaw, and
--                 the URLs that the pages build (Api/Urls).
--   Wire          the interfaces of the answers at the top of the pages.
--   Layout        web/app/dashboard/layout.tsx: the guard (resume_probe), the navigation (nav_items)
--                 and the three screens (render).
--   Login         web/app/login/page.tsx: onSubmit and the probe.
--   QuietHours    web/app/dashboard/quiet-hours/page.tsx: save and the effect.
--   Quota         web/app/dashboard/quota/page.tsx: loadLimits, the picker, the badge.
--   Apps          web/app/dashboard/apps/page.tsx: load, showLimits, onCreate, onDelete, the markup.
--   Messages      web/app/dashboard/messages/page.tsx: registerViewer, connect, disconnect, the
--                 unmount effect, the listeners, the markup. Event sources are a heap of numbered
--                 records, and esRef is the number of the one that the page holds.
--   Receipts      server/internal/receipts/statemachine.go: states and transitions. Receipts/Rows: the
--                 statements of server/internal/store/sqlite (receipt_retry.go, receipt_ack.go,
--                 receipt.go, cancel.go) on the row of a receipt. Receipts/Scheduler:
--                 server/internal/receipts/scheduler.go, where `Tick` is `decide` on what it read and
--                 `act` on the row that it writes, so that other writes can stand between the two
--                 (Receipts/Scheduler/Runs). Receipts/Cancel: server/internal/receipts/cancel.go over the
--                 tables of receipts and timers.
--   QuietWindow   server/internal/quiethours/quiethours.go: hhmm, windowContains, Evaluate, InWindow,
--                 ReleaseAt.
--   Home          web/app/page.tsx, web/app/dashboard/page.tsx, web/next.config.mjs.
--   QuotaManager  server/internal/quota/quota.go over server/internal/store/sqlite/quota.go.
--                 QuotaManager/Sends: the gate and the charge of server/internal/api/messages.go.
--                 QuotaManager/Answer: server/internal/api/applimit.go and quota.go, limits.json and its
--                 headers; QuotaManager/Shown: what the page of the quota shows of them.
--   Accounts      server/internal/api/accounts.go (me, quietHours) over
--                 server/internal/store/sqlite/user.go. Accounts/Sessions: the cookie of
--                 server/internal/api/security.go, and login. Accounts/Page: the page of the quiet hours
--                 against the handler. Accounts/Redirects: the redirects between the pages.
--   AppTokens     server/internal/api/apps.go (createApp, listApps, deleteApp) over
--                 server/internal/store/sqlite/app_device.go: the table with the foreign keys to it.
--                 AppTokens/Page and AppTokens/Revoking: the page of the apps against the handlers.
--   Hub           server/internal/hub/hub.go over the tables of sends and messages
--                 (server/internal/store/sqlite/send_message.go, ingest.go). Hub/Connections: the hub's
--                 mailboxes and the streams of server/internal/hub/sse.go, as runs in which sends are
--                 stored and published, and streams subscribe, replay, receive and end, in any order.
--                 Hub/Connections/Shown: the log of the dashboard behind a stream.
--   Timers        server/internal/timers/engine.go over server/internal/store/sqlite/timer.go and
--                 timer_engine.go. `Fired` is what comes of one claimed timer, with what its handler has
--                 written. Timers/Retry: server/internal/timers/retry.go and
--                 server/internal/server/retry.go, and the cancellation over the timers' table.
--                 Timers/Emergencies: runs of all of it.
--   Tests         the theorems at concrete inputs.
--
-- Bounds and fuel. The definitions are structural recursion on a text or a list, with three exceptions:
-- the digits of a number take the number and one as fuel, which is enough since a tenth is smaller; the
-- pages that the browser goes through are counted, and three are enough; the ticks of the engine are a
-- list. The attempts of createApp are three, as in the source. Counts of the quota are without a bound: they stay at the limit, or a few sends above it.
-- Numbers are naturals: the server sends ids, counts and epochs that are not negative, and JSON
-- numbers of that size are exact in doubles. A priority is an integer. In the receipts an instant is a
-- count of nanoseconds without a bound, a policy's fields are integers, and the product of an attempt
-- count and an interval wraps around as an int64; the default policy's products are far below that.
--
-- What is a parameter or an assumption. `fetch` is a function from a request to a response or a
-- rejection, and JSON is a codec whose `parse` reads what its `stringify` wrote. A disabled control
-- causes no event, and a control that is not rendered causes none. A closed event source reports
-- nothing. The body of an answer has the shape that the page's interface names, with any field
-- missing; a frame that is JSON has the shape of a message. `window.confirm` gives either answer. A
-- time zone is a function from local times to instants and back; what is relied on is that its days
-- are in order and that a time of day stands on its day, which a zone that skips midnight breaks. In
-- the runs of one receipt (Receipts/Scheduler/Runs) one tick at a time is between its reading and its
-- writing. A redelivery may fail. Publishing one message to the mailboxes of its user is one step of
-- the hub, and so is writing a page of the replay: other steps touch only the mailbox meanwhile. The
-- generator of tokens gives any text or fails; where a theorem needs it, its texts are keys. The
-- months of the quota are a function of the instant that does not decrease, and a month has a first
-- instant. The MAC of a cookie and the check of a password are functions. JSON of a timer's payload
-- is read back as it was written. React applies the state updates of a handler in order. Strict
-- mode's second mount is left out.
--
-- What is not modelled: the styles of web/; in the runs of the hub, the publication of a message again by
-- the redelivery of an emergency (server/internal/server/retry.go, NewRedeliverFunc), which the retries
-- take as an effect that may fail; the texts of instants up to the second, which the timers compare by
-- their seconds, as their texts are ordered in the years up to 9999; registration, groups, the form of a message, the
-- credentials of devices, callbacks and push of the server, whose answers to the dashboard are any
-- value; the clients under desktop and android; the bundles under server/internal/webmount/web/out,
-- which the build of web/ generates.
pub mod Common
pub mod Text
pub mod Machine
pub mod Api
pub mod Wire
pub mod Layout
pub mod Home
pub mod Login
pub mod QuietHours
pub mod Quota
pub mod Apps
pub mod Messages
pub mod Receipts
pub mod QuietWindow
pub mod QuotaManager
pub mod Accounts
pub mod Timers
pub mod AppTokens
pub mod Hub
pub mod Tests
