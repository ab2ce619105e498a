-- ===== src/Receipts/Cancel/Single.antt =====
-- `Cancel` of server/internal/receipts/cancel.go with writes of others in between.
use pushfree.Common.{Bool, false, Option, none, some}
use pushfree.Receipts.{State}
use pushfree.Receipts.Cancel.{cancellable}

abbrev pub seen_pending : Option State → Bool
seen_pending none = false
seen_pending (some s) = cancellable s
