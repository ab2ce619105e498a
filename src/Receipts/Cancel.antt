-- ===== src/Receipts/Cancel.antt =====
-- server/internal/receipts/cancel.go, over the tables that server/internal/store/sqlite/cancel.go
-- reads and writes. `receipts` holds each receipt with the app of its send, in the order of the ids.
pub mod Listed
pub mod Tags
pub mod Single
use pushfree.Common.{
  ℕ, String, Bool, true, false, not, Option, none, some, List, [], ◌∷◌, ◌&&◌, ◌||◌, ◌==◌, any, map,
  ◌++◌, str_eq, if◌then◌else◌,
}
use pushfree.Receipts.{State, pending, same}
use pushfree.Receipts.Rows.{Row, cancel_pending}

pub record Entry : Type 0 where
  pub id : String
  pub app_id : ℕ
  pub tag : Option String
  pub row : Row

pub record Db : Type 0 where
  pub receipts : List Entry
  -- The receipts of the timers.
  pub timers : List String

unfoldable pub cancellable : State → Bool
unfolding same
cancellable s = same s pending

-- `UPDATE … WHERE id = ? AND state = 'pending'`
unfoldable pub update_pending : (id : String) (at : ℕ) → List Entry → List Entry
unfolding cancel_pending
update_pending id at =
    map (λ e. if str_eq e.id id then record e { row = (cancel_pending at e.row).0 } else e)

-- `RowsAffected() > 0`
unfoldable pub affects : (id : String) → List Entry → Bool
unfolding same
affects id = any (λ e. str_eq e.id id && same e.row.state pending)

-- `DELETE FROM timers WHERE receipt_id = ?`
unfoldable pub without : (id : String) → List String → List String
without id [] = []
without id (t ∷ ts) = let rest = without id ts in if str_eq t id then rest else t ∷ rest

-- `CancelPending`, or nothing where the statement fails.
unfoldable pub cancel_pending_in : (fails : Bool) (id : String) (at : ℕ) → Db → Option (Bool × Db)
unfolding update_pending affects
cancel_pending_in true id at db = none
cancel_pending_in false id at db =
    some (affects id db.receipts, record db { receipts = update_pending id at db.receipts })

-- `DeleteTimers`, whose failure the callers swallow.
unfoldable pub delete_timers : (fails : Bool) (id : String) → Db → Db
unfolding without
delete_timers true id db = db
delete_timers false id db = record db { timers = without id db.timers }

has_tag : String → Option String → Bool
has_tag tag none = false
has_tag tag (some t) = str_eq t tag

-- The `WHERE` of `ListCancellableByTag`.
unfoldable pub matches : (tag : String) (app_id : ℕ) → Entry → Bool
unfolding has_tag same
matches tag app_id e = has_tag tag e.tag && same e.row.state pending && (e.app_id == app_id)

unfoldable pub list_cancellable_by_tag : (tag : String) (app_id : ℕ) → List Entry → List String
unfolding matches
list_cancellable_by_tag tag app_id [] = []
list_cancellable_by_tag tag app_id (e ∷ es) =
    let rest = list_cancellable_by_tag tag app_id es in
    if matches tag app_id e then e.id ∷ rest else rest

-- The ids that were canceled, whether an error ended the batch, and the tables.
pub record Batch : Type 0 where
  pub canceled : List String
  pub failed : Bool
  pub db : Db

-- Which of the statements fail, by the receipt's id.
pub record Faults : Type 0 where
  pub list_fails : Bool
  pub update_fails : String → Bool
  pub delete_fails : String → Bool

-- `if ok { _ = s.DeleteTimers(ctx, id) }`
clear : Faults → (id : String) → Option (Bool × Db) → Option (Bool × Db)
unfolding delete_timers
clear f id none = none
clear f id (some (true, db)) = some (true, delete_timers (f.delete_fails id) id db)
clear f id (some (false, db)) = some (false, db)

-- The rest of the loop behind one id.
go_on : Option (Bool × Db) → (rest : List String → Db → Batch) → String → List String → Db → Batch
go_on none rest id got db = record { canceled = got; failed = true; db = db }
go_on (some (true, db')) rest id got db = rest (got ++ (id ∷ [])) db'
go_on (some (false, db')) rest id got db = rest got db'

unfoldable pub cancel_all : Faults → (at : ℕ) → List String → (got : List String) → Db → Batch
unfolding cancel_pending_in clear go_on
cancel_all f at [] got db = record { canceled = got; failed = false; db = db }
cancel_all f at (id ∷ ids) got db =
    go_on (clear f id (cancel_pending_in (f.update_fails id) id at db)) (cancel_all f at ids) id got
      db

unfoldable pub cancel_by_tag : Faults → (tag : String) (app_id at : ℕ) → Db → Batch
unfolding list_cancellable_by_tag cancel_all
cancel_by_tag f tag app_id at db =
    if f.list_fails
    then record { canceled = []; failed = true; db = db }
    else cancel_all f at (list_cancellable_by_tag tag app_id db.receipts) [] db

unfoldable pub state_of : (id : String) → List Entry → Option State
state_of id [] = none
state_of id (e ∷ es) =
    let rest = state_of id es in if str_eq e.id id then some e.row.state else rest

-- `none` in `not_canceled` is an error of the store.
pub data CancelResult : Type 0 where
  done : CancelResult
  not_canceled : Option State → CancelResult

conclude : Option (Bool × Db) → (now later : Db) → String → CancelResult × Db
unfolding state_of
conclude none now later id = (not_canceled none, now)
conclude (some (true, db)) now later id = (done, db)
conclude (some (false, db)) now later id = (not_canceled (state_of id later.receipts), db)

proceed : Faults → (id : String) (at : ℕ) → (now later : Db) → Option State → CancelResult × Db
unfolding cancellable cancel_pending_in clear conclude
proceed f id at now later none = (not_canceled none, now)
proceed f id at now later (some s) =
    if cancellable s
    then conclude (clear f id (cancel_pending_in (f.update_fails id) id at now)) now later id
    else (not_canceled (some s), now)

-- `Cancel`: it reads the tables `seen`, updates the tables `now`, which others may have written since,
-- and where it changed nothing it reads the tables `later`.
unfoldable pub cancel : Faults → (id : String) (at : ℕ) → (seen now later : Db) → CancelResult × Db
unfolding state_of proceed
cancel f id at seen now later = proceed f id at now later (state_of id seen.receipts)
