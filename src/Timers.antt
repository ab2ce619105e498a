-- ===== src/Timers.antt =====
-- server/internal/timers/engine.go over server/internal/store/sqlite/timer.go and timer_engine.go: the
-- table of timers, and the engine that claims, fires and deletes its rows. Instants are nanoseconds.
pub mod Order
pub mod Claims
pub mod Exclusive
pub mod Handing
pub mod Kept
pub mod Firing
pub mod Retry
pub mod Tick
pub mod Handled
pub mod Backed
pub mod Chain
pub mod Canceled
pub mod Emergencies
use Prim.Native.String.{compare}
use Prim.Native.Nat.{Ordering}
use pushfree.Common.{
  ℕ, zero, suc, ◌+◌, ◌-◌, ◌/◌, ◌%◌, ◌^◌, String, Bool, true, false, not, ◌&&◌, Option, none, some,
  List, [], ◌∷◌, ◌++◌, ◌==◌, if◌then◌else◌, ltb, str_eq,
}
use pushfree.Text.{append}
use pushfree.QuotaManager.Decimal.{digit}

-- The digits of a fraction `n / 10 ^ k`, without zeros at its end.
unfoldable pub fraction : (k n : ℕ) → String
unfolding digit
fraction zero n = ""
fraction (suc k) n =
    let rest = fraction k (n % 10 ^ k) in
    if n == 0 then "" else String.◌∷◌ (digit (n / 10 ^ k)) rest

-- What stands behind the seconds of an instant in RFC 3339 with nanoseconds: the layout drops the zeros
-- at the end of the fraction, and a fraction that is zero.
unfoldable pub suffix : ℕ → String
unfolding fraction
suffix nanos = if nanos == 0 then "Z" else String.◌∷◌ "." (append (fraction 9 nanos) "Z")

abbrev text_le : String → String → Bool
text_le a b = elim (compare a b) [ Ordering.gt ↦ false | _ ↦ true ]

-- `a <= b` of the texts of two instants. The date and the time up to the second are not written out: in
-- the years up to 9999 their texts have one width and stand in the order of the seconds, by which they
-- are compared here. What stands behind the seconds is compared as text.
unfoldable pub rfc3339_le : (a b : ℕ) → Bool
unfolding suffix
rfc3339_le a b =
    if a / 10 ^ 9 == b / 10 ^ 9
    then text_le (suffix (a % 10 ^ 9)) (suffix (b % 10 ^ 9))
    else ltb (a / 10 ^ 9) (b / 10 ^ 9)

-- A row of the table `timers`.
pub record Timer : Type 0 where
  pub id : ℕ
  pub kind : String
  pub receipt_id : Option String
  pub fire_at : ℕ
  pub payload : String
  pub claimed_at : Option ℕ

-- `next_id` is the counter of AUTOINCREMENT, which gives no id twice.
pub record Table : Type 0 where
  pub rows : List Timer
  pub next_id : ℕ

-- The `id` of the draft is not used.
unfoldable pub create : Timer → Table → Table
create t tab = record {
  rows = tab.rows ++ (record t { id = tab.next_id } ∷ []);
  next_id = suc tab.next_id;
}

is_unclaimed : Option ℕ → Bool
is_unclaimed none = true
is_unclaimed (some at) = false

-- `fire_at <= ? AND claimed_at IS NULL`
unfoldable pub due : (now : ℕ) → Timer → Bool
unfolding rfc3339_le is_unclaimed
due now t = rfc3339_le t.fire_at now && is_unclaimed t.claimed_at

-- The claimed rows, and the rows behind the claim. The rows stand in the order of their ids.
unfoldable pub claim_rows : (now limit : ℕ) → List Timer → List Timer × List Timer
unfolding due
claim_rows now zero ts = ([], ts)
claim_rows now (suc n) [] = ([], [])
claim_rows now (suc n) (t ∷ ts) =
    let taken = claim_rows now n ts in
    let skipped = claim_rows now (suc n) ts in
    if due now t
    then (
      record t { claimed_at = some now } ∷ taken.0,
      record t { claimed_at = some now } ∷ taken.1,
    )
    else (skipped.0, t ∷ skipped.1)

abbrev pub default_batch : ℕ
default_batch = 100

-- A limit of 0 is the default.
unfoldable pub claim_due : (now limit : ℕ) → Table → List Timer × Table
unfolding claim_rows
claim_due now limit tab =
    let (claimed, rows) = claim_rows now (if limit == 0 then default_batch else limit) tab.rows in
    (claimed, record tab { rows = rows })

unfoldable pub delete_rows : (id : ℕ) → List Timer → List Timer
delete_rows id [] = []
delete_rows id (t ∷ ts) = let rest = delete_rows id ts in if t.id == id then rest else t ∷ rest

unfoldable pub delete : (id : ℕ) → Table → Table
unfolding delete_rows
delete id tab = record tab { rows = delete_rows id tab.rows }

-- `DELETE FROM timers WHERE receipt_id = ?`
unfoldable pub belongs : (receipt_id : String) → Option String → Bool
belongs receipt_id none = false
belongs receipt_id (some id) = str_eq id receipt_id

unfoldable pub without_receipt : (receipt_id : String) → List Timer → List Timer
unfolding belongs
without_receipt receipt_id [] = []
without_receipt receipt_id (t ∷ ts) =
    let rest = without_receipt receipt_id ts in
    if belongs receipt_id t.receipt_id then rest else t ∷ rest

unfoldable pub delete_timers_of : (receipt_id : String) → Table → Table
unfolding without_receipt
delete_timers_of receipt_id tab = record tab { rows = without_receipt receipt_id tab.rows }

unfoldable pub reset_rows : List Timer → List Timer
reset_rows [] = []
reset_rows (t ∷ ts) = record t { claimed_at = none } ∷ reset_rows ts

-- `Recover`
unfoldable pub reset_orphaned_claims : Table → Table
unfolding reset_rows
reset_orphaned_claims tab = record tab { rows = reset_rows tab.rows }

-- The interface that the engine has to its store. `W` is all that the engine's handlers write.
pub record Store (W : Type 0) : Type 0 where
  pub create_timer : Timer → W → W
  pub claim_due : (now limit : ℕ) → W → List Timer × W
  pub delete_timer : (id : ℕ) → W → W
  pub reset_orphaned : W → W

abbrev pub table_store : Store Table
table_store = record {
  create_timer = create;
  claim_due = claim_due;
  delete_timer = delete;
  reset_orphaned = reset_orphaned_claims;
}

-- What comes of one claimed timer: the context is cancelled before it, its kind has no handler, its
-- handler fails, or it succeeds and the deletion behind it fails or not. What a handler has written by
-- then goes with it.
pub data Fired (W : Type 0) : Type 0 where
  cancelled unhandled : Fired W
  failed undeleted fired : (written : W) → Fired W

-- How many timers fired, whether `Fire` ends without an error, and what is written.
pub record Outcome (W : Type 0) : Type 0 where
  pub count : ℕ
  pub ok : Bool
  pub world : W

module _ {W : Type 0} (store : Store W) where
  counted : Outcome W → Outcome W
  counted o = record o { count = suc o.count }

  stopped : W → Outcome W
  stopped w = record { count = 0; ok = false; world = w }

  -- One timer, and then `rest`, unless the loop ends here.
  unfoldable pub fire_one : (id : ℕ) → Fired W → (W → Outcome W) → W → Outcome W
  unfolding counted stopped
  fire_one id cancelled rest w = stopped w
  fire_one id unhandled rest w = stopped (store.delete_timer id w)
  fire_one id (failed written) rest w = stopped written
  fire_one id (undeleted written) rest w = stopped written
  fire_one id (fired written) rest w = counted (rest (store.delete_timer id written))

  -- `Fire`
  unfoldable pub fire : (Timer → W → Fired W) → List Timer → W → Outcome W
  unfolding fire_one
  fire handler [] w = record { count = 0; ok = true; world = w }
  fire handler (t ∷ ts) w = fire_one t.id (handler t w) (fire handler ts) w

  -- `Poll`, where the claim does not fail.
  unfoldable pub poll : (now batch : ℕ) → (Timer → W → Fired W) → W → Outcome W
  unfolding fire
  poll now batch handler w =
      let (claimed, w1) = store.claim_due now batch w in fire handler claimed w1

  -- `Run` over the instants of its ticks and what comes of the timers at each: it recovers once, and
  -- ends with the first poll that has an error.
  unfoldable pub ticks : (batch : ℕ) → List (ℕ × (Timer → W → Fired W)) → W → Outcome W
  unfolding poll
  ticks batch [] w = record { count = 0; ok = true; world = w }
  ticks batch ((now, handler) ∷ rest) w =
      let o = poll now batch handler w in
      let on = ticks batch rest o.world in
      if o.ok then record on { count = o.count + on.count } else o

  unfoldable pub run : (batch : ℕ) → List (ℕ × (Timer → W → Fired W)) → W → Outcome W
  unfolding ticks
  run batch at w = ticks batch at (store.reset_orphaned w)
