-- ===== src/AppTokens.antt =====
-- server/internal/api/apps.go (createApp, listApps, deleteApp) and AppRepo of
-- server/internal/store/sqlite/app_device.go: the application tokens of a user. The random generator is
-- a parameter.
pub mod Issued
pub mod Revoked
pub mod Kept
pub mod History
pub mod Page
pub mod Revoking
use Prim.Native.String.{[], ◌∷◌}
use pushfree.Common.{
  ℕ, zero, suc, code, String, Bool, true, false, not, ◌&&◌, ◌||◌, ◌==◌, Option, none, some, List,
  ◌∷◌, ◌++◌, if◌then◌else◌, leb, str_eq,
}
use pushfree.Text.{truthy}
use pushfree.Wire.{AppItem, AppsResponse, CreateResponse, AckResponse}
use pushfree.QuotaManager.Answer.{App, get_by_token}

-- The white space of `strings.TrimSpace`.
is_space : ℕ → Bool
is_space c =
    (leb 0x09 c && leb c 0x0d)
    || (c == 0x20)
    || (c == 0x85)
    || (c == 0xa0)
    || (c == 0x1680)
    || (leb 0x2000 c && leb c 0x200a)
    || (c == 0x2028)
    || (c == 0x2029)
    || (c == 0x202f)
    || (c == 0x205f)
    || (c == 0x3000)

trim_left : String → String
unfolding is_space
trim_left [] = []
trim_left (c ∷ s) = if is_space (code c) then trim_left s else c ∷ s

trim_right : String → String
unfolding is_space
trim_right [] = []
trim_right (c ∷ s) =
    let rest = trim_right s in if is_space (code c) && not (truthy rest) then [] else c ∷ rest

unfoldable pub trim_space : String → String
unfolding trim_left trim_right
trim_space s = trim_right (trim_left s)

unfoldable pub char_count : String → ℕ
char_count [] = 0
char_count (c ∷ s) = suc (char_count s)

-- The table `apps`, its rows by id; `used` are the apps to which rows of other tables refer
-- (sends, subscriptions, subscribers), by foreign keys that SQLite enforces.
pub record Table : Type 0 where
  pub next_id : ℕ
  pub apps : List App
  pub used : List ℕ

pub data Created : Type 0 where
  failed unique_violation : Created
  inserted : Table → Created

inserted_row : (user_id : ℕ) (token name : String) → Option App → Table → Created
inserted_row u token name (some a) t = unique_violation
inserted_row u token name none t = inserted (record t {
  next_id = suc t.next_id;
  apps = t.apps ++ (record { id = t.next_id; user_id = u; token = token; name = name } ∷ List.[]);
})

-- `fails` says that the statement fails by itself; the column's CHECK comes before its UNIQUE.
unfoldable pub create : (fails : Bool) (user_id : ℕ) (token name : String) → Table → Created
unfolding char_count inserted_row get_by_token
create fails u token name t =
    if fails || not (char_count token == 30)
    then failed
    else inserted_row u token name (get_by_token token t.apps) t

unfoldable pub list_by_user : (user_id : ℕ) → List App → List App
list_by_user u List.[] = List.[]
list_by_user u (a ∷ rows) =
    let rest = list_by_user u rows in if a.user_id == u then a ∷ rest else rest

pub data Deleted : Type 0 where
  failed not_found : Deleted
  deleted : Table → Deleted

abbrev pub owned : (user_id : ℕ) (token : String) → App → Bool
owned u token a = (a.user_id == u) && str_eq a.token token

unfoldable pub contains : ℕ → List ℕ → Bool
contains n List.[] = false
contains n (m ∷ ms) = (m == n) || contains n ms

-- Some row that the statement deletes; one of them to which another table refers; the rows that stay.
unfoldable pub any_owned : (user_id : ℕ) (token : String) → List App → Bool
any_owned u token List.[] = false
any_owned u token (a ∷ rows) = owned u token a || any_owned u token rows

unfoldable pub any_used : (user_id : ℕ) (token : String) → List ℕ → List App → Bool
unfolding contains
any_used u token used List.[] = false
any_used u token used (a ∷ rows) =
    (owned u token a && contains a.id used) || any_used u token used rows

unfoldable pub without : (user_id : ℕ) (token : String) → List App → List App
without u token List.[] = List.[]
without u token (a ∷ rows) =
    let rest = without u token rows in if owned u token a then rest else a ∷ rest

unfoldable pub delete_by_token : (fails : Bool) (user_id : ℕ) (token : String) → Table → Deleted
unfolding any_owned any_used without
delete_by_token fails u token t =
    if fails
    then failed
    else if not (any_owned u token t.apps)
    then not_found
    else if any_used u token t.used t.apps
    then failed
    else deleted (record t { apps = without u token t.apps })

unfoldable pub create_errors : String → CreateResponse
create_errors e = record { status = some 0; token = none; errors = some (e ∷ List.[]) }

unfoldable pub ack_errors : String → AckResponse
ack_errors e = record { status = some 0; errors = some (e ∷ List.[]) }

-- What the loop of createApp ends with: an answer, or the token that it has allocated, or `""`.
pub data Allocation : Type 0 where
  returned : Allocation
  allocated : String → Table → Allocation

module _ (new_app_token : ℕ → Option String) (fails : ℕ → Bool) where
  tried : String → Created → Allocation → Allocation
  tried tok failed rest = returned
  tried tok unique_violation rest = rest
  tried tok (inserted t) rest = allocated tok t

  drawn : (attempt user_id : ℕ) (name : String) → Option String → Table → Allocation → Allocation
  unfolding tried create
  drawn i u name none t rest = returned
  drawn i u name (some tok) t rest = tried tok (create (fails i) u tok name t) rest

  -- The attempts that are left, from number `i` on.
  unfoldable pub allocate : (left i user_id : ℕ) (name : String) → Table → Allocation
  unfolding drawn
  allocate zero i u name t = allocated "" t
  allocate (suc left) i u name t =
      drawn i u name (new_app_token i) t (allocate left (suc i) u name t)

  answered : Allocation → Table → (ℕ × CreateResponse) × Table
  unfolding create_errors
  answered returned t = ((500, create_errors "could not create app"), t)
  answered (allocated tok after) t =
      if not (truthy tok)
      then ((500, create_errors "could not allocate app token"), after)
      else ((201, record { status = some 1; token = some tok; errors = none }), after)

  -- `none` is a body that is no JSON object with a name.
  unfoldable pub create_app :
      (user_id : ℕ) (name : Option String) → Table → (ℕ × CreateResponse) × Table
  unfolding create_errors trim_space allocate answered
  create_app u none t = ((400, create_errors "request body must be JSON with name"), t)
  create_app u (some name) t =
      if not (truthy (trim_space name))
      then ((400, create_errors "name is required"), t)
      else answered (allocate 3 0 u (trim_space name) t) t

unfoldable pub app_publics : List App → List AppItem
app_publics List.[] = List.[]
app_publics (a ∷ rows) = record { id = a.id; token = a.token; name = a.name } ∷ app_publics rows

unfoldable pub list_apps : (fails : Bool) (user_id : ℕ) → Table → ℕ × AppsResponse
unfolding list_by_user app_publics
list_apps true u t =
    (500, record { status = some 0; apps = none; errors = some ("could not list apps" ∷ List.[]) })
list_apps false u t = (
  200,
  record { status = some 1; apps = some (app_publics (list_by_user u t.apps)); errors = none },
)

revoked : Deleted → Table → (ℕ × AckResponse) × Table
unfolding ack_errors
revoked failed t = ((500, ack_errors "could not revoke app"), t)
revoked not_found t = ((404, ack_errors "app not found"), t)
revoked (deleted after) t = ((200, record { status = some 1; errors = none }), after)

unfoldable pub delete_app :
    (fails : Bool) (user_id : ℕ) (token : String) → Table → (ℕ × AckResponse) × Table
unfolding ack_errors revoked delete_by_token
delete_app fails u token t =
    if not (truthy token)
    then ((404, ack_errors "app not found"), t)
    else revoked (delete_by_token fails u token t) t
