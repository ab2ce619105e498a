-- ===== src/Accounts.antt =====
-- server/internal/api/accounts.go (me, quietHours) and server/internal/store/sqlite/user.go: the
-- account of a session, and its quiet hours. The time zones of the host are a parameter.
pub mod Clocked
pub mod Valid
pub mod Stored
pub mod Usable
pub mod Page
pub mod Sessions
pub mod Redirects
pub mod SignedIn
use pushfree.Common.{
  ℕ, String, Char, code, Bool, true, false, not, ◌&&◌, ◌||◌, ◌==◌, Option, none, some, List, [],
  ◌∷◌, ◌++◌, if◌then◌else◌, leb, get_or,
}
use pushfree.Text.{truthy}
use pushfree.Wire.{MeResponse, QuietHours}
use pushfree.QuietWindow.{atoi, Location}

-- A row of the table `users`; a column that is NULL is none.
pub record User : Type 0 where
  pub id : ℕ
  pub email : String
  pub user_key : String
  pub pass_hash : String
  pub role : String
  pub quiet_start : Option String
  pub quiet_end : Option String
  pub quiet_tz : Option String

unfoldable pub opt_str : String → Option String
opt_str s = if truthy s then some s else none

unfoldable pub default_if_empty : String → String → String
default_if_empty s default = if truthy s then s else default

unfoldable pub null_str : Option String → String
null_str none = ""
null_str (some s) = s

unfoldable pub get_by_id : ℕ → List User → Option User
get_by_id id [] = none
get_by_id id (u ∷ us) = let rest = get_by_id id us in if u.id == id then some u else rest

unfoldable pub update_quiet_hours :
    (id : ℕ) (quiet_start quiet_end tz : String) → List User → List User
unfolding opt_str default_if_empty
update_quiet_hours id start end tz [] = []
update_quiet_hours id start end tz (u ∷ us) =
    let rest = update_quiet_hours id start end tz us in
    if u.id == id
    then record u {
      quiet_start = opt_str start;
      quiet_end = opt_str end;
      quiet_tz = some (default_if_empty tz "UTC");
    }
      ∷ rest
    else u ∷ rest

-- A status, and the fields of the body that the dashboard names.
pub record Reply : Type 0 where
  pub status : ℕ
  pub body : MeResponse

unfoldable pub write_errors : ℕ → List String → Reply
write_errors status errs = record {
  status = status;
  body = record {
    status = some 0;
    email = none;
    role = none;
    user_key = none;
    quiet_hours = none;
    errors = some errs;
  };
}

-- The settings as they are read from a row.
unfoldable pub settings_of : User → QuietHours
unfolding null_str default_if_empty
settings_of u = record {
  start = some (null_str u.quiet_start);
  end = some (null_str u.quiet_end);
  tz = some (default_if_empty (null_str u.quiet_tz) "UTC");
}

account_reply : Option User → Reply
unfolding write_errors settings_of
account_reply none = write_errors 401 ("session invalid or expired" ∷ [])
account_reply (some u) = record {
  status = 200;
  body = record {
    status = some 1;
    email = some u.email;
    role = some u.role;
    user_key = some u.user_key;
    quiet_hours = some (settings_of u);
    errors = none;
  };
}

-- `fails` says that the store cannot be read.
unfoldable pub me : (fails : Bool) (uid : ℕ) → List User → Reply
unfolding get_by_id account_reply write_errors
me fails uid users =
    if fails
    then write_errors 500 ("could not load account" ∷ [])
    else account_reply (get_by_id uid users)

pub record QuietHoursRequest : Type 0 where
  pub quiet_start : String
  pub quiet_end : String
  pub tz : String

abbrev pub is_digit : Char → Bool
is_digit c = leb b'0' (code c) && leb (code c) b'9'

-- Five characters, by `hhmmRe` and the two ranges behind it.
unfoldable pub valid_five : (a b k c d : Char) → Bool
unfolding atoi
valid_five a b k c d =
    is_digit a
    && is_digit b
    && (code k == b':')
    && is_digit c
    && is_digit d
    && leb (get_or (atoi (String.◌∷◌ a (String.◌∷◌ b ""))) 0) 23
    && leb (get_or (atoi (String.◌∷◌ c (String.◌∷◌ d ""))) 0) 59

unfoldable pub valid_hhmm : String → Bool
unfolding valid_five
valid_hhmm (String.◌∷◌ a (String.◌∷◌ b (String.◌∷◌ k (String.◌∷◌ c (String.◌∷◌ d String.[]))))) =
    valid_five a b k c d
valid_hhmm _ = false

-- `a != b` of two conditions
differ : Bool → Bool → Bool
differ true b = not b
differ false b = b

unfoldable pub normalize_tz : String → String
normalize_tz s = if truthy s then s else "UTC"

module _ (load_location : String → Option Location) where
  zone_errors : String → Option Location → List String
  zone_errors tz none = "tz is not a valid IANA timezone" ∷ []
  zone_errors tz (some loc) = []

  -- The messages of a request, in the order in which they are appended.
  unfoldable pub errors_of : QuietHoursRequest → List String
  unfolding valid_hhmm differ zone_errors
  errors_of req =
      (if not (not (truthy req.quiet_start) && not (truthy req.quiet_end))
          && (not (valid_hhmm req.quiet_start) || not (valid_hhmm req.quiet_end))
        then "quiet_start and quiet_end must be HH:MM, or both empty to clear" ∷ []
        else [])
      ++ (if differ (truthy req.quiet_start) (truthy req.quiet_end)
          then "quiet_start and quiet_end must be set together" ∷ []
          else [])
      ++ (if not (truthy req.tz)
          then "tz is required" ∷ []
          else zone_errors req.tz (load_location req.tz))

  -- The update, where it does not fail and finds a row.
  store_settings :
      (fails : Bool) (uid : ℕ) → QuietHoursRequest → Option User → List User → Reply × List User
  unfolding write_errors update_quiet_hours normalize_tz
  store_settings true uid req found users =
      (write_errors 500 ("could not save quiet hours" ∷ []), users)
  store_settings false uid req none users =
      (write_errors 500 ("could not save quiet hours" ∷ []), users)
  store_settings false uid req (some u) users = (
    record {
      status = 200;
      body = record {
        status = some 1;
        email = none;
        role = none;
        user_key = none;
        quiet_hours = some (record {
          start = some req.quiet_start;
          end = some req.quiet_end;
          tz = some (normalize_tz req.tz);
        });
        errors = none;
      };
    },
    update_quiet_hours uid req.quiet_start req.quiet_end req.tz users,
  )

  checked :
      (fails : Bool) (uid : ℕ) → QuietHoursRequest → List String → List User → Reply × List User
  unfolding write_errors store_settings get_by_id
  checked fails uid req [] users = store_settings fails uid req (get_by_id uid users) users
  checked fails uid req (e ∷ es) users = (write_errors 400 (e ∷ es), users)

  -- `none` is a body that is no such JSON.
  unfoldable pub quiet_hours :
      (fails : Bool) (uid : ℕ) → Option QuietHoursRequest → List User → Reply × List User
  unfolding write_errors errors_of checked
  quiet_hours fails uid none users = (
    write_errors 400 ("request body must be JSON with quiet_start, quiet_end and tz" ∷ []),
    users,
  )
  quiet_hours fails uid (some req) users = checked fails uid req (errors_of req) users
