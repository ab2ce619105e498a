-- ===== src/Accounts/Sessions.antt =====
-- server/internal/api/security.go: the signed cookie of a session (signSession, parseSession,
-- requireSession), and the sign-in of server/internal/api/accounts.go that sets it. `mac` is the
-- HMAC of a payload under the server's secret, in base64url; `verify` is the check of a password
-- against its hash.
pub mod Cut
pub mod Cookies
use pushfree.Common.{
  ℕ, ◌+◌, ◌-◌, ◌^◌, Char, code, String, Bool, true, false, not, Option, none, some, List, [], ◌∷◌,
  ◌==◌, if◌then◌else◌, ltb, str_eq,
}
use pushfree.Text.{append}
use pushfree.Wire.{AckResponse}
use pushfree.QuietWindow.{atoi, up_to}
use pushfree.QuotaManager.Decimal.{itoa}
use pushfree.Accounts.{User, Reply, write_errors, me}

cons_cut : Char → Option (String × String) → Option (String × String)
cons_cut c none = none
cons_cut c (some (a, b)) = some (String.◌∷◌ c a, b)

-- `strings.Cut`
unfoldable pub cut : ℕ → String → Option (String × String)
unfolding cons_cut
cut k String.[] = none
cut k (String.◌∷◌ c s) = let rest = cut k s in if code c == k then some ("", s) else cons_cut c rest

-- `strconv.ParseInt(s, 10, 64)` where its result is not negative: the server signs the ids of rows and
-- instants of its own time.
unfoldable pub parse_int : String → Option ℕ
unfolding atoi up_to
parse_int s = up_to (2 ^ 63 - 1) (atoi s)

unfoldable pub payload : (uid expiry : ℕ) → String
unfolding append itoa
payload uid expiry = append (itoa uid) (String.◌∷◌ ":" (itoa expiry))

-- `ok` of a payload's two numbers.
in_time : (now : ℕ) → Option ℕ → Option ℕ → Option ℕ
in_time now (some uid) (some exp) = if ltb now exp then some uid else none
in_time now _ _ = none

fields : (now : ℕ) → Option (String × String) → Option ℕ
unfolding parse_int in_time
fields now none = none
fields now (some (uid, exp)) = in_time now (parse_int uid) (parse_int exp)

unfoldable pub get_by_email : String → List User → Option User
get_by_email email [] = none
get_by_email email (u ∷ us) =
    let rest = get_by_email email us in if str_eq u.email email then some u else rest

-- What a login answers: its status, its body, and the cookie that it sets.
pub record LoginReply : Type 0 where
  pub status : ℕ
  pub body : AckResponse
  pub cookie : Option String

abbrev pub refused_login : LoginReply
refused_login = record {
  status = 401;
  body = record { status = some 0; errors = some ("invalid email or password" ∷ []) };
  cookie = none;
}

module _ (mac : String → String) where
  unfoldable pub sign_session : (uid expiry : ℕ) → String
  unfolding append payload
  sign_session uid expiry = append (payload uid expiry) (String.◌∷◌ "." (mac (payload uid expiry)))

  checked_session : (now : ℕ) → Option (String × String) → Option ℕ
  unfolding fields cut
  checked_session now none = none
  checked_session now (some (text, sig)) =
      if str_eq sig (mac text) then fields now (cut b':' text) else none

  unfoldable pub parse_session : (now : ℕ) (cookie : String) → Option ℕ
  unfolding checked_session cut
  parse_session now cookie = checked_session now (cut b'.' cookie)

  -- The middleware in front of `me`.
  unfoldable pub with_session : (fails : Bool) → Option ℕ → List User → Reply
  unfolding write_errors me
  with_session fails none users = write_errors 401 ("session invalid or expired" ∷ [])
  with_session fails (some uid) users = me fails uid users

  unfoldable pub me_route : (now : ℕ) (fails : Bool) (cookie : Option String) → List User → Reply
  unfolding write_errors parse_session with_session
  me_route now fails none users = write_errors 401 ("session required" ∷ [])
  me_route now fails (some cookie) users = with_session fails (parse_session now cookie) users

  module _ (verify : String → String → Bool) where
    unfoldable pub admit : (ttl now : ℕ) (password : String) → Option User → LoginReply
    unfolding sign_session
    admit ttl now password none = refused_login
    admit ttl now password (some u) =
        if verify password u.pass_hash
        then record {
          status = 200;
          body = record { status = some 1; errors = none };
          cookie = some (sign_session u.id (now + ttl));
        }
        else refused_login

    -- `email` is normalized; `none` is a body that is no such JSON. `ttl` is the lifetime in seconds.
    unfoldable pub login : (ttl now : ℕ) → Option (String × String) → List User → LoginReply
    unfolding admit get_by_email
    login ttl now none users = record {
      status = 400;
      body = record {
        status = some 0;
        errors = some ("request body must be JSON with email and password" ∷ []);
      };
      cookie = none;
    }
    login ttl now (some (email, password)) users = admit ttl now password (get_by_email email users)
