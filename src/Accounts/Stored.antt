-- ===== src/Accounts/Stored.antt =====
-- What server/internal/api/accounts.go stores of quiet hours, and what it reads back.
use pushfree.Common.{
  ℕ, String, false, Option, none, some, List, [], ◌∷◌, ◌≡◌, ◌≢◌, refl, ap, arith, ◌==◌, Bool-cases,
  inl, inr, get_or, ◌↔◌,
}
use pushfree.Text.{truthy}
use pushfree.Wire.{QuietHours}
use pushfree.QuietWindow.{Location}
use pushfree.Accounts.{
  User, opt_str, default_if_empty, null_str, get_by_id, update_quiet_hours, Reply, write_errors,
  settings_of, account_reply, me, QuietHoursRequest, normalize_tz, errors_of, store_settings,
  checked, quiet_hours,
}
use pushfree.Accounts.Valid.{Valid, errors_of-Valid, Valid-errors_of}

-- The row with the settings of a request.
abbrev pub set_settings : QuietHoursRequest → User → User
set_settings req u = record u {
  quiet_start = opt_str req.quiet_start;
  quiet_end = opt_str req.quiet_end;
  quiet_tz = some (default_if_empty req.tz "UTC");
}

get_by_id-other :
    (uid v : ℕ) (req : QuietHoursRequest) (users : List User)
    → v ≢ uid
    → get_by_id v (update_quiet_hours uid req.quiet_start req.quiet_end req.tz users)
      ≡ get_by_id v users
unfolding get_by_id update_quiet_hours
get_by_id-other uid v req [] h = refl
get_by_id-other uid v req (u ∷ us) h = ground (arith, get_by_id-other uid v req us h)

get_by_id-same :
    (uid : ℕ) (req : QuietHoursRequest) (users : List User) (u : User)
    → get_by_id uid users ≡ some u
    → get_by_id uid (update_quiet_hours uid req.quiet_start req.quiet_end req.tz users)
      ≡ some (set_settings req u)
unfolding get_by_id update_quiet_hours
get_by_id-same uid req [] u h = cc
get_by_id-same uid req (r ∷ us) u h = elim (Bool-cases (r.id == uid)) [
  | inl mine ↦ rw (mine, mine) (ap (λ o. some (set_settings req (get_or o r))) (rw mine at h))
  | inr other ↦ rw (other, other) (get_by_id-same uid req us u (rw other at h))
]

null_str-opt_str : (s : String) → null_str (opt_str s) ≡ s
unfolding null_str opt_str
null_str-opt_str String.[] = refl
null_str-opt_str (String.◌∷◌ c s) = refl

default_if_empty-normal :
    (s : String) → default_if_empty (default_if_empty s "UTC") "UTC" ≡ normalize_tz s
unfolding default_if_empty normalize_tz
default_if_empty-normal String.[] = refl
default_if_empty-normal (String.◌∷◌ c s) = refl

-- The settings as the request names them.
abbrev pub requested : QuietHoursRequest → QuietHours
requested req = record {
  start = some req.quiet_start;
  end = some req.quiet_end;
  tz = some (normalize_tz req.tz);
}

settings_of-set :
    (req : QuietHoursRequest) (u : User) → settings_of (set_settings req u) ≡ requested req
unfolding settings_of normalize_tz
settings_of-set req u = elim (Bool-cases (truthy req.tz)) [
  | inl named ↦
      rw (null_str-opt_str req.quiet_start, null_str-opt_str req.quiet_end, named, named) refl
  | inr empty ↦ rw (null_str-opt_str req.quiet_start, null_str-opt_str req.quiet_end, empty) refl
]

module _ (load_location : String → Option Location) where
  -- The effect of a request on the accounts, by its answer.
  abbrev pub Effect : ℕ → QuietHoursRequest → List User → Reply × List User → Type 0
  Effect uid req users (reply, after) =
      (reply.status ≡ 200
        → (reply.body.quiet_hours ≡ some (requested req))
          × ((me false uid after).body.quiet_hours ≡ some (requested req))
          × ((v : ℕ) → v ≢ uid → me false v after ≡ me false v users))
      × (reply.status ≢ 200 → after ≡ users)

  store_settings-Effect :
      (uid : ℕ) (req : QuietHoursRequest) (users : List User) (found : Option User)
      → get_by_id uid users ≡ found
      → ((store_settings load_location false uid req found users).0.status ≡ 200 ↔ (found ≢ none))
        × Effect uid req users (store_settings load_location false uid req found users)
  unfolding store_settings write_errors me account_reply
  store_settings-Effect uid req users none h =
      ((λ e. ground arith, λ ne. absurd (ne refl)), (λ e. ground arith, λ _. refl))
  store_settings-Effect uid req users (some u) h = (
    (λ _ e. cc, λ _. refl),
    (
      λ _. (
        refl,
        rw (get_by_id-same uid req users u h) (ap some (settings_of-set req u)),
        λ v other. ap account_reply (get_by_id-other uid v req users other),
      ),
      λ ne. absurd (ne refl),
    ),
  )

  checked-Effect :
      (uid : ℕ) (req : QuietHoursRequest) (users : List User) (errs : List String)
      → (errs ≡ []) ↔ Valid load_location req
      → let p = checked load_location false uid req errs users in
        ((p.0.status ≡ 200) ↔ (Valid load_location req × (get_by_id uid users ≢ none)))
        × Effect uid req users p
  unfolding checked write_errors
  checked-Effect uid req users [] h =
      let (ok, effect) = store_settings-Effect uid req users (get_by_id uid users) refl in
      ((λ e. (h.0 refl, ok.0 e), λ v. ok.1 v.1), effect)
  checked-Effect uid req users (e ∷ es) h =
      ((λ eq. ground arith, λ v. cc (h.1 v.0)), (λ eq. ground arith, λ _. refl))

  -- What the handler does of a request where the store works: it is accepted exactly where it is valid
  -- and the session's user is there. Where it is accepted, the answer names the settings as the request
  -- does, the account then reads the same settings back, and no other account has changed; otherwise
  -- nothing has changed.
  pub quiet_hours_lem :
      (uid : ℕ) (req : QuietHoursRequest) (users : List User)
      → let (reply, after) = quiet_hours load_location false uid (some req) users in
        ((reply.status ≡ 200) ↔ (Valid load_location req × (get_by_id uid users ≢ none)))
        × Effect uid req users (reply, after)
  unfolding quiet_hours
  quiet_hours_lem uid req users =
      checked-Effect uid req users (errors_of load_location req)
        (errors_of-Valid load_location req, Valid-errors_of load_location req)

  -- The answer to a request that is accepted.
  abbrev pub accepted_reply : QuietHoursRequest → Reply
  accepted_reply req = record {
    status = 200;
    body = record {
      status = some 1;
      email = none;
      role = none;
      user_key = none;
      quiet_hours = some (requested req);
      errors = none;
    };
  }

  pub quiet_hours-Valid :
      (uid : ℕ) (req : QuietHoursRequest) (users : List User) (u : User)
      → Valid load_location req
      → get_by_id uid users ≡ some u
      → quiet_hours load_location false uid (some req) users
        ≡ (accepted_reply req, update_quiet_hours uid req.quiet_start req.quiet_end req.tz users)
  unfolding quiet_hours checked store_settings
  quiet_hours-Valid uid req users u valid here =
      rw (Valid-errors_of load_location req valid, here) refl

pub me-update_quiet_hours :
    (uid : ℕ) (req : QuietHoursRequest) (users : List User) (u : User)
    → get_by_id uid users ≡ some u
    → me false uid (update_quiet_hours uid req.quiet_start req.quiet_end req.tz users) ≡ record {
      status = 200;
      body = record {
        status = some 1;
        email = some u.email;
        role = some u.role;
        user_key = some u.user_key;
        quiet_hours = some (requested req);
        errors = none;
      };
    }
unfolding me account_reply
me-update_quiet_hours uid req users u here =
    rw (get_by_id-same uid req users u here, settings_of-set req u) refl
