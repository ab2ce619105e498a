-- ===== src/Accounts/Valid.antt =====
-- The requests that server/internal/api/accounts.go (quietHours) lets in.
use pushfree.Common.{
  String, Bool, true, false, not, Option, none, some, List, [], ◌∷◌, ◌++◌, ◌≡◌, ◌≢◌, refl, arith,
  inl, inr, if◌then◌else◌, ◌↔◌, ◌⊎◌, ◌&&◌, ◌||◌,
}
use pushfree.Text.{truthy}
use pushfree.QuietWindow.{Location}
use pushfree.Accounts.{QuietHoursRequest, valid_hhmm, errors_of, zone_errors, differ}

append-eq_nil {ℓ} : {A : Type ℓ} (xs ys : List A) → xs ++ ys ≡ [] → (xs ≡ []) × (ys ≡ [])
append-eq_nil [] ys h = (refl, h)
append-eq_nil (x ∷ xs) ys h = cc

message_iff {ℓ} : {A : Type ℓ} (b : Bool) (e : A) → ((if b then e ∷ [] else []) ≡ []) ↔ (b ≡ false)
message_iff true e = (λ h. cc, λ h. cc)
message_iff false e = (λ h. refl, λ h. refl)

pub valid_hhmm-truthy : (s : String) → valid_hhmm s ≡ true → truthy s ≡ true
unfolding valid_hhmm
valid_hhmm-truthy String.[] h = cc
valid_hhmm-truthy (String.◌∷◌ c s) h = refl

module _ (load_location : String → Option Location) where
  -- The message about the zone.
  abbrev zone_message : String → Option Location → List String
  zone_message tz loc =
      if not (truthy tz) then "tz is required" ∷ [] else zone_errors load_location tz loc

  zone_of :
      (tz : String) (loc : Option Location)
      → zone_message tz loc ≡ []
      → (truthy tz ≡ true) × (loc ≢ none)
  unfolding zone_errors
  zone_of String.[] loc h = cc
  zone_of (String.◌∷◌ c s) none h = cc
  zone_of (String.◌∷◌ c s) (some loc) h = (refl, λ e. cc)

  zone_valid :
      (tz : String) (loc : Option Location)
      → truthy tz ≡ true
      → loc ≢ none
      → zone_message tz loc ≡ []
  unfolding zone_errors
  zone_valid tz none t h = absurd (h refl)
  zone_valid tz (some loc) t h = rw t refl

  abbrev times_message : String
  times_message = "quiet_start and quiet_end must be HH:MM, or both empty to clear"

  abbrev together_message : String
  together_message = "quiet_start and quiet_end must be set together"

  -- The test of the two times, and that they are set together.
  abbrev bad_times : QuietHoursRequest → Bool
  bad_times req =
      not (not (truthy req.quiet_start) && not (truthy req.quiet_end))
      && (not (valid_hhmm req.quiet_start) || not (valid_hhmm req.quiet_end))

  abbrev pub Times : QuietHoursRequest → Type 0
  Times req =
      ((truthy req.quiet_start ≡ false) × (truthy req.quiet_end ≡ false))
      ⊎ ((valid_hhmm req.quiet_start ≡ true) × (valid_hhmm req.quiet_end ≡ true))

  bad_times-Times : (req : QuietHoursRequest) → bad_times req ≡ false → Times req
  bad_times-Times req h = ground arith

  Times-tests :
      (req : QuietHoursRequest)
      → Times req
      → (bad_times req ≡ false) × (differ (truthy req.quiet_start) (truthy req.quiet_end) ≡ false)
  unfolding differ
  Times-tests req (inl (s, e)) = rw (s, e) (refl, refl)
  Times-tests req (inr (s, e)) =
      rw (s, e, valid_hhmm-truthy req.quiet_start s, valid_hhmm-truthy req.quiet_end e) (refl, refl)

  -- Both times empty or both of them times, and a zone that the host knows.
  abbrev pub Valid : QuietHoursRequest → Type 0
  Valid req = Times req × (truthy req.tz ≡ true) × (load_location req.tz ≢ none)

  pub errors_of-Valid : (req : QuietHoursRequest) → errors_of load_location req ≡ [] → Valid req
  unfolding errors_of differ zone_errors
  errors_of-Valid req h =
      let together = differ (truthy req.quiet_start) (truthy req.quiet_end) in
      let (front, zone) =
        append-eq_nil
          ((if bad_times req then times_message ∷ [] else [])
            ++ (if together then together_message ∷ [] else []))
          (zone_message req.tz (load_location req.tz)) h in
      let (times, _) =
        append-eq_nil (if bad_times req then times_message ∷ [] else [])
          (if together then together_message ∷ [] else []) front in
      let (named, found) = zone_of req.tz (load_location req.tz) zone in
      (bad_times-Times req ((message_iff (bad_times req) times_message).0 times), named, found)

  pub Valid-errors_of : (req : QuietHoursRequest) → Valid req → errors_of load_location req ≡ []
  unfolding errors_of differ zone_errors
  Valid-errors_of req h =
      let (times, together) = Times-tests req h.0 in
      rw (times, together) (zone_valid req.tz (load_location req.tz) h.1 h.2)
