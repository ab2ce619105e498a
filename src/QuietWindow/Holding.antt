-- ===== src/QuietWindow/Holding.antt =====
-- `Evaluate`, `InWindow` and `ReleaseAt` of server/internal/quiethours/quiethours.go together.
use pushfree.Common.{
  ℕ, suc, ◌<◌, String, true, false, Option, none, some, ◌≡◌, ◌≢◌, ◌↔◌, refl, arith, ℤ, ◌==◌, ◌&&◌,
  pos, negsuc, ltb, Bool-cases, inl, inr, subst, get_or,
}
use pushfree.QuietWindow.Clock.{hhmm_lem}
use pushfree.QuietWindow.{
  Settings, hold, Location, hhmm, Verdict, contains, guarded, bypasses, window_contains, evaluate,
  in_window, release_at, mins,
}

-- What a time zone does: days are in order, a time of a day stands on that day, and the same time a
-- day later stands on the next one.
pub record Laws (loc : Location) : Type 0 where
  pub day_order : (a b : ℕ) → loc.day a < loc.day b → a < b
  pub day-date : (d h m : ℕ) → h < 24 → m < 60 → loc.day (loc.date d h m) ≡ d
  pub day-next_day : (t : ℕ) → loc.day (loc.next_day t) ≡ suc (loc.day t)

-- A verdict of being inside comes with a release after `now`, and is usable.
Sound : ℕ → Verdict → Type 0
Sound now v = v.in_window ≡ true → (v.ok ≡ true) × ((r : ℕ) × (v.release ≡ some r) × (now < r))

contains-Sound :
    (loc : Location)
    → Laws loc
    → (now : ℕ) (start end : ℕ × ℕ) → (end.0 < 24) × (end.1 < 60)
    → Sound now (contains loc now start end)
unfolding contains Sound
contains-Sound loc laws now start end (hours, minutes) =
    let d = loc.day now in
    let close = loc.date d end.0 end.1 in
    let later : now < loc.next_day close =
      laws.day_order now (loc.next_day close)
        (omega (arith, laws.day-next_day close, laws.day-date d end.0 end.1 hours minutes)) in
    elim (Bool-cases (ltb (mins end) (mins start))) [
      | inl overnight ↦ elim (Bool-cases (ltb now (loc.date d start.0 start.1))) [
        | inr evening ↦ rw (overnight, evening) (λ _. (refl, (loc.next_day close, refl, later)))
        | inl day ↦ elim (Bool-cases (ltb now close)) [
          | inl morning ↦ rw (overnight, day, morning) (λ _. (refl, (close, refl, ground arith)))
          | inr over ↦ rw (overnight, day, over) (λ h. cc)
        ]
      ]
      | inr same_day ↦ elim (Bool-cases (ltb now (loc.date d start.0 start.1))) [
        | inl before ↦ rw (same_day, before) (λ h. cc)
        | inr begun ↦ elim (Bool-cases (ltb now close)) [
          | inl within ↦ rw (same_day, begun, within) (λ _. (refl, (close, refl, ground arith)))
          | inr over ↦ rw (same_day, begun, over) (λ h. cc)
        ]
      ]
    ]

guarded-Sound :
    (o : Option Location) (now : ℕ) (start end : Option (ℕ × ℕ))
    → ((loc : Location) → o ≡ some loc → Laws loc)
    → ((t : ℕ × ℕ) → end ≡ some t → (t.0 < 24) × (t.1 < 60))
    → Sound now (guarded o now start end)
unfolding guarded Sound
guarded-Sound none now none none all range h = cc
guarded-Sound none now none (some e) all range h = cc
guarded-Sound none now (some s) none all range h = cc
guarded-Sound none now (some s) (some e) all range h = cc
guarded-Sound (some loc) now none none all range h = cc
guarded-Sound (some loc) now none (some e) all range h = cc
guarded-Sound (some loc) now (some s) none all range h = cc
guarded-Sound (some loc) now (some s) (some e) all range h =
    elim (Bool-cases ((s.0 == e.0) && (s.1 == e.1))) [
      | inl empty ↦ cc (rw empty at h)
      | inr wide ↦ rw wide (contains-Sound loc (all loc refl) now s e (range e refl) (rw wide at h))
    ]

-- A priority below 1.
abbrev pub Quiet : ℤ → Type 0
Quiet (pos n) = n < 1
Quiet (negsuc n) = Unit

bypasses_iff : (p : ℤ) → (bypasses p ≡ false) ↔ Quiet p
unfolding bypasses
bypasses_iff (pos n) = ground arith
bypasses_iff (negsuc n) = (λ _. tt, λ _. refl)

module _ (load_location : String → Option Location)
    (all : (tz : String) (loc : Location) → load_location tz ≡ some loc → Laws loc) where
  window-Sound : (now : ℕ) (s : Settings) → Sound now (window_contains load_location now s)
  unfolding window_contains
  window-Sound now s =
      guarded-Sound (load_location s.tz) now (hhmm s.start) (hhmm s.end) (all s.tz)
        (λ t e. hhmm_lem s.end t.0 t.1 e)

  -- Where each zone that is found keeps its days in order, a time of day on its day, and the same time
  -- a day later on the next one: a message is held exactly if its priority is below 1, quiet hours are
  -- enabled and the instant is in the window; and there is an instant of release exactly in the window,
  -- which is later than now.
  pub evaluate_lem :
      (now : ℕ) (s : Settings) (priority : ℤ)
      → ((evaluate load_location now s priority ≡ hold)
          ↔ (Quiet priority × (s.enabled ≡ true) × (in_window load_location now s ≡ true)))
        × ((in_window load_location now s ≡ true) ↔ (release_at load_location now s ≢ none))
        × ((r : ℕ) → release_at load_location now s ≡ some r → now < r)
  unfolding evaluate in_window release_at Sound
  evaluate_lem now s priority =
      let v = window_contains load_location now s in
      let sound = window-Sound now s in
      elim (Bool-cases v.in_window) [
        | inl held ↦
            let (usable, (r, when, later)) = sound held in
            rw (held, usable, when)
              (
                ground (arith, bypasses_iff priority),
                (λ _ e. cc, λ _. refl),
                λ t e. subst (λ o. now < get_or o r) e later,
              )
        | inr free ↦ rw free (
          ground (arith, bypasses_iff priority),
          (λ h e. cc, λ h. absurd (h refl)),
          λ r e. ground arith,
        )
      ]
