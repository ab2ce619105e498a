-- ===== src/AppTokens/History.antt =====
-- Runs of createApp and deleteApp of server/internal/api/apps.go in any order.
use pushfree.Common.{
  ℕ, zero, suc, ◌<◌, ◌≤◌, String, Bool, Option, none, some, List, [], ◌∷◌, ◌++◌, ◌≡◌, ap, sym,
  subst, arith, Bool-cases, Option-cases, inl, inr, str_eq, eq_iff,
}
use pushfree.Text.{truthy}
use pushfree.QuotaManager.Answer.{App, get_by_token}
use pushfree.AppTokens.{
  Table, create, allocate, drawn, tried, allocated, create_app, answered, trim_space, any_owned,
  any_used, without, delete_by_token, delete_app, revoked, owned,
}
use pushfree.AppTokens.Issued.{
  row, with_app, Inserts, create-Inserts, Created-cases, Allocation-cases,
}
use pushfree.AppTokens.Revoked.{Unique}
use pushfree.AppTokens.Kept.{WellFormed, with_app-WellFormed, without-absent, without-WellFormed}

-- No app of an earlier id than the next is put in: one that is found later was there before.
abbrev pub Grows : Table → Table → Type 0
Grows s t =
    WellFormed t
    × (s.next_id ≤ t.next_id)
    × ((tok : String) (a : App)
        → get_by_token tok t.apps ≡ some a
        → a.id < s.next_id
        → get_by_token tok s.apps ≡ some a)

Grows-refl : (t : Table) → WellFormed t → Grows t t
Grows-refl t w = (w, omega arith, λ tok a h low. h)

Grows-trans : (s t r : Table) → Grows s t → Grows t r → Grows s r
Grows-trans s t r (w, le, old) (w', le', old') =
    (w', omega arith, λ tok a h low. old tok a (old' tok a h (omega arith)) low)

appended_old :
    (tok : String) (new a : App) (apps : List App)
    → get_by_token tok (apps ++ (new ∷ [])) ≡ some a
    → a.id < new.id
    → get_by_token tok apps ≡ some a
unfolding get_by_token
appended_old tok new a [] h low = elim (Bool-cases (str_eq new.token tok)) [
  | inl held ↦
      let same : new ≡ a = cc (rw held at h) in absurd (omega (arith, ap (λ x. x.id) same, low))
  | inr other ↦ cc (rw other at h)
]
appended_old tok new a (b ∷ rest) h low = elim (Bool-cases (str_eq b.token tok)) [
  | inl held ↦ rw held (rw held at h)
  | inr other ↦ rw other (appended_old tok new a rest (rw other at h) low)
]

with_app-Grows :
    (u : ℕ) (tok name : String) (t after : Table)
    → WellFormed t
    → Inserts u tok name t after
    → Grows t after
with_app-Grows u tok name t after w inserts =
    let new = row t.next_id u tok name in
    let old : (key : String) (a : App)
        → get_by_token key (with_app u tok name t).apps ≡ some a
        → a.id < t.next_id
        → get_by_token key t.apps ≡ some a =
      λ key a h low. appended_old key new a t.apps h low in
    let bound : t.next_id ≤ (with_app u tok name t).next_id = omega arith in
    subst (Grows t) (sym inserts.1)
      (subst WellFormed inserts.1 (with_app-WellFormed u tok name t after w inserts), bound, old)

without_old :
    (u : ℕ) (tok key : String) (a : App) (apps : List App)
    → Unique apps
    → get_by_token key (without u tok apps) ≡ some a
    → get_by_token key apps ≡ some a
unfolding get_by_token without
without_old u tok key a [] unique h = h
without_old u tok key a (b ∷ rest) (first, unique) h = elim (Bool-cases (owned u tok b)) [
  | inr stays ↦ elim (Bool-cases (str_eq b.token key)) [
    | inl held ↦ rw held (rw (stays, held) at h)
    | inr other ↦ rw other (without_old u tok key a rest unique (rw (stays, other) at h))
  ]
  | inl goes ↦
      let left = rw goes at h in
      elim (Bool-cases (str_eq b.token key)) [
        | inl held ↦
            let free =
              subst (λ w. get_by_token w rest ≡ none) ((eq_iff b.token key).0 held) first in
            cc (without-absent u tok key rest free)
        | inr other ↦ rw other (without_old u tok key a rest unique left)
      ]
]

module _ (new_app_token : ℕ → Option String) (fails : ℕ → Bool) where
  allocate-Grows :
      (left i u : ℕ) (name tok : String) (t after : Table)
      → WellFormed t
      → allocate new_app_token fails left i u name t ≡ allocated tok after
      → Grows t after
  unfolding allocate drawn tried
  allocate-Grows zero i u name tok t after w h =
      let same : t ≡ after = cc in subst (Grows t) same (Grows-refl t w)
  allocate-Grows (suc left) i u name tok t after w h = elim (Option-cases (new_app_token i)) [
    | inl broken ↦ cc (rw broken at h)
    | inr (drawn_token, draw) ↦ elim (Created-cases (create (fails i) u drawn_token name t)) [
      | inl failed ↦ cc (rw (draw, failed) at h)
      | inr (inl taken) ↦ allocate-Grows left (suc i) u name tok t after w (rw (draw, taken) at h)
      | inr (inr (made, insertion)) ↦
          let ends : allocated drawn_token made ≡ allocated tok after = rw (draw, insertion) at h in
          let same : made ≡ after = cc in
          subst (Grows t) same (
            with_app-Grows u drawn_token name t made w
              (create-Inserts (fails i) u drawn_token name t made insertion))
    ]
  ]

  create_app-Grows :
      (u : ℕ) (name : Option String) (t : Table)
      → WellFormed t
      → Grows t (create_app new_app_token fails u name t).1
  unfolding create_app answered
  create_app-Grows u none t w = Grows-refl t w
  create_app-Grows u (some name) t w = elim (Bool-cases (truthy (trim_space name))) [
    | inr blank ↦ rw blank (Grows-refl t w)
    | inl named ↦ elim (Allocation-cases (allocate new_app_token fails 3 0 u (trim_space name) t)) [
      | inl gone ↦ rw (named, gone) (Grows-refl t w)
      | inr ((tok, after), done) ↦
          let grows = allocate-Grows 3 0 u (trim_space name) tok t after w done in
          elim (Bool-cases (truthy tok)) [
            | inr empty ↦ rw (named, done, empty) grows
            | inl solid ↦ rw (named, done, solid) grows
          ]
    ]
  ]

delete_app-Grows :
    (fails : Bool) (u : ℕ) (tok : String) (t : Table)
    → WellFormed t
    → Grows t (delete_app fails u tok t).1
unfolding delete_app delete_by_token revoked
delete_app-Grows fails u tok t w =
    let left : Grows t (record t { apps = without u tok t.apps }) = (
      without-WellFormed u t.next_id tok t.apps w.0 w.1,
      omega arith,
      λ key a h low. without_old u tok key a t.apps w.0 h,
    ) in
    let same = Grows-refl t w in
    elim (Bool-cases (truthy tok)) [
      | inr empty ↦ rw empty same
      | inl filled ↦ elim (Bool-cases fails) [
        | inl broken ↦ rw (filled, broken) same
        | inr able ↦ elim (Bool-cases (any_owned u tok t.apps)) [
          | inr missing ↦ rw (filled, able, missing) same
          | inl own ↦ elim (Bool-cases (any_used u tok t.used t.apps)) [
            | inl used ↦ rw (filled, able, own, used) same
            | inr free ↦ rw (filled, able, own, free) left
          ]
        ]
      ]
    ]

-- Requests of any users in any order, and what other tables come to refer to between them.
pub data Runs : Table → Table → Type 0 where
  begin : {t : Table} → Runs t t
  creating :
      {s t : Table}
      → (new_app_token : ℕ → Option String) (fails : ℕ → Bool) (u : ℕ) (name : Option String)
      → Runs s t
      → Runs s (create_app new_app_token fails u name t).1
  deleting :
      {s t : Table}
      → (fails : Bool) (u : ℕ) (tok : String) → Runs s t
      → Runs s (delete_app fails u tok t).1
  referring : {s t : Table} → (used : List ℕ) → Runs s t → Runs s (record t { used = used })

-- From a table in which no token stands twice and every id is below the next, requests of any users
-- in any order leave it so; and an app that is found by its token afterwards is either one that was
-- found by it before, the very same row, or has an id that had not been given out before: a token
-- that was revoked does not come back with its old app, whatever the generator draws.
pub Runs-WellFormed :
    {s t : Table}
    → Runs s t
    → WellFormed s
    → WellFormed t
      × (s.next_id ≤ t.next_id)
      × ((tok : String) (a : App)
          → get_by_token tok t.apps ≡ some a
          → a.id < s.next_id
          → get_by_token tok s.apps ≡ some a)
Runs-WellFormed {s} begin w = Grows-refl s w
Runs-WellFormed {s} (creating {t = t} draws fails u name r) w =
    let g = Runs-WellFormed r w in
    Grows-trans s t (create_app draws fails u name t).1 g
      (create_app-Grows draws fails u name t g.0)
Runs-WellFormed {s} (deleting {t = t} fails u tok r) w =
    let g = Runs-WellFormed r w in
    Grows-trans s t (delete_app fails u tok t).1 g (delete_app-Grows fails u tok t g.0)
Runs-WellFormed (referring used r) w = Runs-WellFormed r w
