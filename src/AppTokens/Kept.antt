-- ===== src/AppTokens/Kept.antt =====
-- What keeps the table `apps` well formed under createApp and deleteApp of server/internal/api/apps.go.
use pushfree.Common.{
  ℕ, suc, ◌<◌, String, false, none, List, [], ◌∷◌, ◌++◌, ◌≡◌, refl, sym, subst, arith, Bool-cases,
  inl, inr, str_eq, eq_iff,
}
use pushfree.QuotaManager.Answer.{App, get_by_token}
use pushfree.AppTokens.{Table, without, owned}
use pushfree.AppTokens.Issued.{row, Inserts}
use pushfree.AppTokens.Revoked.{Unique}

-- Every id is below the next.
abbrev pub Below : ℕ → List App → Type 0
Below n [] = Unit
Below n (a ∷ rest) = (a.id < n) × Below n rest

abbrev pub WellFormed : Table → Type 0
WellFormed t = Unique t.apps × Below t.next_id t.apps

get_by_token-append :
    (tok : String) (new : App) (apps : List App)
    → get_by_token tok apps ≡ none
    → str_eq new.token tok ≡ false
    → get_by_token tok (apps ++ (new ∷ [])) ≡ none
unfolding get_by_token
get_by_token-append tok new [] h ne = rw ne
get_by_token-append tok new (a ∷ rest) h ne = elim (Bool-cases (str_eq a.token tok)) [
  | inl held ↦ cc (rw held at h)
  | inr other ↦ rw other (get_by_token-append tok new rest (rw other at h) ne)
]

str_eq-other : (s t : String) → str_eq s t ≡ false → str_eq t s ≡ false
str_eq-other s t ne = elim (Bool-cases (str_eq t s)) [
  | inl same ↦ cc ((eq_iff s t).1 (sym ((eq_iff t s).0 same)))
  | inr other ↦ other
]

Unique-append :
    (new : App) (apps : List App)
    → Unique apps
    → get_by_token new.token apps ≡ none
    → Unique (apps ++ (new ∷ []))
unfolding get_by_token
Unique-append new [] unique h = (refl, tt)
Unique-append new (a ∷ rest) (first, unique) h = elim (Bool-cases (str_eq a.token new.token)) [
  | inl held ↦ cc (rw held at h)
  | inr other ↦ (
    get_by_token-append a.token new rest first (str_eq-other a.token new.token other),
    Unique-append new rest unique (rw other at h),
  )
]

Below-append :
    (n : ℕ) (new : App) (apps : List App)
    → Below n apps
    → new.id ≡ n
    → Below (suc n) (apps ++ (new ∷ []))
Below-append n new [] b h = (omega arith, tt)
Below-append n new (a ∷ rest) (first, b) h = (omega arith, Below-append n new rest b h)

pub with_app-WellFormed :
    (u : ℕ) (tok name : String) (t after : Table)
    → WellFormed t
    → Inserts u tok name t after
    → WellFormed after
with_app-WellFormed u tok name t after (unique, below) (fresh, made) =
    let new = row t.next_id u tok name in
    subst WellFormed (sym made)
      (Unique-append new t.apps unique fresh, Below-append t.next_id new t.apps below refl)

pub without-absent :
    (u : ℕ) (tok key : String) (apps : List App)
    → get_by_token key apps ≡ none
    → get_by_token key (without u tok apps) ≡ none
unfolding get_by_token without
without-absent u tok key [] h = refl
without-absent u tok key (a ∷ rest) h = elim (Bool-cases (str_eq a.token key)) [
  | inl held ↦ cc (rw held at h)
  | inr other ↦
      let below = without-absent u tok key rest (rw other at h) in
      elim (Bool-cases (owned u tok a)) [
        | inl goes ↦ rw goes below
        | inr stays ↦ rw (stays, other) below
      ]
]

pub without-WellFormed :
    (u n : ℕ) (tok : String) (apps : List App)
    → Unique apps
    → Below n apps
    → Unique (without u tok apps) × Below n (without u tok apps)
unfolding without
without-WellFormed u n tok [] unique below = (tt, tt)
without-WellFormed u n tok (a ∷ rest) (first, unique) (low, below) =
    let (unique', below') = without-WellFormed u n tok rest unique below in
    elim (Bool-cases (owned u tok a)) [
      | inl goes ↦ rw goes (unique', below')
      | inr stays ↦ rw stays ((without-absent u tok a.token rest first, unique'), (low, below'))
    ]
