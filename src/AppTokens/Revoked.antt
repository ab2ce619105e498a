-- ===== src/AppTokens/Revoked.antt =====
-- What deleteApp of server/internal/api/apps.go takes out of the table.
use pushfree.Common.{
  ℕ, String, Bool, true, false, none, some, List, [], ◌∷◌, ◌≡◌, ◌≢◌, refl, sym, subst, arith,
  Bool-cases, Option-cases, inl, inr, str_eq, eq_iff, ◌==◌, ==_iff, ◌∙◌,
}
use pushfree.Text.{truthy}
use pushfree.QuotaManager.Answer.{App, get_by_token, validate_app_token}
use pushfree.AppTokens.{
  Table, any_owned, any_used, contains, without, delete_by_token, delete_app, revoked, ack_errors,
  owned,
}

-- No two rows have the same token.
abbrev pub Unique : List App → Type 0
Unique [] = Unit
Unique (a ∷ rest) = (get_by_token a.token rest ≡ none) × Unique rest

-- Rows none of which has the token.
absent :
    (u : ℕ) (tok : String) (used : List ℕ) (apps : List App)
    → get_by_token tok apps ≡ none
    → (any_owned u tok apps ≡ false)
      × (any_used u tok used apps ≡ false)
      × (without u tok apps ≡ apps)
unfolding get_by_token any_owned any_used without
absent u tok used [] h = (refl, refl, refl)
absent u tok used (a ∷ rest) h = elim (Bool-cases (str_eq a.token tok)) [
  | inl held ↦ cc (rw held at h)
  | inr other ↦
      let (clear, unused, same) = absent u tok used rest (rw other at h) in
      let mine : owned u tok a ≡ false = ground (arith, other) in
      rw (mine, clear, unused, same) (refl, refl, refl)
]

-- Whether the statement finds the row with the token, and what it then does.
abbrev Found : (u : ℕ) (tok : String) (used : List ℕ) → App → List App → Type 0
Found u tok used a apps =
    (any_owned u tok apps ≡ (a.user_id == u))
    × (a.user_id ≡ u → any_used u tok used apps ≡ contains a.id used)
    × (a.user_id ≡ u → get_by_token tok (without u tok apps) ≡ none)

here :
    (u : ℕ) (tok : String) (used : List ℕ) (a : App) (rest : List App)
    → str_eq a.token tok ≡ true
    → get_by_token tok rest ≡ none
    → Found u tok used a (a ∷ rest)
unfolding get_by_token any_owned any_used without
here u tok used a rest held free =
    let (clear, unused, kept) = absent u tok used rest free in
    elim (Bool-cases (a.user_id == u)) [
      | inl mine ↦ rw (mine, held, unused, kept) (refl, λ _. ground arith, λ _. free)
      | inr foreign ↦
          let never : a.user_id ≢ u = ground (arith, foreign) in
          rw (foreign, clear) (refl, λ e. absurd (never e), λ e. absurd (never e))
    ]

found :
    (u : ℕ) (tok : String) (used : List ℕ) (a : App) (apps : List App)
    → Unique apps
    → get_by_token tok apps ≡ some a
    → Found u tok used a apps
unfolding get_by_token any_owned any_used without
found u tok used a [] unique h = cc
found u tok used a (b ∷ rest) (first, unique) h = elim (Bool-cases (str_eq b.token tok)) [
  | inr other ↦
      let (finds, uses, gone) = found u tok used a rest unique (rw other at h) in
      let mine : owned u tok b ≡ false = ground (arith, other) in
      rw (mine, other) (finds, uses, gone)
  | inl held ↦
      let same : b ≡ a = cc (rw held at h) in
      let free = subst (λ w. get_by_token w rest ≡ none) ((eq_iff b.token tok).0 held) first in
      subst (λ c. Found u tok used a (c ∷ rest)) (sym same)
        (here u tok used a rest (subst (λ c. str_eq c.token tok ≡ true) same held) free)
]

without-other :
    (u : ℕ) (tok other : String) (apps : List App)
    → other ≢ tok
    → get_by_token other (without u tok apps) ≡ get_by_token other apps
unfolding get_by_token without
without-other u tok other [] ne = refl
without-other u tok other (a ∷ rest) ne = elim (Bool-cases (owned u tok a)) [
  | inr stays ↦ rw (stays, without-other u tok other rest ne)
  | inl goes ↦
      let held : str_eq a.token tok ≡ true = ground (arith, goes) in
      let same = (eq_iff a.token tok).0 held in
      elim (Bool-cases (str_eq a.token other)) [
        | inl alike ↦ absurd (ne (sym ((eq_iff a.token other).0 alike) ∙ same))
        | inr unlike ↦ rw (goes, unlike) (without-other u tok other rest ne)
      ]
]

validate_app_token-absent :
    (tok : String) (unread : Bool) (apps : List App)
    → get_by_token tok apps ≡ none
    → validate_app_token unread tok apps ≡ none
unfolding validate_app_token
validate_app_token-absent tok unread apps missing = rw missing (ground arith)

-- The user's app that the token names, where there is one.
abbrev pub Owns : (u : ℕ) (tok : String) → List App → App → Type 0
Owns u tok apps a = (get_by_token tok apps ≡ some a) × (a.user_id ≡ u)

module _ (u : ℕ) (tok : String) (t : Table) (filled : truthy tok ≡ true)
    (unique : Unique t.apps) where
  unowned_lem :
      ((a : App) → ¬ (Owns u tok t.apps a))
      → delete_app false u tok t ≡ ((404, ack_errors "app not found"), t)
  unfolding delete_app delete_by_token revoked
  unowned_lem none_own = elim (Option-cases (get_by_token tok t.apps)) [
    | inl missing ↦ rw (filled, (absent u tok t.used t.apps missing).0) refl
    | inr (a, held) ↦ elim (Bool-cases (a.user_id == u)) [
      | inl own ↦ absurd (none_own a (held, (==_iff a.user_id u).0 own))
      | inr foreign ↦ rw (filled, (found u tok t.used a t.apps unique held).0, foreign) refl
    ]
  ]

  pub used_lem :
      (a : App)
      → Owns u tok t.apps a
      → contains a.id t.used ≡ true
      → delete_app false u tok t ≡ ((500, ack_errors "could not revoke app"), t)
  unfolding delete_app delete_by_token revoked
  used_lem a (held, mine) used =
      let (finds, uses, gone) = found u tok t.used a t.apps unique held in
      let own : (a.user_id == u) ≡ true = ground (arith, mine) in
      rw (filled, finds, own, uses mine, used) refl

  pub free_lem :
      (a : App)
      → Owns u tok t.apps a
      → contains a.id t.used ≡ false
      → (delete_app false u tok t ≡ (
        (200, record { status = some 1; errors = none }),
        record t { apps = without u tok t.apps },
      ))
        × (get_by_token tok (without u tok t.apps) ≡ none)
  unfolding delete_app delete_by_token revoked
  free_lem a (held, mine) free =
      let (finds, uses, gone) = found u tok t.used a t.apps unique held in
      let own : (a.user_id == u) ≡ true = ground (arith, mine) in
      (rw (filled, finds, own, uses mine, free) refl, gone mine)

  -- A token that is a user's own is revoked by that user, where no row of another table refers to its
  -- app and the store does not fail: the answer is 200, the token is nobody's afterwards, so that no
  -- send with it is accepted, and every other token is whose it was. Where a row refers to the app,
  -- as the send of a message of the app does, the answer is 500 and the table is as it was; and where
  -- the token is nobody's or another user's, the answer is 404 and the table is as it was.
  pub delete_app_lem :
      ((a : App)
        → Owns u tok t.apps a
        → contains a.id t.used ≡ false
        → let p = delete_app false u tok t in
          (p.0 ≡ (200, record { status = some 1; errors = none }))
          × ((unread : Bool) → validate_app_token unread tok p.1.apps ≡ none)
          × ((other : String)
              → other ≢ tok
              → get_by_token other p.1.apps ≡ get_by_token other t.apps))
      × ((a : App)
          → Owns u tok t.apps a
          → contains a.id t.used ≡ true
          → delete_app false u tok t ≡ ((500, ack_errors "could not revoke app"), t))
      × (((a : App) → ¬ (Owns u tok t.apps a))
          → delete_app false u tok t ≡ ((404, ack_errors "app not found"), t))
  delete_app_lem = (
    λ a own free.
        let (answer, gone) = free_lem a own free in
        rw answer (
          refl,
          λ unread. validate_app_token-absent tok unread (without u tok t.apps) gone,
          λ other ne. without-other u tok other t.apps ne,
        ),
    used_lem,
    unowned_lem,
  )
