-- ===== src/AppTokens/Issued.antt =====
-- What createApp of server/internal/api/apps.go puts into the table.
use pushfree.Common.{
  ℕ, zero, suc, String, Bool, true, not, Option, none, some, List, [], ◌∷◌, ◌++◌, ◌≡◌, ◌||◌, refl,
  ap, ◌∙◌, ◌⊎◌, arith, Bool-cases, inl, inr, str_eq, ◌==◌, find, str_eq_refl, Option-cases,
}
use pushfree.Text.{truthy}
use pushfree.QuotaManager.Answer.{App, get_by_token}
use pushfree.AppTokens.{
  Table, Created, create, inserted_row, inserted, list_by_user, Allocation, allocate, drawn, tried,
  allocated, returned, create_app, answered, app_publics, trim_space, char_count,
}

abbrev pub row : ℕ → ℕ → String → String → App
row id u tok name = record { id = id; user_id = u; token = tok; name = name }

-- The table with the new app at its end.
abbrev pub with_app : ℕ → String → String → Table → Table
with_app u tok name t = record t {
  next_id = suc t.next_id;
  apps = t.apps ++ (row t.next_id u tok name ∷ []);
}

-- What an insertion has done.
abbrev pub Inserts : ℕ → String → String → Table → Table → Type 0
Inserts u tok name t after = (get_by_token tok t.apps ≡ none) × (after ≡ with_app u tok name t)

pub create-Inserts :
    (fails : Bool) (u : ℕ) (tok name : String) (t after : Table)
    → create fails u tok name t ≡ inserted after
    → Inserts u tok name t after
unfolding create inserted_row
create-Inserts fails u tok name t after h =
    elim (Bool-cases (fails || not (char_count tok == 30))) [
      | inl bad ↦ cc (rw bad at h)
      | inr good ↦ elim (Option-cases (get_by_token tok t.apps)) [
        | inl fresh ↦ (fresh, cc (rw (good, fresh) at h))
        | inr (a, held) ↦ cc (rw (good, held) at h)
      ]
    ]

pub Created-cases :
    (c : Created)
    → (c ≡ Created.failed) ⊎ ((c ≡ Created.unique_violation) ⊎ ((t : Table) × (c ≡ inserted t)))
Created-cases Created.failed = inl refl
Created-cases Created.unique_violation = inr (inl refl)
Created-cases (inserted t) = inr (inr (t, refl))

pub Allocation-cases :
    (a : Allocation) → (a ≡ returned) ⊎ ((p : String × Table) × (a ≡ allocated p.0 p.1))
Allocation-cases returned = inl refl
Allocation-cases (allocated tok t) = inr ((tok, t), refl)

module _ (new_app_token : ℕ → Option String) (fails : ℕ → Bool) where
  -- A token has been drawn and inserted.
  abbrev pub Issues : ℕ → String → String → Table → Table → Type 0
  Issues u tok name t after = Inserts u tok name t after × (k : ℕ) × (new_app_token k ≡ some tok)

  allocate-Issues :
      (left i u : ℕ) (name tok : String) (t after : Table)
      → allocate new_app_token fails left i u name t ≡ allocated tok after
      → truthy tok ≡ true
      → Issues u tok name t after
  unfolding allocate drawn tried
  allocate-Issues zero i u name tok t after h solid = cc
  allocate-Issues (suc left) i u name tok t after h solid = elim (Option-cases (new_app_token i)) [
    | inl broken ↦ cc (rw broken at h)
    | inr (drawn_token, draw) ↦ elim (Created-cases (create (fails i) u drawn_token name t)) [
      | inl failed ↦ cc (rw (draw, failed) at h)
      | inr (inl taken) ↦
          allocate-Issues left (suc i) u name tok t after (rw (draw, taken) at h) solid
      | inr (inr (made, insertion)) ↦
          let ends : allocated drawn_token made ≡ allocated tok after = rw (draw, insertion) at h in
          let same : drawn_token ≡ tok = cc in
          let is : made ≡ after = cc in
          (create-Inserts (fails i) u tok name t after (cc), i, draw ∙ ap some same)
    ]
  ]

  -- What a creation that is answered with 201 has done.
  pub create_app-Issues :
      (u : ℕ) (name : String) (t : Table)
      → (create_app new_app_token fails u (some name) t).0.0 ≡ 201
      → (tok : String) × ((create_app new_app_token fails u (some name) t).0.1
          ≡ record { status = some 1; token = some tok; errors = none })
        × (truthy tok ≡ true)
        × (truthy (trim_space name) ≡ true)
        × Issues u tok (trim_space name) t (create_app new_app_token fails u (some name) t).1
  unfolding create_app answered
  create_app-Issues u name t h = elim (Bool-cases (truthy (trim_space name))) [
    | inr blank ↦ absurd (ground (arith, (rw blank at h)))
    | inl named ↦ elim (Allocation-cases (allocate new_app_token fails 3 0 u (trim_space name) t)) [
      | inl gone ↦ absurd (ground (arith, (rw (named, gone) at h)))
      | inr ((tok, after), done) ↦ elim (Bool-cases (truthy tok)) [
        | inr empty ↦ absurd (ground (arith, (rw (named, done, empty) at h)))
        | inl solid ↦
            rw (named, done, solid)
              (
                tok,
                refl,
                solid,
                refl,
                allocate-Issues 3 0 u (trim_space name) tok t after done solid,
              )
      ]
    ]
  ]

-- The app that has been put at the end is found by its token, in the table and in its owner's list.
pub get_by_token-new :
    (tok : String) (new : App) (apps : List App)
    → get_by_token tok apps ≡ none
    → new.token ≡ tok
    → get_by_token tok (apps ++ (new ∷ [])) ≡ some new
unfolding get_by_token
get_by_token-new tok new [] h same = rw (same, str_eq_refl tok)
get_by_token-new tok new (a ∷ rest) h same = elim (Bool-cases (str_eq a.token tok)) [
  | inl held ↦ cc (rw held at h)
  | inr other ↦ rw other (get_by_token-new tok new rest (rw other at h) same)
]

pub find-new :
    (u id : ℕ) (tok name : String) (apps : List App)
    → get_by_token tok apps ≡ none
    → find
        (λ a. str_eq a.token tok)
        (app_publics (list_by_user u (apps ++ (row id u tok name ∷ []))))
      ≡ some (record { id = id; token = tok; name = name })
unfolding get_by_token list_by_user app_publics
find-new u id tok name [] h =
    let mine : (u == u) ≡ true = ground arith in rw (mine, str_eq_refl tok)
find-new u id tok name (a ∷ rest) h = elim (Bool-cases (str_eq a.token tok)) [
  | inl held ↦ cc (rw held at h)
  | inr other ↦
      let found = find-new u id tok name rest (rw other at h) in
      elim (Bool-cases (a.user_id == u)) [
        | inl own ↦ rw (own, other) found
        | inr foreign ↦ rw foreign found
      ]
]
