-- ===== src/Accounts/Sessions/Cookies.antt =====
-- The cookies of server/internal/api/security.go: what is signed is read back until it expires, and
-- what is accepted carries the MAC of its payload.
use pushfree.Common.{
  ℕ, ◌-◌, ◌^◌, ◌≤◌, ◌<◌, Char, code, String, Option, none, some, ◌≡◌, refl, ap, ◌∙◌, arith,
  if◌then◌else◌, ltb, str_eq, str_eq_refl, eq_iff, Bool-cases, Option-cases, inl, inr,
}
use pushfree.Text.{append}
use pushfree.Accounts.Sessions.{
  cut, parse_int, payload, in_time, fields, sign_session, checked_session, parse_session,
}
use pushfree.Accounts.Sessions.Cut.{parse_int-itoa, cut_free, payload-free, cut-payload, cut-some}

in_time-some :
    (now uid : ℕ) (u e : Option ℕ)
    → in_time now u e ≡ some uid
    → (u ≡ some uid) × (expiry : ℕ) × (e ≡ some expiry) × (now < expiry)
unfolding in_time
in_time-some now uid none e h = cc
in_time-some now uid (some u) none h = cc
in_time-some now uid (some u) (some e) h = elim (Bool-cases (ltb now e)) [
  | inl later ↦ (rw later at h, e, refl, ground (arith, later))
  | inr past ↦ cc (rw past at h)
]

fields-some :
    (now uid : ℕ) (o : Option (String × String))
    → fields now o ≡ some uid
    → (id : String) × (until : String) × (expiry : ℕ) × (o ≡ some (id, until))
      × (parse_int id ≡ some uid)
      × (parse_int until ≡ some expiry)
      × (now < expiry)
unfolding fields
fields-some now uid none h = cc
fields-some now uid (some (id, until)) h =
    let (reads, expiry, ends, later) = in_time-some now uid (parse_int id) (parse_int until) h in
    (id, until, expiry, refl, reads, ends, later)

module _ (mac : String → String) where
  -- The cookie of a session is read back as its user until it expires, and not from then on.
  pub parse_session-sign_session :
      (now uid expiry : ℕ)
      → uid ≤ 2 ^ 63 - 1
      → expiry ≤ 2 ^ 63 - 1
      → parse_session mac now (sign_session mac uid expiry)
        ≡ (if ltb now expiry then some uid else none)
  unfolding parse_session sign_session checked_session fields in_time
  parse_session-sign_session now uid expiry hu he =
      rw
        (
          cut_free b'.' (payload uid expiry) "." (mac (payload uid expiry))
              (payload-free uid expiry) refl,
          str_eq_refl (mac (payload uid expiry)),
          cut-payload uid expiry,
          parse_int-itoa uid hu,
          parse_int-itoa expiry he,
        )
        refl

  -- What it is for a text with its MAC to be accepted at an instant as a user's.
  abbrev pub Vouched : (now uid : ℕ) (cookie : String) → Type 0
  Vouched now uid cookie =
      (text : String) × (dot : Char) × (id : String) × (until : String) × (expiry : ℕ) × (code dot
        ≡ b'.')
      × (cookie ≡ append text (String.◌∷◌ dot (mac text)))
      × (cut b':' text ≡ some (id, until))
      × (parse_int id ≡ some uid)
      × (parse_int until ≡ some expiry)
      × (now < expiry)

  -- Whatever the cookie: where it is accepted as a user's, it is a text with the MAC of that very text
  -- behind it, and the text names that user and an instant that is still to come.
  pub parse_session-Vouched :
      (now uid : ℕ) (cookie : String)
      → parse_session mac now cookie ≡ some uid
      → Vouched now uid cookie
  unfolding parse_session checked_session
  parse_session-Vouched now uid cookie h = elim (Option-cases (cut b'.' cookie)) [
    | inl whole ↦ cc (rw whole at h)
    | inr ((text, sig), parts) ↦ elim (Bool-cases (str_eq sig (mac text))) [
      | inl same ↦
          let (dot, is_dot, joins) = cut-some b'.' cookie text sig parts in
          let (id, until, expiry, halves, reads, ends, later) =
            fields-some now uid (cut b':' text) (rw (parts, same) at h) in
          (
            text,
            dot,
            id,
            until,
            expiry,
            is_dot,
            joins ∙ ap (λ t. append text (String.◌∷◌ dot t)) ((eq_iff sig (mac text)).0 same),
            halves,
            reads,
            ends,
            later,
          )
      | inr other ↦ cc (rw (parts, other) at h)
    ]
  ]
