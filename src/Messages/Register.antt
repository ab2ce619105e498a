-- ===== src/Messages/Register.antt =====
-- `registerViewer` and `connect` of web/app/dashboard/messages/page.tsx.
use pushfree.Common.{
  ℕ, ◌≤◌, ◌<◌, String, true, false, ◌&&◌, none, some, List, [], ◌∷◌, ◌++◌, ◌≡◌, ◌⊎◌, refl, arith,
  ◌≢◌, Option-cases, inl, inr, Option, if◌then◌else◌, map, ◌==◌, ap, sym,
}
use pushfree.Machine.{total, total-middle, Steps, Reach}
use pushfree.Machine.Busy.{Begins, BusyForm, one_call, stuck}
use pushfree.Text.{truthy, append}
use pushfree.Text.Query.Decode.{bytes}
use pushfree.Text.Query.Scan.{query_value, AllChars, is_not}
use pushfree.Api.{Outcome, rejected}
use pushfree.Api.Urls.{sse_path, query_value-sse_path}
use pushfree.Wire.{DeviceLoginResponse}
use pushfree.Messages.{
  State, Source, close, connecting, Input, register, connect, disconnect, unmount, Call, login,
  hang_up, handle_disconnect, new_source, handle_connect, handle, resume_login, page,
}

-- The source, closed where it is the one that the page held.
abbrev pub let_go : Option ℕ → Source → Source
let_go none x = x
let_go (some i) x = if x.id == i then record x { closed = true } else x

all_kept : (xs : List Source) → map (let_go none) xs ≡ xs
all_kept [] = refl
all_kept (x ∷ xs) = ap (λ r. x ∷ r) (all_kept xs)

close-let_go : (i : ℕ) (xs : List Source) → close i xs ≡ map (let_go (some i)) xs
unfolding close
close-let_go i [] = refl
close-let_go i (x ∷ xs) = ap (λ r. let_go (some i) x ∷ r) (close-let_go i xs)

hang_up-sources : (s : State) → (hang_up s).sources ≡ map (let_go s.es_ref) s.sources
unfolding hang_up
hang_up-sources s = elim (Option-cases s.es_ref) [
  | inl none' ↦ rw none' (sym (all_kept s.sources))
  | inr (i, some') ↦ rw some' (close-let_go i s.sources)
]

abbrev pub is_login : Call → ℕ
is_login login = 1

login-settles :
    (c : Call) (a : Outcome DeviceLoginResponse) (s : State)
    → (total is_login [] ≡ 0)
      × (((is_login c ≡ 0) × ((resume_login a s).busy ≡ s.busy)) ⊎ (is_login c ≡ 1))
unfolding total
login-settles login a s = (refl, inr refl)

hang_up-next_id : (s : State) → (hang_up s).next_id ≡ s.next_id
unfolding hang_up
hang_up-next_id s = elim (Option-cases s.es_ref) [
  | inl none' ↦ rw none'
  | inr (i, some') ↦ rw some'
]

module _ (base : String) where
  handle-Begins :
      (i : Input) (s : State)
      → (page base).Enabled i s
      → Begins s.busy (handle base i s).0.busy (total is_login (handle base i s).1)
  unfolding handle total
  handle-Begins register s e = ground arith
  handle-Begins connect s e = ground arith
  handle-Begins disconnect s e = ground arith
  handle-Begins unmount s e = ground arith
  handle-Begins i s e = ground arith

  abbrev form : BusyForm (page base)
  form = record {
    busy = λ s. s.busy;
    weight = is_login;
    starts = unfold total in (refl, refl);
    acts = handle-Begins;
    settles = login-settles;
  }

  -- At most one registration is on its way, and the button is disabled while it is.
  pub busy_of_login :
      {s : State} {p : List Call}
      → Reach (page base) s p
      → (total is_login p ≤ 1) × (0 < total is_login p → s.busy ≡ true)
  busy_of_login r = one_call (page base) form r

  -- A registration whose fetch rejects leaves the button disabled: no click and no later answer
  -- enables it.
  pub rejected_login-busy :
      {s t : State} {q : List Call} (before after : List Call)
      → Reach (page base) s (before ++ login ∷ after)
      → Steps (page base) (resume_login rejected s) (before ++ after) t q
      → t.busy ≡ true
  unfolding resume_login
  rejected_login-busy before after r steps =
      stuck (page base) form before login after rejected refl
        ((busy_of_login r).1 (omega (arith, total-middle is_login before login after))) r steps

  -- Under an API base without `?` and `#`: where a credential is missing, connecting opens nothing,
  -- closes nothing and shows an error. Where both are there, it closes the source that the page held
  -- and holds a new one, and a server reads from its URL both credentials as they stand in the form.
  pub handle-connect :
      AllChars (is_not b'?') base
      → AllChars (is_not b'#') base
      → (s : State)
      → let t = (handle base connect s).0 in
        ((truthy s.device_id && truthy s.secret) ≡ false
          → (t.sources ≡ s.sources) × (t.es_ref ≡ s.es_ref) × (t.conn ≡ s.conn) × (t.error ≢ none))
        × ((truthy s.device_id && truthy s.secret) ≡ true
            → let url = append base (sse_path s.device_id s.secret) in
              (t.sources
                ≡ record { id = s.next_id; url = url; closed = false }
                  ∷ map (let_go s.es_ref) s.sources)
              × (t.es_ref ≡ some s.next_id)
              × (t.conn ≡ connecting)
              × (t.error ≡ none)
              × (query_value "device_id" url ≡ some (bytes s.device_id))
              × (query_value "secret" url ≡ some (bytes s.secret)))
  unfolding handle handle_connect handle_disconnect new_source
  handle-connect hq hf s = (
    λ missing. rw missing (refl, refl, refl, λ e. cc),
    λ both.
        let (device, key) = query_value-sse_path base hq hf s.device_id s.secret in
        rw (both, hang_up-next_id s, hang_up-sources s) (refl, refl, refl, refl, device, key),
  )
