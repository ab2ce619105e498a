-- ===== src/Messages/Sources.antt =====
-- The event sources that web/app/dashboard/messages/page.tsx opens and closes.
use pushfree.Common.{
  ℕ, ◌+◌, ◌≤◌, String, true, false, ◌&&◌, Option, none, some, List, [], ◌∷◌, ◌≡◌, ◌≢◌, ◌↔◌, refl,
  arith, subst, ◌∙◌, any, Bool-cases, Option-cases, inl, inr, if◌then◌else◌,
}
use pushfree.Text.{truthy}
use pushfree.Machine.{Reach, Steps-state}
use pushfree.Api.{Outcome, rejected, settled}
use pushfree.Wire.{DeviceLoginResponse}
use pushfree.Messages.{
  State, idle, connecting, Source, Input, set_device_id, set_secret, register, connect, disconnect,
  unmount, opened, errored, frame, Call, is_live, close, hang_up, handle_disconnect, new_source,
  handle_connect, handle, resume_login, mounted_page, page,
}

-- How many sources are open.
abbrev pub open_count : List Source → ℕ
open_count [] = 0
open_count (x ∷ xs) = (if x.closed then 0 else 1) + open_count xs

-- Every open source is the one that the page holds.
abbrev pub OnlyCurrent : Option ℕ → List Source → Type 0
OnlyCurrent cur [] = Unit
OnlyCurrent cur (x ∷ xs) = (x.closed ≡ false → cur ≡ some x.id) × OnlyCurrent cur xs

open_count_of_none : (xs : List Source) → OnlyCurrent none xs → open_count xs ≡ 0
open_count_of_none [] h = refl
open_count_of_none (x ∷ xs) (hx, h) = ground (arith, open_count_of_none xs h)

open_count-close :
    (i : ℕ) (xs : List Source) → OnlyCurrent (some i) xs → open_count (close i xs) ≡ 0
unfolding close
open_count-close i [] h = refl
open_count-close i (x ∷ xs) (hx, h) = ground (arith, open_count-close i xs h)

open_count-OnlyCurrent :
    (cur : Option ℕ) (xs : List Source) → open_count xs ≡ 0 → OnlyCurrent cur xs
open_count-OnlyCurrent cur [] h = tt
open_count-OnlyCurrent cur (x ∷ xs) h = (ground arith, open_count-OnlyCurrent cur xs (ground arith))

-- What a source reports comes from the one that the page holds.
reports-current :
    (i : ℕ) (cur : Option ℕ) (xs : List Source)
    → any (is_live i) xs ≡ true
    → OnlyCurrent cur xs
    → cur ≡ some i
reports-current i cur [] r h = cc
reports-current i cur (x ∷ xs) r (hx, h) = elim (Bool-cases (is_live i x)) [
  | inl live ↦ ground arith
  | inr dead ↦ reports-current i cur xs (rw dead at r) h
]

record Inv (s : State) : Type 0 where
  current : OnlyCurrent s.es_ref s.sources
  count : open_count s.sources ≤ 1
  connected : s.mounted ≡ true → ((s.conn ≡ idle) ↔ (s.es_ref ≡ none))
  gone : s.mounted ≡ false → s.es_ref ≡ none

hang_up-closed : (s : State) → Inv s → open_count (hang_up s).sources ≡ 0
unfolding hang_up
hang_up-closed s h = elim (Option-cases s.es_ref) [
  | inl none' ↦ rw none' (open_count_of_none s.sources (rw none' at h.current))
  | inr (i, some') ↦ rw some' (open_count-close i s.sources (rw some' at h.current))
]

hang_up-es_ref : (s : State) → (hang_up s).es_ref ≡ none
unfolding hang_up
hang_up-es_ref s = elim (Option-cases s.es_ref) [ inl none' ↦ rw none' | inr (i, some') ↦ rw some' ]

hang_up-mounted : (s : State) → ((hang_up s).mounted ≡ s.mounted) × ((hang_up s).conn ≡ s.conn)
unfolding hang_up
hang_up-mounted s = elim (Option-cases s.es_ref) [
  | inl none' ↦ rw none' (refl, refl)
  | inr (i, some') ↦ rw some' (refl, refl)
]

disconnect-Inv : (s : State) → s.mounted ≡ true → Inv s → Inv (handle_disconnect s)
unfolding handle_disconnect
disconnect-Inv s m h = record {
  current = open_count-OnlyCurrent _ _ (hang_up-closed s h);
  count = omega (arith, hang_up-closed s h);
  connected = λ _. (λ _. hang_up-es_ref s, λ _. refl);
  gone = λ _. hang_up-es_ref s;
}

new_source-Inv :
    (url : String) (s : State)
    → open_count s.sources ≡ 0
    → s.mounted ≡ true
    → s.conn ≢ idle
    → Inv (new_source url s)
unfolding new_source
new_source-Inv url s none_open m busy = record {
  current = (λ _. refl, open_count-OnlyCurrent _ s.sources none_open);
  count = omega arith;
  connected = λ _. (λ e. absurd (busy e), λ e. cc);
  gone = λ e. cc;
}

connect-Inv : (base : String) (s : State) → s.mounted ≡ true → Inv s → Inv (handle_connect base s)
unfolding handle_connect handle_disconnect
connect-Inv base s m h = elim (Bool-cases (truthy s.device_id && truthy s.secret)) [
  | inl both ↦ rw both (
      new_source-Inv _ (record (handle_disconnect s) { error = none; conn = connecting })
        (hang_up-closed s h) ((hang_up-mounted s).0 ∙ m) (λ e. cc))
  | inr missing ↦ rw missing (ground arith)
]

handle-Inv :
    (base : String) (i : Input) (s : State)
    → (page base).Enabled i s
    → Inv s
    → Inv (handle base i s).0
unfolding handle
handle-Inv base (set_device_id t) s e h = ground arith
handle-Inv base (set_secret t) s e h = ground arith
handle-Inv base register s e h = ground arith
handle-Inv base connect s e h = connect-Inv base s e.0 h
handle-Inv base disconnect s e h = disconnect-Inv s e.0 h
handle-Inv base unmount s e h = record {
  current = open_count-OnlyCurrent _ _ (hang_up-closed s h);
  count = omega (arith, hang_up-closed s h);
  connected = λ m. cc;
  gone = λ _. hang_up-es_ref s;
}
handle-Inv base (opened i) s e h = ground (arith, reports-current i s.es_ref s.sources e h.current)
handle-Inv base (errored i) s e h = ground (arith, reports-current i s.es_ref s.sources e h.current)
handle-Inv base (frame i m) s e h = ground arith

login-Inv : (a : Outcome DeviceLoginResponse) (s : State) → Inv s → Inv (resume_login a s)
unfolding resume_login
login-Inv rejected s h = h
login-Inv (settled status none) s h = ground arith
login-Inv (settled status (some body)) s h = ground arith

mounted_page-Inv : Inv mounted_page
mounted_page-Inv = ground arith

Reach-Inv : (base : String) {s : State} {p : List Call} → Reach (page base) s p → Inv s
Reach-Inv base r =
    Steps-state (page base) Inv (handle-Inv base) (λ c a s h. login-Inv a s h) mounted_page-Inv r

-- Whatever the user clicks and the browser reports: at most one event source is open and it is the
-- one that the page holds, the page is labelled disconnected exactly while it holds none, and none
-- is open once the page is left.
pub sources_lem :
    (base : String) {s : State} {p : List Call}
    → Reach (page base) s p
    → (open_count s.sources ≤ 1)
      × OnlyCurrent s.es_ref s.sources
      × (s.mounted ≡ true → ((s.conn ≡ idle) ↔ (s.es_ref ≡ none)))
      × (s.mounted ≡ false → open_count s.sources ≡ 0)
sources_lem base {s} r =
    let h = Reach-Inv base r in
    (
      h.count,
      h.current,
      h.connected,
      λ m. open_count_of_none s.sources (subst (λ o. OnlyCurrent o s.sources) (h.gone m) h.current),
    )
