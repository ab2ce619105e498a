-- ===== src/QuotaManager/Sends.antt =====
-- What server/internal/api/messages.go does of a send with the sender's quota: the gate before the
-- write, the write, and the charge behind it, each with the instant at which it reads the clock.
use pushfree.Common.{
  ℕ, ◌+◌, ◌≤◌, ◌<◌, Bool, true, false, some, List, [], ◌≡◌, ◌↔◌, ◌&&◌, not, refl, if◌then◌else◌,
  ltb, arith, pos,
}
use pushfree.QuotaManager.{Location, period, Counter, get, increment, Manager, new_manager, allow}
use pushfree.QuotaManager.Counters.{get-increment}

abbrev pub monthly_limit : ℕ
monthly_limit = 10000

unfoldable pub quota_manager : Location → Manager
unfolding new_manager
quota_manager central = new_manager central (pos monthly_limit) (some central)

-- Which of the steps of a send that touch the store fail.
pub record Faults : Type 0 where
  pub read_fails : Bool
  pub ingest_fails : Bool
  pub charge_fails : Bool

-- The answers 429, 500 and 200.
pub data Outcome : Type 0 where
  over_limit not_stored accepted : Outcome

module _ (central : Location) where
  -- A read error of the store refuses.
  unfoldable pub precharge_quota : (now : ℕ) (fails : Bool) (sender n : ℕ) → List Counter → Bool
  unfolding allow quota_manager
  precharge_quota now fails u n cs = (allow (quota_manager central) now fails u n cs).allowed

  -- An increment that fails is logged, and the send is accepted all the same.
  charge_sent : (now : ℕ) (fails : Bool) (sender n : ℕ) → List Counter → List Counter
  unfolding increment period
  charge_sent now fails u n cs =
      if ltb 0 n && not fails then increment u (period central now) n cs else cs

  unfoldable pub send :
      (gated charged : ℕ) → Faults → (sender n : ℕ) → List Counter → Outcome × List Counter
  unfolding precharge_quota charge_sent
  send gated charged f u n cs =
      if ltb 0 n && not (precharge_quota gated f.read_fails u n cs)
      then (over_limit, cs)
      else if f.ingest_fails
      then (not_stored, cs)
      else (accepted, charge_sent charged f.charge_fails u n cs)

  pub precharge_quota_iff :
      (now u n : ℕ) (cs : List Counter)
      → 1 ≤ n
      → (precharge_quota now false u n cs ≡ true)
        ↔ (get u (period central now) cs + n ≤ monthly_limit)
  unfolding precharge_quota
  precharge_quota_iff now u n cs h = ground arith

  -- Sends one after the other, by any users to any numbers of recipients, over a clock that does not
  -- go back.
  pub data Sends : (now : ℕ) → List Counter → Type 0 where
    begin : Sends 0 []
    sent :
        {now : ℕ} {cs : List Counter} (gated charged : ℕ) (f : Faults) (u n : ℕ)
        → Sends now cs
        → now ≤ gated
        → gated ≤ charged
        → Sends charged (send gated charged f u n cs).1

  -- No count is above the limit, and no month is counted that has not begun.
  record Inv (now : ℕ) (cs : List Counter) : Type 0 where
    bounded : (u m : ℕ) → get u m cs ≤ monthly_limit
    unborn : (u m : ℕ) → central.month now < m → get u m cs ≡ 0

  module _ (in_order : (s t : ℕ) → s ≤ t → central.month s ≤ central.month t) where
    send-Inv :
        {now : ℕ} {cs : List Counter} (gated charged : ℕ) (f : Faults) (u n : ℕ)
        → now ≤ gated
        → gated ≤ charged
        → Inv now cs
        → Inv charged (send gated charged f u n cs).1
    unfolding send period
    send-Inv {now} {cs} gated charged f u n h1 h2 inv = record {
      bounded = λ v m. ground (
        arith,
        get-increment u (central.month charged) n v m cs,
        in_order now gated h1,
        in_order gated charged h2,
        inv.bounded v m,
        inv.unborn v m,
      );
      unborn = λ v m later. ground (
        arith,
        get-increment u (central.month charged) n v m cs,
        in_order now gated h1,
        in_order gated charged h2,
        inv.unborn v m,
      );
    }

    Sends-Inv : {now : ℕ} {cs : List Counter} → Sends now cs → Inv now cs
    unfolding get
    Sends-Inv begin = record { bounded = λ u m. omega arith; unborn = λ u m later. refl }
    Sends-Inv (sent gated charged f u n r h1 h2) = send-Inv gated charged f u n h1 h2 (Sends-Inv r)

    -- Whatever is sent, one send after the other: no user's count of any month is above the monthly
    -- limit, also where the month turns between a send's gate and its charge, and whichever steps
    -- fail.
    pub Sends-limit :
        {now : ℕ} {cs : List Counter} → Sends now cs → (u m : ℕ) → get u m cs ≤ monthly_limit
    Sends-limit r u m = (Sends-Inv r).bounded u m
