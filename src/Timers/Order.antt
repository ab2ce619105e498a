-- ===== src/Timers/Order.antt =====
-- How the texts of two instants are compared: server/internal/store/sqlite/util.go (rfc3339) in the
-- statement of server/internal/store/sqlite/timer.go.
use pushfree.Common.{
  ℕ, ◌+◌, ◌/◌, ◌^◌, ◌≤◌, ◌<◌, true, false, ◌≡◌, refl, arith, ==_iff, Bool-cases, inl, inr, ◌==◌,
}
use pushfree.Text.{append}
use pushfree.Timers.{rfc3339_le}

-- The texts of two instants are in the order of the instants up to a second: what is compared as not
-- later is not a whole second later, and what is a whole second earlier is compared as earlier.
pub rfc3339_le_lem :
    (a b : ℕ) → (rfc3339_le a b ≡ true → a < b + 10 ^ 9) × (a + 10 ^ 9 ≤ b → rfc3339_le a b ≡ true)
unfolding rfc3339_le
rfc3339_le_lem a b = elim (Bool-cases (a / 10 ^ 9 == b / 10 ^ 9)) [
  | inl same ↦
      let seconds : a / 10 ^ 9 ≡ b / 10 ^ 9 = (==_iff (a / 10 ^ 9) (b / 10 ^ 9)).0 same in
      (λ h. omega arith, λ h. absurd (omega arith))
  | inr other ↦ rw other (
    λ h. let before : a / 10 ^ 9 < b / 10 ^ 9 = ground (arith, h) in omega arith,
    λ h. let before : a / 10 ^ 9 < b / 10 ^ 9 = omega arith in ground (arith, before),
  )
]

-- A timer of one second and three tenths, as the whole second sees it and as it sees the whole second:
-- the texts are `…:01.3Z` and `…:01Z`.
pub rfc3339_le-early :
    (rfc3339_le 1300000000 1000000000 ≡ true) × (rfc3339_le 1000000000 1300000000 ≡ false)
unfolding rfc3339_le append
rfc3339_le-early = (refl, refl)
