-- ===== src/Quota/Badge.antt =====
-- The badge and the picker of web/app/dashboard/quota/page.tsx.
use pushfree.Common.{
  ◌*◌, ◌≤◌, ◌<◌, true, String, List, [], ◌∷◌, ◌≡◌, refl, sym, subst, arith, any, map, str_eq,
  Bool-cases, inl, inr,
}
use pushfree.Wire.{AppItem, LimitsBody}
use pushfree.Quota.{State, select_value, option_values, badge_class, badge_label}

-- The badge's words and its colour say the same: exhausted exactly at nothing left, low exactly below
-- a tenth of the limit, and otherwise ok.
pub badge_lem :
    (l : LimitsBody)
    → (l.remaining ≡ 0 → (badge_label l ≡ "exhausted") × (badge_class l ≡ "badge danger"))
      × (0 < l.remaining
          → 10 * l.remaining < l.limit
          → (badge_label l ≡ "low") × (badge_class l ≡ "badge warn"))
      × (0 < l.remaining
          → l.limit ≤ 10 * l.remaining
          → (badge_label l ≡ "ok") × (badge_class l ≡ "badge ok"))
unfolding badge_class badge_label
badge_lem l = ground arith

any-map-token :
    (t : String) (apps : List AppItem)
    → any (λ v. str_eq v t) (map (λ a. a.token) apps) ≡ any (λ a. str_eq a.token t) apps
any-map-token t [] = refl
any-map-token t (a ∷ apps) = elim (Bool-cases (str_eq a.token t)) [
  | inl same ↦ rw same
  | inr other ↦ rw other (any-map-token t apps)
]

IsOption : State → String → Type 0
IsOption s v = any (λ x. str_eq x v) (option_values s) ≡ true

known-IsOption : (s : State) → any (λ a. str_eq a.token s.token) s.apps ≡ true → IsOption s s.token
unfolding IsOption option_values
known-IsOption s known = elim (Bool-cases (str_eq "" s.token)) [
  | inl empty ↦ rw empty
  | inr other ↦ rw (other, any-map-token s.token s.apps) known
]

-- The picker's value is always the value of one of its options.
pub select_value-option :
    (s : State) → any (λ v. str_eq v (select_value s)) (option_values s) ≡ true
unfolding select_value option_values IsOption
select_value-option s = elim (Bool-cases (any (λ a. str_eq a.token s.token) s.apps)) [
  | inl known ↦
      let same : select_value s ≡ s.token = rw known in
      subst (IsOption s) (sym same) (known-IsOption s known)
  | inr unknown ↦ let same : select_value s ≡ "" = rw unknown in subst (IsOption s) (sym same) refl
]
