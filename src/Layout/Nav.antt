-- ===== src/Layout/Nav.antt =====
-- The navigation of web/app/dashboard/layout.tsx.
use pushfree.Common.{
  ℕ, ◌+◌, ◌≤◌, String, Bool, true, false, ◌&&◌, Option, some, List, [], ◌∷◌, ◌≡◌, refl, arith,
  if◌then◌else◌, Bool-cases, inl, inr, map, str_eq, eq_iff,
}
use pushfree.Text.Prefix.{starts_with-append, starts_with_not_both}
use pushfree.Text.{append, starts_with, drop}
use pushfree.Layout.{NavItem, normalize_path, is_active, nav_items}

-- The marks of the entries on a page's path, in order.
pub marks : String → List Bool
unfolding nav_items
marks path = map (λ e. e.active) (nav_items (some path))

-- How many entries are marked.
abbrev pub marked : List NavItem → ℕ
marked [] = 0
marked (e ∷ es) = (if e.active then 1 else 0) + marked es

not_overview :
    (p t : String)
    → starts_with "/dashboard" t ≡ false
    → (str_eq p "/dashboard" && starts_with p t) ≡ false
not_overview p t h = elim (Bool-cases (str_eq p "/dashboard")) [
  | inl a ↦ rw (a, (eq_iff p "/dashboard").0 a) h
  | inr b ↦ rw b
]

beyond :
    (href tail : String)
    → starts_with "/dashboard" href ≡ false
    → str_eq (append href tail) "/dashboard" ≡ false
beyond href tail h =
    ground (arith, not_overview (append href tail) href h, starts_with-append href tail)

-- Whatever the path, at most one entry of the navigation is marked.
pub marked-nav_items : (pathname : Option String) → marked (nav_items pathname) ≤ 1
unfolding nav_items is_active
marked-nav_items pathname =
    let p = normalize_path pathname in
    ground (
      arith,
      not_overview p "/dashboard/apps" (unfold starts_with in refl),
      not_overview p "/dashboard/messages" (unfold starts_with in refl),
      not_overview p "/dashboard/quota" (unfold starts_with in refl),
      not_overview p "/dashboard/quiet-hours" (unfold starts_with in refl),
      starts_with_not_both p "/dashboard/apps" "/dashboard/messages" (unfold starts_with in refl),
      starts_with_not_both p "/dashboard/apps" "/dashboard/quota" (unfold starts_with in refl),
      starts_with_not_both p "/dashboard/apps" "/dashboard/quiet-hours"
          (unfold starts_with in refl),
      starts_with_not_both p "/dashboard/messages" "/dashboard/quota" (unfold starts_with in refl),
      starts_with_not_both p "/dashboard/messages" "/dashboard/quiet-hours"
          (unfold starts_with in refl),
      starts_with_not_both p "/dashboard/quota" "/dashboard/quiet-hours"
          (unfold starts_with in refl),
    )

-- The base path in front of a path that does not begin with it itself changes no mark.
pub nav_items-base_path :
    (p : String)
    → starts_with p "/admin" ≡ false
    → nav_items (some (append "/admin" p)) ≡ nav_items (some p)
unfolding nav_items normalize_path append
nav_items-base_path String.[] h = refl
nav_items-base_path (String.◌∷◌ c p) h = rw h

-- A path that begins with the path of `Apps`, `Live messages`, `Quota` or `Quiet hours` marks that
-- entry and no other, and the path of `Overview` marks `Overview` and no other.
pub marks_below :
    (tail : String)
    → (marks ("/dashboard") ≡ true ∷ false ∷ false ∷ false ∷ false ∷ [])
      × (marks (append "/dashboard/apps" tail) ≡ false ∷ true ∷ false ∷ false ∷ false ∷ [])
      × (marks (append "/dashboard/messages" tail) ≡ false ∷ false ∷ true ∷ false ∷ false ∷ [])
      × (marks (append "/dashboard/quota" tail) ≡ false ∷ false ∷ false ∷ true ∷ false ∷ [])
      × (marks (append "/dashboard/quiet-hours" tail) ≡ false ∷ false ∷ false ∷ false ∷ true ∷ [])
unfolding marks nav_items is_active append starts_with drop normalize_path
marks_below tail = (
  refl,
  rw (beyond "/dashboard/apps" tail refl),
  rw (beyond "/dashboard/messages" tail refl),
  rw (beyond "/dashboard/quota" tail refl),
  rw (beyond "/dashboard/quiet-hours" tail refl),
)
