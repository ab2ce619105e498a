-- ===== src/Text/Trim.antt =====
-- What `trim` of web/app/dashboard/apps/page.tsx and quota/page.tsx does to a text.
use Prim.Native.String.{[], ◌∷◌}
use pushfree.Common.{code, String, true, false, not, ◌&&◌, ◌≡◌, refl, ◌↔◌, Bool-cases, inl, inr}
use pushfree.Text.{is_space, trim_start, trim_end, trim, truthy}

abbrev pub AllSpace : String → Type 0
AllSpace [] = Unit
AllSpace (c ∷ s) = (is_space (code c) ≡ true) × AllSpace s

-- A text that is empty or begins with a character that is no space.
abbrev StartsSolid : String → Type 0
StartsSolid [] = Unit
StartsSolid (c ∷ s) = is_space (code c) ≡ false

trim_start-StartsSolid : (s : String) → StartsSolid (trim_start s)
unfolding trim_start
trim_start-StartsSolid [] = tt
trim_start-StartsSolid (c ∷ s) = elim (Bool-cases (is_space (code c))) [
  | inl space ↦ rw space (trim_start-StartsSolid s)
  | inr solid ↦ rw solid solid
]

trim_start_of_StartsSolid : (s : String) → StartsSolid s → trim_start s ≡ s
unfolding trim_start
trim_start_of_StartsSolid [] h = refl
trim_start_of_StartsSolid (c ∷ s) h = rw h

trim_end-StartsSolid : (s : String) → StartsSolid s → StartsSolid (trim_end s)
unfolding trim_end
trim_end-StartsSolid [] h = tt
trim_end-StartsSolid (c ∷ s) h = rw h h

trim_end_idem : (s : String) → trim_end (trim_end s) ≡ trim_end s
unfolding trim_end
trim_end_idem [] = refl
trim_end_idem (c ∷ s) = elim (Bool-cases (is_space (code c) && not (truthy (trim_end s)))) [
  | inl blank ↦ rw blank
  | inr kept ↦ rw kept (rw (trim_end_idem s) (rw kept))
]

pub trim_idem : (s : String) → trim (trim s) ≡ trim s
unfolding trim
trim_idem s =
    rw
      (trim_start_of_StartsSolid (trim_end (trim_start s))
        (trim_end-StartsSolid (trim_start s) (trim_start-StartsSolid s)))
      (trim_end_idem (trim_start s))

trim_start_of_AllSpace : (s : String) → AllSpace s → trim_start s ≡ ""
unfolding trim_start
trim_start_of_AllSpace [] h = refl
trim_start_of_AllSpace (c ∷ s) (space, h) = rw space (trim_start_of_AllSpace s h)

trim_start-AllSpace : (s : String) → trim_start s ≡ "" → AllSpace s
unfolding trim_start
trim_start-AllSpace [] h = tt
trim_start-AllSpace (c ∷ s) h = elim (Bool-cases (is_space (code c))) [
  | inl space ↦ (space, trim_start-AllSpace s (rw (space, ◌≡◌) at h))
  | inr solid ↦ cc (rw solid at h)
]

trim_end-eq-nil : (s : String) → StartsSolid s → trim_end s ≡ "" → s ≡ ""
unfolding trim_end
trim_end-eq-nil [] solid h = refl
trim_end-eq-nil (c ∷ s) solid h = cc (rw solid at h)

-- Trimming leaves nothing exactly of a text that is all white space.
pub trim-eq-nil_iff : (s : String) → (trim s ≡ "") ↔ AllSpace s
unfolding trim
trim-eq-nil_iff s = (
  λ h. trim_start-AllSpace s (trim_end-eq-nil (trim_start s) (trim_start-StartsSolid s) h),
  λ h. rw (trim_start_of_AllSpace s h),
)

truthy-eq-false_iff : (s : String) → (truthy s ≡ false) ↔ (s ≡ "")
truthy-eq-false_iff [] = (λ h. refl, λ h. refl)
truthy-eq-false_iff (c ∷ s) = (λ h. cc, λ h. cc)

-- A text passes for empty, once trimmed, exactly if it is all white space.
pub truthy-trim_iff : (s : String) → (truthy (trim s) ≡ false) ↔ AllSpace s
truthy-trim_iff s =
    let (to, from) = truthy-eq-false_iff (trim s) in
    (λ h. (trim-eq-nil_iff s).0 (to h), λ h. from ((trim-eq-nil_iff s).1 h))

trim_test : trim "  a b \n" ≡ "a b"
unfolding trim
trim_test = refl
