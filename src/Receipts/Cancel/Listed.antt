-- ===== src/Receipts/Cancel/Listed.antt =====
-- Which receipts `ListCancellableByTag` of server/internal/store/sqlite/cancel.go picks.
use pushfree.Common.{
  ℕ, String, true, false, Option, none, some, get_or, List, [], ◌∷◌, ◌≡◌, ◌↔◌, refl, ap, sym, ◌∙◌,
  arith, any, All, Bool-cases, inl, inr, str_eq, str_eq_refl, eq_iff,
}
use pushfree.Receipts.{State, pending, delivered, acknowledged, expired, canceled, unknown, same}
use pushfree.Receipts.Cancel.{has_tag, Entry, matches, list_cancellable_by_tag}

-- The ids of the table are distinct, as those of a primary key are.
abbrev pub Distinct : List Entry → Type 0
Distinct [] = Unit
Distinct (e ∷ es) = All (λ x. str_eq x.id e.id ≡ false) es × Distinct es

str_eq_sym : (s t : String) → str_eq s t ≡ false → str_eq t s ≡ false
str_eq_sym s t h = elim (Bool-cases (str_eq t s)) [
  | inl alike ↦ cc ((eq_iff s t).1 (sym ((eq_iff t s).0 alike)))
  | inr other ↦ other
]

pub All-zip :
    {P Q R : Entry → Type 0}
    → ((e : Entry) → P e → Q e → R e)
    → (es : List Entry) → All P es
    → All Q es
    → All R es
All-zip f [] hp hq = tt
All-zip f (e ∷ es) (p, hp) (q, hq) = (f e p q, All-zip f es hp hq)

module _ (tag : String) (app_id : ℕ) where
  list-step :
      (id : String) (e : Entry) (es : List Entry)
      → str_eq id e.id ≡ false
      → any (str_eq id) (list_cancellable_by_tag tag app_id (e ∷ es))
        ≡ any (str_eq id) (list_cancellable_by_tag tag app_id es)
  unfolding list_cancellable_by_tag
  list-step id e es h = elim (Bool-cases (matches tag app_id e)) [
    | inl hit ↦ rw (hit, h)
    | inr miss ↦ rw miss
  ]

  unlisted :
      (id : String) (es : List Entry)
      → All (λ x. str_eq x.id id ≡ false) es
      → any (str_eq id) (list_cancellable_by_tag tag app_id es) ≡ false
  unfolding list_cancellable_by_tag
  unlisted id [] h = refl
  unlisted id (e ∷ es) (he, h) = list-step id e es (str_eq_sym e.id id he) ∙ unlisted id es h

  listed_head :
      (x : Entry) (xs : List Entry)
      → All (λ e. str_eq e.id x.id ≡ false) xs
      → any (str_eq x.id) (list_cancellable_by_tag tag app_id (x ∷ xs)) ≡ matches tag app_id x
  unfolding list_cancellable_by_tag
  listed_head x xs h = elim (Bool-cases (matches tag app_id x)) [
    | inl hit ↦ rw (hit, str_eq_refl x.id)
    | inr miss ↦ rw (miss, unlisted x.id xs h)
  ]

  -- An entry's id is listed exactly if the entry matches.
  pub listed :
      (es : List Entry)
      → Distinct es
      → All
          (λ e. any (str_eq e.id) (list_cancellable_by_tag tag app_id es) ≡ matches tag app_id e)
          es
  listed [] h = tt
  listed (x ∷ xs) (fresh, h) = (
    listed_head x xs fresh,
    All-zip (λ e other same. list-step e.id x xs other ∙ same) xs fresh (listed xs h),
  )

pending_iff : (a : State) → (same a pending ≡ true) ↔ (a ≡ pending)
unfolding same
pending_iff pending = ground arith
pending_iff delivered = ground arith
pending_iff acknowledged = ground arith
pending_iff expired = ground arith
pending_iff canceled = ground arith
pending_iff (unknown t) = ground arith

has_tag_iff : (tag : String) (t : Option String) → (has_tag tag t ≡ true) ↔ (t ≡ some tag)
unfolding has_tag
has_tag_iff tag none = (λ h. cc, λ h. cc)
has_tag_iff tag (some t) =
    (λ h. ap some ((eq_iff t tag).0 h), λ h. (eq_iff t tag).1 (ap (λ o. get_or o t) h))

-- The app's pending receipts with the tag.
abbrev pub IsMeant : String → ℕ → Entry → Type 0
IsMeant tag app_id e = (e.tag ≡ some tag) × (e.row.state ≡ pending) × (e.app_id ≡ app_id)

pub matches_iff :
    (tag : String) (app_id : ℕ) (e : Entry) → (matches tag app_id e ≡ true) ↔ IsMeant tag app_id e
unfolding matches
matches_iff tag app_id e = ground (arith, has_tag_iff tag e.tag, pending_iff e.row.state)
