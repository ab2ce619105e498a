-- ===== src/Timers/Kept.antt =====
-- What the statements of server/internal/store/sqlite/timer.go and timer_engine.go keep of a table: the
-- order of its ids, and a timer that somebody waits for.
use pushfree.Common.{
  ℕ, zero, suc, ◌<◌, false, Option, none, some, List, [], ◌∷◌, ◌++◌, ◌≡◌, ◌≢◌, ◌⊎◌, refl, arith,
  All, Bool-cases, inl, inr, ◌==◌,
}
use pushfree.Timers.{Timer, due, claim_rows, delete_rows, reset_rows}
use pushfree.Timers.Exclusive.{Ascending, claim_rows-All}

abbrev pub Any : (Timer → Type 0) → List Timer → Type 0
Any P [] = ⊥
Any P (t ∷ ts) = P t ⊎ Any P ts

pub Any-end : (P : Timer → Type 0) (ts : List Timer) (t : Timer) → P t → Any P (ts ++ (t ∷ []))
Any-end P [] t h = inl h
Any-end P (u ∷ ts) t h = inr (Any-end P ts t h)

pub All-end :
    (P : Timer → Type 0) (ts : List Timer) (t : Timer) → All P ts → P t → All P (ts ++ (t ∷ []))
All-end P [] t hs h = (h, tt)
All-end P (u ∷ ts) t (hu, hs) h = (hu, All-end P ts t hs h)

pub All-map :
    (P Q : Timer → Type 0) (ts : List Timer) → ((t : Timer) → P t → Q t) → All P ts → All Q ts
All-map P Q [] f h = tt
All-map P Q (t ∷ ts) f (h, hs) = (f t h, All-map P Q ts f hs)

pub Ascending-end :
    (ts : List Timer) (t : Timer)
    → Ascending ts
    → All (λ u. u.id < t.id) ts
    → Ascending (ts ++ (t ∷ []))
Ascending-end [] t h below = (tt, tt)
Ascending-end (u ∷ ts) t (above, h) (lt, below) =
    (All-end (λ v. u.id < v.id) ts t above lt, Ascending-end ts t h below)

-- Deleting.
pub All-delete_rows :
    (P : Timer → Type 0) (id : ℕ) (ts : List Timer) → All P ts → All P (delete_rows id ts)
unfolding delete_rows
All-delete_rows P id [] h = tt
All-delete_rows P id (t ∷ ts) (h, hs) = elim (Bool-cases (t.id == id)) [
  | inl gone ↦ rw gone (All-delete_rows P id ts hs)
  | inr stays ↦ rw stays (h, All-delete_rows P id ts hs)
]

pub Ascending-delete_rows :
    (id : ℕ) (ts : List Timer) → Ascending ts → Ascending (delete_rows id ts)
unfolding delete_rows
Ascending-delete_rows id [] h = tt
Ascending-delete_rows id (t ∷ ts) (above, h) = elim (Bool-cases (t.id == id)) [
  | inl gone ↦ rw gone (Ascending-delete_rows id ts h)
  | inr stays ↦
      rw stays (All-delete_rows (λ u. t.id < u.id) id ts above, Ascending-delete_rows id ts h)
]

-- A timer stays where the deleted id is another's.
pub Any-delete_rows :
    (P : Timer → Type 0) (id : ℕ) (ts : List Timer)
    → All (λ t. P t → t.id ≢ id) ts
    → Any P ts
    → Any P (delete_rows id ts)
unfolding delete_rows
Any-delete_rows P id [] others h = h
Any-delete_rows P id (t ∷ ts) (other, others) (inl h) =
    let stays : (t.id == id) ≡ false = ground (arith, other h) in rw stays (inl h)
Any-delete_rows P id (t ∷ ts) (other, others) (inr h) = elim (Bool-cases (t.id == id)) [
  | inl gone ↦ rw gone (Any-delete_rows P id ts others h)
  | inr stays ↦ rw stays (inr (Any-delete_rows P id ts others h))
]

-- Claiming and resetting change `claimed_at` alone.
pub data Touched : List Timer → List Timer → Type 0 where
  ended : Touched [] []
  touched :
      {ts us : List Timer} (t : Timer) (at : Option ℕ)
      → Touched ts us
      → Touched (t ∷ ts) (record t { claimed_at = at } ∷ us)

pub Touched-refl : (ts : List Timer) → Touched ts ts
Touched-refl [] = ended
Touched-refl (t ∷ ts) = touched t t.claimed_at (Touched-refl ts)

pub claim_rows-Touched : (now limit : ℕ) (ts : List Timer) → Touched ts (claim_rows now limit ts).1
unfolding claim_rows
claim_rows-Touched now zero ts = Touched-refl ts
claim_rows-Touched now (suc n) [] = ended
claim_rows-Touched now (suc n) (t ∷ ts) = elim (Bool-cases (due now t)) [
  | inl ripe ↦ rw ripe (touched t (some now) (claim_rows-Touched now n ts))
  | inr not_yet ↦ rw not_yet (touched t t.claimed_at (claim_rows-Touched now (suc n) ts))
]

pub reset_rows-Touched : (ts : List Timer) → Touched ts (reset_rows ts)
unfolding reset_rows
reset_rows-Touched [] = ended
reset_rows-Touched (t ∷ ts) = touched t none (reset_rows-Touched ts)

abbrev pub Blind : (Timer → Type 0) → Type 0
Blind P = (t : Timer) (at : Option ℕ) → P t → P (record t { claimed_at = at })

pub Any-Touched :
    (P : Timer → Type 0) {ts us : List Timer} → Blind P → Touched ts us → Any P ts → Any P us
Any-Touched P blind ended h = h
Any-Touched P blind (touched t at r) (inl h) = inl (blind t at h)
Any-Touched P blind (touched t at r) (inr h) = inr (Any-Touched P blind r h)

-- After a reset nothing is claimed.
pub reset_rows-free :
    (P : Timer → Type 0) (ts : List Timer)
    → Blind P
    → Any P ts
    → Any (λ t. P t × (t.claimed_at ≡ none)) (reset_rows ts)
unfolding reset_rows
reset_rows-free P [] blind h = absurd h
reset_rows-free P (t ∷ ts) blind (inl h) = inl (blind t none h, refl)
reset_rows-free P (t ∷ ts) blind (inr h) = inr (reset_rows-free P ts blind h)

pub All-Touched :
    (P : Timer → Type 0) {ts us : List Timer} → Blind P → Touched ts us → All P ts → All P us
All-Touched P blind ended h = tt
All-Touched P blind (touched t at r) (h, hs) = (blind t at h, All-Touched P blind r hs)

pub Ascending-Touched : {ts us : List Timer} → Touched ts us → Ascending ts → Ascending us
Ascending-Touched ended h = tt
Ascending-Touched (touched t at r) (above, h) =
    (All-Touched (λ u. t.id < u.id) (λ u at lt. lt) r above, Ascending-Touched r h)

pub Any-left : (P : Timer → Type 0) (ts us : List Timer) → Any P ts → Any P (ts ++ us)
Any-left P [] us h = absurd h
Any-left P (t ∷ ts) us (inl h) = inl h
Any-left P (t ∷ ts) us (inr h) = inr (Any-left P ts us h)

pub Any-map :
    (P Q : Timer → Type 0) (ts : List Timer) → ((t : Timer) → P t → Q t) → Any P ts → Any Q ts
Any-map P Q [] f h = absurd h
Any-map P Q (t ∷ ts) f (inl h) = inl (f t h)
Any-map P Q (t ∷ ts) f (inr h) = inr (Any-map P Q ts f h)

-- The row with the id of `t` is `t` itself, but for what a claim changes.
abbrev pub Same : Timer → Timer → Type 0
Same t u = u.id ≡ t.id → (u.kind ≡ t.kind) × (u.payload ≡ t.payload) × (u.receipt_id ≡ t.receipt_id)

above-Same : (t : Timer) (us : List Timer) → All (λ u. t.id < u.id) us → All (Same t) us
above-Same t us h = All-map (λ u. t.id < u.id) (Same t) us (λ u lt e. absurd (omega arith)) h

below_all :
    (t : Timer) (xs us : List Timer)
    → All (λ x. t.id < x.id) xs
    → All (λ x. All (Same x) us) xs
    → All (λ x. All (Same x) (t ∷ us)) xs
below_all t [] us lt h = tt
below_all t (x ∷ xs) us (lt, lts) (h, hs) =
    (((λ e. absurd (omega arith)), h), below_all t xs us lts hs)

-- What a claim hands out stands in the table.
pub claim_rows-Same :
    (now limit : ℕ) (ts : List Timer)
    → Ascending ts
    → All (λ t. All (Same t) (claim_rows now limit ts).1) (claim_rows now limit ts).0
unfolding claim_rows
claim_rows-Same now zero ts h = tt
claim_rows-Same now (suc n) [] h = tt
claim_rows-Same now (suc n) (t ∷ ts) (above, h) = elim (Bool-cases (due now t)) [
  | inl ripe ↦
      let (handed, left) = claim_rows-All (λ i. t.id < i) now n ts above in
      rw ripe (
        (
          (λ e. (refl, refl, refl)),
          above-Same (record t { claimed_at = some now }) (claim_rows now n ts).1 left,
        ),
        below_all (record t { claimed_at = some now }) (claim_rows now n ts).0
            (claim_rows now n ts).1 handed (claim_rows-Same now n ts h),
      )
  | inr not_yet ↦
      let (handed, left) = claim_rows-All (λ i. t.id < i) now (suc n) ts above in
      rw not_yet (
        below_all t (claim_rows now (suc n) ts).0 (claim_rows now (suc n) ts).1 handed
          (claim_rows-Same now (suc n) ts h))
]
