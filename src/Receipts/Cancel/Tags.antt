-- ===== src/Receipts/Cancel/Tags.antt =====
-- `CancelByTag` of server/internal/receipts/cancel.go against what it promises.
use pushfree.Common.{
  ℕ, String, Bool, true, false, some, List, [], ◌∷◌, ◌++◌, ◌≡◌, ◌↔◌, refl, ap, sym, ◌∙◌, any, map,
  All, Bool-cases, inl, inr, if◌then◌else◌, str_eq, arith,
}
use pushfree.Receipts.{pending, canceled, same}
use pushfree.Receipts.Rows.{Row, cancel_pending}
use pushfree.Receipts.Cancel.{
  Entry, Db, Faults, update_pending, cancel_pending_in, delete_timers, matches,
  list_cancellable_by_tag, cancel_all, cancel_by_tag, affects,
}
use pushfree.Receipts.Cancel.Listed.{Distinct, All-zip, listed, IsMeant, matches_iff}

-- The receipt canceled at an instant.
abbrev pub call_off : ℕ → Entry → Entry
call_off at e = record e { row = record e.row { state = canceled; canceled_at = some at } }

abbrev try_off : ℕ → Entry → Entry
try_off at e = record e { row = (cancel_pending at e.row).0 }

abbrev cancel_if : ℕ → List String → Entry → Entry
cancel_if at ids e = if any (str_eq e.id) ids then try_off at e else e

cancel_pending_idem :
    (at : ℕ) (r : Row) → (cancel_pending at (cancel_pending at r).0).0 ≡ (cancel_pending at r).0
unfolding cancel_pending same
cancel_pending_idem at r = elim (Bool-cases (same r.state pending)) [
  | inl waiting ↦ rw waiting
  | inr past ↦ rw past (rw past)
]

try_off_idem : (at : ℕ) (e : Entry) → try_off at (try_off at e) ≡ try_off at e
try_off_idem at e = ap (λ r. record e { row = r }) (cancel_pending_idem at e.row)

cancel_if-step :
    (at : ℕ) (id : String) (ids : List String) (e : Entry)
    → cancel_if at ids (if str_eq e.id id then try_off at e else e) ≡ cancel_if at (id ∷ ids) e
cancel_if-step at id ids e = elim (Bool-cases (str_eq e.id id)) [
  | inl mine ↦ elim (Bool-cases (any (str_eq e.id) ids)) [
    | inl again ↦ rw (mine, again) (try_off_idem at e)
    | inr once ↦ rw (mine, once)
  ]
  | inr other ↦ rw other
]

map-cancel_if :
    (at : ℕ) (id : String) (ids : List String) (es : List Entry)
    → map (cancel_if at ids) (update_pending id at es) ≡ map (cancel_if at (id ∷ ids)) es
unfolding update_pending
map-cancel_if at id ids [] = refl
map-cancel_if at id ids (e ∷ es) =
    ap (λ x. x ∷ map (cancel_if at ids) (update_pending id at es)) (cancel_if-step at id ids e)
    ∙ ap (λ xs. cancel_if at (id ∷ ids) e ∷ xs) (map-cancel_if at id ids es)

map_none : (at : ℕ) (es : List Entry) → map (cancel_if at []) es ≡ es
map_none at [] = refl
map_none at (e ∷ es) = ap (λ xs. e ∷ xs) (map_none at es)

pub timers-receipts :
    (fails : Bool) (id : String) (db : Db) → (delete_timers fails id db).receipts ≡ db.receipts
unfolding delete_timers
timers-receipts true id db = refl
timers-receipts false id db = refl

-- Where no update fails, a batch calls off the receipts with the ids that it is given.
cancel_all-receipts :
    (f : Faults)
    → ((id : String) → f.update_fails id ≡ false)
    → (at : ℕ) (ids got : List String) (db : Db)
    → ((cancel_all f at ids got db).db.receipts ≡ map (cancel_if at ids) db.receipts)
      × ((cancel_all f at ids got db).failed ≡ false)
unfolding cancel_all cancel_pending_in
cancel_all-receipts f sound at [] got db = (sym (map_none at db.receipts), refl)
cancel_all-receipts f sound at (id ∷ ids) got db = elim (Bool-cases (affects id db.receipts)) [
  | inl hit ↦
      let db' = record db { receipts = update_pending id at db.receipts } in
      let gone = delete_timers (f.delete_fails id) id db' in
      let (rest, fine) = cancel_all-receipts f sound at ids (got ++ (id ∷ [])) gone in
      rw (sound id, hit)
        (
          rest
              ∙ ap (map (cancel_if at ids)) (timers-receipts (f.delete_fails id) id db')
              ∙ map-cancel_if at id ids db.receipts,
          fine,
        )
  | inr miss ↦
      let db' = record db { receipts = update_pending id at db.receipts } in
      let (rest, fine) = cancel_all-receipts f sound at ids got db' in
      rw (sound id, miss) (rest ∙ map-cancel_if at id ids db.receipts, fine)
]

map-agree : (f g : Entry → Entry) (es : List Entry) → All (λ e. f e ≡ g e) es → map f es ≡ map g es
map-agree f g [] h = refl
map-agree f g (e ∷ es) (he, h) =
    ap (λ x. x ∷ map f es) he ∙ ap (λ xs. g e ∷ xs) (map-agree f g es h)

meant-call_off :
    (tag : String) (app_id at : ℕ) (e : Entry)
    → (if matches tag app_id e then try_off at e else e)
      ≡ (if matches tag app_id e then call_off at e else e)
unfolding matches cancel_pending
meant-call_off tag app_id at e = elim (Bool-cases (same e.row.state pending)) [
  | inl waiting ↦ rw waiting
  | inr past ↦ rw past (ground arith)
]

map-meant :
    (tag : String) (app_id at : ℕ) (es : List Entry)
    → map (λ e. if matches tag app_id e then try_off at e else e) es
      ≡ map (λ e. if matches tag app_id e then call_off at e else e) es
map-meant tag app_id at [] = refl
map-meant tag app_id at (e ∷ es) =
    ap (λ x. x ∷ map (λ e. if matches tag app_id e then try_off at e else e) es)
      (meant-call_off tag app_id at e)
    ∙ ap (λ xs. (if matches tag app_id e then call_off at e else e) ∷ xs)
        (map-meant tag app_id at es)

-- Where the ids of the receipts are distinct and no statement on them fails, a cancellation by tag
-- puts every receipt that has the tag, is pending and whose send is the app's in the state canceled
-- with the instant of the cancellation, changes nothing else of it, and changes no other receipt.
pub cancel_by_tag_lem :
    (f : Faults) (tag : String) (app_id at : ℕ) (db : Db)
    → f.list_fails ≡ false
    → ((id : String) → f.update_fails id ≡ false)
    → Distinct db.receipts
    → let batch = cancel_by_tag f tag app_id at db in
      (batch.db.receipts ≡ map (λ e. if matches tag app_id e then call_off at e else e) db.receipts)
      × ((e : Entry) → (matches tag app_id e ≡ true) ↔ IsMeant tag app_id e)
      × (batch.failed ≡ false)
unfolding cancel_by_tag
cancel_by_tag_lem f tag app_id at db listing sound distinct =
    let ids = list_cancellable_by_tag tag app_id db.receipts in
    let (made, fine) = cancel_all-receipts f sound at ids [] db in
    let spec : Entry → Entry = λ e. if matches tag app_id e then try_off at e else e in
    let pick : Entry → Bool → Entry = λ e b. if b then try_off at e else e in
    let agree =
      All-zip (λ e same _. ap (pick e) same) db.receipts (listed tag app_id db.receipts distinct)
        (listed tag app_id db.receipts distinct) in
    rw listing (
      made
          ∙ map-agree (cancel_if at ids) spec db.receipts agree
          ∙ map-meant tag app_id at db.receipts,
      matches_iff tag app_id,
      fine,
    )
