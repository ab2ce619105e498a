-- ===== src/Timers/Chain.antt =====
-- No emergency is forgotten: server/internal/timers/engine.go and retry.go over time, with
-- server/internal/server/retry.go (SeedRetry), and with what acknowledges, cancels and delivers receipts
-- in between.
use pushfree.Common.{
  ℕ, String, false, Option, some, List, [], ◌∷◌, ◌++◌, ◌≡◌, ◌≢◌, ◌⊎◌, sym, ap, ◌∙◌, subst, arith,
  All, Bool-cases, inl, inr, ◌==◌, ==_iff,
}
use pushfree.Receipts.Rows.{is_open}
use pushfree.Timers.{Timer, Table, create, delete, delete_rows}
use pushfree.Timers.Kept.{Any, Any-end, Any-delete_rows, Any-left, Any-map, Same}
use pushfree.Timers.Retry.{RetryPayload, World, on_table}
use pushfree.Timers.Backed.{Ordered, Backed, create-Ordered, create-Backed, delete-Ordered}
use pushfree.Timers.Handled.{Carries, Extends, Moves, Follows}

All-all : (P : Timer → Type 0) (ts : List Timer) → ((t : Timer) → P t) → All P ts
All-all P [] f = tt
All-all P (t ∷ ts) f = (f t, All-all P ts f)

module _ (decode : String → Option RetryPayload) (encode : RetryPayload → String)
    (decode-encode : (p : RetryPayload) → decode (encode p) ≡ some p) (rid : String) where
  abbrev Own : Timer → Type 0
  Own = Carries decode encode decode-encode rid

  -- The receipt is closed, or has a timer.
  abbrev pub Live : World → Type 0
  Live w = (is_open (w.receipts rid).state ≡ false) ⊎ Any Own w.table.rows

  abbrev pub Inv : World → Type 0
  Inv w = Ordered w.table × Live w

  -- Of a timer and the rows: it is the receipt's own, or the receipt's own has another id.
  Own-or_other :
      (t : Timer) (us : List Timer)
      → All (Same t) us
      → Any Own us
      → Own t ⊎ Any (λ u. Own u × (u.id ≢ t.id)) us
  Own-or_other t [] same h = absurd h
  Own-or_other t (u ∷ us) (same, sames) (inl h) = elim (Bool-cases (u.id == t.id)) [
    | inl its ↦
        let (kind, payload, receipt) = same ((==_iff u.id t.id).0 its) in
        inl (sym kind ∙ h.0, h.1, ap decode (sym payload) ∙ h.2, h.3, sym receipt ∙ h.4)
    | inr other ↦ inr (inl (h, λ e. ground (arith, e, other)))
  ]
  Own-or_other t (u ∷ us) (same, sames) (inr h) = elim (Own-or_other t us sames h) [
    | inl its ↦ inl its
    | inr other ↦ inr (inr other)
  ]

  -- Deleting another timer.
  delete-Own :
      (id : ℕ) (us : List Timer) → Any (λ u. Own u × (u.id ≢ id)) us → Any Own (delete_rows id us)
  delete-Own id us h =
      Any-map (λ u. Own u × (u.id ≢ id)) Own (delete_rows id us) (λ u p. p.0)
        (Any-delete_rows (λ u. Own u × (u.id ≢ id)) id us
          (All-all (λ u. Own u × (u.id ≢ id) → u.id ≢ id) us (λ u p. p.1)) h)

  -- The table of a handler that has written.
  abbrev Wider : Table → Table → Type 0
  Wider = Extends decode encode decode-encode rid

  Wider-Any : (P : Timer → Type 0) (a b : Table) → Wider a b → Any P a.rows → Any P b.rows
  unfolding create
  Wider-Any P a b (inl eq) h = subst (λ x. Any P x.rows) (sym eq) h
  Wider-Any P a b (inr (t, eq)) h =
      subst (λ x. Any P x.rows) (sym eq) (Any-left P a.rows (record t { id = a.next_id } ∷ []) h)

  Wider-Ordered : (a b : Table) → Wider a b → Ordered a → Ordered b
  Wider-Ordered a b (inl eq) h = subst Ordered (sym eq) h
  Wider-Ordered a b (inr (t, eq)) h = subst Ordered (sym eq) (create-Ordered t a h)

  pub Wider-Backed : (a b : Table) (t : Timer) → Wider a b → Backed a t → Backed b t
  Wider-Backed a b t (inl eq) h = subst (λ x. Backed x t) (sym eq) h
  Wider-Backed a b t (inr (n, eq)) h = subst (λ x. Backed x t) (sym eq) (create-Backed n a t h)

  pub Moves-Inv : (w w' : World) → Moves decode encode decode-encode rid w w' → Inv w → Inv w'
  Moves-Inv w w' (table, kept) (order, inl shut) =
      (Wider-Ordered w.table w'.table table order, inl (kept shut))
  Moves-Inv w w' (table, kept) (order, inr own) =
      (Wider-Ordered w.table w'.table table order, inr (Wider-Any Own w.table w'.table table own))

  pub deleted-Inv :
      (t : Timer) (w : World)
      → t.kind ≢ "retry"
      → Backed w.table t
      → Inv w
      → Inv (on_table (delete t.id) w)
  unfolding delete
  deleted-Inv t w other backed (order, inl shut) = (delete-Ordered t.id w.table order, inl shut)
  deleted-Inv t w other backed (order, inr own) = (
    delete-Ordered t.id w.table order,
    elim (Own-or_other t w.table.rows backed.1 own) [
      | inl its ↦ absurd (other its.0)
      | inr others ↦ inr (delete-Own t.id w.table.rows others)
    ],
  )

  next-Own :
      (t next : Timer) (tab : Table)
      → Own next
      → Backed tab t
      → Any Own (delete t.id (create next tab)).rows
  unfolding delete create
  next-Own t next tab own (lt, same) =
      let row : Timer = record next { id = tab.next_id } in
      delete-Own t.id (tab.rows ++ (row ∷ []))
        (Any-end (λ u. Own u × (u.id ≢ t.id)) tab.rows row (own, λ e. absurd (omega arith)))

  pub fired-Inv :
      (t : Timer) (w w' : World)
      → Moves decode encode decode-encode rid w w'
      → Follows decode encode decode-encode rid t w w'
      → Backed w.table t
      → Inv w
      → Inv (on_table (delete t.id) w')
  unfolding delete
  fired-Inv t w w' (table, kept) follows backed (order, live) = (
    delete-Ordered t.id w'.table (Wider-Ordered w.table w'.table table order),
    elim live [
      | inl shut ↦ inl (kept shut)
      | inr any ↦ elim (Own-or_other t w.table.rows backed.1 any) [
        | inl own ↦ elim (follows own) [
          | inl shut ↦ inl shut
          | inr (next, its, eq) ↦ inr (
              subst (λ x. Any Own (delete t.id x).rows) (sym eq)
                (next-Own t next w.table its backed))
        ]
        | inr others ↦ inr (
            delete-Own t.id w'.table.rows
              (Wider-Any (λ u. Own u × (u.id ≢ t.id)) w.table w'.table table others))
      ]
    ],
  )
