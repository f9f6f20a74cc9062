-- ===== src/Worker/Outbox/Claim.antt =====
-- Which entries a claim takes.
use cloud_commander.Prelude.{
  ℕ, zero, suc, ◌≤◌, ◌≡◌, refl, ap, ◌∙◌, ◌↔◌, ◌⊎◌, inl, inr, Bool, true, false, not, ◌&&◌, List, [],
  ◌∷◌, map, arith, leb, Bool-cases, leb-true, leb-false, length, All, All-map, In, All-In, kept,
  skipped,
}
use cloud_commander.Uuid.{Uuid}
use cloud_commander.Infrastructure.Database.{OutboxRow}
use cloud_commander.Worker.Outbox.{due, insert_oldest, due_rows, limit, claimed}

-- The oldest entry stands first.
abbrev IsSorted : List OutboxRow → Type 0
IsSorted [] = Unit
IsSorted (r ∷ rows) = All (λ q. r.created_at ≤ q.created_at) rows × IsSorted rows

insert_oldest-In :
    (r x : OutboxRow) (rows : List OutboxRow) → In x (insert_oldest r rows) ↔ ((x ≡ r) ⊎ In x rows)
unfolding insert_oldest
insert_oldest-In r x [] = (λ i. i, λ i. i)
insert_oldest-In r x (q ∷ rows) =
    let ih = insert_oldest-In r x rows in
    elim (Bool-cases (leb r.created_at q.created_at)) [
      | inl e ↦ rw (e, insert_oldest) (λ i. i, λ i. i)
      | inr e ↦ rw (e, insert_oldest) (λ i. ground (arith, ih), λ i. ground (arith, ih))
    ]

insert_oldest-All :
    (n : ℕ) (r : OutboxRow) (rows : List OutboxRow)
    → n ≤ r.created_at
    → All (λ q. n ≤ q.created_at) rows
    → All (λ q. n ≤ q.created_at) (insert_oldest r rows)
unfolding insert_oldest
insert_oldest-All n r [] h a = (h, tt)
insert_oldest-All n r (q ∷ rows) h a = elim (Bool-cases (leb r.created_at q.created_at)) [
  | inl e ↦ rw (e, insert_oldest) (h, a)
  | inr e ↦ rw (e, insert_oldest) (a.0, insert_oldest-All n r rows h a.1)
]

insert_oldest-IsSorted :
    (r : OutboxRow) (rows : List OutboxRow) → IsSorted rows → IsSorted (insert_oldest r rows)
unfolding insert_oldest
insert_oldest-IsSorted r [] s = (tt, tt)
insert_oldest-IsSorted r (q ∷ rows) s = elim (Bool-cases (leb r.created_at q.created_at)) [
  | inl e ↦
      let h = leb-true _ _ e in
      rw (e, insert_oldest)
        (
          (
            h,
            All-map (λ x. q.created_at ≤ x.created_at) (λ x. r.created_at ≤ x.created_at)
                (λ x g. omega (arith, h, g)) rows s.0,
          ),
          s,
        )
  | inr e ↦
      let h = leb-false _ _ e in
      rw (e, insert_oldest)
        (
          insert_oldest-All q.created_at r rows (omega (arith, h)) s.0,
          insert_oldest-IsSorted r rows s.1,
        )
]

module _ (locked : OutboxRow → Bool) (now : ℕ) where
  -- What the query may take: a due entry whose row is free
  abbrev pub Free : OutboxRow → Type 0
  Free r = (due now r ≡ true) × (locked r ≡ false)

  frees : (r : OutboxRow) → (due now r && not (locked r) ≡ true) ↔ Free r
  frees r = (λ e. ground arith, λ f. ground arith)

  due_rows-In :
      (x : OutboxRow) (rows : List OutboxRow)
      → In x (due_rows locked now rows) ↔ (In x rows × Free x)
  unfolding due_rows
  due_rows-In x [] = (λ i. absurd i, λ i. i.0)
  due_rows-In x (r ∷ rows) =
      let ih = due_rows-In x rows in
      elim (Bool-cases (due now r && not (locked r))) [
        | inl e ↦
            rw (e, due_rows) (kept (insert_oldest-In r x _) ih (λ same. rw same ((frees r).0 e)))
        | inr e ↦ rw (e, due_rows) (skipped ih (λ same f. cc (e, (frees r).1 (rw (← same) f))))
      ]

  due_rows-IsSorted : (rows : List OutboxRow) → IsSorted (due_rows locked now rows)
  unfolding due_rows
  due_rows-IsSorted [] = tt
  due_rows-IsSorted (r ∷ rows) = elim (Bool-cases (due now r && not (locked r))) [
    | inl e ↦ rw (e, due_rows) (insert_oldest-IsSorted r _ (due_rows-IsSorted rows))
    | inr e ↦ rw (e, due_rows) (due_rows-IsSorted rows)
  ]

-- A limit keeps a prefix.
length-limit : (n : ℕ) (rows : List OutboxRow) → length (limit n rows) ≤ n
unfolding limit
length-limit zero rows = omega arith
length-limit (suc n) [] = omega arith
length-limit (suc n) (r ∷ rows) = omega (arith, length-limit n rows)

In-limit : (n : ℕ) (x : OutboxRow) (rows : List OutboxRow) → In x (limit n rows) → In x rows
unfolding limit
In-limit zero x rows i = absurd i
In-limit (suc n) x [] i = i
In-limit (suc n) x (r ∷ rows) (inl e) = inl e
In-limit (suc n) x (r ∷ rows) (inr i) = inr (In-limit n x rows i)

-- What a limit leaves out stands behind all that it keeps.
limit-oldest :
    (n : ℕ) (x : OutboxRow) (rows : List OutboxRow)
    → IsSorted rows
    → In x rows
    → In x (limit n rows)
      ⊎ ((length (limit n rows) ≡ n)
          × ((q : OutboxRow) → In q (limit n rows) → q.created_at ≤ x.created_at))
unfolding limit
limit-oldest zero x rows s i = inr (refl, λ q j. absurd j)
limit-oldest (suc n) x [] s i = absurd i
limit-oldest (suc n) x (r ∷ rows) s (inl e) = inl (inl e)
limit-oldest (suc n) x (r ∷ rows) s (inr i) = elim (limit-oldest n x rows s.1 i) [
  | inl j ↦ inl (inr j)
  | inr (full, older) ↦ inr (omega (arith, full), both older)
]
  where
    both :
        ((q : OutboxRow) → In q (limit n rows) → q.created_at ≤ x.created_at)
        → (q : OutboxRow) → In q (limit (suc n) (r ∷ rows))
        → q.created_at ≤ x.created_at
    both older q (inl e) = rw e (All-In (λ q. r.created_at ≤ q.created_at) x rows s.0 i)
    both older q (inr j) = older q j

In-ids :
    (id : Uuid) (rows : List OutboxRow)
    → In id (map (λ r. r.event_id) rows) ↔ ((r : OutboxRow) × In r rows × (id ≡ r.event_id))
In-ids id [] = (λ i. absurd i, λ i. i.1)
In-ids id (r ∷ rows) = let ih = In-ids id rows in (forth ih, back ih)
  where
    forth :
        In id (map (λ r. r.event_id) rows) ↔ ((q : OutboxRow) × In q rows × (id ≡ q.event_id))
        → In id (map (λ r. r.event_id) (r ∷ rows))
        → (q : OutboxRow) × In q (r ∷ rows) × (id ≡ q.event_id)
    forth ih (inl e) = (r, inl refl, e)
    forth ih (inr i) = let (q, there, e) = ih.0 i in (q, inr there, e)

    back :
        In id (map (λ r. r.event_id) rows) ↔ ((q : OutboxRow) × In q rows × (id ≡ q.event_id))
        → (q : OutboxRow) × In q (r ∷ rows) × (id ≡ q.event_id)
        → In id (map (λ r. r.event_id) (r ∷ rows))
    back ih (q, inl same, e) = inl (cc (same, e))
    back ih (q, inr there, e) = inr (ih.1 (q, there, e))

length-ids : (rows : List OutboxRow) → length (map (λ r. r.event_id) rows) ≡ length rows
length-ids [] = refl
length-ids (r ∷ rows) = ap suc (length-ids rows)

-- A claim takes at most the size of a batch, only entries that are due and whose rows are free, and
-- passes over such an entry only for a full batch of entries that are not younger.
pub claimed_lem :
    (batch_size : ℕ) (locked : OutboxRow → Bool) (now : ℕ) (rows : List OutboxRow)
    → let ids = claimed batch_size locked now rows in
      (length ids ≤ batch_size)
      × ((id : Uuid)
          → In id ids
          → (r : OutboxRow) × (In r rows × Free locked now r) × (id ≡ r.event_id))
      × ((r : OutboxRow)
          → In r rows
          → Free locked now r
          → In r.event_id ids
            ⊎ ((length ids ≡ batch_size)
                × ((id : Uuid)
                    → In id ids
                    → (q : OutboxRow) × In q rows
                      × (id ≡ q.event_id)
                      × (q.created_at ≤ r.created_at))))
unfolding claimed
claimed_lem batch_size locked now rows =
    let found = due_rows locked now rows in
    let size = length-ids (limit batch_size found) in
    (
      omega (arith, size, length-limit batch_size found),
      λ id i.
          let (r, there, e) = (In-ids id (limit batch_size found)).0 i in
          (r, (due_rows-In locked now r rows).0 (In-limit batch_size r found there), e),
      λ r i f.
          elim (limit-oldest batch_size r found (due_rows-IsSorted locked now rows)
            ((due_rows-In locked now r rows).1 (i, f))) [
              | inl j ↦ inl ((In-ids r.event_id (limit batch_size found)).1 (r, j, refl))
              | inr (full, older) ↦ inr (
                size ∙ full,
                λ id j.
                    let (q, there, e) = (In-ids id (limit batch_size found)).0 j in
                    (
                      q,
                      ((due_rows-In locked now q rows).0 (In-limit batch_size q found there)).0,
                      e,
                      older q there,
                    ),
              )
            ],
    )
