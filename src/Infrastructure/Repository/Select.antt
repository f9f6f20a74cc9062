-- ===== src/Infrastructure/Repository/Select.antt =====
-- The rows that a query on a stream selects, and their order.
use cloud_commander.Prelude.{
  ℕ, ◌<◌, ◌≡◌, sym, ◌∙◌, ◌≢◌, ◌↔◌, ◌⊎◌, inl, inr, Bool, true, false, ◌&&◌, List, [], ◌∷◌, arith,
  ltb, leb, Bool-cases, leb-true, leb-false, tests, All, All-map, In, kept, skipped,
}
use cloud_commander.Uuid.{Uuid}
use cloud_commander.Infrastructure.Database.{EventRow, in_stream}
use cloud_commander.Infrastructure.Database.Laws.{Differ, Unique}
use cloud_commander.Infrastructure.Repository.{insert_row, select_events}

module _ {J : Type 0} where
  -- Rows in strictly ascending order of their sequence numbers, all behind `n`
  abbrev pub IsStrictFrom : ℕ → List (EventRow J) → Type 0
  IsStrictFrom n [] = Unit
  IsStrictFrom n (r ∷ rows) = (n < r.sequence_id) × IsStrictFrom r.sequence_id rows

  -- The condition of the query
  abbrev pub Selected : Uuid → Uuid → ℕ → EventRow J → Type 0
  Selected tenant agg n r = (r.tenant_id ≡ tenant) × (r.aggregate_id ≡ agg) × (n < r.sequence_id)

  insert_row-IsStrictFrom :
      (n : ℕ) (r : EventRow J) (rows : List (EventRow J))
      → n < r.sequence_id
      → All (λ q. q.sequence_id ≢ r.sequence_id) rows
      → IsStrictFrom n rows
      → IsStrictFrom n (insert_row r rows)
  unfolding insert_row
  insert_row-IsStrictFrom n r [] h d a = (h, tt)
  insert_row-IsStrictFrom n r (q ∷ rows) h d a =
      elim (Bool-cases (leb r.sequence_id q.sequence_id)) [
        | inl e ↦ rw (e, insert_row) (h, (omega (tests, d.0, leb-true _ _ e), a.1))
        | inr e ↦
            rw (e, insert_row)
              (a.0, insert_row-IsStrictFrom q.sequence_id r rows (leb-false _ _ e) d.1 a.1)
      ]

  insert_row-In :
      (r x : EventRow J) (rows : List (EventRow J))
      → In x (insert_row r rows) ↔ ((x ≡ r) ⊎ In x rows)
  unfolding insert_row
  insert_row-In r x [] = (λ i. i, λ i. i)
  insert_row-In r x (q ∷ rows) =
      let ih = insert_row-In r x rows in
      elim (Bool-cases (leb r.sequence_id q.sequence_id)) [
        | inl e ↦ rw (e, insert_row) (λ i. i, λ i. i)
        | inr e ↦ rw (e, insert_row) (λ i. ground (arith, ih), λ i. ground (arith, ih))
      ]

  insert_row-All :
      (P : EventRow J → Type 0) (r : EventRow J) (rows : List (EventRow J))
      → P r
      → All P rows
      → All P (insert_row r rows)
  unfolding insert_row
  insert_row-All P r [] h a = (h, tt)
  insert_row-All P r (q ∷ rows) h a = elim (Bool-cases (leb r.sequence_id q.sequence_id)) [
    | inl e ↦ rw (e, insert_row) (h, a)
    | inr e ↦ rw (e, insert_row) (a.0, insert_row-All P r rows h a.1)
  ]

  All-insert_row :
      (P : EventRow J → Type 0) (r : EventRow J) (rows : List (EventRow J))
      → All P (insert_row r rows)
      → P r × All P rows
  unfolding insert_row
  All-insert_row P r [] a = a
  All-insert_row P r (q ∷ rows) a = elim (Bool-cases (leb r.sequence_id q.sequence_id)) [
    | inl e ↦ (rw (e, insert_row) at a)
    | inr e ↦
        let a' = rw (e, insert_row) at a in
        let rest = All-insert_row P r rows a'.1 in (rest.0, (a'.0, rest.1))
  ]

  module _ (tenant agg : Uuid) (n : ℕ) where
    abbrev pub selects : EventRow J → Bool
    selects r = in_stream tenant agg r && ltb n r.sequence_id

    pub selects-Selected : (r : EventRow J) → (selects r ≡ true) ↔ Selected tenant agg n r
    selects-Selected r = (λ e. ground arith, λ s. ground arith)

    not-selects : (r : EventRow J) → selects r ≡ false → ¬ Selected tenant agg n r
    not-selects r h s = cc (h, (selects-Selected r).1 s)

    -- The query returns the rows of the stream behind `n`, all of them and no other.
    pub select_events-In :
        (x : EventRow J) (rows : List (EventRow J))
        → In x (select_events tenant agg n rows) ↔ (In x rows × Selected tenant agg n x)
    unfolding select_events
    select_events-In x [] = (λ i. absurd i, λ i. i.0)
    select_events-In x (r ∷ rows) =
        let ih = select_events-In x rows in
        elim (Bool-cases (selects r)) [
          | inl e ↦
              rw (e, select_events)
                (kept (insert_row-In r x _) ih (λ same. rw same ((selects-Selected r).0 e)))
          | inr e ↦ rw (e, select_events) (skipped ih (λ same s. not-selects r e (rw (← same) s)))
        ]

    pub select_events-All :
        (P : EventRow J → Type 0) (rows : List (EventRow J))
        → All (λ r. Selected tenant agg n r → P r) rows
        → All P (select_events tenant agg n rows)
    unfolding select_events
    select_events-All P [] h = tt
    select_events-All P (r ∷ rows) h = elim (Bool-cases (selects r)) [
      | inl e ↦
          rw (e, select_events)
            (insert_row-All P r _ (h.0 ((selects-Selected r).0 e)) (select_events-All P rows h.1))
      | inr e ↦ rw (e, select_events) (select_events-All P rows h.1)
    ]

    pub All-select_events :
        (P : EventRow J → Type 0) (rows : List (EventRow J))
        → All P (select_events tenant agg n rows)
        → All (λ r. Selected tenant agg n r → P r) rows
    unfolding select_events
    All-select_events P [] h = tt
    All-select_events P (r ∷ rows) h = elim (Bool-cases (selects r)) [
      | inl e ↦
          let got = All-insert_row P r _ (rw (e, select_events) at h) in
          (λ s. got.0, All-select_events P rows got.1)
      | inr e ↦
          (λ s. absurd (not-selects r e s), All-select_events P rows (rw (e, select_events) at h))
    ]

    -- With no two events at one place of a stream the order is strict.
    pub select_events-IsStrictFrom :
        (rows : List (EventRow J)) → Unique rows → IsStrictFrom n (select_events tenant agg n rows)
    unfolding select_events
    select_events-IsStrictFrom [] u = tt
    select_events-IsStrictFrom (r ∷ rows) u = elim (Bool-cases (selects r)) [
      | inl e ↦
          rw (e, select_events)
            (insert_row-IsStrictFrom n r _ ((selects-Selected r).0 e).2
              (select_events-All _ rows (
                All-map (Differ r) (λ q. Selected tenant agg n q → q.sequence_id ≢ r.sequence_id)
                  (λ q d s.
                    let me = (selects-Selected r).0 e in
                    d.sequences (s.0 ∙ sym me.0, s.1 ∙ sym me.1))
                  rows u.0))
              (select_events-IsStrictFrom rows u.1))
      | inr e ↦ rw (e, select_events) (select_events-IsStrictFrom rows u.1)
    ]
