-- ===== src/Infrastructure/Database/Laws.antt =====
-- What the constraints of the tables say of a row that was inserted.
use cloud_commander.Prelude.{◌≡◌, refl, ◌≢◌, Bool, true, false, not, List, [], ◌∷◌, arith, All}
use cloud_commander.Text.Laws.{text_eq_iff}
use cloud_commander.Text.{codes}
use cloud_commander.Errors.{
  foreign_key_violation, Result, ok, err, guard, Exc, >>-eq-ok, unique_violation,
}
use cloud_commander.Security.HashChain.{is_hex64}
use cloud_commander.Infrastructure.Database.{
  EventRow, Db, any, all, same_event_id, same_sequence, same_key, same_hash, both_genesis,
  columns_fit, commit_ok, transaction, check_row, check_unique, hash_required, previous_format,
  insert_event, uq_aggregate_sequence, uq_tenant_idempotency,
}

module _ {ℓ} {A : Type ℓ} where
  pub any-false : (p : A → Bool) (xs : List A) → any p xs ≡ false → All (λ x. p x ≡ false) xs
  unfolding any
  any-false p [] h = tt
  any-false p (x ∷ xs) h = (ground arith, any-false p xs (ground arith))

  pub all-true : (p : A → Bool) (xs : List A) → All (λ x. p x ≡ true) xs → all p xs ≡ true
  unfolding all
  all-true p [] h = refl
  all-true p (x ∷ xs) h = ground (arith, all-true p xs h.1)

module _ {J : Type 0} where
  abbrev pub SameStream : EventRow J → EventRow J → Type 0
  SameStream r q = (r.tenant_id ≡ q.tenant_id) × (r.aggregate_id ≡ q.aggregate_id)

  -- No two events share their id, their place in a stream, their key within a tenant or their hash
  -- within a stream.
  pub record Differ (r q : EventRow J) : Type 0 where
    pub ids : q.event_id ≢ r.event_id
    pub sequences : SameStream q r → q.sequence_id ≢ r.sequence_id
    pub keys : q.tenant_id ≡ r.tenant_id → q.idempotency_key ≢ r.idempotency_key
    pub hashes : SameStream q r → q.event_hash ≢ r.event_hash

  abbrev pub Unique : List (EventRow J) → Type 0
  Unique [] = Unit
  Unique (r ∷ rows) = All (Differ r) rows × Unique rows

  -- The constraint tests that an insert of the row passes, one by one.
  pub record Inserts (row : EventRow J) (rows : List (EventRow J)) : Type 0 where
    pub fits : columns_fit row ≡ true
    pub event_format : is_hex64 row.event_hash ≡ true
    pub required : hash_required row ≡ true
    pub previous : previous_format row ≡ true
    pub new_id : any (same_event_id row) rows ≡ false
    pub new_sequence : any (same_sequence row) rows ≡ false
    pub new_key : any (same_key row) rows ≡ false
    pub new_hash : any (same_hash row) rows ≡ false

  Differ-of_tests :
      (r q : EventRow J)
      → same_event_id r q ≡ false
      → same_sequence r q ≡ false
      → same_key r q ≡ false
      → same_hash r q ≡ false
      → Differ r q
  Differ-of_tests r q i s k h = record {
    ids = λ e. ground arith;
    sequences = λ t e. ground arith;
    keys = λ t e. ground (arith, (text_eq_iff q.idempotency_key r.idempotency_key).1 e);
    hashes = λ t e. ground (arith, (text_eq_iff q.event_hash r.event_hash).1 e);
  }

  Differ-All :
      (r : EventRow J) (rows : List (EventRow J))
      → any (same_event_id r) rows ≡ false
      → any (same_sequence r) rows ≡ false
      → any (same_key r) rows ≡ false
      → any (same_hash r) rows ≡ false
      → All (Differ r) rows
  unfolding any
  Differ-All r [] i s k h = tt
  Differ-All r (q ∷ rows) i s k h = (
    Differ-of_tests r q (ground arith) (ground arith) (ground arith) (ground arith),
    Differ-All r rows (ground arith) (ground arith) (ground arith) (ground arith),
  )

  pub Inserts-Differ :
      {row : EventRow J} {rows : List (EventRow J)} → Inserts row rows → All (Differ row) rows
  Inserts-Differ {row} {rows} h = Differ-All row rows h.new_id h.new_sequence h.new_key h.new_hash

pub guard-eq-ok : (b : Bool) (e : Exc) → guard b e ≡ ok tt → b ≡ true
guard-eq-ok true e h = refl
guard-eq-ok false e h = cc

module _ {J : Type 0} where
  check_row-eq-ok :
      (row : EventRow J)
      → check_row row ≡ ok tt
      → (is_hex64 row.event_hash ≡ true) × (hash_required row ≡ true) × (previous_format row ≡ true)
  unfolding check_row
  check_row-eq-ok row h =
      let first = (>>-eq-ok (guard (is_hex64 row.event_hash) _) _ tt).0 h in
      let second = (>>-eq-ok (guard (hash_required row) _) _ tt).0 first.1 in
      (guard-eq-ok _ _ first.0, guard-eq-ok _ _ second.0, guard-eq-ok _ _ second.1)

  check_unique-eq-ok :
      (row : EventRow J) (rows : List (EventRow J))
      → check_unique row rows ≡ ok tt
      → (not (any (same_event_id row) rows) ≡ true)
        × (not (any (same_sequence row) rows) ≡ true)
        × (not (any (same_key row) rows) ≡ true)
        × (not (any (same_hash row) rows) ≡ true)
  unfolding check_unique
  check_unique-eq-ok row rows h =
      let a = (>>-eq-ok (guard (not (any (same_event_id row) rows)) _) _ tt).0 h in
      let b = (>>-eq-ok (guard (not (any (same_sequence row) rows)) _) _ tt).0 a.1 in
      let c = (>>-eq-ok (guard (not (any (same_key row) rows)) _) _ tt).0 b.1 in
      let d = (>>-eq-ok (guard (not (any (both_genesis row) rows)) _) _ tt).0 c.1 in
      (guard-eq-ok _ _ a.0, guard-eq-ok _ _ b.0, guard-eq-ok _ _ c.0, guard-eq-ok _ _ d.1)

both_genesis-false :
    {J : Type 0} (row : EventRow J) (rows : List (EventRow J))
    → any (same_sequence row) rows ≡ false
    → any (both_genesis row) rows ≡ false
unfolding any
both_genesis-false row [] h = refl
both_genesis-false row (r ∷ rows) h = ground (arith, both_genesis-false row rows)

not-true : (b : Bool) → not b ≡ true → b ≡ false
not-true true h = cc
not-true false h = refl

module _ {F J : Type 0} where
  -- An insert that succeeds has passed every constraint and put the row into the table.
  pub insert_event-eq-ok :
      (row : EventRow J) (db db' : Db F J)
      → insert_event row db ≡ ok db'
      → Inserts row db.events × (db' ≡ record db { events = row ∷ db.events })
  unfolding insert_event
  insert_event-eq-ok row db db' h =
      let a = (>>-eq-ok (guard (columns_fit row) _) _ db').0 h in
      let b = (>>-eq-ok (check_row row) _ db').0 a.1 in
      let c = (>>-eq-ok (check_unique row db.events) _ db').0 b.1 in
      let checks = check_row-eq-ok row b.0 in
      let unique = check_unique-eq-ok row db.events c.0 in
      (
        record {
          fits = guard-eq-ok _ _ a.0;
          event_format = checks.0;
          required = checks.1;
          previous = checks.2;
          new_id = not-true _ unique.0;
          new_sequence = not-true _ unique.1;
          new_key = not-true _ unique.2;
          new_hash = not-true _ unique.3;
        },
        cc (c.1),
      )

  -- A row that passes the tests is inserted.
  pub insert_event_ok :
      (row : EventRow J) (db : Db F J)
      → Inserts row db.events
      → insert_event row db ≡ ok (record db { events = row ∷ db.events })
  unfolding insert_event check_row check_unique
  insert_event_ok row db h = rw (
    h.fits,
    h.event_format,
    h.required,
    h.previous,
    h.new_id,
    h.new_sequence,
    h.new_key,
    both_genesis-false row db.events h.new_sequence,
    h.new_hash,
  )

  -- A row whose place in the stream is taken is refused by the constraint on the sequence.
  pub insert_event_sequence :
      (row : EventRow J) (db : Db F J)
      → columns_fit row ≡ true
      → check_row row ≡ ok tt
      → any (same_event_id row) db.events ≡ false
      → any (same_sequence row) db.events ≡ true
      → insert_event row db ≡ err (unique_violation uq_aggregate_sequence)
  unfolding insert_event check_unique
  insert_event_sequence row db f c i s = rw (f, c, i, s)

  -- A new place in the stream with a key that the tenant has used is refused by the constraint on
  -- the key.
  pub insert_event_key :
      (row : EventRow J) (db : Db F J)
      → columns_fit row ≡ true
      → check_row row ≡ ok tt
      → any (same_event_id row) db.events ≡ false
      → any (same_sequence row) db.events ≡ false
      → any (same_key row) db.events ≡ true
      → insert_event row db ≡ err (unique_violation uq_tenant_idempotency)
  unfolding insert_event check_unique
  insert_event_key row db f c i s k = rw (f, c, i, s, k)

  pub transaction_commits {ℓ} :
      {A : Type ℓ} (body : Db F J → Result (A × Db F J)) (db db' : Db F J) (a : A)
      → body db ≡ ok (a, db')
      → commit_ok db' ≡ true
      → transaction body db ≡ (ok a, db')
  unfolding transaction
  transaction_commits body db db' a h c = rw (h, transaction) (rw c)

  pub transaction_undone {ℓ} :
      {A : Type ℓ} (body : Db F J → Result (A × Db F J)) (db db' : Db F J) (a : A)
      → body db ≡ ok (a, db')
      → commit_ok db' ≡ false
      → (x : Exc) × (transaction body db ≡ (err x, db))
  unfolding transaction
  transaction_undone body db db' a h c =
      (foreign_key_violation (codes "fk_events_previous_hash"), rw (h, transaction) (rw c))

  pub transaction_fails {ℓ} :
      {A : Type ℓ} (body : Db F J → Result (A × Db F J)) (db : Db F J) (e : Exc)
      → body db ≡ err e
      → transaction body db ≡ (err e, db)
  unfolding transaction
  transaction_fails body db e h = rw (h, transaction)
