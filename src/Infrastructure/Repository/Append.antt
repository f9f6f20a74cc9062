-- ===== src/Infrastructure/Repository/Append.antt =====
-- What an append does to the log and the outbox, and the invariant that it keeps.
use cloud_commander.Prelude.{ℕ, ◌≡◌, ◌↔◌, ◌⊎◌, true, none, some, List, [], ◌∷◌, arith, All, In}
use cloud_commander.Uuid.{Uuid}
use cloud_commander.Errors.{ok, >>=-eq-ok}
use cloud_commander.Security.HashChain.{Hasher}
use cloud_commander.Domain.Schemas.{EventEnvelope}
use cloud_commander.Infrastructure.Database.{
  EventRow, OutboxRow, Db, any, in_stream, hash_required, pending, insert_event, insert_outbox,
}
use cloud_commander.Infrastructure.Database.Laws.{
  Inserts, Unique, insert_event-eq-ok, insert_event_ok,
}
use cloud_commander.Infrastructure.Repository.{
  Codec, get_latest_hash, verify_row, event_row, append_on, append_with_conn,
}

abbrev pub outbox_row : ℕ → Uuid → Uuid → OutboxRow
outbox_row now event tenant = record {
  event_id = event;
  tenant_id = tenant;
  status = pending;
  attempts = 0;
  created_at = now;
  last_attempt_at = none;
  processed_at = none;
  error_payload = none;
}

module _ {J : Type 0} where
  -- The previous hash is that of an earlier event of the stream, or there is none, as only the
  -- first version may have it.
  abbrev pub Links : EventRow J → List (EventRow J) → Type 0
  Links r rows =
      (hash_required r ≡ true)
      × ((r.previous_hash ≡ none)
          ⊎ ((q : EventRow J) × In q rows
              × (in_stream r.tenant_id r.aggregate_id q ≡ true)
              × (r.previous_hash ≡ some q.event_hash)))

  abbrev pub Linked : List (EventRow J) → Type 0
  Linked [] = Unit
  Linked (r ∷ rows) = Links r rows × Linked rows

  -- Every event has its one entry in the outbox, and the outbox has no other.
  abbrev pub Paired : List (EventRow J) → List OutboxRow → Type 0
  Paired [] [] = Unit
  Paired [] (o ∷ os) = ⊥
  Paired (r ∷ rows) [] = ⊥
  Paired (r ∷ rows) (o ∷ os) =
      (o.event_id ≡ r.event_id) × (o.tenant_id ≡ r.tenant_id) × Paired rows os

pub record IsWellFormed {F J : Type 0} ⦃hasher : Hasher J⦄ (db : Db F J) : Type 0 where
  pub unique : Unique db.events
  pub verified : All (λ r. verify_row r ≡ ok tt) db.events
  pub linked : Linked db.events
  pub paired : Paired db.events db.outbox

module _ {F J : Type 0} ⦃hasher : Hasher J⦄ ⦃codec : Codec F J⦄ where
  -- The row that an append to this database would write
  abbrev pub next_row : EventEnvelope F J → Db F J → EventRow J
  next_row e db = event_row e (get_latest_hash e.tenant_id e.aggregate_id db)

  -- The database after it, where the head was read as `seen`
  abbrev pub appended_on : ℕ → EventEnvelope F J → Db F J → Db F J → Db F J
  appended_on now e seen db = record db {
    events = next_row e seen ∷ db.events;
    outbox = outbox_row now e.event_id e.tenant_id ∷ db.outbox;
  }

  abbrev pub appended : ℕ → EventEnvelope F J → Db F J → Db F J
  appended now e db = appended_on now e db db

  enqueue_ok :
      (now : ℕ) (e : EventEnvelope F J) (seen db : Db F J)
      → insert_outbox now e.event_id e.tenant_id
          (record db { events = next_row e seen ∷ db.events })
        ≡ ok (appended_on now e seen db)
  unfolding insert_outbox event_row any
  enqueue_ok now e seen db = ground arith

  -- An append inside a transaction succeeds exactly if its row passes every constraint, and has
  -- then added that row and one pending outbox entry, and nothing else.
  pub append_on-eq-ok :
      (now : ℕ) (e : EventEnvelope F J) (seen db db' : Db F J)
      → (append_on now e seen db ≡ ok (tt, db'))
        ↔ (Inserts (next_row e seen) db.events × (db' ≡ appended_on now e seen db))
  unfolding append_on
  append_on-eq-ok now e seen db db' = (forth, back)
    where
      forth :
          append_on now e seen db ≡ ok (tt, db')
          → Inserts (next_row e seen) db.events × (db' ≡ appended_on now e seen db)
      forth h =
          let (mid, inserted, rest) = >>=-eq-ok (insert_event (next_row e seen) db) _ h in
          let got = insert_event-eq-ok (next_row e seen) db mid inserted in
          let rest' = rw (got.1, enqueue_ok now e seen db) at rest in (got.0, cc (rest'))

      back :
          Inserts (next_row e seen) db.events × (db' ≡ appended_on now e seen db)
          → append_on now e seen db ≡ ok (tt, db')
      back g = rw (insert_event_ok (next_row e seen) db g.0, enqueue_ok now e seen db, g.1)

  pub append_with_conn-eq-ok :
      (now : ℕ) (e : EventEnvelope F J) (db db' : Db F J)
      → (append_with_conn now e db ≡ ok (tt, db'))
        ↔ (Inserts (next_row e db) db.events × (db' ≡ appended now e db))
  unfolding append_with_conn
  append_with_conn-eq-ok now e db db' = append_on-eq-ok now e db db db'
