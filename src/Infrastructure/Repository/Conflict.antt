-- ===== src/Infrastructure/Repository/Conflict.antt =====
-- The constraints as the program's own errors: optimistic concurrency and idempotency.
use mathlib.Core.Path.{subst}
use cloud_commander.Prelude.{
  ℕ, ◌≡◌, refl, sym, ap, ◌∙◌, ◌⊎◌, inl, inr, Bool, true, false, ◌||◌, Option, none, some, List, [],
  ◌∷◌, arith, leb, ◌==◌, Bool-cases, Option-cases, All,
}
use cloud_commander.Text.{Text, text_eq}
use cloud_commander.Uuid.{Uuid}
use cloud_commander.Errors.{ok, err, Exc, concurrency_conflict, idempotency_key_in_use}
use cloud_commander.Security.HashChain.{Hasher, is_hex64}
use cloud_commander.Security.HashChain.Laws.{verify_chain-eq-ok, generate_event_hash-IsHash}
use cloud_commander.Domain.Schemas.{EventEnvelope}
use cloud_commander.Infrastructure.Database.{
  EventRow, Db, any, in_stream, same_event_id, same_sequence, same_key, columns_fit, check_row,
  hash_required, previous_format, insert_event,
}
use cloud_commander.Infrastructure.Database.Laws.{
  insert_event_sequence, insert_event_key, transaction_fails,
}
use cloud_commander.Infrastructure.Repository.{
  Codec, newer, head_row, get_latest_hash, verify_row, event_row, append_with_conn, name_conflict,
  sequence_message, key_message, append_event_and_enqueue,
}
use cloud_commander.Infrastructure.Repository.Append.{IsWellFormed, next_row, appended}
use cloud_commander.Infrastructure.Repository.Invariant.{append_outcome, appended-IsWellFormed}

-- SHA-256 digests are 64 lowercase hex digits.
pub record Digests (J : Type 0) ⦃hasher : Hasher J⦄ : Type 0 where
  pub hex64 : (t : Text) → is_hex64 (hasher.sha256_hex t) ≡ true

module _ {J : Type 0} where
  newer-cases :
      (r : EventRow J) (o : Option (EventRow J)) → (newer r o ≡ r) ⊎ (o ≡ some (newer r o))
  newer-cases r none = inl refl
  newer-cases r (some q) = ground arith

  head_row-All :
      (P : EventRow J → Type 0) (tenant agg : Uuid) (rows : List (EventRow J)) (q : EventRow J)
      → All P rows
      → head_row tenant agg rows ≡ some q
      → P q
  unfolding head_row
  head_row-All P tenant agg [] q a h = cc
  head_row-All P tenant agg (r ∷ rows) q a h = elim (Bool-cases (in_stream tenant agg r)) [
    | inl e ↦
        let top : some (newer r (head_row tenant agg rows)) ≡ some q = rw (e, head_row) at h in
        let same : newer r (head_row tenant agg rows) ≡ q = cc in
        elim (newer-cases r (head_row tenant agg rows)) [
          | inl own ↦ rw (sym same ∙ own) a.0
          | inr other ↦ head_row-All P tenant agg rows q a.1 (other ∙ ap some same)
        ]
    | inr e ↦ head_row-All P tenant agg rows q a.1 (rw (e, head_row) at h)
  ]

  -- The stream of the event has an event already, or the event is its first.
  abbrev pub starts : {F : Type 0} → EventEnvelope F J → List (EventRow J) → Bool
  starts e rows = e.sequence_id == 1 || any (in_stream e.tenant_id e.aggregate_id) rows

  head_row-any_stream :
      (tenant agg : Uuid) (rows : List (EventRow J))
      → any (in_stream tenant agg) rows ≡ true
      → (q : EventRow J) × (head_row tenant agg rows ≡ some q)
  unfolding head_row any
  head_row-any_stream tenant agg [] h = cc
  head_row-any_stream tenant agg (r ∷ rows) h = elim (Bool-cases (in_stream tenant agg r)) [
    | inl e ↦ (newer r (head_row tenant agg rows), rw e)
    | inr e ↦
        let (q, found) = head_row-any_stream tenant agg rows (rw (e, any) at h) in (q, rw e found)
  ]

module _ {F J : Type 0} ⦃hasher : Hasher J⦄ ⦃codec : Codec F J⦄ (digests : Digests J) where
  latest-format :
      (tenant agg : Uuid) (db : Db F J)
      → IsWellFormed db
      → (h : Text) → get_latest_hash tenant agg db ≡ some h
      → is_hex64 h ≡ true
  unfolding get_latest_hash verify_row
  latest-format tenant agg db w h found = elim (Option-cases (head_row tenant agg db.events)) [
    | inl e ↦ cc (rw e at found)
    | inr (q, e) ↦
        let same : some q.event_hash ≡ some h = rw e at found in
        let good = head_row-All (λ r. verify_row r ≡ ok tt) tenant agg db.events q w.verified e in
        let shape = (verify_chain-eq-ok _ _ _ _ _ _ _).0 good in
        let hash : q.event_hash ≡ h = cc in rw (← hash) shape.1
  ]

  next_row-hash_required :
      (e : EventEnvelope F J) (db : Db F J)
      → starts e db.events ≡ true
      → leb 1 e.sequence_id ≡ true
      → hash_required (next_row e db) ≡ true
  unfolding hash_required event_row get_latest_hash
  next_row-hash_required e db s h = elim (Bool-cases (e.sequence_id == 1)) [
    | inl first ↦ rw first
    | inr later ↦
        let (q, found) = head_row-any_stream e.tenant_id e.aggregate_id db.events (ground arith) in
        rw (later, found) (ground arith)
  ]

  next_row-previous_format :
      (e : EventEnvelope F J) (db : Db F J)
      → IsWellFormed db
      → previous_format (next_row e db) ≡ true
  unfolding previous_format event_row
  next_row-previous_format e db w =
      elim (Option-cases (get_latest_hash e.tenant_id e.aggregate_id db)) [
        | inl x ↦ rw x
        | inr (h, x) ↦ rw x (latest-format e.tenant_id e.aggregate_id db w h x)
      ]

  next_row-event_format :
      (e : EventEnvelope F J) (db : Db F J) → is_hex64 (next_row e db).event_hash ≡ true
  unfolding event_row
  next_row-event_format e db = generate_event_hash-IsHash _ _ _ _ _ _ digests.hex64

  -- The row of an append passes the CHECK constraints where its stream has a head, or is to get its
  -- first event.
  check_next_row :
      (e : EventEnvelope F J) (db : Db F J)
      → IsWellFormed db
      → starts e db.events ≡ true
      → leb 1 e.sequence_id ≡ true
      → check_row (next_row e db) ≡ ok tt
  unfolding check_row
  check_next_row e db w s h =
      rw (
        next_row-event_format e db,
        next_row-hash_required e db s h,
        next_row-previous_format e db w,
      )

  append_refused :
      (now : ℕ) (e : EventEnvelope F J) (db : Db F J) (x : Exc)
      → insert_event (next_row e db) db ≡ err x
      → append_event_and_enqueue now e db ≡ (err (name_conflict e x), db)
  unfolding append_event_and_enqueue append_with_conn
  append_refused now e db x h =
      let failed : append_with_conn now e db ≡ err x = rw h in
      rw (transaction_fails (append_with_conn now e) db x failed)

  taken-starts :
      (e : EventEnvelope F J) (db : Db F J) (rows : List (EventRow J))
      → any (same_sequence (next_row e db)) rows ≡ true
      → starts e rows ≡ true
  unfolding any event_row
  taken-starts e db [] s = cc
  taken-starts e db (r ∷ rows) s = ground (arith, taken-starts e db rows)

  -- On a well-formed log an event whose place in its stream is taken is refused with the
  -- concurrency conflict, and the database stays as it was, if its id is new, its sequence number
  -- at least 1, its columns fit, and digests are 64 hex digits.
  pub append_taken :
      (now : ℕ) (e : EventEnvelope F J) (db : Db F J)
      → IsWellFormed db
      → leb 1 e.sequence_id ≡ true
      → columns_fit (next_row e db) ≡ true
      → any (same_event_id (next_row e db)) db.events ≡ false
      → any (same_sequence (next_row e db)) db.events ≡ true
      → append_event_and_enqueue now e db
        ≡ (err (concurrency_conflict (sequence_message e.sequence_id e.aggregate_id)), db)
  unfolding name_conflict text_eq
  append_taken now e db w h f i s = append_refused now e db _ (
      insert_event_sequence (next_row e db) db f
        (check_next_row e db w (taken-starts e db db.events s) h) i s)

  -- On a well-formed log a new place in a stream, asked for under a key that the tenant has used,
  -- is refused as a duplicate of the key, and the database stays as it was, if the id is new, the
  -- columns fit, the stream has an event or gets its first one, and digests are 64 hex digits.
  append_key_used :
      (now : ℕ) (e : EventEnvelope F J) (db : Db F J)
      → IsWellFormed db
      → leb 1 e.sequence_id ≡ true
      → starts e db.events ≡ true
      → columns_fit (next_row e db) ≡ true
      → any (same_event_id (next_row e db)) db.events ≡ false
      → any (same_sequence (next_row e db)) db.events ≡ false
      → any (same_key (next_row e db)) db.events ≡ true
      → append_event_and_enqueue now e db
        ≡ (err (idempotency_key_in_use (key_message e.idempotency_key)), db)
  unfolding name_conflict text_eq
  append_key_used now e db w h st f i s k =
      append_refused now e db _
        (insert_event_key (next_row e db) db f (check_next_row e db w st h) i s k)

  taken_by :
      (now : ℕ) (e e' : EventEnvelope F J) (db : Db F J)
      → e'.tenant_id ≡ e.tenant_id
      → e'.aggregate_id ≡ e.aggregate_id
      → e'.sequence_id ≡ e.sequence_id
      → any (same_sequence (next_row e' (appended now e db))) (appended now e db).events ≡ true
  unfolding any event_row
  taken_by now e e' db t a n = ground arith

  -- Of two writers that both expect the same version of a stream of a well-formed log the first
  -- whose append returns wins: the second is refused with the concurrency conflict and changes
  -- nothing, if its id is new, its sequence number at least 1, its columns fit, and digests are 64
  -- hex digits.
  pub first_writer_wins :
      (now now' : ℕ) (e e' : EventEnvelope F J) (db db' : Db F J)
      → IsWellFormed db
      → append_event_and_enqueue now e db ≡ (ok tt, db')
      → e'.tenant_id ≡ e.tenant_id
      → e'.aggregate_id ≡ e.aggregate_id
      → e'.sequence_id ≡ e.sequence_id
      → leb 1 e'.sequence_id ≡ true
      → columns_fit (next_row e' db') ≡ true
      → any (same_event_id (next_row e' db')) db'.events ≡ false
      → append_event_and_enqueue now' e' db'
        ≡ (err (concurrency_conflict (sequence_message e'.sequence_id e'.aggregate_id)), db')
  first_writer_wins now now' e e' db db' w done t a n h f i = elim (append_outcome now e db w) [
    | inl (inserts, same) ↦
        let grown : db' ≡ appended now e db = cc (done, same) in
        append_taken now' e' db' (rw grown (appended-IsWellFormed now e db w inserts)) h f i (
          subst (λ d. any (same_sequence (next_row e' d)) d.events ≡ true) (sym grown)
            (taken_by now e e' db t a n))
    | inr (x, failed, same) ↦ cc (done, same)
  ]
