-- ===== src/Worker/Records/Settles.antt =====
-- How a processed entry ends, and what the log keeps.
use cloud_commander.Prelude.{
  ℕ, ◌≡◌, refl, ◌⊎◌, inl, inr, Bool, true, false, Option, none, some, List, [], ◌∷◌, arith, leb,
  ◌==◌, Bool-cases, All,
}
use cloud_commander.Text.{Text}
use cloud_commander.Uuid.{Uuid}
use cloud_commander.Float.{Float}
use cloud_commander.Errors.{Result, ok, err, >>=-eq-ok, Result-cases}
use cloud_commander.Security.HashChain.{Hasher}
use cloud_commander.Infrastructure.Database.{
  Db, OutboxRow, processed, failed, dead_letter, transaction, commit_ok,
}
use cloud_commander.Infrastructure.Database.Laws.{
  transaction_fails, transaction_commits, transaction_undone,
}
use mathlib.Core.Path.{subst}
use cloud_commander.Domain.Schemas.{ResourceNodeSnapshot}
use cloud_commander.Infrastructure.Repository.{
  Codec, upsert_node_projection, insert_guardrail_alert,
}
use cloud_commander.Infrastructure.Repository.Append.{IsWellFormed}
use cloud_commander.Worker.Outbox.Settled.{queue-IsWellFormed}
use cloud_commander.Worker.Followups.Laws.{emit_compensation_followups-IsWellFormed}
use cloud_commander.Worker.Guardrail.{GuardrailState}
use cloud_commander.Worker.Processing.{should_apply_projection}
use cloud_commander.Infrastructure.Adapters.{CloudAdapter}
use cloud_commander.Worker.Outbox.{
  mark_processed, mark_failed, update_rows, failed_row, processed_row, max_attempts,
}
use cloud_commander.Worker.Followups.{emit_compensation_followups}
use cloud_commander.Worker.Records.{
  LibraryTexts, WorkerState, Clock, Prepared, exc_str, finish, settle, settle_or_fail,
  fail_if_raised, read_and_prepare, process_record, apply_projection, apply_alert,
}

-- Processed, or failed, to be tried again or given up
abbrev pub Ended : OutboxRow → Type 0
Ended o = (o.status ≡ processed) ⊎ ((o.status ≡ failed) ⊎ (o.status ≡ dead_letter))

failed_row-Ended : (n : ℕ) (m : Text) (o : OutboxRow) → Ended (failed_row n m o)
failed_row-Ended n m o = elim (Bool-cases (leb max_attempts n)) [
  | inl e ↦ rw e (inr (inr refl))
  | inr e ↦ rw e (inr (inl refl))
]

pub update_rows-All :
    (P : OutboxRow → Type 0) (event : Uuid) (f : OutboxRow → OutboxRow)
    → ((o : OutboxRow) → P (f o))
    → (rows : List OutboxRow) → All (λ o. o.event_id ≡ event → P o) (update_rows event f rows)
unfolding update_rows
update_rows-All P event f h [] = tt
update_rows-All P event f h (o ∷ rows) =
    let ih = update_rows-All P event f h rows in
    elim (Bool-cases (o.event_id == event)) [
      | inl e ↦ rw e (λ same. h o, ih)
      | inr e ↦ rw e (λ same. absurd (ground arith), ih)
    ]

module _ {F J : Type 0} where
  -- Every entry of the event has ended.
  abbrev pub AllEnded : Uuid → Db F J → Type 0
  AllEnded event db = All (λ o. o.event_id ≡ event → Ended o) db.outbox

  mark_failed-AllEnded :
      (event : Uuid) (n : ℕ) (m : Text) (db : Db F J) → AllEnded event (mark_failed event n m db)
  unfolding mark_failed
  mark_failed-AllEnded event n m db =
      update_rows-All Ended event (failed_row n m) (failed_row-Ended n m) db.outbox

  mark_processed-AllEnded :
      (now : ℕ) (event : Uuid) (m : Text) (db : Db F J)
      → AllEnded event (mark_processed now event m db)
  unfolding mark_processed
  mark_processed-AllEnded now event m db =
      update_rows-All Ended event (processed_row now m) (λ o. inl refl) db.outbox

  -- What a transaction leaves: what its body leaves, or the database as it was.
  pub transaction-cases :
      (P : Db F J → Type 0) (body : Db F J → Result (Unit {0} × Db F J)) (db : Db F J)
      ⦃texts : LibraryTexts⦄ (row : OutboxRow)
      → ((m : Text) → P (mark_failed row.event_id row.attempts m db))
      → ((db' : Db F J) → body db ≡ ok (tt, db') → P db')
      → P (fail_if_raised row (transaction body db))
  transaction-cases P body db row fails holds = elim (Result-cases (body db)) [
    | inr (x, e) ↦ rw (transaction_fails body db x e) (fails _)
    | inl ((tt, db'), e) ↦ elim (Bool-cases (commit_ok db')) [
      | inl c ↦ rw (transaction_commits body db db' tt e c) (holds db' e)
      | inr c ↦ let (x, undone) = transaction_undone body db db' tt e c in rw undone (fails _)
    ]
  ]

module _ {F J : Type 0} ⦃float : Float F⦄ ⦃hasher : Hasher J⦄ ⦃codec : Codec F J⦄
    ⦃texts : LibraryTexts⦄ where
  finish-AllEnded :
      (clock : Clock F) (row : OutboxRow) (p : Prepared F J) (e strategy : Option Text)
      (db db' : Db F J)
      → finish clock row p e strategy db ≡ ok (tt, db')
      → AllEnded row.event_id db'
  unfolding finish
  finish-AllEnded clock row p (some m) strategy db db' h =
      let same : mark_failed row.event_id row.attempts m db ≡ db' = cc in
      rw (← same) (mark_failed-AllEnded row.event_id row.attempts m db)
  finish-AllEnded clock row p none none db db' h =
      let same : mark_processed clock.transaction_now row.event_id p.status db ≡ db' = cc in
      rw (← same) (mark_processed-AllEnded clock.transaction_now row.event_id p.status db)
  finish-AllEnded clock row p none (some strategy) db db' h =
      let (a, emitted, rest) =
        >>=-eq-ok
          (emit_compensation_followups clock.transaction_now clock.followups p.event strategy db) _
          h in
      let same : mark_processed clock.transaction_now row.event_id p.status a.1 ≡ db' = cc (rest) in
      rw (← same) (mark_processed-AllEnded clock.transaction_now row.event_id p.status a.1)

  settle_or_fail-AllEnded :
      (clock : Clock F) (row : OutboxRow) (r : Result (Prepared F J)) (db : Db F J)
      → AllEnded row.event_id (settle_or_fail clock row r db)
  unfolding settle_or_fail settle
  settle_or_fail-AllEnded clock row (err x) db =
      mark_failed-AllEnded row.event_id row.attempts (exc_str x) db
  settle_or_fail-AllEnded clock row (ok p) db =
      transaction-cases (AllEnded row.event_id) (settle clock row p) db row
        (λ m. mark_failed-AllEnded row.event_id row.attempts m db)
        (λ db' h. finish-AllEnded clock row p p.error _ _ db' h)

  -- Marking an event keeps the log well formed.
  mark-IsWellFormed :
      (db : Db F J)
      → IsWellFormed db
      → ((now : ℕ) (event : Uuid) (m : Text) → IsWellFormed (mark_processed now event m db))
        × ((event : Uuid) (n : ℕ) (m : Text) → IsWellFormed (mark_failed event n m db))
  mark-IsWellFormed db w = let q = queue-IsWellFormed db w in (q.1, q.2)

  pub finish-IsWellFormed :
      (clock : Clock F) (row : OutboxRow) (p : Prepared F J) (e strategy : Option Text)
      (db db' : Db F J)
      → IsWellFormed db
      → finish clock row p e strategy db ≡ ok (tt, db')
      → IsWellFormed db'
  unfolding finish
  finish-IsWellFormed clock row p (some m) strategy db db' w h =
      let same : mark_failed row.event_id row.attempts m db ≡ db' = cc in
      subst IsWellFormed same ((mark-IsWellFormed db w).1 row.event_id row.attempts m)
  finish-IsWellFormed clock row p none none db db' w h =
      let same : mark_processed clock.transaction_now row.event_id p.status db ≡ db' = cc in
      subst IsWellFormed same
        ((mark-IsWellFormed db w).0 clock.transaction_now row.event_id p.status)
  finish-IsWellFormed clock row p none (some strategy) db db' w h =
      let (a, emitted, rest) =
        >>=-eq-ok
          (emit_compensation_followups clock.transaction_now clock.followups p.event strategy db) _
          h in
      let same : mark_processed clock.transaction_now row.event_id p.status a.1 ≡ db' = cc (rest) in
      let kept =
        emit_compensation_followups-IsWellFormed clock.transaction_now clock.followups p.event
          strategy db a.1 emitted w in
      subst IsWellFormed same
        ((mark-IsWellFormed a.1 kept).0 clock.transaction_now row.event_id p.status)

  pub apply_projection-IsWellFormed :
      (tenant : Uuid) (s : Option (ResourceNodeSnapshot F)) (db : Db F J)
      → IsWellFormed db
      → IsWellFormed (apply_projection tenant s db)
  unfolding apply_projection upsert_node_projection
  apply_projection-IsWellFormed tenant none db w = w
  apply_projection-IsWellFormed tenant (some s) db w = record {
    unique = w.unique;
    verified = w.verified;
    linked = w.linked;
    paired = w.paired;
  }

  pub apply_alert-IsWellFormed :
      (tenant : Uuid) (should : Bool) (g : Option (GuardrailState F)) (db : Db F J)
      → IsWellFormed db
      → IsWellFormed (apply_alert tenant should g db)
  unfolding apply_alert insert_guardrail_alert
  apply_alert-IsWellFormed tenant should none db w = w
  apply_alert-IsWellFormed tenant false (some g) db w = w
  apply_alert-IsWellFormed tenant true (some g) db w = record {
    unique = w.unique;
    verified = w.verified;
    linked = w.linked;
    paired = w.paired;
  }

  settle_or_fail-IsWellFormed :
      (clock : Clock F) (row : OutboxRow) (r : Result (Prepared F J)) (db : Db F J)
      → IsWellFormed db
      → IsWellFormed (settle_or_fail clock row r db)
  unfolding settle_or_fail settle
  settle_or_fail-IsWellFormed clock row (err x) db w =
      (mark-IsWellFormed db w).1 row.event_id row.attempts (exc_str x)
  settle_or_fail-IsWellFormed clock row (ok p) db w =
      transaction-cases IsWellFormed (settle clock row p) db row
        (λ m. (mark-IsWellFormed db w).1 row.event_id row.attempts m)
        (λ db' h.
          let started =
            apply_alert-IsWellFormed row.tenant_id (should_apply_projection p.status p.error)
              p.guardrail_state _ (apply_projection-IsWellFormed row.tenant_id p.next_state db w) in
          finish-IsWellFormed clock row p p.error _ _ db' started h)

module _ {F J A : Type 0} ⦃float : Float F⦄ ⦃hasher : Hasher J⦄ ⦃codec : Codec F J⦄
    ⦃adapters : CloudAdapter F A⦄ ⦃texts : LibraryTexts⦄ where
  -- After the processing of a claimed entry every entry of its event is processed, failed or a dead
  -- letter: also where the event is missing, where an exception is raised on the way, and where the
  -- transaction is undone.
  pub process_record-AllEnded :
      (clock : Clock F) (row : OutboxRow) (others : Db F J → Db F J) (db : Db F J)
      (s : WorkerState F A)
      → AllEnded row.event_id (process_record clock row others db s).0
  unfolding process_record
  process_record-AllEnded clock row others db s =
      settle_or_fail-AllEnded clock row (read_and_prepare clock row.event_id row.tenant_id db s).0
        (others db)

  -- If the other clients keep the log well formed, it still is after the processing of an entry.
  pub process_record-IsWellFormed :
      (clock : Clock F) (row : OutboxRow) (others : Db F J → Db F J) (db : Db F J)
      (s : WorkerState F A)
      → IsWellFormed (others db)
      → IsWellFormed (process_record clock row others db s).0
  unfolding process_record
  process_record-IsWellFormed clock row others db s w =
      settle_or_fail-IsWellFormed clock row
        (read_and_prepare clock row.event_id row.tenant_id db s).0 (others db) w
