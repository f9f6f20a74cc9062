-- ===== src/System/Writes.antt =====
-- What the writes of the handlers and of the worker never take back.
use cloud_commander.Prelude.{
  ℕ, ◌≡◌, refl, sym, inl, inr, Bool, true, false, Option, none, some, [], ◌∷◌, Bool-cases,
}
use mathlib.Core.Path.{subst}
use cloud_commander.Text.{Text}
use cloud_commander.Uuid.{Uuid}
use cloud_commander.Float.{Float}
use cloud_commander.Errors.{Result, ok, err, >>=-eq-ok, Result-cases}
use cloud_commander.Security.HashChain.{Hasher}
use cloud_commander.Domain.Schemas.{EventEnvelope, ResourceNodeSnapshot}
use cloud_commander.Infrastructure.Database.{Db, OutboxRow, commit_ok}
use cloud_commander.Infrastructure.Database.Laws.{
  transaction_fails, transaction_commits, transaction_undone,
}
use cloud_commander.Infrastructure.Repository.{
  Codec, append_with_conn, append_event_and_enqueue, append_event_on, insert_guardrail_alert,
}
use cloud_commander.Infrastructure.Repository.Invariant.{append_event_on-cases}
use cloud_commander.Infrastructure.Repository.Append.{
  appended_on, appended, next_row, append_with_conn-eq-ok,
}
use cloud_commander.Infrastructure.Adapters.{CloudAdapter}
use cloud_commander.Worker.Guardrail.{GuardrailState}
use cloud_commander.Worker.Outbox.{claim_batch, mark_processed, mark_failed}
use cloud_commander.Worker.Followups.{emit_compensation_followups}
use cloud_commander.Worker.Followups.Laws.{emit_compensation_followups-appended}
use cloud_commander.Worker.Records.{
  LibraryTexts, WorkerState, Clock, Prepared, finish, settle, settle_or_fail, apply_projection,
  apply_alert, read_and_prepare, process_record, exc_str,
}
use cloud_commander.Worker.Records.Settles.{transaction-cases}
use cloud_commander.System.Advances.{
  Advances, Advances-refl, Advances-trans, append-Advances, upsert-Advances,
}

module _ {F J : Type 0} where
  pub mark_processed-Advances :
      (now : ℕ) (event : Uuid) (m : Text) (d : Db F J) → Advances d (mark_processed now event m d)
  unfolding mark_processed
  mark_processed-Advances now event m d = append-Advances d _ ([], refl) refl refl

  pub mark_failed-Advances :
      (event : Uuid) (n : ℕ) (m : Text) (d : Db F J) → Advances d (mark_failed event n m d)
  unfolding mark_failed
  mark_failed-Advances event n m d = append-Advances d _ ([], refl) refl refl

  pub claim_batch-Advances :
      (size : ℕ) (locked : OutboxRow → Bool) (now : ℕ) (d : Db F J)
      → Advances d (claim_batch size locked now d).1
  unfolding claim_batch
  claim_batch-Advances size locked now d = append-Advances d _ ([], refl) refl refl

module _ {F J : Type 0} ⦃float : Float F⦄ where
  apply_projection-Advances :
      (tenant : Uuid) (s : Option (ResourceNodeSnapshot F)) (d : Db F J)
      → Advances d (apply_projection tenant s d)
  unfolding apply_projection
  apply_projection-Advances tenant none d = Advances-refl d
  apply_projection-Advances tenant (some s) d = upsert-Advances tenant s d

  pub apply_alert-Advances :
      (tenant : Uuid) (should : Bool) (g : Option (GuardrailState F)) (d : Db F J)
      → Advances d (apply_alert tenant should g d)
  unfolding apply_alert insert_guardrail_alert
  apply_alert-Advances tenant should none d = Advances-refl d
  apply_alert-Advances tenant false (some g) d = Advances-refl d
  apply_alert-Advances tenant true (some g) d = record {
    events = ([], refl);
    alerts = (_ ∷ [], refl);
    nodes = (Advances-refl d).nodes;
  }

module _ {F J : Type 0} ⦃hasher : Hasher J⦄ ⦃codec : Codec F J⦄ where
  appended-Advances : (now : ℕ) (e : EventEnvelope F J) (d : Db F J) → Advances d (appended now e d)
  appended-Advances now e d =
      append-Advances d (appended now e d) (next_row e d ∷ [], refl) refl refl

  pub append_event-Advances :
      (now : ℕ) (e : EventEnvelope F J) (d : Db F J)
      → Advances d (append_event_and_enqueue now e d).1
  unfolding append_event_and_enqueue
  append_event-Advances now e d = elim (Result-cases (append_with_conn now e d)) [
    | inr (x, failed) ↦ rw (transaction_fails (append_with_conn now e) d x failed) (Advances-refl d)
    | inl ((tt, d'), done) ↦
        let same = ((append_with_conn-eq-ok now e d d').0 done).1 in
        elim (Bool-cases (commit_ok d')) [
          | inl c ↦
              rw (transaction_commits (append_with_conn now e) d d' tt done c)
                (subst (Advances d) (sym same) (appended-Advances now e d))
          | inr c ↦
              let (x, undone) = transaction_undone (append_with_conn now e) d d' tt done c in
              rw undone (Advances-refl d)
        ]
  ]

  pub append_event_on-Advances :
      (now : ℕ) (e : EventEnvelope F J) (seen d : Db F J)
      → Advances d (append_event_on now e seen d).1
  append_event_on-Advances now e seen d =
      append_event_on-cases (Advances d) now e seen d (Advances-refl d)
        (λ h. append-Advances d (appended_on now e seen d) (next_row e seen ∷ [], refl) refl refl)

  -- What an append leaves comes after what its handler found, and after what others left.
  pub after_others :
      (s d d' : Db F J)
      → Advances s d
      → Advances d d'
      → (now : ℕ) (e : EventEnvelope F J) → Advances s (append_event_and_enqueue now e d').1
  after_others s d d' h k now e =
      Advances-trans s d _ h (Advances-trans d d' _ k (append_event-Advances now e d'))

module _ {F J : Type 0} ⦃float : Float F⦄ ⦃hasher : Hasher J⦄ ⦃codec : Codec F J⦄ where
  followups-Advances :
      (clock : Clock F) (p : Prepared F J) (strategy : Text) (d d' : Db F J)
      → emit_compensation_followups clock.transaction_now clock.followups p.event strategy d
        ≡ ok (tt, d')
      → Advances d d'
  followups-Advances clock p strategy d d' h =
      let same =
        emit_compensation_followups-appended clock.transaction_now clock.followups p.event strategy
          d d' h in
      rw same (Advances-trans d _ _ (appended-Advances _ _ d) (appended-Advances _ _ _))

  finish-Advances :
      (clock : Clock F) (row : OutboxRow) (p : Prepared F J) (e strategy : Option Text)
      (d d' : Db F J)
      → finish clock row p e strategy d ≡ ok (tt, d')
      → Advances d d'
  unfolding finish
  finish-Advances clock row p (some m) strategy d d' h =
      let same : mark_failed row.event_id row.attempts m d ≡ d' = cc in
      rw (← same) (mark_failed-Advances row.event_id row.attempts m d)
  finish-Advances clock row p none none d d' h =
      let same : mark_processed clock.transaction_now row.event_id p.status d ≡ d' = cc in
      rw (← same) (mark_processed-Advances clock.transaction_now row.event_id p.status d)
  finish-Advances clock row p none (some strategy) d d' h =
      let ((tt, mid), emitted, rest) =
        >>=-eq-ok
          (emit_compensation_followups clock.transaction_now clock.followups p.event strategy d) _
          h in
      let same : mark_processed clock.transaction_now row.event_id p.status mid ≡ d' = cc (rest) in
      rw (← same) (
        Advances-trans d mid _ (followups-Advances clock p strategy d mid emitted)
          (mark_processed-Advances clock.transaction_now row.event_id p.status mid))

  settle-Advances :
      (clock : Clock F) (row : OutboxRow) (p : Prepared F J) (d d' : Db F J)
      → settle clock row p d ≡ ok (tt, d')
      → Advances d d'
  unfolding settle
  settle-Advances clock row p d d' h =
      let projected = apply_projection row.tenant_id p.next_state d in
      Advances-trans d projected d' (apply_projection-Advances row.tenant_id p.next_state d) (
        Advances-trans projected _ d'
          (apply_alert-Advances row.tenant_id _ p.guardrail_state projected)
          (finish-Advances clock row p p.error _ _ d' h))

  settle_or_fail-Advances :
      ⦃texts : LibraryTexts⦄ (clock : Clock F) (row : OutboxRow) (r : Result (Prepared F J))
      (d : Db F J)
      → Advances d (settle_or_fail clock row r d)
  unfolding settle_or_fail
  settle_or_fail-Advances clock row (err x) d =
      mark_failed-Advances row.event_id row.attempts (exc_str x) d
  settle_or_fail-Advances clock row (ok p) d =
      transaction-cases (Advances d) (settle clock row p) d row
        (λ m. mark_failed-Advances row.event_id row.attempts m d)
        (λ d' h. settle-Advances clock row p d d' h)

module _ {F J A : Type 0} ⦃float : Float F⦄ ⦃hasher : Hasher J⦄ ⦃codec : Codec F J⦄
    ⦃adapters : CloudAdapter F A⦄ ⦃texts : LibraryTexts⦄ where
  pub process_record-Advances :
      (clock : Clock F) (row : OutboxRow) (others : Db F J → Db F J) (d : Db F J)
      (worker : WorkerState F A)
      → Advances (others d) (process_record clock row others d worker).0
  unfolding process_record
  process_record-Advances clock row others d worker =
      settle_or_fail-Advances clock row
        (read_and_prepare clock row.event_id row.tenant_id d worker).0 (others d)
