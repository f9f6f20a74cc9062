-- ===== src/Worker/Records/Writes.antt =====
-- What the transaction of an entry writes.
use cloud_commander.Prelude.{
  ℕ, ◌≡◌, refl, ap, ◌∙◌, ◌⊎◌, inl, inr, Bool, true, false, Option, none, some, List, leb,
  Bool-cases, All,
}
use cloud_commander.Text.{Text}
use cloud_commander.Uuid.{Uuid}
use cloud_commander.Float.{Float}
use cloud_commander.Errors.{ok, >>=-eq-ok}
use cloud_commander.Security.HashChain.{Hasher}
use cloud_commander.Domain.Schemas.{ResourceNodeSnapshot}
use cloud_commander.Infrastructure.Database.{NodeRow, Db, OutboxRow, processed, failed, dead_letter}
use cloud_commander.Infrastructure.Repository.{
  Codec, upsert_row, upsert_node_projection, insert_guardrail_alert,
}
use cloud_commander.Worker.Guardrail.{GuardrailState}
use cloud_commander.Worker.Processing.{should_apply_projection, extract_compensation_strategy}
use cloud_commander.Worker.Outbox.{
  mark_processed, mark_failed, failed_row, processed_row, max_attempts,
}
use cloud_commander.Worker.Followups.{emit_compensation_followups}
use cloud_commander.Worker.Followups.Laws.{emit_compensation_followups-appended}
use cloud_commander.Worker.Records.{
  LibraryTexts, Clock, Prepared, finish, settle, settle_or_fail, apply_projection, apply_alert,
}
use cloud_commander.Worker.Records.Settles.{update_rows-All, transaction-cases}

failed_row-status :
    (n : ℕ) (m : Text) (o : OutboxRow)
    → ((failed_row n m o).status ≡ failed) ⊎ ((failed_row n m o).status ≡ dead_letter)
failed_row-status n m o = elim (Bool-cases (leb max_attempts n)) [
  | inl e ↦ rw e (inr refl)
  | inr e ↦ rw e (inl refl)
]

some-none : {A : Type 0} {a : A} → some a ≡ none → ⊥
some-none h = cc

-- The read model with the state `next`, if there is one
abbrev pub gained :
    {F : Type 0} → Uuid → Option (ResourceNodeSnapshot F) → List (NodeRow F) → List (NodeRow F)
gained tenant none rows = rows
gained tenant (some s) rows = upsert_row (record { tenant_id = tenant; snapshot = s }) rows

module _ {F J : Type 0} ⦃float : Float F⦄ where
  -- The event's entries have failed or are given up, and nothing else has been written.
  abbrev pub Undone : Uuid → Db F J → Db F J → Type 0
  Undone event db db' =
      (db'.events ≡ db.events)
      × (db'.nodes ≡ db.nodes)
      × (db'.alerts ≡ db.alerts)
      × All (λ o. o.event_id ≡ event → (o.status ≡ failed) ⊎ (o.status ≡ dead_letter)) db'.outbox

  apply_projection-gained :
      (tenant : Uuid) (next : Option (ResourceNodeSnapshot F)) (db : Db F J)
      → (apply_projection tenant next db).nodes ≡ gained tenant next db.nodes
  unfolding apply_projection upsert_node_projection
  apply_projection-gained tenant none db = refl
  apply_projection-gained tenant (some s) db = refl

  -- The event's entries are processed, and the read model has the state `next`, if there is one.
  abbrev pub Done : Uuid → Uuid → Option (ResourceNodeSnapshot F) → Db F J → Db F J → Type 0
  Done event tenant next db db' =
      All (λ o. o.event_id ≡ event → o.status ≡ processed) db'.outbox
      × (db'.nodes ≡ gained tenant next db.nodes)

  pub mark_failed-Undone :
      (event : Uuid) (n : ℕ) (m : Text) (db : Db F J) → Undone event db (mark_failed event n m db)
  unfolding mark_failed
  mark_failed-Undone event n m db = (
    refl,
    refl,
    refl,
    update_rows-All (λ o. (o.status ≡ failed) ⊎ (o.status ≡ dead_letter)) event (failed_row n m)
        (failed_row-status n m) db.outbox,
  )

  mark_processed-Done :
      (now : ℕ) (event tenant : Uuid) (m : Text) (next : Option (ResourceNodeSnapshot F))
      (db db' : Db F J)
      → db'.nodes ≡ gained tenant next db.nodes
      → Done event tenant next db (mark_processed now event m db')
  unfolding mark_processed
  mark_processed-Done now event tenant m next db db' h = (
    update_rows-All (λ o. o.status ≡ processed) event (processed_row now m) (λ o. refl) db'.outbox,
    h,
  )

  pub apply_alert-nodes :
      (tenant : Uuid) (should : Bool) (g : Option (GuardrailState F)) (db : Db F J)
      → (apply_alert tenant should g db).nodes ≡ db.nodes
  unfolding apply_alert insert_guardrail_alert
  apply_alert-nodes tenant should none db = refl
  apply_alert-nodes tenant false (some g) db = refl
  apply_alert-nodes tenant true (some g) db = refl

module _ {F J : Type 0} ⦃float : Float F⦄ ⦃hasher : Hasher J⦄ ⦃codec : Codec F J⦄
    ⦃texts : LibraryTexts⦄ where
  finish-nodes :
      (clock : Clock F) (row : OutboxRow) (p : Prepared F J) (strategy : Option Text)
      (next : Option (ResourceNodeSnapshot F)) (db mid db' : Db F J)
      → mid.nodes ≡ gained row.tenant_id next db.nodes
      → finish clock row p none strategy mid ≡ ok (tt, db')
      → Done row.event_id row.tenant_id next db db'
  unfolding finish
  finish-nodes clock row p none next db mid db' n h =
      let same : mark_processed clock.transaction_now row.event_id p.status mid ≡ db' = cc in
      rw (← same) (
        mark_processed-Done clock.transaction_now row.event_id row.tenant_id p.status next db mid n)
  finish-nodes clock row p (some strategy) next db mid db' n h =
      let (a, emitted, rest) =
        >>=-eq-ok
          (emit_compensation_followups clock.transaction_now clock.followups p.event strategy mid) _
          h in
      let grown =
        emit_compensation_followups-appended clock.transaction_now clock.followups p.event strategy
          mid a.1 emitted in
      let same : mark_processed clock.transaction_now row.event_id p.status a.1 ≡ db' = cc (rest) in
      rw (← same) (
        mark_processed-Done clock.transaction_now row.event_id row.tenant_id p.status next db a.1
          (ap (λ d. d.nodes) grown ∙ n))

  mark_same :
      (clock : Clock F) (row : OutboxRow) (p : Prepared F J) (m : Text)
      (g : Option (GuardrailState F)) (db db' : Db F J)
      → finish clock row p
          (some m)
          (extract_compensation_strategy p.status)
          (apply_alert row.tenant_id false g db)
        ≡ ok (tt, db')
      → mark_failed row.event_id row.attempts m db ≡ db'
  unfolding finish apply_alert
  mark_same clock row p m none db db' h = cc
  mark_same clock row p m (some g) db db' h = cc

  -- The body of the transaction, with its two options taken apart
  settled :
      (clock : Clock F) (row : OutboxRow) (p : Prepared F J) (error : Option Text)
      (next : Option (ResourceNodeSnapshot F)) (db db' : Db F J)
      → ((m : Text) → error ≡ some m → next ≡ none)
      → finish clock row p error (extract_compensation_strategy p.status) (
          apply_alert row.tenant_id
            (should_apply_projection p.status error)
            p.guardrail_state
            (apply_projection row.tenant_id next db))
        ≡ ok (tt, db')
      → Undone row.event_id db db' ⊎ Done row.event_id row.tenant_id next db db'
  unfolding finish apply_alert apply_projection should_apply_projection
  settled clock row p none next db db' c h = inr (
      finish-nodes clock row p (extract_compensation_strategy p.status) next db _ db'
        (apply_alert-nodes row.tenant_id (should_apply_projection p.status none) p.guardrail_state _
          ∙ apply_projection-gained row.tenant_id next db)
        h)
  settled clock row p (some m) (some s) db db' c h = absurd (some-none (c m refl))
  settled clock row p (some m) none db db' c h =
      let same = mark_same clock row p m p.guardrail_state db db' h in
      inl (rw (← same) (mark_failed-Undone row.event_id row.attempts m db))

  settle-Atomic :
      (clock : Clock F) (row : OutboxRow) (p : Prepared F J) (db db' : Db F J)
      → ((m : Text) → p.error ≡ some m → p.next_state ≡ none)
      → settle clock row p db ≡ ok (tt, db')
      → Undone row.event_id db db' ⊎ Done row.event_id row.tenant_id p.next_state db db'
  unfolding settle
  settle-Atomic clock row p db db' c h = settled clock row p p.error p.next_state db db' c h

  pub settle_or_fail-Atomic :
      (clock : Clock F) (row : OutboxRow) (p : Prepared F J) (db : Db F J)
      → ((m : Text) → p.error ≡ some m → p.next_state ≡ none)
      → let db' = settle_or_fail clock row (ok p) db in
        Undone row.event_id db db' ⊎ Done row.event_id row.tenant_id p.next_state db db'
  unfolding settle_or_fail
  settle_or_fail-Atomic clock row p db c =
      transaction-cases
        (λ d. Undone row.event_id db d ⊎ Done row.event_id row.tenant_id p.next_state db d)
        (settle clock row p) db row (λ m. inl (mark_failed-Undone row.event_id row.attempts m db))
        (λ db' h. settle-Atomic clock row p db db' c h)
