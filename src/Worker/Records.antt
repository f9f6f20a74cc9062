-- ===== src/Worker/Records.antt =====
-- app/worker/projection_worker.py: the processing of one claimed entry. `others` is what other
-- clients commit between the worker's reads and its transaction.
pub mod Settles
pub mod Writes
pub mod Atomic
use cloud_commander.Prelude.{ℕ, Bool, Option, none, some, ◌++◌, if◌then◌else◌}
use cloud_commander.Text.{Text, codes}
use cloud_commander.Uuid.{Uuid, uuid_str}
use cloud_commander.Float.{Float}
use cloud_commander.Errors.{
  Result, ok, err, Exc, unauthorized, invalid_transition, hash_verification, concurrency_conflict,
  idempotency_key_in_use, data_corruption, plain, ◌>>=◌,
}
use cloud_commander.Security.HashChain.{Hasher}
use cloud_commander.Domain.Schemas.{
  EventPayload, EventEnvelope, ResourceNodeSnapshot, allocation_requested,
}
use cloud_commander.Domain.Reducers.{reduce_node}
use cloud_commander.Infrastructure.Database.{Db, OutboxRow, transaction}
use cloud_commander.Infrastructure.Repository.{
  Codec, get_event_by_id, get_node_projection, upsert_node_projection, insert_guardrail_alert,
}
use cloud_commander.Infrastructure.Adapters.{CloudAdapter}
use cloud_commander.Control.PidGuardrail.{PidGuardrailController}
use cloud_commander.Control.Backpressure.{BackpressureManager, record_completion}
use cloud_commander.Worker.Reconciler.{Reconciler, execute_intent}
use cloud_commander.Worker.Processing.{extract_compensation_strategy, should_apply_projection}
use cloud_commander.Worker.Outbox.{mark_processed, mark_failed}
use cloud_commander.Worker.Followups.{Draw, emit_compensation_followups}
use cloud_commander.Worker.Guardrail.{GuardrailState, observe_guardrail_state}

-- `str(exc)` for the exceptions of pydantic, asyncpg and FastAPI
pub record LibraryTexts : Type 0 where
  pub text_of : Exc → Text

unfoldable pub exc_str : ⦃texts : LibraryTexts⦄ → Exc → Text
exc_str (unauthorized m) = m
exc_str (invalid_transition m) = m
exc_str (hash_verification m) = m
exc_str (concurrency_conflict m) = m
exc_str (idempotency_key_in_use m) = m
exc_str (data_corruption m) = m
exc_str (plain m) = m
exc_str ⦃texts = texts⦄ other = texts.text_of other

-- What the process keeps between entries
pub record WorkerState (F A : Type 0) : Type 0 where
  pub reconciler : Reconciler F A
  pub pid_controller : PidGuardrailController F
  pub backpressure_manager : BackpressureManager F

-- What processing an entry draws from the clocks and from `uuid4`
pub record Clock (F : Type 0) : Type 0 where
  pub pid_time : F
  pub alert_ms : ℕ
  pub transaction_now : ℕ
  pub completion_time : F
  pub followups : Draw

-- What is known before the transaction
pub record Prepared (F J : Type 0) : Type 0 where
  pub event : EventEnvelope F J
  pub guardrail_state : Option (GuardrailState F)
  pub status : Text
  pub error : Option Text
  pub next_state : Option (ResourceNodeSnapshot F)

-- `return status, None`, or the error's text
abbrev pub reconcile_answer : ⦃texts : LibraryTexts⦄ → Result Text → Text × Option Text
reconcile_answer (ok status) = (status, none)
reconcile_answer (err x) = (codes "retry_scheduled", some (exc_str x))

abbrev pub missing_message : Uuid → Uuid → Text
missing_message event tenant =
    codes "Missing event "
    ++ (uuid_str event
        ++ (codes " for tenant " ++ (uuid_str tenant ++ codes " referenced by outbox.")))

module _ {F J A : Type 0} ⦃float : Float F⦄ ⦃adapters : CloudAdapter F A⦄
    ⦃texts : LibraryTexts⦄ where
  unfoldable pub evaluate_payload :
      EventEnvelope F J → EventPayload F J → Reconciler F A → (Text × Option Text) × Reconciler F A
  unfolding execute_intent exc_str
  evaluate_payload event (allocation_requested p) s =
      let (result, s') =
        execute_intent (uuid_str event.event_id) (uuid_str event.aggregate_id) p s in
      (reconcile_answer result, s')
  evaluate_payload event _ s = ((codes "not_applicable", none), s)

  unfoldable pub evaluate_reconcile :
      EventEnvelope F J → Reconciler F A → (Text × Option Text) × Reconciler F A
  unfolding evaluate_payload
  evaluate_reconcile event s = evaluate_payload event event.payload s

module _ {F J : Type 0} ⦃float : Float F⦄ where
  unfoldable pub compute_next_projection_state :
      EventEnvelope F J → Db F J → Result (ResourceNodeSnapshot F)
  compute_next_projection_state event db =
      get_node_projection event.tenant_id event.aggregate_id db >>= λ current_state.
      reduce_node current_state event

  -- `next_state` where the projection applies
  unfoldable pub next_projection :
      Bool → EventEnvelope F J → Db F J → Result (Option (ResourceNodeSnapshot F))
  unfolding compute_next_projection_state
  next_projection should event db =
      if should then (compute_next_projection_state event db >>= λ s. ok (some s)) else ok none

  unfoldable pub apply_projection : Uuid → Option (ResourceNodeSnapshot F) → Db F J → Db F J
  apply_projection tenant none db = db
  apply_projection tenant (some s) db = upsert_node_projection tenant s db

  unfoldable pub apply_alert : Uuid → Bool → Option (GuardrailState F) → Db F J → Db F J
  apply_alert tenant should none db = db
  apply_alert tenant should (some g) db =
      if should
      then insert_guardrail_alert tenant g.node_id g.severity g.metric_value g.reason
          g.timestamp_utc_ms db
      else db

module _ {F J A : Type 0} ⦃float : Float F⦄ ⦃hasher : Hasher J⦄ ⦃codec : Codec F J⦄
    ⦃adapters : CloudAdapter F A⦄ ⦃texts : LibraryTexts⦄ where
  -- From the event to what the transaction is to do. The controller and the reconciler keep what
  -- they have learned, also where the projection raises.
  unfoldable pub prepare :
      Clock F
      → EventEnvelope F J
      → Db F J
      → WorkerState F A
      → Result (Prepared F J) × WorkerState F A
  unfolding observe_guardrail_state evaluate_reconcile next_projection
  prepare clock event db s =
      let (guardrail, pid) =
        observe_guardrail_state clock.pid_time clock.alert_ms event s.pid_controller in
      let (answer, reconciler) = evaluate_reconcile event s.reconciler in
      (
        next_projection (should_apply_projection answer.0 answer.1) event db >>= λ next.
            ok (record {
              event = event;
              guardrail_state = guardrail;
              status = answer.0;
              error = answer.1;
              next_state = next;
            }),
        record s { pid_controller = pid; reconciler = reconciler },
      )

  -- `get_event_by_id`, then the above
  unfoldable pub read_and_prepare :
      Clock F → Uuid → Uuid → Db F J → WorkerState F A → Result (Prepared F J) × WorkerState F A
  unfolding prepare
  read_and_prepare clock event tenant db s = elim (get_event_by_id event tenant db) [
    | err x ↦ (err x, s)
    | ok none ↦ (err (data_corruption (missing_message event tenant)), s)
    | ok (some e) ↦ prepare clock e db s
  ]

module _ {F J : Type 0} where
  -- `except Exception as exc`: the entry is marked failed in a transaction of its own.
  abbrev pub fail_if_raised :
      ⦃texts : LibraryTexts⦄ → OutboxRow → Result (Unit {0}) × Db F J → Db F J
  fail_if_raised row (ok _, db) = db
  fail_if_raised row (err x, db) = mark_failed row.event_id row.attempts (exc_str x) db

module _ {F J : Type 0} ⦃float : Float F⦄ ⦃hasher : Hasher J⦄ ⦃codec : Codec F J⦄ where
  -- The follow-ups and the mark
  unfoldable pub finish :
      Clock F
      → OutboxRow
      → Prepared F J
      → Option Text
      → Option Text
      → Db F J
      → Result (Unit {0} × Db F J)
  finish clock row p (some message) strategy db =
      ok (tt, mark_failed row.event_id row.attempts message db)
  finish clock row p none none db =
      ok (tt, mark_processed clock.transaction_now row.event_id p.status db)
  finish clock row p none (some strategy) db = do
    (_, db') ← emit_compensation_followups clock.transaction_now clock.followups p.event strategy db
    ok (tt, mark_processed clock.transaction_now row.event_id p.status db')

  -- The body of the transaction
  unfoldable pub settle : Clock F → OutboxRow → Prepared F J → Db F J → Result (Unit {0} × Db F J)
  unfolding finish apply_projection apply_alert
  settle clock row p db =
      let should = should_apply_projection p.status p.error in
      finish clock row p p.error (extract_compensation_strategy p.status) (
        apply_alert row.tenant_id should p.guardrail_state
          (apply_projection row.tenant_id p.next_state db))

  unfoldable pub settle_or_fail :
      ⦃texts : LibraryTexts⦄ → Clock F → OutboxRow → Result (Prepared F J) → Db F J → Db F J
  unfolding settle
  settle_or_fail clock row (err x) db = fail_if_raised row (err x, db)
  settle_or_fail clock row (ok p) db = fail_if_raised row (transaction (settle clock row p) db)

module _ {F J A : Type 0} ⦃float : Float F⦄ ⦃hasher : Hasher J⦄ ⦃codec : Codec F J⦄
    ⦃adapters : CloudAdapter F A⦄ ⦃texts : LibraryTexts⦄ where
  unfoldable pub process_record :
      Clock F → OutboxRow → (Db F J → Db F J) → Db F J → WorkerState F A → Db F J × WorkerState F A
  unfolding read_and_prepare settle_or_fail
  process_record clock row others db s =
      let (prepared, s') = read_and_prepare clock row.event_id row.tenant_id db s in
      (
        settle_or_fail clock row prepared (others db),
        record s' {
          backpressure_manager = record_completion clock.completion_time s'.backpressure_manager;
        },
      )
