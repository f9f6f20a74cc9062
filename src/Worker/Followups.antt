-- ===== src/Worker/Followups.antt =====
-- app/worker/projection_worker.py: the events that a compensation adds to the stream.
pub mod Laws
pub mod Once
use cloud_commander.Prelude.{ℕ, ◌+◌, ◌-◌, max, [], ◌∷◌, ◌++◌}
use cloud_commander.Text.{Text, codes}
use cloud_commander.Uuid.{Uuid, uuid_str}
use cloud_commander.Float.{Float}
use cloud_commander.Errors.{Result, ◌>>=◌}
use cloud_commander.Security.HashChain.{Hasher}
use cloud_commander.Domain.Schemas.{
  EventEnvelope, strategy_selected, RollbackInitiated, rollback_initiated, check_rollback,
  check_envelope, build,
}
use cloud_commander.Infrastructure.Database.{Db}
use cloud_commander.Infrastructure.Repository.{Codec, get_stream_head, append_with_conn}

-- What the worker draws from `uuid4` and the clock
pub record Draw : Type 0 where
  pub compensation_id : Uuid
  pub rollback_id : Uuid
  pub now_ms : ℕ

abbrev worker_compensator : Text
worker_compensator = codes "worker-compensator"

module _ {F J : Type 0} ⦃float : Float F⦄ where
  unfoldable pub compensation_event : Draw → EventEnvelope F J → Text → ℕ → EventEnvelope F J
  compensation_event d source strategy_id base_sequence = record {
    event_id = d.compensation_id;
    tenant_id = source.tenant_id;
    aggregate_id = source.aggregate_id;
    sequence_id = base_sequence + 1;
    timestamp_utc_ms = d.now_ms;
    idempotency_key = codes "compensation-" ++ uuid_str source.event_id;
    actor_id = worker_compensator;
    actor_claims = [];
    expected_version = base_sequence;
    payload = strategy_selected (record {
      intent_id = uuid_str source.event_id;
      aggregate_id = source.aggregate_id;
      selected_strategy = strategy_id;
      utility_scores = (codes "selected_strategy_weight", float.lit 1 0) ∷ [];
    });
  }

unfoldable pub rollback_payload : {F J : Type 0} → EventEnvelope F J → Text → RollbackInitiated
rollback_payload source strategy_id = record {
  target_node_id = source.aggregate_id;
  target_sequence_id = source.sequence_id - 1;
  reason_code = codes "auto-compensation:" ++ strategy_id;
}

unfoldable pub rollback_event :
    {F J : Type 0} → Draw → EventEnvelope F J → RollbackInitiated → ℕ → EventEnvelope F J
rollback_event d source payload base_sequence = record {
  event_id = d.rollback_id;
  tenant_id = source.tenant_id;
  aggregate_id = source.aggregate_id;
  sequence_id = base_sequence + 2;
  timestamp_utc_ms = d.now_ms + 1;
  idempotency_key = codes "rollback-" ++ uuid_str source.event_id;
  actor_id = worker_compensator;
  actor_claims = [];
  expected_version = base_sequence + 1;
  payload = rollback_initiated payload;
}

module _ {F J : Type 0} ⦃float : Float F⦄ ⦃hasher : Hasher J⦄ ⦃codec : Codec F J⦄ where
  -- In the worker's transaction, which began at `now`
  unfoldable pub emit_compensation_followups :
      ℕ → Draw → EventEnvelope F J → Text → Db F J → Result (Unit {0} × Db F J)
  emit_compensation_followups now d source strategy_id db = do
    let (head_sequence, _) = get_stream_head source.tenant_id source.aggregate_id db
    let base_sequence = max head_sequence source.sequence_id
    compensation ← build check_envelope (compensation_event d source strategy_id base_sequence)
    (_, first) ← append_with_conn now compensation db
    payload ← build check_rollback (rollback_payload source strategy_id)
    rollback ← build check_envelope (rollback_event d source payload base_sequence)
    append_with_conn now rollback first
