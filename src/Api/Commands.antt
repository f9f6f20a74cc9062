-- ===== src/Api/Commands.antt =====
-- app/api/routers/commands.py. A handler takes the request that FastAPI has parsed; `Moment` holds
-- what the handler draws from the clock and from `uuid4`, and `others` is what other clients commit
-- between its read of the stream and its append.
pub mod Validation
pub mod Handlers
pub mod Writes
pub mod Accepted
pub mod Late
use cloud_commander.Prelude.{ℕ, ◌+◌, none, List, ◌++◌, if◌then◌else◌}
use cloud_commander.Text.{Text, codes, lower, has_substring}
use cloud_commander.Uuid.{Uuid, uuid_str}
use cloud_commander.Float.{Float}
use cloud_commander.Errors.{
  Result, ok, err, Exc, unauthorized, invalid_transition, concurrency_conflict,
  idempotency_key_in_use, http, ◌>>=◌, ◌>>◌,
}
use cloud_commander.Security.HashChain.{Hasher}
use cloud_commander.Domain.Schemas.{
  EventPayload, allocation_requested, edge_proposed, rollback_initiated, EventEnvelope,
  ResourceAllocationCommandPayload, DependencyEdgeCommandPayload, RollbackCommandPayload,
  ResourceAllocationRequested, RollbackInitiated, check_allocation, check_rollback, check_envelope,
  build,
}
use cloud_commander.Domain.Reducers.{reduce_node, replay}
use cloud_commander.Infrastructure.Database.{Db}
use cloud_commander.Infrastructure.Repository.{Codec, get_events, append_event_and_enqueue, rename}

-- The `except` clauses round `reduce_node`
unfoldable pub http_of_rejection : Exc → Exc
http_of_rejection (unauthorized m) = http 403 m
http_of_rejection (invalid_transition m) =
    if has_substring (codes "frozen") (lower m) then http 423 m else http 422 m
http_of_rejection other = other

-- The `except` clause round the append
unfoldable pub http_of_append : Exc → Exc
http_of_append (concurrency_conflict m) = http 409 m
http_of_append (idempotency_key_in_use m) = http 409 m
http_of_append other = other

-- `uuid3(NAMESPACE_URL, name)`
pub record Uuid3 : Type 0 where
  pub of_url : Text → Uuid

unfoldable pub graph_aggregate_id : ⦃names : Uuid3⦄ → Uuid → Uuid
graph_aggregate_id ⦃names⦄ tenant = names.of_url (codes "service-graph:" ++ uuid_str tenant)

pub record Request : Type 0 where
  pub x_idempotency_key : Text
  pub x_expected_version : ℕ
  pub tenant_id : Uuid
  pub actor_id : Text
  pub actor_claims : List Text

pub record Moment : Type 0 where
  pub event_id : Uuid  -- uuid4()
  pub time_ms : ℕ  -- int(time.time() * 1000)
  pub now : ℕ  -- NOW() of the appending transaction

-- `EventEnvelope(…)` as each handler calls it, before pydantic's tests
abbrev pub envelope :
    {F J : Type 0} → Moment → Request → Uuid → EventPayload F J → EventEnvelope F J
envelope m req agg p = record {
  event_id = m.event_id;
  tenant_id = req.tenant_id;
  aggregate_id = agg;
  sequence_id = req.x_expected_version + 1;
  timestamp_utc_ms = m.time_ms;
  idempotency_key = req.x_idempotency_key;
  actor_id = req.actor_id;
  actor_claims = req.actor_claims;
  expected_version = req.x_expected_version;
  payload = p;
}

abbrev pub allocation :
    {F : Type 0} → ResourceAllocationCommandPayload F → ResourceAllocationRequested F
allocation p = record {
  node_id = p.node_id;
  target_cpu_cores = p.target_cpu_cores;
  target_memory_gb = p.target_memory_gb;
  reason_code = p.reason_code;
}

abbrev pub rollback : RollbackCommandPayload → RollbackInitiated
rollback p = record {
  target_node_id = p.target_aggregate_id;
  target_sequence_id = p.target_sequence_id;
  reason_code = p.reason_code;
}

module _ {F J : Type 0} ⦃float : Float F⦄ ⦃hasher : Hasher J⦄ ⦃codec : Codec F J⦄ where
  -- The first half of `validate_and_append`: errors of the read and of the replay pass unchanged.
  unfoldable pub validate : EventEnvelope F J → Uuid → Db F J → Result (Unit {0})
  validate e tenant db = do
    events ← get_events tenant e.aggregate_id 0 db
    current_state ← replay none events
    rename http_of_rejection (reduce_node current_state e) >>= λ s. ok tt

  unfoldable pub validate_and_append :
      ℕ → EventEnvelope F J → Uuid → (Db F J → Db F J) → Db F J → Result (Unit {0}) × Db F J
  validate_and_append now e tenant others db = elim (validate e tenant db) [
    | err x ↦ (err x, db)
    | ok _ ↦
        let (r, db') = append_event_and_enqueue now e (others db) in (rename http_of_append r, db')
  ]

  -- What a handler does with its envelope: pydantic's tests, the validation and the append. The
  -- response names the event.
  unfoldable pub submit :
      Moment → EventEnvelope F J → Uuid → (Db F J → Db F J) → Db F J → Result Text × Db F J
  submit m e tenant others db = elim (build check_envelope e) [
    | err x ↦ (err x, db)
    | ok e' ↦
        let (r, db') = validate_and_append m.now e' tenant others db in
        (r >> ok (uuid_str e'.event_id), db')
  ]

  unfoldable pub request_resource_allocation :
      Moment
      → Request
      → ResourceAllocationCommandPayload F
      → (Db F J → Db F J)
      → Db F J
      → Result Text × Db F J
  request_resource_allocation m req payload others db =
      elim (build check_allocation (allocation payload)) [
        | err x ↦ (err x, db)
        | ok p ↦
            submit m (envelope m req payload.node_id (allocation_requested p)) req.tenant_id others
              db
      ]

  unfoldable pub propose_dependency_edge :
      ⦃names : Uuid3⦄
      → Moment
      → Request
      → DependencyEdgeCommandPayload
      → (Db F J → Db F J)
      → Db F J
      → Result Text × Db F J
  propose_dependency_edge m req payload others db =
      let p = edge_proposed (record {
        source_node_id = payload.source_node_id;
        target_node_id = payload.target_node_id;
      }) in
      submit m (envelope m req (graph_aggregate_id req.tenant_id) p) req.tenant_id others db

  unfoldable pub initiate_rollback :
      Moment → Request → RollbackCommandPayload → (Db F J → Db F J) → Db F J → Result Text × Db F J
  initiate_rollback m req payload others db = elim (build check_rollback (rollback payload)) [
    | err x ↦ (err x, db)
    | ok p ↦
        submit m (envelope m req payload.target_aggregate_id (rollback_initiated p)) req.tenant_id
          others db
  ]
