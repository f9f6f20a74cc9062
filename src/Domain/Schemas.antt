-- ===== src/Domain/Schemas.antt =====
-- app/domain/schemas.py. `F` stands for floats, `J` for JSON values. A class is a record; its
-- `Field` constraints and validators are the tests that pydantic makes when a value is built.
use cloud_commander.Prelude.{ℕ, Bool, true, ◌&&◌, List, leb, if◌then◌else◌, length}
use cloud_commander.Text.{Text}
use cloud_commander.Uuid.{Uuid}
use cloud_commander.Float.{Float}
use cloud_commander.Errors.{Result, ok, err, validation}

pub record ResourceAllocationRequested (F : Type 0) : Type 0 where
  pub node_id : Uuid
  pub target_cpu_cores : F
  pub target_memory_gb : F
  pub reason_code : Text

pub record DependencyEdgeProposed : Type 0 where
  pub source_node_id : Uuid
  pub target_node_id : Uuid

pub data DriftSeverity : Type 0 where
  medium high : DriftSeverity

pub record AggregateFrozen (J : Type 0) : Type 0 where
  pub severity : DriftSeverity
  pub drift_details : J

pub record RollbackInitiated : Type 0 where
  pub target_node_id : Uuid
  pub target_sequence_id : ℕ
  pub reason_code : Text

pub record GuardrailObservationRecorded (F : Type 0) : Type 0 where
  pub aggregate_id : Uuid
  pub utilization : F
  pub pid_output : F
  pub timestamp_utc_ms : ℕ

pub data BreachSeverity : Type 0 where
  warning approval_required frozen_severity : BreachSeverity

pub record GuardrailThresholdBreached (F : Type 0) : Type 0 where
  pub aggregate_id : Uuid
  pub severity : BreachSeverity
  pub metric_value : F
  pub reason : Text

pub record CompensationStrategySelected (F : Type 0) : Type 0 where
  pub intent_id : Text
  pub aggregate_id : Uuid
  pub selected_strategy : Text
  pub utility_scores : List (Text × F)

pub data ResolutionMode : Type 0 where
  reapply_internal_state accept_external_reality : ResolutionMode

pub record ExternalDriftResolved : Type 0 where
  pub resolution_mode : ResolutionMode
  pub resolved_by : Text

-- The union `EventPayload`
pub data EventPayload (F J : Type 0) : Type 0 where
  allocation_requested : ResourceAllocationRequested F → EventPayload F J
  edge_proposed : DependencyEdgeProposed → EventPayload F J
  aggregate_frozen : AggregateFrozen J → EventPayload F J
  drift_resolved : ExternalDriftResolved → EventPayload F J
  rollback_initiated : RollbackInitiated → EventPayload F J
  observation_recorded : GuardrailObservationRecorded F → EventPayload F J
  threshold_breached : GuardrailThresholdBreached F → EventPayload F J
  strategy_selected : CompensationStrategySelected F → EventPayload F J

-- The discriminator `payload.event_type`
pub data EventType : Type 0 where
  resource_allocation_requested dependency_edge_proposed aggregate_frozen_type : EventType
  external_drift_resolved rollback_initiated_type guardrail_observation_recorded : EventType
  guardrail_threshold_breached compensation_strategy_selected : EventType

unfoldable pub event_type : {F J : Type 0} → EventPayload F J → EventType
event_type (allocation_requested p) = resource_allocation_requested
event_type (edge_proposed p) = dependency_edge_proposed
event_type (aggregate_frozen p) = aggregate_frozen_type
event_type (drift_resolved p) = external_drift_resolved
event_type (rollback_initiated p) = rollback_initiated_type
event_type (observation_recorded p) = guardrail_observation_recorded
event_type (threshold_breached p) = guardrail_threshold_breached
event_type (strategy_selected p) = compensation_strategy_selected

pub record EventEnvelope (F J : Type 0) : Type 0 where
  pub event_id : Uuid
  pub tenant_id : Uuid
  pub aggregate_id : Uuid
  pub sequence_id : ℕ
  pub timestamp_utc_ms : ℕ
  pub idempotency_key : Text
  pub actor_id : Text
  pub actor_claims : List Text
  pub expected_version : ℕ
  pub payload : EventPayload F J

pub data LifecycleState : Type 0 where
  active orphaned tombstoned frozen : LifecycleState

pub record ResourceNodeSnapshot (F : Type 0) : Type 0 where
  pub node_id : Uuid
  pub lifecycle_state : LifecycleState
  pub cpu_cores : F
  pub memory_gb : F
  pub last_sequence_id : ℕ
  pub schema_version : ℕ

pub record ResourceAllocationCommandPayload (F : Type 0) : Type 0 where
  pub node_id : Uuid
  pub target_cpu_cores : F
  pub target_memory_gb : F
  pub reason_code : Text

pub data EdgeType : Type 0 where
  sync async : EdgeType

pub record DependencyEdgeCommandPayload : Type 0 where
  pub source_node_id : Uuid
  pub target_node_id : Uuid
  pub edge_type : EdgeType

pub record RollbackCommandPayload : Type 0 where
  pub target_aggregate_id : Uuid
  pub target_sequence_id : ℕ
  pub reason_code : Text

-- Declared, and used by no handler
pub record CommandEnvelope (F : Type 0) : Type 0 where
  pub tenant_id : Uuid
  pub actor_id : Text
  pub idempotency_key : Text
  pub expected_version : ℕ
  pub payload : ResourceAllocationCommandPayload F

-- `Field(min_length=lo, max_length=hi)`
abbrev pub length_between : ℕ → ℕ → Text → Bool
length_between lo hi s = leb lo (length s) && leb (length s) hi

-- `Field(min_length=1)`
abbrev pub not_empty : Text → Bool
not_empty s = leb 1 (length s)

module _ {F : Type 0} ⦃float : Float F⦄ where
  -- `Field(ge=lo, le=hi)`, then the validator's `math.isfinite`
  abbrev pub finite_between : F → F → F → Bool
  finite_between lo hi v = float.le lo v && float.le v hi && float.finite v

  unfoldable pub check_allocation : ResourceAllocationRequested F → Bool
  check_allocation p =
      finite_between (float.lit 1 1) (float.lit 128 0) p.target_cpu_cores
      && finite_between (float.lit 5 1) (float.lit 1024 0) p.target_memory_gb
      && length_between 1 50 p.reason_code

  unfoldable pub check_command : ResourceAllocationCommandPayload F → Bool
  check_command p =
      finite_between (float.lit 1 1) (float.lit 128 0) p.target_cpu_cores
      && finite_between (float.lit 5 1) (float.lit 1024 0) p.target_memory_gb
      && length_between 1 50 p.reason_code

  unfoldable pub check_command_envelope : CommandEnvelope F → Bool
  unfolding check_command
  check_command_envelope c =
      not_empty c.actor_id && length_between 1 100 c.idempotency_key && check_command c.payload

  unfoldable pub check_snapshot : ResourceNodeSnapshot F → Bool
  check_snapshot s =
      finite_between (float.lit 0 0) (float.lit 128 0) s.cpu_cores
      && finite_between (float.lit 0 0) (float.lit 1024 0) s.memory_gb
      && leb 1 s.schema_version

unfoldable pub check_rollback : RollbackInitiated → Bool
check_rollback p = length_between 1 100 p.reason_code

unfoldable pub check_rollback_command : RollbackCommandPayload → Bool
check_rollback_command p = length_between 1 100 p.reason_code

unfoldable pub check_drift_resolved : ExternalDriftResolved → Bool
check_drift_resolved p = not_empty p.resolved_by

module _ {F J : Type 0} ⦃float : Float F⦄ where
  -- The payload's own constraints. The numbers are at least 0 by their type.
  unfoldable pub check_payload : EventPayload F J → Bool
  unfolding check_allocation check_rollback check_drift_resolved
  check_payload (allocation_requested p) = check_allocation p
  check_payload (drift_resolved p) = check_drift_resolved p
  check_payload (rollback_initiated p) = check_rollback p
  check_payload _ = true

-- The envelope's own constraints. A payload that is an instance already is not validated again.
unfoldable pub check_envelope : {F J : Type 0} → EventEnvelope F J → Bool
check_envelope e =
    leb 1 e.sequence_id && length_between 1 100 e.idempotency_key && not_empty e.actor_id

-- A call of a model class: the value, or pydantic's error.
abbrev pub build {ℓ} : {A : Type ℓ} → (A → Bool) → A → Result A
build check a = if check a then ok a else err validation
