-- ===== src/Api/Telemetry.antt =====
-- app/api/routers/telemetry.py: the three read routes. FastAPI has tested that `limit` is from 1 to
-- 100. Rows that an ORDER BY leaves equal come newest first here; PostgreSQL leaves their order open.
pub mod Latest
use cloud_commander.Prelude.{
  ℕ, Bool, true, false, ◌&&◌, Option, none, some, List, [], ◌∷◌, map, leb, ◌==◌, if◌then◌else◌,
}
use cloud_commander.Text.{Text, codes}
use cloud_commander.Uuid.{Uuid}
use cloud_commander.Float.{Float}
use cloud_commander.Domain.Schemas.{
  EventType, compensation_strategy_selected, guardrail_threshold_breached, external_drift_resolved,
}
use cloud_commander.Infrastructure.Database.{EventRow, AlertRow, Db}
use cloud_commander.Control.Backpressure.{BackpressureManager, get_snapshot}
use cloud_commander.Worker.Outbox.{limit}

-- Python's `round` to a number of places
pub record Rounding (F : Type 0) : Type 0 where
  pub round : F → ℕ → F

pub record BackpressureTelemetry (F : Type 0) : Type 0 where
  pub status : Text
  pub utilization_rho : F
  pub arrival_rate_hz : F
  pub service_rate_hz : F
  pub limit_rho : F

-- The columns of an alert; the answer for a node without one has no time.
pub record GuardrailStateView (F : Type 0) : Type 0 where
  pub severity : Text
  pub metric_value : F
  pub reason : Text
  pub timestamp_utc_ms : Option ℕ

pub record RecentEvent (J : Type 0) : Type 0 where
  pub event_id : Uuid
  pub event_type : EventType
  pub payload : J
  pub timestamp_utc_ms : ℕ

module _ {F : Type 0} ⦃float : Float F⦄ where
  unfoldable pub get_system_backpressure :
      ⦃rounding : Rounding F⦄
      → F
      → BackpressureManager F
      → BackpressureTelemetry F × BackpressureManager F
  unfolding get_snapshot
  get_system_backpressure ⦃rounding = rounding⦄ now m =
      let (snapshot, m') = get_snapshot now m in
      (
        record {
          status = if snapshot.is_overloaded then codes "overloaded" else codes "healthy";
          utilization_rho = rounding.round snapshot.utilization_rho 4;
          arrival_rate_hz = rounding.round snapshot.arrival_rate_hz 2;
          service_rate_hz = rounding.round snapshot.service_rate_hz 2;
          limit_rho = snapshot.snapshot_limit_rho;
        },
        m',
      )

-- ORDER BY key DESC
unfoldable pub insert_descending : {A : Type 0} → (A → ℕ) → A → List A → List A
insert_descending key a [] = a ∷ []
insert_descending key a (b ∷ rows) =
    let rest = insert_descending key a rows in
    if leb (key b) (key a) then a ∷ b ∷ rows else b ∷ rest

-- WHERE test ORDER BY key DESC
unfoldable pub select_descending : {A : Type 0} → (A → Bool) → (A → ℕ) → List A → List A
unfolding insert_descending
select_descending test key [] = []
select_descending test key (a ∷ rows) =
    let rest = select_descending test key rows in
    if test a then insert_descending key a rest else rest

module _ {F : Type 0} where
  abbrev pub is_alert : Uuid → Uuid → AlertRow F → Bool
  is_alert tenant node a = a.tenant_id == tenant && a.node_id == node

  abbrev pub alert_time : AlertRow F → ℕ
  alert_time a = a.timestamp_utc_ms

  abbrev pub alert_view : AlertRow F → GuardrailStateView F
  alert_view a = record {
    severity = a.severity;
    metric_value = a.metric_value;
    reason = a.reason;
    timestamp_utc_ms = some a.timestamp_utc_ms;
  }

  -- What `fetchrow` returns
  abbrev pub first_view : F → List (AlertRow F) → GuardrailStateView F
  first_view nought [] = record {
    severity = codes "normal";
    metric_value = nought;
    reason = codes "No recent anomalies";
    timestamp_utc_ms = none;
  }
  first_view nought (a ∷ rows) = alert_view a

-- `event_type IN (…)`
unfoldable pub is_controller_event : EventType → Bool
is_controller_event compensation_strategy_selected = true
is_controller_event guardrail_threshold_breached = true
is_controller_event external_drift_resolved = true
is_controller_event _ = false

abbrev pub recent_event : {J : Type 0} → EventRow J → RecentEvent J
recent_event r = record {
  event_id = r.event_id;
  event_type = r.event_type;
  payload = r.payload;
  timestamp_utc_ms = r.timestamp_utc_ms;
}

module _ {F J : Type 0} where
  unfoldable pub get_node_guardrail_state :
      ⦃float : Float F⦄ → Uuid → Uuid → Db F J → GuardrailStateView F
  unfolding select_descending limit
  get_node_guardrail_state ⦃float = float⦄ node tenant db =
      first_view (float.lit 0 0)
        (limit 1 (select_descending (is_alert tenant node) alert_time db.alerts))

  unfoldable pub get_recent_controller_events : ℕ → Uuid → Db F J → List (RecentEvent J)
  unfolding select_descending limit is_controller_event
  get_recent_controller_events n tenant db = map recent_event (
      limit n (
        select_descending (λ r. r.tenant_id == tenant && is_controller_event r.event_type)
          (λ r. r.sequence_id) db.events))
