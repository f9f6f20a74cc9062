-- ===== src/Worker/Guardrail.antt =====
-- app/worker/projection_worker.py: what the guardrail makes of an event.
use cloud_commander.Prelude.{ℕ, Option, none, some, ◌∷◌, ◌++◌}
use cloud_commander.Text.{Text, codes}
use cloud_commander.Uuid.{Uuid, uuid_str}
use cloud_commander.Float.{Float}
use cloud_commander.Domain.Schemas.{EventPayload, EventEnvelope, allocation_requested}
use cloud_commander.Control.PidGuardrail.{
  PidGuardrailController, Label, stable, drifting, volatile, label_str, FuzzyState,
  observe_resource_change, classify_instability,
}

pub record GuardrailState (F : Type 0) : Type 0 where
  pub node_id : Uuid
  pub severity : Text
  pub metric_value : F
  pub reason : Text
  pub timestamp_utc_ms : ℕ

-- GUARDRAIL_SEVERITY_BY_LABEL
unfoldable pub severity_by_label : Label → Text
severity_by_label stable = codes "normal"
severity_by_label drifting = codes "warning"
severity_by_label volatile = codes "approval_required"

module _ {F : Type 0} ⦃float : Float F⦄ where
  unfoldable pub guardrail_reason : FuzzyState F → Text
  unfolding label_str
  guardrail_reason s =
      codes "pid_state="
      ++ (label_str s.label
          ++ (codes " degree="
              ++ (float.fixed 2 s.degree
                  ++ (codes " signal_abs=" ++ float.fixed 3 s.control_signal_abs))))

  unfoldable pub guardrail_alert : Uuid → ℕ → FuzzyState F → GuardrailState F
  unfolding severity_by_label guardrail_reason
  guardrail_alert node timestamp s = record {
    node_id = node;
    severity = severity_by_label s.label;
    metric_value = s.control_signal_abs;
    reason = guardrail_reason s;
    timestamp_utc_ms = timestamp;
  }

  unfoldable pub observe_payload :
      {J : Type 0}
      → F
      → ℕ
      → EventEnvelope F J
      → EventPayload F J
      → PidGuardrailController F
      → Option (GuardrailState F) × PidGuardrailController F
  unfolding guardrail_alert observe_resource_change
  observe_payload pid_time alert_ms event (allocation_requested p) pid =
      let key = uuid_str event.tenant_id ++ b':' ∷ uuid_str event.aggregate_id in
      let (control_signal, pid') =
        observe_resource_change pid_time (float.div p.target_cpu_cores (float.lit 16 0)) key pid in
      (
        some (guardrail_alert event.aggregate_id alert_ms (classify_instability control_signal)),
        pid',
      )
  observe_payload pid_time alert_ms event _ pid = (none, pid)

  -- `pid_time` and `alert_ms` are the two readings of the clock.
  unfoldable pub observe_guardrail_state :
      {J : Type 0}
      → F
      → ℕ
      → EventEnvelope F J
      → PidGuardrailController F
      → Option (GuardrailState F) × PidGuardrailController F
  unfolding observe_payload
  observe_guardrail_state pid_time alert_ms event pid =
      observe_payload pid_time alert_ms event event.payload pid
