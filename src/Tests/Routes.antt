-- ===== src/Tests/Routes.antt =====
-- Requests at the gate, and the read routes behind an upsert and an alert.
use cloud_commander.Prelude.{
  ℕ, max, ◌≡◌, refl, ◌↔◌, true, false, ◌&&◌, some, [], ◌∷◌, arith, ◌==◌, if◌then◌else◌, All,
}
use cloud_commander.Text.{codes, text_eq, contains}
use cloud_commander.Errors.{Result, ok, err, http}
use cloud_commander.Domain.Schemas.{ResourceNodeSnapshot, active}
use cloud_commander.Infrastructure.Repository.{
  find_node, upsert_node_projection, insert_guardrail_alert,
}
use cloud_commander.Control.Backpressure.{BackpressureManager}
use cloud_commander.Control.Backpressure.Laws.{cutoff_of}
use cloud_commander.Api.Middleware.{LibraryClasses, admit, dispatch, module_manager}
use cloud_commander.Api.Middleware.Gate.{admit-unserved}
use cloud_commander.Api.Projections.{get_node, get_service_graph_projection}
use cloud_commander.Infrastructure.Repository.Nodes.{newest}
use cloud_commander.Api.Projections.Version.{projection_upsert}
use cloud_commander.Api.Telemetry.{get_node_guardrail_state}
use cloud_commander.Api.Telemetry.Latest.{get_node_guardrail_state-alert}
use cloud_commander.Tests.Fixtures.{Fraction, fractions, fractions-IsRate, json_codec, toy_hasher}
use cloud_commander.Tests.Log.{two_events}
use cloud_commander.Tests.Worker.{toy_texts}

instance abbrev toy_classes : LibraryClasses
toy_classes = record { is_value_error = λ x. false }

-- One request a second ago
abbrev busy : BackpressureManager Fraction
busy = record module_manager { arrivals = (99, 0) ∷ [] }

admit-unserved_example :
    ((admit (codes "POST") (100, 0) (100, 0) busy).0 ≡ ok tt)
    ↔ All (λ t. fractions.lt t (cutoff_of (100, 0) busy) ≡ true) busy.arrivals
unfolding contains text_eq
admit-unserved_example =
    admit-unserved fractions-IsRate (codes "POST") (100, 0) (100, 0) busy refl refl (omega arith)
      (omega arith) (omega arith) refl refl

abbrev refused : BackpressureManager Fraction → ℕ → Result ℕ × (BackpressureManager Fraction × ℕ)
refused m d = (err (http 409 (codes "taken")), (m, d))

dispatches :
    (dispatch (codes "GET") (100, 0) (100, 0) refused busy 0).0 ≡ err (http 409 (codes "taken"))
unfolding dispatch admit contains text_eq
dispatches = refl

abbrev snapshot : ResourceNodeSnapshot Fraction
snapshot = record {
  node_id = 7;
  lifecycle_state = active;
  cpu_cores = (4, 0);
  memory_gb = (8, 0);
  last_sequence_id = 2;
  schema_version = 1;
}

projection_upsert_example :
    let db' = upsert_node_projection 1 snapshot two_events in
    (get_node 7 1 db' ≡ (
      if 1 == 1 && 7 == 7
      then ok (newest (find_node 1 7 two_events.nodes) snapshot)
      else get_node 7 1 two_events))
    × ((get_service_graph_projection 1 [] db').version ≡ (
        if 1 == 1
        then max 2 (get_service_graph_projection 1 [] two_events).version
        else (get_service_graph_projection 1 [] two_events).version))
projection_upsert_example = projection_upsert 1 1 7 snapshot [] two_events

get_node_guardrail_state-alert_example :
    get_node_guardrail_state 7 1
      (insert_guardrail_alert 1 7 (codes "warning") (4, 1) (codes "drifting") 5000 two_events)
    ≡ (if 1 == 1 && 7 == 7
        then record {
          severity = codes "warning";
          metric_value = (4, 1);
          reason = codes "drifting";
          timestamp_utc_ms = some 5000;
        }
        else get_node_guardrail_state 7 1 two_events)
get_node_guardrail_state-alert_example =
    get_node_guardrail_state-alert 1 7 1 7 (codes "warning") (codes "drifting") (4, 1) 5000
      two_events tt
