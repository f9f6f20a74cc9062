-- ===== src/Tests/Worker.antt =====
-- A worker on the log of one node.
use cloud_commander.Prelude.{◌≡◌, refl, ◌⊎◌, true, false, none, some, [], In}
use cloud_commander.Text.{Text, codes, text_eq, decimal}
use cloud_commander.Uuid.{uuid_str, hex_digit}
use cloud_commander.Errors.{ok, err, Exc}
use cloud_commander.Security.HashChain.{
  is_hex64, all_hex, hash_input, raw_text, generate_event_hash,
}
use cloud_commander.Domain.Schemas.{allocation_requested, EventEnvelope, event_type, check_envelope}
use cloud_commander.Infrastructure.Database.{
  Db, any, all, columns_fit, hash_required, previous_format, check_row, check_unique, insert_event,
  insert_outbox,
}
use cloud_commander.Infrastructure.Repository.{
  head_row, get_latest_hash, event_row, append_with_conn,
}
use cloud_commander.Infrastructure.Repository.Append.{appended}
use cloud_commander.Tests.Fixtures.{
  Fraction, Json, fractions, fractions-IsOrdered, json_codec, toy_hasher,
}
use cloud_commander.Domain.Schemas.{ResourceAllocationRequested, check_rollback}
use cloud_commander.Infrastructure.Database.{OutboxRow}
use cloud_commander.Infrastructure.Repository.{get_stream_head}
use cloud_commander.Infrastructure.Repository.Append.{outbox_row}
use cloud_commander.Infrastructure.Adapters.{MockAwsAdapter, mock_aws}
use cloud_commander.Control.MautRollback.{
  RollbackDecisionEngine, RollbackPath, new_engine, evaluate_rollback_paths, score_strategy,
}
use cloud_commander.Control.MautRollback.Laws.{Tops, evaluate_rollback_paths-best}
use cloud_commander.Control.PidGuardrail.{new_controller}
use cloud_commander.Control.Backpressure.{new_manager}
use cloud_commander.Worker.Reconciler.{
  Reconciler, default_maut_weights, available_paths, new_reconciler,
}
use cloud_commander.Worker.Processing.Outcome.{Decides, evaluate_payload-Decides}
use cloud_commander.Worker.Followups.{
  Draw, compensation_event, rollback_payload, rollback_event, emit_compensation_followups,
}
use cloud_commander.Worker.Followups.Once.{emit_compensation_followups-once}
use cloud_commander.Worker.Records.{
  LibraryTexts, WorkerState, Clock, process_record, evaluate_payload,
}
use cloud_commander.Worker.Records.Settles.{AllEnded, process_record-AllEnded}
use cloud_commander.Worker.Batch.{Surroundings}
use cloud_commander.Worker.Outbox.{claim_row}
use cloud_commander.Tests.Log.{first, one_event, two_events}

abbrev engine : RollbackDecisionEngine Fraction
engine = new_engine default_maut_weights true (35, 2) (45, 2)

evaluate_rollback_paths-best_example :
    ((evaluate_rollback_paths engine available_paths ≡ none)
      × Tops fractions-IsOrdered engine (0, 0) available_paths)
    ⊎ ((p : RollbackPath Fraction) × In p available_paths
        × (evaluate_rollback_paths engine available_paths ≡ some p.strategy_id)
        × Tops fractions-IsOrdered engine (score_strategy engine p) available_paths)
evaluate_rollback_paths-best_example =
    evaluate_rollback_paths-best fractions-IsOrdered engine available_paths

instance abbrev pub toy_texts : LibraryTexts
toy_texts = record { text_of = λ x. codes "library error" }

abbrev pub mock : MockAwsAdapter Fraction
mock = record {
  chaos_enabled = false;
  chaos_r = (37, 1);
  chaos_x = (42, 2);
  chaos_min_delay_sec = (5, 2);
  chaos_max_delay_sec = (25, 2);
}

abbrev reconciler : Reconciler Fraction (MockAwsAdapter Fraction)
reconciler = new_reconciler mock

abbrev partial : ResourceAllocationRequested Fraction
partial = record {
  node_id = 7;
  target_cpu_cores = (4, 0);
  target_memory_gb = (85, 1);
  reason_code = codes "trigger-partial";
}

evaluate_payload-Decides_example :
    let status = ((mock_aws {F = Fraction}).apply_allocation (uuid_str 7) partial mock).0.status in
    let (answer, s') = evaluate_payload first (allocation_requested partial) reconciler in
    Decides s'.decision_engine status answer
unfolding new_reconciler
evaluate_payload-Decides_example = evaluate_payload-Decides first partial reconciler

abbrev draw : Draw
draw = record { compensation_id = 201; rollback_id = 202; now_ms = 1700000000100 }

abbrev strategy : Text
strategy = codes "full_revert"

abbrev compensation : EventEnvelope Fraction Json
compensation = compensation_event draw first strategy 1

abbrev rolled_back : EventEnvelope Fraction Json
rolled_back = rollback_event draw first (rollback_payload first strategy) 1

abbrev compensated : Db Fraction Json
compensated = appended 300 rolled_back (appended 300 compensation one_event)

emits : emit_compensation_followups 300 draw first strategy one_event ≡ ok (tt, compensated)
unfolding emit_compensation_followups compensation_event rollback_payload rollback_event
    check_envelope check_rollback get_stream_head append_with_conn insert_event insert_outbox
    get_latest_hash head_row event_row generate_event_hash raw_text uuid_str decimal columns_fit
    check_row check_unique any all text_eq is_hex64 all_hex hex_digit hash_required previous_format
    event_type hash_input
emits = refl

abbrev pub clock : Clock Fraction
clock = record {
  pid_time = (5, 0);
  alert_ms = 5000;
  transaction_now = 400;
  completion_time = (6, 0);
  followups = draw;
}

abbrev pub worker : WorkerState Fraction (MockAwsAdapter Fraction)
worker = record {
  reconciler = reconciler;
  pid_controller = new_controller (5, 1) (1, 1) (2, 1) (8, 1);
  backpressure_manager = new_manager 60 (95, 2);
}

abbrev pub entry : OutboxRow
entry = claim_row 300 (outbox_row 100 101 1)

abbrev pub quiet : Db Fraction Json → Db Fraction Json
quiet db = db

process_record-AllEnded_example :
    AllEnded 101 (process_record clock entry quiet two_events worker).0
process_record-AllEnded_example = process_record-AllEnded clock entry quiet two_events worker

abbrev pub alone : OutboxRow → Surroundings Fraction Json
alone row = record { clock = clock; others = quiet }

-- The same entry, processed again later
emit_compensation_followups-once_example :
    (x : Exc) × (emit_compensation_followups 900
        (record draw { compensation_id = 203 })
        first
        strategy
        compensated
      ≡ err x)
emit_compensation_followups-once_example =
    emit_compensation_followups-once 300 900 draw (record draw { compensation_id = 203 }) first
      strategy strategy one_event compensated compensated [] emits refl
