-- ===== src/Tests/System.antt =====
-- A client and a worker at one log.
use cloud_commander.Prelude.{◌≡◌, refl, inr, false, none, some, [], ◌∷◌, arith}
use cloud_commander.Text.{codes, text_eq, decimal, contains, starts_with}
use cloud_commander.Uuid.{uuid_str, hex_digit}
use cloud_commander.Errors.{ok, err, Exc}
use cloud_commander.Security.RbacPolicy.{verify_permission, admin}
use cloud_commander.Security.HashChain.{
  is_hex64, all_hex, hash_input, raw_text, generate_event_hash, check_previous, check_current,
  verify_chain,
}
use cloud_commander.Domain.Schemas.{
  EventEnvelope, ResourceNodeSnapshot, event_type, check_payload, check_envelope,
}
use cloud_commander.Domain.Reducers.{reduce_node, replay}
use cloud_commander.Infrastructure.Database.{
  Db, any, all, columns_fit, hash_required, previous_format, check_row, check_unique, insert_event,
  insert_outbox, previous_known, commit_ok, transaction,
}
use cloud_commander.Infrastructure.Repository.{
  append_on, append_event_on, head_row, find_event, find_node, select_events, verify_row,
  verify_rows, get_latest_hash, event_row, map_record_to_envelope, map_records, get_events,
  get_event_by_id,
}
use cloud_commander.Infrastructure.Repository.Append.{IsWellFormed, next_row, appended_on}
use cloud_commander.Infrastructure.Adapters.{MockAwsAdapter, mock_aws, mock_apply_allocation}
use cloud_commander.Api.Commands.{Moment, Uuid3, validate, validate_and_append, submit}
use cloud_commander.Api.Projections.{get_node}
use cloud_commander.Worker.Outbox.{claim_batch}
use cloud_commander.Worker.Reconciler.{execute_intent, new_reconciler}
use cloud_commander.Worker.Processing.{should_apply_projection, extract_compensation_strategy}
use cloud_commander.Worker.Records.{evaluate_reconcile, evaluate_payload, process_record}
use cloud_commander.Worker.Projection.{stored}
use cloud_commander.System.{Run, idle, claim, process, append}
use cloud_commander.System.Advances.{Advances}
use cloud_commander.System.Grows.{Run-Advances, Run-IsWellFormed}
use cloud_commander.System.Once.{get_event_by_id-Run, submit-once}
use cloud_commander.System.Shown.{Completes, command_shown}
use cloud_commander.Tests.Fixtures.{
  Fraction, Json, fractions, json_codec, toy_hasher, json_codec-ReadsBack,
}
use cloud_commander.Tests.Log.{
  event, first, second, freeze_node, empty, one_event, two_events, one_event-IsWellFormed,
  two_events-IsWellFormed, empty-IsWellFormed, first-done,
}
use cloud_commander.Tests.Late.{second-accepted}
use cloud_commander.Tests.Worker.{toy_texts, worker, entry, clock, quiet}

instance abbrev toy_names : Uuid3
toy_names = record { of_url = λ name. 9 }

-- An event whose append has read the head of the stream before the second event was committed
abbrev forking : EventEnvelope Fraction Json
forking = event 107 3 (codes "k7") freeze_node

abbrev forked : Db Fraction Json
forked = (append_event_on 250 forking one_event two_events).1

forking-done :
    append_event_on 250 forking one_event two_events
    ≡ (ok tt, appended_on 250 forking one_event two_events)
unfolding append_event_on append_on transaction insert_event insert_outbox get_latest_hash head_row
    event_row generate_event_hash raw_text uuid_str decimal columns_fit check_row check_unique any
    all text_eq is_hex64 all_hex hex_digit hash_required previous_format commit_ok previous_known
    event_type hash_input
forking-done = refl

-- The chain forks: both events link to the first one.
fork : (next_row forking one_event).previous_hash ≡ (next_row second one_event).previous_hash
unfolding get_latest_hash head_row event_row
fork = refl

-- The worker claims the first entry behind this and processes it.
abbrev worked : Db Fraction Json
worked = (process_record clock entry quiet (claim_batch 1 (λ r. false) 300 forked).1 worker).0

working : Run Fraction Json (MockAwsAdapter Fraction) two_events worked
working =
    process clock entry quiet worker
      (claim 1 (λ r. false) 300 (append 250 forking one_event (λ r i. inr i) idle)) idle

Run-Advances_example : Advances two_events worked
Run-Advances_example = Run-Advances working

Run-IsWellFormed_example : IsWellFormed worked
Run-IsWellFormed_example = Run-IsWellFormed working two_events-IsWellFormed

second-found : get_event_by_id 102 1 two_events ≡ ok (some second)
unfolding get_event_by_id find_event verify_row map_record_to_envelope check_payload check_envelope
    event_row hash_input verify_chain generate_event_hash raw_text uuid_str decimal text_eq is_hex64
    all_hex hex_digit get_latest_hash head_row check_previous check_current
second-found = refl

get_event_by_id-Run_example : get_event_by_id 102 1 worked ≡ ok (some second)
get_event_by_id-Run_example =
    get_event_by_id-Run 102 1 second two_events-IsWellFormed working second-found

abbrev moment : Moment
moment = record { event_id = 102; time_ms = 1700000000002; now = 200 }

second-submitted : submit moment second 1 quiet one_event ≡ (ok (uuid_str 102), two_events)
unfolding submit check_envelope
second-submitted = rw (second-accepted, submit) refl

-- The same key, for the next version
abbrev retried : EventEnvelope Fraction Json
retried = event 109 3 (codes "k2") freeze_node

submit-once_example : (x : Exc) × ((submit moment retried 1 quiet worked).0 ≡ err x)
submit-once_example =
    submit-once moment moment second retried 1 1 quiet quiet one_event two_events (uuid_str 102)
      one_event-IsWellFormed second-submitted working idle refl refl

first-Completes : Completes first worker
unfolding evaluate_reconcile evaluate_payload execute_intent should_apply_projection
    extract_compensation_strategy text_eq starts_with mock_apply_allocation new_reconciler
first-Completes = record {
  status = codes "completed";
  answer = refl;
  projected = refl;
  no_strategy = refl;
}

first-valid : validate first 1 empty ≡ ok tt
unfolding validate get_events select_events verify_rows map_records replay reduce_node
    verify_permission contains text_eq admin
first-valid = refl

first-accepted : validate_and_append 100 first 1 quiet empty ≡ (ok tt, one_event)
unfolding validate_and_append
first-accepted = rw (first-valid, validate_and_append) (rw (first-done, validate_and_append) refl)

-- The worker claims the entry of the command and processes it.
abbrev served : Db Fraction Json
served = (process_record clock entry quiet (claim_batch 10 (λ r. false) 300 one_event).1 worker).0

command_shown_example :
    (s : ResourceNodeSnapshot Fraction) × (replay none (first ∷ []) ≡ ok (some s))
    × (get_node 7 1 served ≡ ok s)
unfolding check_payload check_envelope get_events select_events verify_rows map_records replay
    stored find_node
command_shown_example =
    command_shown json_codec-ReadsBack 100 300 10 (λ r. false) clock entry worker first empty
      one_event [] empty-IsWellFormed refl refl refl refl tt (omega arith) first-accepted refl refl
      first-Completes
