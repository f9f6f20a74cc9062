-- ===== src/Tests/Late.antt =====
-- Commands in their turn and out of it.
use cloud_commander.Prelude.{◌≡◌, refl, none, some, [], ◌∷◌, arith}
use mathlib.Core.Path.{subst}
use cloud_commander.Text.{codes, text_eq, contains, decimal}
use cloud_commander.Uuid.{uuid_str, hex_digit}
use cloud_commander.Errors.{ok, err, unauthorized}
use cloud_commander.Security.HashChain.{
  is_hex64, all_hex, hash_input, raw_text, generate_event_hash, check_previous, check_current,
  verify_chain,
}
use cloud_commander.Security.RbacPolicy.{allocate, verify_permission, admin, unauthorized_message}
use cloud_commander.Domain.Schemas.{
  EventEnvelope, ResourceNodeSnapshot, event_type, check_payload, check_envelope,
}
use cloud_commander.Domain.Reducers.{initial, reduce_node, replay}
use cloud_commander.Domain.Replay.{after}
use cloud_commander.Infrastructure.Database.{
  Db, any, all, columns_fit, hash_required, previous_format, check_row, check_unique, insert_event,
  insert_outbox, previous_known, commit_ok, transaction,
}
use cloud_commander.Infrastructure.Database.Laws.{Inserts}
use cloud_commander.Infrastructure.Repository.{
  head_row, insert_row, select_events, verify_row, verify_rows, get_latest_hash, event_row,
  append_with_conn, append_event_and_enqueue, map_record_to_envelope, map_records, get_events,
}
use cloud_commander.Infrastructure.Repository.Append.{IsWellFormed, next_row, appended}
use cloud_commander.Infrastructure.Repository.Invariant.{append-IsWellFormed}
use cloud_commander.Api.Commands.{validate, validate_and_append}
use cloud_commander.Api.Commands.Accepted.{accepted_replays}
use cloud_commander.Api.Commands.Late.{late_command_bars}
use cloud_commander.Tests.Fixtures.{
  Fraction, Json, fractions, json_codec, toy_hasher, json_codec-ReadsBack,
}
use cloud_commander.Tests.Log.{
  event, first, second, allocate_four, freeze_node, one_event, two_events, one_event-IsWellFormed,
  second-done,
}

abbrev quiet : Db Fraction Json → Db Fraction Json
quiet db = db

abbrev allocated : ResourceNodeSnapshot Fraction
allocated = after allocate_four 1 (initial 7)

one_event-read : get_events 1 7 0 one_event ≡ ok (first ∷ [])
unfolding get_events verify_rows select_events verify_row map_records map_record_to_envelope
    check_payload check_envelope event_row hash_input verify_chain generate_event_hash raw_text
    uuid_str decimal text_eq is_hex64 all_hex hex_digit get_latest_hash head_row insert_row
    check_previous check_current
one_event-read = refl

first-replay : replay none (first ∷ []) ≡ ok (some allocated)
unfolding replay reduce_node verify_permission contains text_eq admin
first-replay = refl

pub second-valid : validate second 1 one_event ≡ ok tt
unfolding validate reduce_node verify_permission contains text_eq admin
second-valid = rw (one_event-read, validate) (rw (first-replay, validate) refl)

pub second-accepted : validate_and_append 200 second 1 quiet one_event ≡ (ok tt, two_events)
unfolding validate_and_append
second-accepted =
    rw (second-valid, validate_and_append) (rw (second-done, validate_and_append) refl)

accepted_replays_example :
    (s : ResourceNodeSnapshot Fraction) × (reduce_node (some allocated) second ≡ ok s)
    × (get_events 1 7 0 two_events ≡ ok (first ∷ second ∷ []))
    × (replay none (first ∷ second ∷ []) ≡ ok (some s))
unfolding check_payload check_envelope
accepted_replays_example =
    accepted_replays json_codec-ReadsBack 200 second quiet one_event two_events (first ∷ [])
      (some allocated) one_event-IsWellFormed refl refl one_event-read one_event-read first-replay
      (omega arith) second-accepted

-- A freeze for the third version, where the second has no event
abbrev ahead : EventEnvelope Fraction Json
ahead = event 102 3 (codes "k2") freeze_node

abbrev gap : Db Fraction Json
gap = appended 200 ahead one_event

ahead-done : append_event_and_enqueue 200 ahead one_event ≡ (ok tt, gap)
unfolding append_event_and_enqueue append_with_conn transaction insert_event insert_outbox
    get_latest_hash head_row event_row generate_event_hash raw_text uuid_str decimal columns_fit
    check_row check_unique any all text_eq is_hex64 all_hex hex_digit hash_required previous_format
    commit_ok previous_known event_type hash_input
ahead-done = refl

gap-IsWellFormed : IsWellFormed gap
gap-IsWellFormed =
    subst (λ r. IsWellFormed r.1) ahead-done
      (append-IsWellFormed 200 ahead one_event one_event-IsWellFormed)

gap-read : get_events 1 7 0 gap ≡ ok (first ∷ ahead ∷ [])
unfolding get_events verify_rows select_events verify_row map_records map_record_to_envelope
    check_payload check_envelope event_row hash_input verify_chain generate_event_hash raw_text
    uuid_str decimal text_eq is_hex64 all_hex hex_digit get_latest_hash head_row insert_row
    check_previous check_current
gap-read = refl

gap-replay : replay none (first ∷ ahead ∷ []) ≡ ok (some (after freeze_node 3 allocated))
unfolding replay reduce_node verify_permission contains text_eq admin
gap-replay = refl

-- An allocation for the second version by an actor without claims
abbrev stranger : EventEnvelope Fraction Json
stranger = record (event 108 2 (codes "k8") allocate_four) { actor_claims = [] }

stranger-Inserts : Inserts (next_row stranger gap) gap.events
unfolding get_latest_hash head_row event_row generate_event_hash raw_text uuid_str decimal
    columns_fit any text_eq is_hex64 all_hex hex_digit hash_required previous_format event_type
    hash_input
stranger-Inserts = record {
  fits = refl;
  event_format = refl;
  required = refl;
  previous = refl;
  new_id = refl;
  new_sequence = refl;
  new_key = refl;
  new_hash = refl;
}

stranger_refused :
    reduce_node (some allocated) stranger ≡ err (unauthorized (unauthorized_message allocate 7))
unfolding reduce_node verify_permission contains text_eq admin
stranger_refused = refl

-- The log with the stranger's event, and what it reads as
abbrev barred : Db Fraction Json
barred = appended 300 stranger gap

barred-read : get_events 1 7 0 barred ≡ ok (first ∷ stranger ∷ ahead ∷ [])
unfolding get_events verify_rows select_events verify_row map_records map_record_to_envelope
    check_payload check_envelope event_row hash_input verify_chain generate_event_hash raw_text
    uuid_str decimal text_eq is_hex64 all_hex hex_digit get_latest_hash head_row insert_row
    check_previous check_current
barred-read = refl

late_command_bars_example :
    (validate_and_append 300 stranger 1 (λ d. d) gap ≡ (ok tt, barred))
    × (get_events 1 7 0 barred ≡ ok (first ∷ stranger ∷ ahead ∷ []))
    × (validate ahead 1 barred ≡ err (unauthorized (unauthorized_message allocate 7)))
unfolding check_payload check_envelope
late_command_bars_example =
    late_command_bars json_codec-ReadsBack 300 stranger ahead ahead gap barred (first ∷ []) []
      (ahead ∷ []) (some allocated) (after freeze_node 3 allocated) _ gap-IsWellFormed refl refl
      (omega arith) gap-read gap-replay (omega arith, tt) (omega arith, tt) first-replay
      stranger_refused stranger-Inserts barred-read refl
