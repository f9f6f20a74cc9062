-- ===== src/Tests/Log.antt =====
-- Appends to a log and reads from it.
use cloud_commander.Prelude.{ℕ, ◌+◌, ◌-◌, ◌≡◌, refl, ◌↔◌, ◌⊎◌, some, List, [], ◌∷◌, arith, All, In}
use cloud_commander.Text.{Text, codes, text_eq, decimal}
use cloud_commander.Uuid.{uuid_str, hex_digit}
use cloud_commander.Errors.{ok, err, concurrency_conflict}
use cloud_commander.Security.HashChain.{
  is_hex64, all_hex, hash_input, raw_text, generate_event_hash, check_previous, check_current,
  verify_chain,
}
use cloud_commander.Domain.Schemas.{
  EventPayload, allocation_requested, aggregate_frozen, EventEnvelope, high, event_type,
  check_payload, check_envelope,
}
use cloud_commander.Domain.Replay.{IsAscending}
use cloud_commander.Infrastructure.Database.{
  Db, any, all, columns_fit, hash_required, previous_format, check_row, check_unique, insert_event,
  insert_outbox, previous_known, commit_ok, transaction,
}
use cloud_commander.Infrastructure.Repository.{
  head_row, insert_row, select_events, verify_row, verify_rows, get_latest_hash, event_row,
  append_with_conn, append_event_and_enqueue, map_record_to_envelope, map_records, get_events,
  get_event_by_id, sequence_message, name_conflict,
}
use cloud_commander.Infrastructure.Repository.Append.{IsWellFormed, next_row, appended}
use cloud_commander.Infrastructure.Repository.Invariant.{append-IsWellFormed, append_outcome}
use cloud_commander.Infrastructure.Repository.Conflict.{first_writer_wins}
use cloud_commander.Infrastructure.Repository.Read.{get_events_total, get_events_exact, Readable}
use cloud_commander.Infrastructure.Repository.Stream.{
  Represents, stream, recorded, append-Represents,
}
use cloud_commander.Infrastructure.Repository.Select.{Selected}
use cloud_commander.Infrastructure.Repository.RoundTrip.{get_event_by_id-append}
use cloud_commander.Tests.Fixtures.{
  Fraction, Json, null, fractions, json_codec, toy_hasher, json_codec-ReadsBack, toy_hasher-Digests,
}
use mathlib.Core.Path.{subst}
use cloud_commander.Errors.{Exc}
use cloud_commander.Infrastructure.Database.Laws.{Inserts}

abbrev pub event : ℕ → ℕ → Text → EventPayload Fraction Json → EventEnvelope Fraction Json
event id sequence key p = record {
  event_id = id;
  tenant_id = 1;
  aggregate_id = 7;
  sequence_id = sequence;
  timestamp_utc_ms = 1700000000000 + sequence;
  idempotency_key = key;
  actor_id = codes "ops";
  actor_claims = codes "admin" ∷ [];
  expected_version = sequence - 1;
  payload = p;
}

abbrev pub allocate_four : EventPayload Fraction Json
allocate_four = allocation_requested (record {
  node_id = 7;
  target_cpu_cores = (4, 0);
  target_memory_gb = (85, 1);
  reason_code = codes "scale";
})

abbrev pub freeze_node : EventPayload Fraction Json
freeze_node = aggregate_frozen (record { severity = high; drift_details = null })

abbrev pub first : EventEnvelope Fraction Json
first = event 101 1 (codes "k1") allocate_four

abbrev pub second : EventEnvelope Fraction Json
second = event 102 2 (codes "k2") freeze_node

-- A second writer for the place of `first`
abbrev pub rival : EventEnvelope Fraction Json
rival = event 103 1 (codes "k3") freeze_node

abbrev pub empty : Db Fraction Json
empty = record { events = []; outbox = []; nodes = []; alerts = [] }

abbrev pub one_event : Db Fraction Json
one_event = appended 100 first empty

abbrev pub two_events : Db Fraction Json
two_events = appended 200 second one_event

pub empty-IsWellFormed : IsWellFormed empty
empty-IsWellFormed = record { unique = tt; verified = tt; linked = tt; paired = tt }

pub first-done : append_event_and_enqueue 100 first empty ≡ (ok tt, one_event)
unfolding append_event_and_enqueue append_with_conn transaction insert_event insert_outbox
    get_latest_hash head_row event_row generate_event_hash raw_text uuid_str decimal columns_fit
    check_row check_unique any all text_eq is_hex64 all_hex hex_digit hash_required previous_format
    commit_ok previous_known event_type hash_input
first-done = refl

pub second-done : append_event_and_enqueue 200 second one_event ≡ (ok tt, two_events)
unfolding append_event_and_enqueue append_with_conn transaction insert_event insert_outbox
    get_latest_hash head_row event_row generate_event_hash raw_text uuid_str decimal columns_fit
    check_row check_unique any all text_eq is_hex64 all_hex hex_digit hash_required previous_format
    commit_ok previous_known event_type hash_input
second-done = refl

pub one_event-IsWellFormed : IsWellFormed one_event
one_event-IsWellFormed =
    subst (λ r. IsWellFormed r.1) first-done
      (append-IsWellFormed 100 first empty empty-IsWellFormed)

pub two_events-IsWellFormed : IsWellFormed two_events
two_events-IsWellFormed =
    subst (λ r. IsWellFormed r.1) second-done
      (append-IsWellFormed 200 second one_event one_event-IsWellFormed)

first_writer_wins_example :
    append_event_and_enqueue 200 rival one_event
    ≡ (err (concurrency_conflict (sequence_message 1 7)), one_event)
unfolding columns_fit any event_row all_hex
first_writer_wins_example =
    first_writer_wins toy_hasher-Digests 100 200 first rival empty one_event empty-IsWellFormed
      first-done refl refl refl refl refl refl

get_event_by_id-append_example : get_event_by_id 102 1 two_events ≡ ok (some second)
unfolding check_payload check_envelope
get_event_by_id-append_example =
    get_event_by_id-append json_codec-ReadsBack 200 second one_event two_events
      one_event-IsWellFormed refl refl second-done

pub two_events-read : get_events 1 7 0 two_events ≡ ok (first ∷ second ∷ [])
unfolding get_events verify_rows select_events verify_row map_records map_record_to_envelope
    check_payload check_envelope event_row hash_input verify_chain generate_event_hash raw_text
    uuid_str decimal text_eq is_hex64 all_hex hex_digit get_latest_hash head_row insert_row
    check_previous check_current
two_events-read = refl

get_events_exact_example :
    IsAscending 0 (first ∷ second ∷ [])
    × ((e : EventEnvelope Fraction Json)
        → In e (first ∷ second ∷ []) ↔ (
            (r : _) × (In r two_events.events × Selected 1 7 0 r)
            × (map_record_to_envelope r ≡ ok e)))
get_events_exact_example =
    get_events_exact 1 7 0 two_events _ two_events-IsWellFormed two_events-read

get_events_total_example :
    ((es : List (EventEnvelope Fraction Json)) × (get_events 1 7 1 two_events ≡ ok es))
    ↔ All (λ r. Selected 1 7 1 r → Readable Fraction r) two_events.events
get_events_total_example = get_events_total 1 7 1 two_events

append_outcome_example :
    (Inserts (next_row second one_event) one_event.events
      × (append_event_and_enqueue 200 second one_event ≡ (ok tt, appended 200 second one_event)))
    ⊎ ((x : Exc) × (append_with_conn 200 second one_event ≡ err x)
        × (append_event_and_enqueue 200 second one_event
            ≡ (err (name_conflict second x), one_event)))
append_outcome_example = append_outcome 200 second one_event one_event-IsWellFormed

one_event-Represents : Represents one_event (first ∷ [])
unfolding check_payload check_envelope recorded get_events select_events verify_rows map_records
    stream
one_event-Represents =
    subst (λ r. Represents r.1 (recorded r.0 first [])) first-done
      (append-Represents json_codec-ReadsBack 100 first empty [] empty-IsWellFormed refl refl tt
        (λ tenant agg n. refl))

append-Represents_example :
    let (answer, db') = append_event_and_enqueue 200 second one_event in
    Represents db' (recorded answer second (first ∷ []))
unfolding check_payload check_envelope
append-Represents_example =
    append-Represents json_codec-ReadsBack 200 second one_event (first ∷ []) one_event-IsWellFormed
      refl refl (λ t a. ground arith, tt) one_event-Represents
