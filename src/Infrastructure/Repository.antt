-- ===== src/Infrastructure/Repository.antt =====
-- app/infrastructure/repository.py. Reading and writing JSON through pydantic is the interface
-- `Codec`; a JSONB column is taken to hold and return the value that was written.
pub mod Append
pub mod Invariant
pub mod Select
pub mod Read
pub mod Stream
pub mod RoundTrip
pub mod Conflict
pub mod Nodes
use mathlib.Core.Option
use cloud_commander.Prelude.{
  ℕ, Bool, ◌&&◌, Option, none, some, List, [], ◌∷◌, ◌++◌, ltb, leb, ◌==◌, if◌then◌else◌,
}
use cloud_commander.Text.{Text, codes, text_eq, decimal}
use cloud_commander.Uuid.{Uuid, uuid_str}
use cloud_commander.Float.{Float}
use cloud_commander.Errors.{
  Result, ok, err, Exc, concurrency_conflict, idempotency_key_in_use, data_corruption, validation,
  unique_violation, ◌>>=◌, ◌>>◌,
}
use cloud_commander.Security.HashChain.{Hasher, generate_event_hash, verify_chain}
use cloud_commander.Domain.Schemas.{
  EventPayload, EventEnvelope, ResourceNodeSnapshot, event_type, check_payload, check_envelope,
  check_snapshot, build,
}
use cloud_commander.Infrastructure.Database.{
  EventRow, NodeRow, AlertRow, Db, in_stream, insert_event, insert_outbox, transaction,
  uq_aggregate_sequence, uq_tenant_idempotency,
}

pub record Codec (F J : Type 0) : Type 0 where
  pub dump : EventPayload F J → J  -- payload.model_dump(mode="json")
  pub parse : J → Option (EventPayload F J)  -- the shape and the types that the union asks for

module _ {J : Type 0} where
  -- Of two rows of a stream the one with the higher sequence number
  abbrev pub newer : EventRow J → Option (EventRow J) → EventRow J
  newer r none = r
  newer r (some q) = if ltb q.sequence_id r.sequence_id then r else q

  -- ORDER BY sequence_id DESC LIMIT 1 over the rows of a stream
  unfoldable pub head_row : Uuid → Uuid → List (EventRow J) → Option (EventRow J)
  head_row tenant agg [] = none
  head_row tenant agg (r ∷ rows) =
      let rest = head_row tenant agg rows in
      if in_stream tenant agg r then some (newer r rest) else rest

  -- ORDER BY sequence_id ASC
  unfoldable pub insert_row : EventRow J → List (EventRow J) → List (EventRow J)
  insert_row r [] = r ∷ []
  insert_row r (q ∷ rows) =
      let rest = insert_row r rows in
      if leb r.sequence_id q.sequence_id then r ∷ q ∷ rows else q ∷ rest

  -- The rows of a stream behind a sequence number, in ascending order
  unfoldable pub select_events : Uuid → Uuid → ℕ → List (EventRow J) → List (EventRow J)
  unfolding insert_row
  select_events tenant agg after [] = []
  select_events tenant agg after (r ∷ rows) =
      let rest = select_events tenant agg after rows in
      if in_stream tenant agg r && ltb after r.sequence_id then insert_row r rest else rest

  -- WHERE event_id = … AND tenant_id = … LIMIT 1
  unfoldable pub find_event : Uuid → Uuid → List (EventRow J) → Option (EventRow J)
  find_event event tenant [] = none
  find_event event tenant (r ∷ rows) =
      if r.event_id == event && r.tenant_id == tenant then some r else find_event event tenant rows

  unfoldable pub verify_row : ⦃hasher : Hasher J⦄ → EventRow J → Result (Unit {0})
  verify_row r =
      verify_chain r.previous_hash r.event_hash r.payload r.timestamp_utc_ms r.sequence_id
        r.tenant_id r.aggregate_id

  unfoldable pub verify_rows : ⦃hasher : Hasher J⦄ → List (EventRow J) → Result (Unit {0})
  verify_rows [] = ok tt
  verify_rows (r ∷ rows) = verify_row r >> verify_rows rows

-- pydantic's own text, behind the colon, is left out.
unfoldable pub rehydrate_message : Uuid → Text
rehydrate_message event = codes "Failed to rehydrate event " ++ (uuid_str event ++ codes ": ")

module _ {F J : Type 0} where
  unfoldable pub get_latest_hash : Uuid → Uuid → Db F J → Option Text
  unfolding head_row
  get_latest_hash tenant agg db = Option.map (λ r. r.event_hash) (head_row tenant agg db.events)

  unfoldable pub get_stream_head : Uuid → Uuid → Db F J → ℕ × Option Text
  unfolding head_row
  get_stream_head tenant agg db = elim (head_row tenant agg db.events) [
    | none ↦ (0, none)
    | some r ↦ (r.sequence_id, some r.event_hash)
  ]

module _ {F J : Type 0} ⦃hasher : Hasher J⦄ ⦃codec : Codec F J⦄ where
  -- The row that an append writes
  unfoldable pub event_row : EventEnvelope F J → Option Text → EventRow J
  event_row e previous = record {
    event_id = e.event_id;
    tenant_id = e.tenant_id;
    aggregate_id = e.aggregate_id;
    sequence_id = e.sequence_id;
    timestamp_utc_ms = e.timestamp_utc_ms;
    idempotency_key = e.idempotency_key;
    actor_id = e.actor_id;
    actor_claims = e.actor_claims;
    expected_version = e.expected_version;
    event_type = event_type e.payload;
    payload = codec.dump e.payload;
    previous_hash = previous;
    event_hash =
        generate_event_hash previous (codec.dump e.payload) e.timestamp_utc_ms e.sequence_id
          e.tenant_id e.aggregate_id;
  }

  -- `_append_event_and_enqueue_with_conn`, in a transaction that began at `now`. The head of the
  -- stream is read with no lock, as `seen`; what others have committed since is in `db`.
  unfoldable pub append_on : ℕ → EventEnvelope F J → Db F J → Db F J → Result (Unit {0} × Db F J)
  append_on now e seen db = do
    let previous_hash = get_latest_hash e.tenant_id e.aggregate_id seen
    appended ← insert_event (event_row e previous_hash) db
    enqueued ← insert_outbox now e.event_id e.tenant_id appended
    ok (tt, enqueued)

  -- The same, where nobody commits in between
  unfoldable pub append_with_conn : ℕ → EventEnvelope F J → Db F J → Result (Unit {0} × Db F J)
  unfolding append_on
  append_with_conn now e db = append_on now e db db

unfoldable pub sequence_message : ℕ → Uuid → Text
sequence_message sequence agg =
    codes "Sequence "
    ++ (decimal sequence ++ (codes " already exists for aggregate " ++ (uuid_str agg ++ codes ".")))

unfoldable pub key_message : Text → Text
key_message key = codes "Idempotency key " ++ (key ++ codes " is already in use for this tenant.")

module _ {F J : Type 0} where
  -- `except UniqueViolationError`
  unfoldable pub name_conflict : EventEnvelope F J → Exc → Exc
  name_conflict e (unique_violation name) =
      if text_eq name uq_aggregate_sequence
      then concurrency_conflict (sequence_message e.sequence_id e.aggregate_id)
      else if text_eq name uq_tenant_idempotency
      then idempotency_key_in_use (key_message e.idempotency_key)
      else unique_violation name
  name_conflict e other = other

abbrev pub rename {ℓ} : {A : Type ℓ} → (Exc → Exc) → Result A → Result A
rename f (ok a) = ok a
rename f (err e) = err (f e)

module _ {F J : Type 0} ⦃hasher : Hasher J⦄ ⦃codec : Codec F J⦄ where
  unfoldable pub append_event_and_enqueue :
      ℕ → EventEnvelope F J → Db F J → Result (Unit {0}) × Db F J
  append_event_and_enqueue now e db =
      let (r, db') = transaction (append_with_conn now e) db in (rename (name_conflict e) r, db')

  -- The same, with the head of the stream read before others committed
  unfoldable pub append_event_on :
      ℕ → EventEnvelope F J → Db F J → Db F J → Result (Unit {0}) × Db F J
  append_event_on now e seen db =
      let (r, db') = transaction (append_on now e seen) db in (rename (name_conflict e) r, db')

-- The envelope of a row and of the payload that its JSON holds
abbrev pub envelope_of : {F J : Type 0} → EventRow J → EventPayload F J → EventEnvelope F J
envelope_of r p = record {
  event_id = r.event_id;
  tenant_id = r.tenant_id;
  aggregate_id = r.aggregate_id;
  sequence_id = r.sequence_id;
  timestamp_utc_ms = r.timestamp_utc_ms;
  idempotency_key = r.idempotency_key;
  actor_id = r.actor_id;
  actor_claims = r.actor_claims;
  expected_version = r.expected_version;
  payload = p;
}

module _ {F J : Type 0} ⦃float : Float F⦄ ⦃codec : Codec F J⦄ where
  -- `EventEnvelope.model_validate` on a row without its hashes, and its error renamed
  unfoldable pub map_record_to_envelope : EventRow J → Result (EventEnvelope F J)
  map_record_to_envelope r = elim (codec.parse r.payload) [
    | none ↦ err (data_corruption (rehydrate_message r.event_id))
    | some p ↦
        if check_payload p && check_envelope (envelope_of r p)
        then ok (envelope_of r p)
        else err (data_corruption (rehydrate_message r.event_id))
  ]

  unfoldable pub map_records : List (EventRow J) → Result (List (EventEnvelope F J))
  map_records [] = ok []
  map_records (r ∷ rows) = do e ← map_record_to_envelope r; es ← map_records rows; ok (e ∷ es)

module _ {F J : Type 0} ⦃float : Float F⦄ ⦃hasher : Hasher J⦄ ⦃codec : Codec F J⦄ where
  -- Every record is verified before the first is mapped.
  unfoldable pub get_events : Uuid → Uuid → ℕ → Db F J → Result (List (EventEnvelope F J))
  get_events tenant agg after db =
      let rows = select_events tenant agg after db.events in verify_rows rows >> map_records rows

  unfoldable pub get_event_by_id : Uuid → Uuid → Db F J → Result (Option (EventEnvelope F J))
  get_event_by_id event tenant db = elim (find_event event tenant db.events) [
    | none ↦ ok none
    | some r ↦ verify_row r >> (map_record_to_envelope r >>= λ e. ok (some e))
  ]

abbrev pub is_node : {F : Type 0} → Uuid → Uuid → NodeRow F → Bool
is_node tenant node r = r.tenant_id == tenant && r.snapshot.node_id == node

unfoldable pub find_node : {F : Type 0} → Uuid → Uuid → List (NodeRow F) → Option (NodeRow F)
find_node tenant node [] = none
find_node tenant node (r ∷ rows) =
    if is_node tenant node r then some r else find_node tenant node rows

-- INSERT … ON CONFLICT (tenant_id, node_id) DO UPDATE … WHERE the row is older
unfoldable pub upsert_row : {F : Type 0} → NodeRow F → List (NodeRow F) → List (NodeRow F)
upsert_row row [] = row ∷ []
upsert_row row (r ∷ rows) =
    let rest = upsert_row row rows in
    if is_node row.tenant_id row.snapshot.node_id r
    then (if ltb r.snapshot.last_sequence_id row.snapshot.last_sequence_id then row else r) ∷ rows
    else r ∷ rest

module _ {F J : Type 0} where
  unfoldable pub get_node_projection :
      ⦃float : Float F⦄ → Uuid → Uuid → Db F J → Result (Option (ResourceNodeSnapshot F))
  unfolding find_node check_snapshot
  get_node_projection tenant node db = elim (find_node tenant node db.nodes) [
    | none ↦ ok none
    | some r ↦ build check_snapshot r.snapshot >>= λ s. ok (some s)
  ]

  unfoldable pub upsert_node_projection : Uuid → ResourceNodeSnapshot F → Db F J → Db F J
  upsert_node_projection tenant snapshot db = record db {
    nodes = upsert_row (record { tenant_id = tenant; snapshot = snapshot }) db.nodes;
  }

  unfoldable pub insert_guardrail_alert : Uuid → Uuid → Text → F → Text → ℕ → Db F J → Db F J
  insert_guardrail_alert tenant node severity metric_value reason timestamp db = record db {
    alerts =
        record {
          tenant_id = tenant;
          node_id = node;
          severity = severity;
          metric_value = metric_value;
          reason = reason;
          timestamp_utc_ms = timestamp;
        }
        ∷ db.alerts;
  }
