-- ===== src/Infrastructure/Database.antt =====
-- The tables that migrations/*.sql declare, with the constraints that an insert meets. A table is
-- the list of its rows, the newest first. Times are microseconds.
pub mod Laws
use cloud_commander.Prelude.{
  ℕ, ◌^◌, Bool, true, false, not, ◌&&◌, ◌||◌, Option, none, some, List, [], ◌∷◌, ltb, leb, ◌==◌,
  if◌then◌else◌, length,
}
use cloud_commander.Text.{Text, codes, text_eq}
use cloud_commander.Uuid.{Uuid}
use cloud_commander.Errors.{
  Result, ok, err, unique_violation, check_violation, foreign_key_violation, data_error, ◌>>◌,
  guard,
}
use cloud_commander.Security.HashChain.{is_hex64}
use cloud_commander.Domain.Schemas.{EventType, ResourceNodeSnapshot}

pub record EventRow (J : Type 0) : Type 0 where
  pub event_id : Uuid
  pub tenant_id : Uuid
  pub aggregate_id : Uuid
  pub sequence_id : ℕ
  pub timestamp_utc_ms : ℕ
  pub idempotency_key : Text
  pub actor_id : Text
  pub actor_claims : List Text
  pub expected_version : ℕ
  pub event_type : EventType
  pub payload : J
  pub previous_hash : Option Text
  pub event_hash : Text

pub data OutboxStatus : Type 0 where
  pending processing processed failed dead_letter : OutboxStatus

-- The JSON object in `error_payload`: its one key, and the text under it
pub data OutboxNote : Type 0 where
  reconcile_status : Text → OutboxNote
  error_note : Text → OutboxNote

pub record OutboxRow : Type 0 where
  pub event_id : Uuid
  pub tenant_id : Uuid
  pub status : OutboxStatus
  pub attempts : ℕ
  pub created_at : ℕ
  pub last_attempt_at : Option ℕ
  pub processed_at : Option ℕ
  pub error_payload : Option OutboxNote

-- read_model_nodes
pub record NodeRow (F : Type 0) : Type 0 where
  pub tenant_id : Uuid
  pub snapshot : ResourceNodeSnapshot F

-- read_model_guardrail_alerts
pub record AlertRow (F : Type 0) : Type 0 where
  pub tenant_id : Uuid
  pub node_id : Uuid
  pub severity : Text
  pub metric_value : F
  pub reason : Text
  pub timestamp_utc_ms : ℕ

pub record Db (F J : Type 0) : Type 0 where
  pub events : List (EventRow J)
  pub outbox : List OutboxRow
  pub nodes : List (NodeRow F)
  pub alerts : List (AlertRow F)

-- Is there a row that passes the test?
unfoldable pub any {ℓ} : {A : Type ℓ} → (A → Bool) → List A → Bool
any p [] = false
any p (x ∷ xs) = p x || any p xs

module _ {J : Type 0} where
  -- WHERE tenant_id = … AND aggregate_id = …
  abbrev pub in_stream : Uuid → Uuid → EventRow J → Bool
  in_stream tenant agg r = r.tenant_id == tenant && r.aggregate_id == agg

  abbrev pub same_event_id : EventRow J → EventRow J → Bool
  same_event_id row r = r.event_id == row.event_id

  abbrev pub same_sequence : EventRow J → EventRow J → Bool
  same_sequence row r =
      in_stream row.tenant_id row.aggregate_id r && r.sequence_id == row.sequence_id

  abbrev pub same_key : EventRow J → EventRow J → Bool
  same_key row r = r.tenant_id == row.tenant_id && text_eq r.idempotency_key row.idempotency_key

  abbrev pub both_genesis : EventRow J → EventRow J → Bool
  both_genesis row r =
      in_stream row.tenant_id row.aggregate_id r && r.sequence_id == 1 && row.sequence_id == 1

  abbrev pub same_hash : EventRow J → EventRow J → Bool
  same_hash row r =
      in_stream row.tenant_id row.aggregate_id r && text_eq r.event_hash row.event_hash

  -- INTEGER, BIGINT and VARCHAR columns
  unfoldable pub columns_fit : EventRow J → Bool
  columns_fit r =
      ltb r.sequence_id (2 ^ 31)
      && ltb r.expected_version (2 ^ 31)
      && ltb r.timestamp_utc_ms (2 ^ 63)
      && leb (length r.idempotency_key) 100
      && leb (length r.actor_id) 255

  -- (sequence_id = 1 AND event_hash IS NOT NULL)
  -- OR (sequence_id > 1 AND previous_hash IS NOT NULL AND event_hash IS NOT NULL)
  unfoldable pub hash_required : EventRow J → Bool
  hash_required r =
      r.sequence_id == 1
      || (ltb 1 r.sequence_id && elim r.previous_hash [ none ↦ false | some h ↦ true ])

  -- previous_hash IS NULL OR previous_hash ~ '^[0-9a-f]{64}$'
  unfoldable pub previous_format : EventRow J → Bool
  previous_format r = elim r.previous_hash [ none ↦ true | some h ↦ is_hex64 h ]

abbrev pub uq_aggregate_sequence : Text
uq_aggregate_sequence = codes "uq_aggregate_sequence"

abbrev pub uq_tenant_idempotency : Text
uq_tenant_idempotency = codes "uq_tenant_idempotency"

module _ {J : Type 0} where
  -- CHECK constraints are tested in the order of their names.
  unfoldable pub check_row : EventRow J → Result (Unit {0})
  check_row row = do
    guard (is_hex64 row.event_hash) (check_violation (codes "chk_event_hash_format"))
    guard (hash_required row) (check_violation (codes "chk_hash_required_non_genesis"))
    guard (previous_format row) (check_violation (codes "chk_previous_hash_format"))

  -- Unique indexes are tested in the order in which the migrations create them.
  unfoldable pub check_unique : EventRow J → List (EventRow J) → Result (Unit {0})
  check_unique row rows = do
    guard (not (any (same_event_id row) rows)) (unique_violation (codes "events_pkey"))
    guard (not (any (same_sequence row) rows)) (unique_violation uq_aggregate_sequence)
    guard (not (any (same_key row) rows)) (unique_violation uq_tenant_idempotency)
    guard (not (any (both_genesis row) rows))
        (unique_violation (codes "uq_events_genesis_per_aggregate"))
    guard (not (any (same_hash row) rows))
        (unique_violation (codes "uq_events_stream_event_hash_full"))

module _ {F J : Type 0} where
  -- INSERT INTO events
  unfoldable pub insert_event : EventRow J → Db F J → Result (Db F J)
  insert_event row db = do
    guard (columns_fit row) data_error
    check_row row
    check_unique row db.events
    ok (record db { events = row ∷ db.events })

  -- INSERT INTO outbox (event_id, tenant_id, status) VALUES (…, 'pending')
  unfoldable pub insert_outbox : ℕ → Uuid → Uuid → Db F J → Result (Db F J)
  insert_outbox now event tenant db = do
    guard (any (λ r. r.event_id == event) db.events)
        (foreign_key_violation (codes "outbox_event_id_fkey"))
    ok (record db {
      outbox =
          record {
            event_id = event;
            tenant_id = tenant;
            status = pending;
            attempts = 0;
            created_at = now;
            last_attempt_at = none;
            processed_at = none;
            error_payload = none;
          }
          ∷ db.outbox;
    })

-- fk_events_previous_hash: the previous hash is the hash of an event of the stream.
unfoldable pub previous_known : {J : Type 0} → List (EventRow J) → EventRow J → Bool
previous_known rows r = elim r.previous_hash [
  | none ↦ true
  | some h ↦ any (λ q. in_stream r.tenant_id r.aggregate_id q && text_eq q.event_hash h) rows
]

unfoldable pub all {ℓ} : {A : Type ℓ} → (A → Bool) → List A → Bool
all p [] = true
all p (x ∷ xs) = p x && all p xs

module _ {F J : Type 0} where
  -- The foreign key is deferred: it is tested when the transaction commits.
  unfoldable pub commit_ok : Db F J → Bool
  commit_ok db = all (previous_known db.events) db.events

  -- `async with conn.transaction()`: an exception in the body, or at the commit, rolls back.
  unfoldable pub transaction {ℓ} :
      {A : Type ℓ} → (Db F J → Result (A × Db F J)) → Db F J → Result A × Db F J
  transaction body db = elim (body db) [
    | err e ↦ (err e, db)
    | ok (a, db') ↦
        if commit_ok db'
        then (ok a, db')
        else (err (foreign_key_violation (codes "fk_events_previous_hash")), db)
  ]
