-- ===== src/Infrastructure/Repository/RoundTrip.antt =====
-- An event that was appended is read back as it was.
use cloud_commander.Prelude.{ℕ, ◌≡◌, inl, inr, true, Option, some, ◌∷◌, arith}
use cloud_commander.Text.{Text}
use cloud_commander.Uuid.{Uuid}
use cloud_commander.Float.{Float}
use cloud_commander.Errors.{ok}
use cloud_commander.Security.HashChain.{Hasher}
use cloud_commander.Domain.Schemas.{EventEnvelope, check_payload, check_envelope}
use cloud_commander.Infrastructure.Database.{EventRow, Db}
use cloud_commander.Infrastructure.Repository.{
  Codec, get_latest_hash, find_event, verify_row, event_row, map_record_to_envelope,
  get_event_by_id, append_event_and_enqueue,
}
use cloud_commander.Infrastructure.Repository.Append.{IsWellFormed, next_row, appended}
use cloud_commander.Infrastructure.Repository.Invariant.{append_outcome, appended-IsWellFormed}
use cloud_commander.Infrastructure.Repository.Read.{ReadsBack}

find_event-next_row :
    {F J : Type 0} ⦃hasher : Hasher J⦄ ⦃codec : Codec F J⦄ (e : EventEnvelope F J) (db : Db F J)
    → find_event e.event_id e.tenant_id (next_row e db ∷ db.events) ≡ some (next_row e db)
unfolding find_event event_row
find_event-next_row e db = ground arith

module _ {F J : Type 0} ⦃float : Float F⦄ ⦃hasher : Hasher J⦄ ⦃codec : Codec F J⦄
    (laws : ReadsBack F J) where
  pub map_record-event_row :
      (e : EventEnvelope F J) (p : Option Text)
      → check_payload e.payload ≡ true
      → check_envelope e ≡ true
      → map_record_to_envelope (event_row e p) ≡ ok e
  unfolding map_record_to_envelope event_row
  map_record-event_row e p hp he = ground (arith, laws.parse-dump e.payload)

  get_event_found :
      (event tenant : Uuid) (db : Db F J) (r : EventRow J) (e : EventEnvelope F J)
      → find_event event tenant db.events ≡ some r
      → verify_row r ≡ ok tt
      → map_record_to_envelope r ≡ ok e
      → get_event_by_id event tenant db ≡ ok (some e)
  unfolding get_event_by_id
  get_event_found event tenant db r e found verified maps =
      rw (found, get_event_by_id, verified, maps)

  -- A valid event whose append to a well-formed log returns is found by its id and its tenant with
  -- every field as it was given, if pydantic reads back the payloads that it wrote.
  pub get_event_by_id-append :
      (now : ℕ) (e : EventEnvelope F J) (db db' : Db F J)
      → IsWellFormed db
      → check_payload e.payload ≡ true
      → check_envelope e ≡ true
      → append_event_and_enqueue now e db ≡ (ok tt, db')
      → get_event_by_id e.event_id e.tenant_id db' ≡ ok (some e)
  get_event_by_id-append now e db db' w hp he h = elim (append_outcome now e db w) [
    | inl (inserts, same) ↦
        let grown : db' ≡ appended now e db = cc (h, same) in
        let verified = (appended-IsWellFormed now e db w inserts).verified.0 in
        let maps = map_record-event_row e (get_latest_hash e.tenant_id e.aggregate_id db) hp he in
        rw grown (
          get_event_found e.event_id e.tenant_id (appended now e db) (next_row e db) e
            (find_event-next_row e db) verified maps)
    | inr (x, failed, same) ↦ cc (h, same)
  ]
