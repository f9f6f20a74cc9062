-- ===== src/Api/Commands/Accepted.antt =====
-- What an accepted command does to the stream that the next one is validated on.
use cloud_commander.Prelude.{
  ℕ, ◌≤◌, ◌<◌, ◌≡◌, refl, sym, ap, ◌∙◌, inl, inr, true, Option, none, some, List, [], ◌∷◌, ◌++◌,
  arith, All, All-map,
}
use mathlib.Core.List.{append-nil}
use cloud_commander.Uuid.{Uuid}
use cloud_commander.Float.{Float}
use cloud_commander.Errors.{ok, Result-cases}
use cloud_commander.Security.HashChain.{Hasher}
use cloud_commander.Domain.Schemas.{
  EventEnvelope, ResourceNodeSnapshot, check_payload, check_envelope,
}
use cloud_commander.Domain.Reducers.{reduce_node, replay}
use cloud_commander.Domain.Replay.Parts.{position, replay-append, replay-position}
use cloud_commander.Infrastructure.Database.{Db}
use cloud_commander.Infrastructure.Database.Laws.{Inserts}
use cloud_commander.Infrastructure.Repository.{Codec, get_events, get_latest_hash}
use cloud_commander.Infrastructure.Repository.Append.{IsWellFormed, next_row, appended}
use cloud_commander.Infrastructure.Repository.Invariant.{append_outcome, appended-IsWellFormed}
use cloud_commander.Infrastructure.Repository.Read.{ReadsBack}
use cloud_commander.Infrastructure.Repository.RoundTrip.{map_record-event_row}
use cloud_commander.Infrastructure.Repository.Stream.{get_events-own}
use cloud_commander.Api.Commands.{validate, validate_and_append}
use cloud_commander.Api.Commands.Validation.{validate-eq, rename-ok}

All-le-lt :
    {F J : Type 0} (n m : ℕ) (es : List (EventEnvelope F J))
    → n < m
    → All (λ e. e.sequence_id ≤ n) es
    → All (λ e. e.sequence_id < m) es
All-le-lt n m es h =
    All-map (λ e. e.sequence_id ≤ n) (λ e. e.sequence_id < m) (λ e k. omega (arith, h, k)) es

module _ {F J : Type 0} ⦃float : Float F⦄ ⦃hasher : Hasher J⦄ ⦃codec : Codec F J⦄ where
  -- Once the validation has passed, the outcome is that of the append.
  pub appends :
      (now : ℕ) (e : EventEnvelope F J) (tenant : Uuid) (others : Db F J → Db F J) (db db' : Db F J)
      → IsWellFormed (others db)
      → validate_and_append now e tenant others db ≡ (ok tt, db')
      → (validate e tenant db ≡ ok tt)
        × Inserts (next_row e (others db)) (others db).events
        × (db' ≡ appended now e (others db))
  unfolding validate_and_append
  appends now e tenant others db db' w h = elim (Result-cases (validate e tenant db)) [
    | inr (x, v) ↦ cc (rw (v, validate_and_append) at h)
    | inl (u, v) ↦ elim (append_outcome now e (others db) w) [
      | inr (x, failed, undone) ↦ cc (rw (v, undone, validate_and_append) at h)
      | inl (inserts, done) ↦ let k = rw (v, done, validate_and_append) at h in (v, inserts, cc (k))
    ]
  ]

  -- If a valid command with a sequence number behind the position of its stream is accepted, and
  -- others have not changed that stream meanwhile, the stream is read back with the event at its
  -- end, and its replay succeeds with the state that the validation reached, if the log is well
  -- formed and pydantic reads back the payloads that it wrote.
  pub accepted_replays :
      (laws : ReadsBack F J) (now : ℕ) (e : EventEnvelope F J) (others : Db F J → Db F J)
      (db db' : Db F J) (es : List (EventEnvelope F J)) (state : Option (ResourceNodeSnapshot F))
      → IsWellFormed (others db)
      → check_payload e.payload ≡ true
      → check_envelope e ≡ true
      → get_events e.tenant_id e.aggregate_id 0 db ≡ ok es
      → get_events e.tenant_id e.aggregate_id 0 (others db) ≡ ok es
      → replay none es ≡ ok state
      → position state < e.sequence_id
      → validate_and_append now e e.tenant_id others db ≡ (ok tt, db')
      → (s : ResourceNodeSnapshot F) × (reduce_node state e ≡ ok s)
        × (get_events e.tenant_id e.aggregate_id 0 db' ≡ ok (es ++ (e ∷ [])))
        × (replay none (es ++ (e ∷ [])) ≡ ok (some s))
  unfolding replay
  accepted_replays laws now e others db db' es state w hp he read same replayed newer h =
      let (valid, inserts, made) = appends now e e.tenant_id others db db' w h in
      let (s, step) =
        (rename-ok _ (reduce_node state e)).0
          (sym (validate-eq e e.tenant_id db es state read replayed) ∙ valid) in
      let seen = (replay-position none es state replayed).1 in
      let back =
        map_record-event_row laws e (get_latest_hash e.tenant_id e.aggregate_id (others db)) hp
          he in
      let grown =
        get_events-own now e (others db) es [] e.tenant_id e.aggregate_id 0
          (appended-IsWellFormed now e (others db) w inserts) back (ground arith)
          (All-le-lt (position state) e.sequence_id es newer seen) tt
          (same ∙ ap ok (sym (append-nil es))) in
      (s, step, rw made grown, replay-append none es (e ∷ []) ∙ rw (replayed, step, replay) refl)
