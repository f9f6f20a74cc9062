-- ===== src/Api/Commands/Late.antt =====
-- A command for a place that its stream has passed.
use cloud_commander.Prelude.{
  ℕ, ◌≤◌, ◌<◌, ◌≡◌, refl, ◌∙◌, inl, true, Option, none, some, List, ◌∷◌, ◌++◌, arith, All, All-In,
  In-behind,
}
use cloud_commander.Uuid.{Uuid}
use cloud_commander.Float.{Float}
use cloud_commander.Errors.{ok, err, Exc}
use cloud_commander.Security.HashChain.{Hasher}
use cloud_commander.Domain.Schemas.{
  EventEnvelope, ResourceNodeSnapshot, check_payload, check_envelope,
}
use cloud_commander.Domain.Reducers.{reduce_node, replay}
use cloud_commander.Domain.Replay.Parts.{replay-append, replay-position}
use cloud_commander.Infrastructure.Database.{Db}
use cloud_commander.Infrastructure.Database.Laws.{Inserts}
use cloud_commander.Infrastructure.Repository.{Codec, get_events, get_latest_hash}
use cloud_commander.Infrastructure.Repository.Append.{IsWellFormed, next_row, appended}
use cloud_commander.Infrastructure.Repository.Invariant.{append_accepted, appended-IsWellFormed}
use cloud_commander.Infrastructure.Repository.Read.{ReadsBack}
use cloud_commander.Infrastructure.Repository.RoundTrip.{map_record-event_row}
use cloud_commander.Infrastructure.Repository.Stream.{get_events-own}
use cloud_commander.Api.Commands.{validate, validate_and_append}
use cloud_commander.Api.Commands.Validation.{validate_stale}

module _ {F J : Type 0} ⦃float : Float F⦄ ⦃hasher : Hasher J⦄ ⦃codec : Codec F J⦄ where
  replay-stuck :
      (before behind : List (EventEnvelope F J)) (e : EventEnvelope F J)
      (state : Option (ResourceNodeSnapshot F)) (x : Exc)
      → replay none before ≡ ok state
      → reduce_node state e ≡ err x
      → replay none (before ++ (e ∷ behind)) ≡ err x
  unfolding replay
  replay-stuck before behind e state x h refused =
      replay-append none before (e ∷ behind) ∙ rw (h, refused, replay) refl

  validate-stuck :
      (tenant agg : Uuid) (es : List (EventEnvelope F J)) (x : Exc) (db : Db F J)
      → get_events tenant agg 0 db ≡ ok es
      → replay none es ≡ err x
      → (e : EventEnvelope F J) → e.aggregate_id ≡ agg
      → validate e tenant db ≡ err x
  unfolding validate
  validate-stuck tenant agg es x db read h e own = rw (own, read, h, validate) refl

  -- A valid command for a free place between two events of a stream that can be replayed is
  -- accepted although the reducer refuses it in the state before that place, if its row passes the
  -- constraints, and is then read at that place. On every database whose stream has the same events
  -- up to it, and any behind it, the validation of every command on the aggregate raises the error
  -- of the reducer as it is.
  pub late_command_bars :
      (laws : ReadsBack F J) (now : ℕ) (e next e' : EventEnvelope F J) (db later : Db F J)
      (before behind more : List (EventEnvelope F J)) (state : Option (ResourceNodeSnapshot F))
      (s : ResourceNodeSnapshot F) (x : Exc)
      → IsWellFormed db
      → check_payload e.payload ≡ true
      → check_envelope e ≡ true
      → 0 < e.sequence_id
      → get_events e.tenant_id e.aggregate_id 0 db ≡ ok (before ++ (next ∷ behind))
      → replay none (before ++ (next ∷ behind)) ≡ ok (some s)
      → All (λ y. y.sequence_id < e.sequence_id) before
      → All (λ y. e.sequence_id < y.sequence_id) (next ∷ behind)
      → replay none before ≡ ok state
      → reduce_node state e ≡ err x
      → Inserts (next_row e db) db.events
      → get_events e.tenant_id e.aggregate_id 0 later ≡ ok (before ++ (e ∷ more))
      → e'.aggregate_id ≡ e.aggregate_id
      → (validate_and_append now e e.tenant_id (λ d. d) db ≡ (ok tt, appended now e db))
        × (get_events e.tenant_id e.aggregate_id 0 (appended now e db)
            ≡ ok (before ++ (e ∷ (next ∷ behind))))
        × (validate e' e.tenant_id later ≡ err x)
  unfolding validate_and_append
  late_command_bars laws now e next e' db later before behind more state s x w hp he pos read
        replayed lo hi h refused inserts again own =
      let seen = (replay-position none (before ++ (next ∷ behind)) (some s) replayed).1 in
      let old =
        All-In (λ y. y.sequence_id ≤ s.last_sequence_id) next _ seen
          (In-behind next before (next ∷ behind) (inl refl)) in
      let valid = validate_stale e e.tenant_id db _ s read replayed (omega (arith, old, hi.0)) in
      let done = append_accepted now e db w inserts in
      let back =
        map_record-event_row laws e (get_latest_hash e.tenant_id e.aggregate_id db) hp he in
      let grown =
        get_events-own now e db before (next ∷ behind) e.tenant_id e.aggregate_id 0
          (appended-IsWellFormed now e db w inserts) back (ground arith) lo hi read in
      (
        rw (valid, done, validate_and_append) refl,
        grown,
        validate-stuck e.tenant_id e.aggregate_id _ x later again
            (replay-stuck before more e state x h refused) e' own,
      )
