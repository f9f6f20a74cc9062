-- ===== src/Api/Commands/Validation.antt =====
-- Which commands pass the validation, and what a refused one answers.
use cloud_commander.Prelude.{
  ℕ, ◌≤◌, ◌≡◌, refl, ◌∙◌, ◌↔◌, ◌⊎◌, inl, inr, true, false, Option, none, some, List, arith, leb,
}
use cloud_commander.Text.{Text, lower, has_substring}
use cloud_commander.Uuid.{Uuid}
use cloud_commander.Float.{Float}
use cloud_commander.Errors.{Result, ok, err, Exc, unauthorized, invalid_transition, http, ◌>>=◌}
use cloud_commander.Security.HashChain.{Hasher}
use cloud_commander.Security.RbacPolicy.{Action, allocate, freeze, resolve, unauthorized_message}
use cloud_commander.Security.RbacPolicy.Laws.{verify_permission-cases}
use cloud_commander.Domain.Schemas.{
  EventPayload, allocation_requested, aggregate_frozen, drift_resolved, EventEnvelope,
  ResourceNodeSnapshot,
}
use cloud_commander.Domain.Reducers.{
  or_initial, frozen_message, unfrozen_message, apply_payload, reduce_node, replay,
}
use cloud_commander.Domain.Replay.{reduce_node_stale}
use cloud_commander.Infrastructure.Database.{Db, any, same_event_id, columns_fit}
use cloud_commander.Infrastructure.Repository.{
  Codec, get_events, append_event_and_enqueue, rename, sequence_message,
}
use cloud_commander.Infrastructure.Repository.Append.{IsWellFormed, next_row}
use cloud_commander.Infrastructure.Repository.Conflict.{Digests, first_writer_wins}
use cloud_commander.Api.Commands.{http_of_rejection, http_of_append, validate, validate_and_append}

-- The answers to a refusal by the reducer
abbrev pub Answers : Exc → Type 0
Answers x = (m : Text) × ((x ≡ http 403 m) ⊎ (x ≡ http 423 m))

frozen-status : http_of_rejection (invalid_transition frozen_message) ≡ http 423 frozen_message
unfolding http_of_rejection frozen_message lower has_substring
frozen-status = refl

unfrozen-status :
    http_of_rejection (invalid_transition unfrozen_message) ≡ http 423 unfrozen_message
unfolding http_of_rejection unfrozen_message lower has_substring
unfrozen-status = refl

forbidden-status : (m : Text) → http_of_rejection (unauthorized m) ≡ http 403 m
unfolding http_of_rejection
forbidden-status m = refl

pub rename-ok :
    {A : Type 0} (f : Exc → Exc) (r : Result A)
    → ((rename f r >>= λ a. ok (tt {0})) ≡ ok tt) ↔ ((a : A) × (r ≡ ok a))
rename-ok f (ok a) = (λ h. (a, refl), λ h. refl)
rename-ok f (err x) = (λ h. cc, λ h. cc (h.1))

module _ {F J : Type 0} where
  apply_payload-err :
      (p : EventPayload F J) (s : ResourceNodeSnapshot F) (e : EventEnvelope F J) (x : Exc)
      → apply_payload p s e ≡ err x
      → ((a : Action) × (x ≡ unauthorized (unauthorized_message a e.aggregate_id)))
        ⊎ ((x ≡ invalid_transition frozen_message) ⊎ (x ≡ invalid_transition unfrozen_message))
  unfolding apply_payload
  apply_payload-err (allocation_requested p) s e x h =
      elim (verify_permission-cases e.actor_claims allocate e.aggregate_id) [
        | inl v ↦ inr (inl (ground arith))
        | inr v ↦ inl (allocate, ground arith)
      ]
  apply_payload-err (aggregate_frozen p) s e x h =
      elim (verify_permission-cases e.actor_claims freeze e.aggregate_id) [
        | inl v ↦ absurd (ground arith)
        | inr v ↦ inl (freeze, ground arith)
      ]
  apply_payload-err (drift_resolved p) s e x h =
      elim (verify_permission-cases e.actor_claims resolve e.aggregate_id) [
        | inl v ↦ inr (inr (ground arith))
        | inr v ↦ inl (resolve, ground arith)
      ]
  apply_payload-err _ s e x h = cc

module _ {F J : Type 0} ⦃float : Float F⦄ where
  -- Every command that the reducer refuses is answered 403 or 423: the answer 422 for an invalid
  -- transition is never given.
  pub reduce_node-Answers :
      (state : Option (ResourceNodeSnapshot F)) (e : EventEnvelope F J) (x : Exc)
      → reduce_node state e ≡ err x
      → Answers (http_of_rejection x)
  unfolding reduce_node
  reduce_node-Answers state e x h =
      let s = or_initial state e.aggregate_id in
      let refused : apply_payload e.payload s e ≡ err x = ground arith in
      answer (apply_payload-err e.payload s e x refused)
    where
      answer :
          ((a : Action) × (x ≡ unauthorized (unauthorized_message a e.aggregate_id)))
            ⊎ ((x ≡ invalid_transition frozen_message) ⊎ (x ≡ invalid_transition unfrozen_message))
          → Answers (http_of_rejection x)
      answer (inl (a, same)) =
          rw same (unauthorized_message a e.aggregate_id, inl (forbidden-status _))
      answer (inr (inl same)) = rw same (frozen_message, inr frozen-status)
      answer (inr (inr same)) = rw same (unfrozen_message, inr unfrozen-status)

module _ {F J : Type 0} ⦃float : Float F⦄ ⦃hasher : Hasher J⦄ ⦃codec : Codec F J⦄ where
  pub validate-eq :
      (e : EventEnvelope F J) (tenant : Uuid) (db : Db F J) (es : List (EventEnvelope F J))
      (state : Option (ResourceNodeSnapshot F))
      → get_events tenant e.aggregate_id 0 db ≡ ok es
      → replay none es ≡ ok state
      → validate e tenant db ≡ (rename http_of_rejection (reduce_node state e) >>= λ s. ok tt)
  unfolding validate
  validate-eq e tenant db es state h r = rw (h, r)

  -- Where the stream can be read and replayed, a command with a sequence number at most the last
  -- one of the replayed state passes the validation, whatever its claims, its payload and the
  -- lifecycle.
  pub validate_stale :
      (e : EventEnvelope F J) (tenant : Uuid) (db : Db F J) (es : List (EventEnvelope F J))
      (s : ResourceNodeSnapshot F)
      → get_events tenant e.aggregate_id 0 db ≡ ok es
      → replay none es ≡ ok (some s)
      → e.sequence_id ≤ s.last_sequence_id
      → validate e tenant db ≡ ok tt
  validate_stale e tenant db es s h r old =
      validate-eq e tenant db es (some s) h r
      ∙ (rename-ok http_of_rejection (reduce_node (some s) e)).1 (s, reduce_node_stale s e old)

  -- A command that was validated on a stream of a well-formed log to which another command for the
  -- same version has been appended meanwhile is answered 409 and changes nothing, if its id is new,
  -- its sequence number at least 1, its columns fit, and digests are 64 hex digits.
  pub second_writer_conflict :
      (digests : Digests J) (now now' : ℕ) (e e' : EventEnvelope F J) (tenant : Uuid)
      (others : Db F J → Db F J) (db : Db F J)
      → IsWellFormed db
      → append_event_and_enqueue now e db ≡ (ok tt, others db)
      → validate e' tenant db ≡ ok tt
      → e'.tenant_id ≡ e.tenant_id
      → e'.aggregate_id ≡ e.aggregate_id
      → e'.sequence_id ≡ e.sequence_id
      → leb 1 e'.sequence_id ≡ true
      → columns_fit (next_row e' (others db)) ≡ true
      → any (same_event_id (next_row e' (others db))) (others db).events ≡ false
      → validate_and_append now' e' tenant others db
        ≡ (err (http 409 (sequence_message e'.sequence_id e'.aggregate_id)), others db)
  unfolding validate_and_append http_of_append
  second_writer_conflict digests now now' e e' tenant others db w done v t a n h f i =
      rw (v, validate_and_append)
        (rw (first_writer_wins digests now now' e e' db (others db) w done t a n h f i) refl)
