-- ===== src/Api/Commands/Handlers.antt =====
-- The handlers: what FastAPI has validated builds a valid event.
use cloud_commander.Prelude.{
  ◌≡◌, refl, ◌∙◌, inl, inr, Bool, true, ◌&&◌, arith, if◌then◌else◌, Bool-cases,
}
use cloud_commander.Text.{Text}
use cloud_commander.Uuid.{Uuid, uuid_str}
use cloud_commander.Float.{Float}
use cloud_commander.Errors.{Result, ok, err, validation, ◌>>◌}
use cloud_commander.Security.HashChain.{Hasher}
use cloud_commander.Domain.Schemas.{
  EventPayload, allocation_requested, edge_proposed, rollback_initiated, EventEnvelope,
  ResourceAllocationCommandPayload, DependencyEdgeCommandPayload, RollbackCommandPayload,
  length_between, not_empty, check_command, check_allocation, check_rollback,
  check_rollback_command, check_envelope,
}
use cloud_commander.Infrastructure.Database.{Db}
use cloud_commander.Infrastructure.Repository.{Codec}
use cloud_commander.Api.Commands.{
  Moment, Request, Uuid3, envelope, allocation, rollback, graph_aggregate_id, validate_and_append,
  submit, request_resource_allocation, propose_dependency_edge, initiate_rollback,
}

-- `Header(min_length=1, max_length=100)` for the key, `Header(min_length=1)` for the actor
abbrev pub check_headers : Request → Bool
check_headers req = length_between 1 100 req.x_idempotency_key && not_empty req.actor_id

check_allocation-eq :
    {F : Type 0} ⦃float : Float F⦄ (p : ResourceAllocationCommandPayload F)
    → check_allocation (allocation p) ≡ check_command p
unfolding check_allocation check_command
check_allocation-eq p = refl

check_rollback-eq :
    (p : RollbackCommandPayload) → check_rollback (rollback p) ≡ check_rollback_command p
unfolding check_rollback check_rollback_command
check_rollback-eq p = refl

module _ {F J : Type 0} ⦃float : Float F⦄ ⦃hasher : Hasher J⦄ ⦃codec : Codec F J⦄ where
  -- The answer of a handler after the validation and the append of its envelope
  abbrev pub answered :
      Moment → EventEnvelope F J → Uuid → (Db F J → Db F J) → Db F J → Result Text × Db F J
  answered m e tenant others db =
      let (r, db') = validate_and_append m.now e tenant others db in
      (r >> ok (uuid_str e.event_id), db')

  submit-answered :
      (m : Moment) (req : Request) (agg : Uuid) (p : EventPayload F J) (others : Db F J → Db F J)
      (db : Db F J)
      → check_headers req ≡ true
      → submit m (envelope m req agg p) req.tenant_id others db
        ≡ answered m (envelope m req agg p) req.tenant_id others db
  unfolding submit
  submit-answered m req agg p others db h =
      let good : check_envelope (envelope m req agg p) ≡ true =
        unfold check_envelope in ground arith in
      rw (good, submit)

  allocation-handler :
      (m : Moment) (req : Request) (p : ResourceAllocationCommandPayload F)
      (others : Db F J → Db F J) (db : Db F J)
      → check_headers req ≡ true
      → request_resource_allocation m req p others db ≡ (
          if check_command p
          then answered m
              (envelope m req p.node_id (allocation_requested (allocation p)))
              req.tenant_id
              others
              db
          else (err validation, db))
  unfolding request_resource_allocation
  allocation-handler m req p others db h = elim (Bool-cases (check_command p)) [
    | inl e ↦
        let e' = check_allocation-eq p ∙ e in
        rw (e, e', request_resource_allocation) (submit-answered m req _ _ others db h)
    | inr e ↦ let e' = check_allocation-eq p ∙ e in rw (e, e', request_resource_allocation)
  ]

  rollback-handler :
      (m : Moment) (req : Request) (p : RollbackCommandPayload) (others : Db F J → Db F J)
      (db : Db F J)
      → check_headers req ≡ true
      → initiate_rollback m req p others db ≡ (
          if check_rollback_command p
          then answered m
              (envelope m req p.target_aggregate_id (rollback_initiated (rollback p)))
              req.tenant_id
              others
              db
          else (err validation, db))
  unfolding initiate_rollback
  rollback-handler m req p others db h = elim (Bool-cases (check_rollback_command p)) [
    | inl e ↦
        let e' = check_rollback-eq p ∙ e in
        rw (e, e', initiate_rollback) (submit-answered m req _ _ others db h)
    | inr e ↦ let e' = check_rollback-eq p ∙ e in rw (e, e', initiate_rollback)
  ]

  -- With valid headers each handler answers as the validation and the append of the event that it
  -- describes, at the version after the expected one; a body that breaks its schema is refused by
  -- the allocation and by the rollback.
  pub handlers_lem :
      ⦃names : Uuid3⦄ (m : Moment) (req : Request) (others : Db F J → Db F J) (db : Db F J)
      → check_headers req ≡ true
      → ((p : ResourceAllocationCommandPayload F)
          → request_resource_allocation m req p others db ≡ (
              if check_command p
              then answered m
                  (envelope m req p.node_id (allocation_requested (allocation p)))
                  req.tenant_id
                  others
                  db
              else (err validation, db)))
        × ((p : DependencyEdgeCommandPayload)
            → propose_dependency_edge m req p others db
              ≡ answered m
                  (envelope m req (graph_aggregate_id req.tenant_id) (
                    edge_proposed (record {
                      source_node_id = p.source_node_id;
                      target_node_id = p.target_node_id;
                    })))
                  req.tenant_id
                  others
                  db)
        × ((p : RollbackCommandPayload)
            → initiate_rollback m req p others db ≡ (
                if check_rollback_command p
                then answered m
                    (envelope m req p.target_aggregate_id (rollback_initiated (rollback p)))
                    req.tenant_id
                    others
                    db
                else (err validation, db)))
  unfolding propose_dependency_edge
  handlers_lem m req others db h = (
    λ p. allocation-handler m req p others db h,
    λ p. submit-answered m req _ _ others db h,
    λ p. rollback-handler m req p others db h,
  )
