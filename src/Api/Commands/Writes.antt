-- ===== src/Api/Commands/Writes.antt =====
-- What the handlers can leave in the database: what they found, or what an append leaves.
use cloud_commander.Prelude.{ℕ, inl, inr}
use cloud_commander.Uuid.{Uuid}
use cloud_commander.Float.{Float}
use cloud_commander.Errors.{Result-cases}
use cloud_commander.Security.HashChain.{Hasher}
use cloud_commander.Domain.Schemas.{
  EventEnvelope, build, check_envelope, check_allocation, check_rollback,
  ResourceAllocationCommandPayload, DependencyEdgeCommandPayload, RollbackCommandPayload,
}
use cloud_commander.Infrastructure.Database.{Db}
use cloud_commander.Infrastructure.Repository.{Codec, append_event_and_enqueue}
use cloud_commander.Api.Commands.{
  Moment, Request, Uuid3, allocation, rollback, validate, validate_and_append, submit,
  request_resource_allocation, propose_dependency_edge, initiate_rollback,
}

module _ {F J : Type 0} ⦃float : Float F⦄ ⦃hasher : Hasher J⦄ ⦃codec : Codec F J⦄
    (P : Db F J → Type 0) (others : Db F J → Db F J) (db : Db F J) (found : P db)
    (writes : (now : ℕ) (e : EventEnvelope F J)
      → P (append_event_and_enqueue now e (others db)).1) where
  validate_and_append-writes :
      (now : ℕ) (e : EventEnvelope F J) (tenant : Uuid)
      → P (validate_and_append now e tenant others db).1
  unfolding validate_and_append
  validate_and_append-writes now e tenant = elim (Result-cases (validate e tenant db)) [
    | inl (u, h) ↦ rw (h, validate_and_append) (writes now e)
    | inr (x, h) ↦ rw (h, validate_and_append) found
  ]

  submit-writes :
      (m : Moment) (e : EventEnvelope F J) (tenant : Uuid) → P (submit m e tenant others db).1
  unfolding submit
  submit-writes m e tenant = elim (Result-cases (build check_envelope e)) [
    | inl (e', h) ↦ rw (h, submit) (validate_and_append-writes m.now e' tenant)
    | inr (x, h) ↦ rw (h, submit) found
  ]

  pub allocation-writes :
      (m : Moment) (req : Request) (p : ResourceAllocationCommandPayload F)
      → P (request_resource_allocation m req p others db).1
  unfolding request_resource_allocation
  allocation-writes m req p = elim (Result-cases (build check_allocation (allocation p))) [
    | inl (q, h) ↦ rw (h, request_resource_allocation) (submit-writes m _ req.tenant_id)
    | inr (x, h) ↦ rw (h, request_resource_allocation) found
  ]

  pub edge-writes :
      ⦃names : Uuid3⦄ (m : Moment) (req : Request) (p : DependencyEdgeCommandPayload)
      → P (propose_dependency_edge m req p others db).1
  unfolding propose_dependency_edge
  edge-writes m req p = submit-writes m _ req.tenant_id

  pub rollback-writes :
      (m : Moment) (req : Request) (p : RollbackCommandPayload)
      → P (initiate_rollback m req p others db).1
  unfolding initiate_rollback
  rollback-writes m req p = elim (Result-cases (build check_rollback (rollback p))) [
    | inl (q, h) ↦ rw (h, initiate_rollback) (submit-writes m _ req.tenant_id)
    | inr (x, h) ↦ rw (h, initiate_rollback) found
  ]
