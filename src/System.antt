-- ===== src/System.antt =====
-- The system at work: clients that send commands to app/api/routers/commands.py and workers that
-- run app/worker/projection_worker.py share one database, and their commits interleave.
pub mod Advances
pub mod Writes
pub mod Grows
pub mod Once
pub mod Shown
use cloud_commander.Prelude.{
  ℕ, zero, suc, ◌+◌, ◌-◌, ◌*◌, ◌/◌, ◌%◌, ◌^◌, ◌≤◌, ◌<◌, max, String, ◌≡◌, refl, sym, ap, ◌∙◌, ◌≢◌,
  ◌↔◌, ◌⊎◌, inl, inr, Bool, true, false, not, ◌&&◌, ◌||◌, Option, none, some, List, [], ◌∷◌, ◌++◌,
  map, arith, ltb, leb, ◌==◌, if◌then◌else◌, ==_iff, Bool-cases, Option-cases, leb-true, leb-false,
  tests, length, length-append, All, All-append, All-map, All-of, In, All-In, In-behind, kept,
  skipped,
}
use cloud_commander.Text.{Text}
use cloud_commander.Uuid.{Uuid}
use cloud_commander.Float.{Float}
use cloud_commander.Security.HashChain.{Hasher}
use cloud_commander.Domain.Schemas.{
  EventEnvelope, ResourceNodeSnapshot, ResourceAllocationCommandPayload,
  DependencyEdgeCommandPayload, RollbackCommandPayload,
}
use cloud_commander.Infrastructure.Database.{Db, OutboxRow}
use cloud_commander.Infrastructure.Repository.{Codec, append_event_on, upsert_node_projection}
use cloud_commander.Infrastructure.Repository.Invariant.{Kept}
use cloud_commander.Infrastructure.Adapters.{CloudAdapter}
use cloud_commander.Api.Commands.{
  Moment, Request, Uuid3, request_resource_allocation, propose_dependency_edge, initiate_rollback,
}
use cloud_commander.Worker.Guardrail.{GuardrailState}
use cloud_commander.Worker.Outbox.{claim_batch, mark_processed, mark_failed}
use cloud_commander.Worker.Records.{LibraryTexts, WorkerState, Clock, process_record, apply_alert}

-- What the clients and the workers make of a database, commit by commit and, where a transaction
-- makes several statements, statement by statement, since PostgreSQL's READ COMMITTED lets others
-- commit between them. A handler reads, others run (`others`), and it appends; a worker claims a
-- batch, and for each entry it reads, others run, and it commits. In `append` others have committed
-- between the transaction's SELECT of the head, on `seen`, and its INSERT, on `d`, which also
-- covers the events of the follow-ups. From `project` on stand the single writes of a worker's
-- transaction, in any order and with any values. What a worker keeps in its memory is left open.
pub data Run (F J A : Type 0) ⦃float : Float F⦄ ⦃hasher : Hasher J⦄ ⦃codec : Codec F J⦄
    ⦃adapters : CloudAdapter F A⦄ ⦃texts : LibraryTexts⦄ ⦃names : Uuid3⦄
    : Db F J → Db F J → Type 0 where
  idle : {s : Db F J} → Run F J A s s
  allocation :
      {s d : Db F J} (m : Moment) (req : Request) (p : ResourceAllocationCommandPayload F)
      (others : Db F J → Db F J)
      → Run F J A s d
      → Run F J A d (others d)
      → Run F J A s (request_resource_allocation m req p others d).1
  edge :
      {s d : Db F J} (m : Moment) (req : Request) (p : DependencyEdgeCommandPayload)
      (others : Db F J → Db F J)
      → Run F J A s d
      → Run F J A d (others d)
      → Run F J A s (propose_dependency_edge m req p others d).1
  rollback :
      {s d : Db F J} (m : Moment) (req : Request) (p : RollbackCommandPayload)
      (others : Db F J → Db F J)
      → Run F J A s d
      → Run F J A d (others d)
      → Run F J A s (initiate_rollback m req p others d).1
  claim :
      {s d : Db F J} (batch_size : ℕ) (locked : OutboxRow → Bool) (now : ℕ)
      → Run F J A s d
      → Run F J A s (claim_batch batch_size locked now d).1
  process :
      {s d : Db F J} (clock : Clock F) (row : OutboxRow) (others : Db F J → Db F J)
      (worker : WorkerState F A)
      → Run F J A s d
      → Run F J A d (others d)
      → Run F J A s (process_record clock row others d worker).0
  append :
      {s d : Db F J} (now : ℕ) (e : EventEnvelope F J) (seen : Db F J)
      → Kept seen d
      → Run F J A s d
      → Run F J A s (append_event_on now e seen d).1
  project :
      {s d : Db F J} (tenant : Uuid) (snapshot : ResourceNodeSnapshot F)
      → Run F J A s d
      → Run F J A s (upsert_node_projection tenant snapshot d)
  alert :
      {s d : Db F J} (tenant : Uuid) (should : Bool) (g : Option (GuardrailState F))
      → Run F J A s d
      → Run F J A s (apply_alert tenant should g d)
  mark_done :
      {s d : Db F J} (now : ℕ) (event : Uuid) (status : Text)
      → Run F J A s d
      → Run F J A s (mark_processed now event status d)
  mark_fault :
      {s d : Db F J} (event : Uuid) (attempts : ℕ) (message : Text)
      → Run F J A s d
      → Run F J A s (mark_failed event attempts message d)
