-- ===== src/System/Grows.antt =====
-- What a run never takes back.
use cloud_commander.Prelude.{some}
use cloud_commander.Float.{Float}
use cloud_commander.Security.HashChain.{Hasher}
use cloud_commander.Infrastructure.Database.{Db}
use cloud_commander.Infrastructure.Repository.{Codec}
use cloud_commander.Infrastructure.Repository.Append.{IsWellFormed}
use cloud_commander.Infrastructure.Repository.Invariant.{
  append-IsWellFormed, appended_on-IsWellFormed, append_event_on-cases,
}
use cloud_commander.Infrastructure.Adapters.{CloudAdapter}
use cloud_commander.Api.Commands.{Uuid3}
use cloud_commander.Api.Commands.Writes.{allocation-writes, edge-writes, rollback-writes}
use cloud_commander.Worker.Outbox.Settled.{queue-IsWellFormed}
use cloud_commander.Worker.Records.{LibraryTexts, apply_projection}
use cloud_commander.Worker.Records.Settles.{
  process_record-IsWellFormed, apply_alert-IsWellFormed, apply_projection-IsWellFormed,
}
use cloud_commander.System.{
  Run, idle, allocation, edge, rollback, claim, process, append, project, alert, mark_done,
  mark_fault,
}
use cloud_commander.System.Advances.{Advances, Advances-refl, Advances-trans, upsert-Advances}
use cloud_commander.System.Writes.{
  after_others, claim_batch-Advances, process_record-Advances, append_event_on-Advances,
  apply_alert-Advances, mark_processed-Advances, mark_failed-Advances,
}

module _ {F J A : Type 0} ⦃float : Float F⦄ ⦃hasher : Hasher J⦄ ⦃codec : Codec F J⦄
    ⦃adapters : CloudAdapter F A⦄ ⦃texts : LibraryTexts⦄ ⦃names : Uuid3⦄ where
  -- Whatever clients submit and workers claim and process, in any interleaving of their commits,
  -- also where others commit between the statements of a transaction, as READ COMMITTED allows, the
  -- log and the alerts only get new rows before the ones that they have, and every node of the read
  -- model stays there with a version that never falls.
  pub Run-Advances : {s d : Db F J} → Run F J A s d → Advances s d
  Run-Advances {s} idle = Advances-refl s
  Run-Advances {s} (allocation {d} m req p others r o) =
      allocation-writes (Advances s) others d (Run-Advances r)
        (after_others s d (others d) (Run-Advances r) (Run-Advances o)) m req p
  Run-Advances {s} (edge {d} m req p others r o) =
      edge-writes (Advances s) others d (Run-Advances r)
        (after_others s d (others d) (Run-Advances r) (Run-Advances o)) m req p
  Run-Advances {s} (rollback {d} m req p others r o) =
      rollback-writes (Advances s) others d (Run-Advances r)
        (after_others s d (others d) (Run-Advances r) (Run-Advances o)) m req p
  Run-Advances {s} (claim {d} size locked now r) =
      Advances-trans s d _ (Run-Advances r) (claim_batch-Advances size locked now d)
  Run-Advances {s} (process {d} clock row others worker r o) =
      Advances-trans s d _ (Run-Advances r) (
        Advances-trans d (others d) _ (Run-Advances o)
          (process_record-Advances clock row others d worker))
  Run-Advances {s} (append {d} now e seen k r) =
      Advances-trans s d _ (Run-Advances r) (append_event_on-Advances now e seen d)
  Run-Advances {s} (project {d} tenant snapshot r) =
      Advances-trans s d _ (Run-Advances r) (upsert-Advances tenant snapshot d)
  Run-Advances {s} (alert {d} tenant should g r) =
      Advances-trans s d _ (Run-Advances r) (apply_alert-Advances tenant should g d)
  Run-Advances {s} (mark_done {d} now event status r) =
      Advances-trans s d _ (Run-Advances r) (mark_processed-Advances now event status d)
  Run-Advances {s} (mark_fault {d} event attempts message r) =
      Advances-trans s d _ (Run-Advances r) (mark_failed-Advances event attempts message d)

  -- Whatever clients submit and workers claim and process, in any interleaving of their commits,
  -- also where others commit between the statements of a transaction, as READ COMMITTED allows, a
  -- well-formed log stays well formed: ids, places in a stream, keys within a tenant and hashes
  -- within a stream unique, every hash verified, every event linked to an earlier one of its stream
  -- or, as a first version, to none, and one outbox entry for every event.
  pub Run-IsWellFormed : {s d : Db F J} → Run F J A s d → IsWellFormed s → IsWellFormed d
  unfolding apply_projection
  Run-IsWellFormed idle w = w
  Run-IsWellFormed (allocation {d} m req p others r o) w =
      let found = Run-IsWellFormed r w in
      allocation-writes IsWellFormed others d found
        (λ now e. append-IsWellFormed now e (others d) (Run-IsWellFormed o found)) m req p
  Run-IsWellFormed (edge {d} m req p others r o) w =
      let found = Run-IsWellFormed r w in
      edge-writes IsWellFormed others d found
        (λ now e. append-IsWellFormed now e (others d) (Run-IsWellFormed o found)) m req p
  Run-IsWellFormed (rollback {d} m req p others r o) w =
      let found = Run-IsWellFormed r w in
      rollback-writes IsWellFormed others d found
        (λ now e. append-IsWellFormed now e (others d) (Run-IsWellFormed o found)) m req p
  Run-IsWellFormed (claim {d} size locked now r) w =
      (queue-IsWellFormed d (Run-IsWellFormed r w)).0 size locked now
  Run-IsWellFormed (process {d} clock row others worker r o) w =
      process_record-IsWellFormed clock row others d worker
        (Run-IsWellFormed o (Run-IsWellFormed r w))
  Run-IsWellFormed (append {d} now e seen k r) w =
      let found = Run-IsWellFormed r w in
      append_event_on-cases IsWellFormed now e seen d found
        (λ h. appended_on-IsWellFormed now e seen d found k h)
  Run-IsWellFormed (project {d} tenant snapshot r) w =
      apply_projection-IsWellFormed tenant (some snapshot) d (Run-IsWellFormed r w)
  Run-IsWellFormed (alert {d} tenant should g r) w =
      apply_alert-IsWellFormed tenant should g d (Run-IsWellFormed r w)
  Run-IsWellFormed (mark_done {d} now event status r) w =
      (queue-IsWellFormed d (Run-IsWellFormed r w)).1 now event status
  Run-IsWellFormed (mark_fault {d} event attempts message r) w =
      (queue-IsWellFormed d (Run-IsWellFormed r w)).2 event attempts message
