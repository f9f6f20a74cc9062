-- ===== src/Worker/Records/Atomic.antt =====
-- All that the processing of an entry writes, or nothing of it.
use cloud_commander.Prelude.{◌≡◌, refl, ◌⊎◌, Bool, true, false, Option, none, some}
use cloud_commander.Text.{Text}
use cloud_commander.Uuid.{Uuid}
use cloud_commander.Float.{Float}
use cloud_commander.Errors.{ok}
use cloud_commander.Security.HashChain.{Hasher}
use cloud_commander.Domain.Schemas.{EventEnvelope, ResourceNodeSnapshot}
use cloud_commander.Infrastructure.Database.{Db, OutboxRow}
use cloud_commander.Infrastructure.Repository.{Codec, get_event_by_id}
use cloud_commander.Infrastructure.Adapters.{CloudAdapter}
use cloud_commander.Worker.Processing.{should_apply_projection}
use cloud_commander.Worker.Records.{
  LibraryTexts, WorkerState, Clock, Prepared, prepare, compute_next_projection_state,
  evaluate_reconcile, read_and_prepare,
}
use cloud_commander.Worker.Records.Writes.{Undone, Done}

module _ {F J : Type 0} ⦃float : Float F⦄ where
  -- Where an outcome is to be projected, `next` is the state that the reducer makes of the event and
  -- the read model; where it is not, there is none.
  abbrev pub Projects : Bool → EventEnvelope F J → Db F J → Option (ResourceNodeSnapshot F) → Type 0
  Projects should e db next =
      ((should ≡ true)
        × (s : ResourceNodeSnapshot F) × (next ≡ some s)
        × (compute_next_projection_state e db ≡ ok s))
      ⊎ ((should ≡ false) × (next ≡ none))

  -- What is prepared for an event
  abbrev Sound : Bool → EventEnvelope F J → Db F J → Prepared F J → Type 0
  Sound should e db p =
      ((m : Text) → p.error ≡ some m → p.next_state ≡ none) × Projects should e db p.next_state

module _ {F J A : Type 0} ⦃float : Float F⦄ ⦃hasher : Hasher J⦄ ⦃codec : Codec F J⦄
    ⦃adapters : CloudAdapter F A⦄ ⦃texts : LibraryTexts⦄ where
  -- Is the outcome of the event's reconciliation to be projected?
  abbrev pub to_project : EventEnvelope F J → WorkerState F A → Bool
  to_project e s =
      let answer = (evaluate_reconcile e s.reconciler).0 in
      should_apply_projection answer.0 answer.1

  -- What the processing of an entry leaves of the database that it commits on
  abbrev pub Outcome : WorkerState F A → OutboxRow → Db F J → Db F J → Db F J → Type 0
  Outcome s row read db db' =
      Undone row.event_id db db'
      ⊎ ((e : EventEnvelope F J) × (next : Option (ResourceNodeSnapshot F)) × (get_event_by_id
              row.event_id row.tenant_id read
            ≡ ok (some e))
          × Projects (to_project e s) e read next
          × Done row.event_id row.tenant_id next db db')

  pub read_found :
      (clock : Clock F) (event tenant : Uuid) (e : EventEnvelope F J) (db : Db F J)
      (s : WorkerState F A)
      → get_event_by_id event tenant db ≡ ok (some e)
      → read_and_prepare clock event tenant db s ≡ prepare clock e db s
  unfolding read_and_prepare
  read_found clock event tenant e db s h = rw (h, read_and_prepare) refl
