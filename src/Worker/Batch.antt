-- ===== src/Worker/Batch.antt =====
-- app/worker/projection_worker.py: one turn of the worker's loop.
use cloud_commander.Prelude.{ℕ, Bool, List, [], ◌∷◌, ltb, length}
use cloud_commander.Float.{Float}
use cloud_commander.Security.HashChain.{Hasher}
use cloud_commander.Infrastructure.Database.{Db, OutboxRow}
use cloud_commander.Infrastructure.Repository.{Codec}
use cloud_commander.Infrastructure.Adapters.{CloudAdapter}
use cloud_commander.Worker.Outbox.{claim_batch}
use cloud_commander.Worker.Records.{LibraryTexts, WorkerState, Clock, process_record}

-- What processing one entry meets: its clock, and what other clients commit meanwhile
pub record Surroundings (F J : Type 0) : Type 0 where
  pub clock : Clock F
  pub others : Db F J → Db F J

module _ {F J A : Type 0} ⦃float : Float F⦄ ⦃hasher : Hasher J⦄ ⦃codec : Codec F J⦄
    ⦃adapters : CloudAdapter F A⦄ ⦃texts : LibraryTexts⦄ where
  -- `for row in rows: await self._process_record(row)`
  unfoldable pub process_rows :
      (OutboxRow → Surroundings F J)
      → List OutboxRow
      → Db F J
      → WorkerState F A
      → Db F J × WorkerState F A
  process_rows at [] db s = (db, s)
  process_rows at (row ∷ rows) db s =
      let (db', s') = process_record (at row).clock row (at row).others db s in
      process_rows at rows db' s'

  unfoldable pub process_next_batch :
      ℕ
      → (OutboxRow → Bool)
      → ℕ
      → (OutboxRow → Surroundings F J)
      → Db F J
      → WorkerState F A
      → Bool × (Db F J × WorkerState F A)
  unfolding process_rows
  process_next_batch batch_size locked now at db s =
      let (rows, db') = claim_batch batch_size locked now db in
      (ltb 0 (length rows), process_rows at rows db' s)
