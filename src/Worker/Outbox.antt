-- ===== src/Worker/Outbox.antt =====
-- app/worker/projection_worker.py: the outbox as a queue. `now` is NOW() of the transaction, in
-- microseconds; `locked` tells the entries whose rows other transactions have locked.
pub mod Claim
pub mod Lease
pub mod Settled
pub mod Stale
use cloud_commander.Prelude.{
  ℕ, zero, suc, ◌+◌, ◌*◌, ◌^◌, Bool, true, false, not, ◌&&◌, Option, none, some, List, [], ◌∷◌, map,
  ltb, leb, ◌==◌, if◌then◌else◌,
}
use cloud_commander.Text.{Text}
use cloud_commander.Uuid.{Uuid}
use cloud_commander.Infrastructure.Database.{
  OutboxRow, pending, processing, processed, failed, dead_letter, reconcile_status, error_note, Db,
  any,
}

abbrev pub max_attempts : ℕ
max_attempts = 5

-- RETRY_BACKOFF_BASE_SECONDS and PROCESSING_LEASE_TIMEOUT_SECONDS
abbrev pub retry_backoff_base : ℕ
retry_backoff_base = 15 * 1000000

abbrev pub processing_lease_timeout : ℕ
processing_lease_timeout = 300 * 1000000

-- `last_attempt_at IS NULL OR last_attempt_at < NOW() - wait`
abbrev pub waited : ℕ → ℕ → Option ℕ → Bool
waited now wait none = true
waited now wait (some last) = ltb (last + wait) now

-- The WHERE clause of the claim query
unfoldable pub due : ℕ → OutboxRow → Bool
due now r = elim r.status [
  | pending ↦ waited now (2 ^ r.attempts * retry_backoff_base) r.last_attempt_at
  | processing ↦ waited now processing_lease_timeout r.last_attempt_at
  | processed ↦ false
  | failed ↦ waited now (2 ^ r.attempts * retry_backoff_base) r.last_attempt_at
  | dead_letter ↦ false
]

-- ORDER BY created_at ASC
unfoldable pub insert_oldest : OutboxRow → List OutboxRow → List OutboxRow
insert_oldest r [] = r ∷ []
insert_oldest r (q ∷ rows) =
    let rest = insert_oldest r rows in
    if leb r.created_at q.created_at then r ∷ q ∷ rows else q ∷ rest

-- The rows that the query finds due and does not skip as locked
unfoldable pub due_rows : (OutboxRow → Bool) → ℕ → List OutboxRow → List OutboxRow
unfolding insert_oldest due
due_rows locked now [] = []
due_rows locked now (r ∷ rows) =
    let rest = due_rows locked now rows in
    if due now r && not (locked r) then insert_oldest r rest else rest

-- LIMIT
unfoldable pub limit {ℓ} : {A : Type ℓ} → ℕ → List A → List A
limit zero rows = []
limit (suc n) [] = []
limit (suc n) (r ∷ rows) = r ∷ limit n rows

-- WITH claimed AS (SELECT event_id …)
unfoldable pub claimed : ℕ → (OutboxRow → Bool) → ℕ → List OutboxRow → List Uuid
unfolding due_rows limit
claimed batch_size locked now rows =
    map (λ r. r.event_id) (limit batch_size (due_rows locked now rows))

abbrev pub claim_row : ℕ → OutboxRow → OutboxRow
claim_row now r = record r {
  status = processing;
  attempts = r.attempts + 1;
  last_attempt_at = some now;
}

-- WHERE outbox.event_id = claimed.event_id
abbrev pub is_claimed : List Uuid → OutboxRow → Bool
is_claimed ids r = any (λ id. r.event_id == id) ids

unfoldable pub claim_rows : List Uuid → ℕ → List OutboxRow → List OutboxRow
claim_rows ids now [] = []
claim_rows ids now (r ∷ rows) =
    (if is_claimed ids r then claim_row now r else r) ∷ claim_rows ids now rows

-- RETURNING; PostgreSQL leaves the order open.
unfoldable pub returning : List Uuid → ℕ → List OutboxRow → List OutboxRow
returning ids now [] = []
returning ids now (r ∷ rows) =
    let rest = returning ids now rows in if is_claimed ids r then claim_row now r ∷ rest else rest

-- WHERE event_id = …
unfoldable pub update_rows : Uuid → (OutboxRow → OutboxRow) → List OutboxRow → List OutboxRow
update_rows event f [] = []
update_rows event f (r ∷ rows) = (if r.event_id == event then f r else r) ∷ update_rows event f rows

abbrev pub processed_row : ℕ → Text → OutboxRow → OutboxRow
processed_row now status r = record r {
  status = processed;
  processed_at = some now;
  error_payload = some (reconcile_status status);
}

abbrev pub failed_row : ℕ → Text → OutboxRow → OutboxRow
failed_row attempts message r = record r {
  status = if leb max_attempts attempts then dead_letter else failed;
  error_payload = some (error_note message);
}

module _ {F J : Type 0} where
  -- The claim query, in its transaction
  unfoldable pub claim_batch : ℕ → (OutboxRow → Bool) → ℕ → Db F J → List OutboxRow × Db F J
  unfolding claimed claim_rows returning
  claim_batch batch_size locked now db =
      let ids = claimed batch_size locked now db.outbox in
      (returning ids now db.outbox, record db { outbox = claim_rows ids now db.outbox })

  unfoldable pub mark_processed : ℕ → Uuid → Text → Db F J → Db F J
  unfolding update_rows
  mark_processed now event status db = record db {
    outbox = update_rows event (processed_row now status) db.outbox;
  }

  unfoldable pub mark_failed : Uuid → ℕ → Text → Db F J → Db F J
  unfolding update_rows
  mark_failed event attempts message db = record db {
    outbox = update_rows event (failed_row attempts message) db.outbox;
  }
