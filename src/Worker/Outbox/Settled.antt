-- ===== src/Worker/Outbox/Settled.antt =====
-- What the operations of the queue keep, and when a failed entry is due again.
use cloud_commander.Prelude.{
  ℕ, ◌+◌, ◌*◌, ◌^◌, ◌<◌, ◌≡◌, refl, ◌∙◌, ◌↔◌, inl, inr, Bool, true, List, [], ◌∷◌, arith, leb, ◌==◌,
  Bool-cases, leb-true, leb-false,
}
use cloud_commander.Text.{Text}
use cloud_commander.Uuid.{Uuid}
use cloud_commander.Security.HashChain.{Hasher}
use cloud_commander.Infrastructure.Database.{OutboxRow, EventRow, Db}
use cloud_commander.Infrastructure.Repository.Append.{Paired, IsWellFormed}
use cloud_commander.Worker.Outbox.{
  due, is_claimed, claim_row, claim_rows, claim_batch, update_rows, failed_row, processed_row,
  mark_processed, mark_failed,
}

module _ {J : Type 0} where
  claim_rows-Paired :
      (ids : List Uuid) (now : ℕ) (rows : List (EventRow J)) (os : List OutboxRow)
      → Paired rows os
      → Paired rows (claim_rows ids now os)
  unfolding claim_rows
  claim_rows-Paired ids now [] [] p = tt
  claim_rows-Paired ids now [] (o ∷ os) p = absurd p
  claim_rows-Paired ids now (r ∷ rows) [] p = absurd p
  claim_rows-Paired ids now (r ∷ rows) (o ∷ os) p =
      let ih = claim_rows-Paired ids now rows os p.2 in
      elim (Bool-cases (is_claimed ids o)) [
        | inl e ↦ rw e (p.0, p.1, ih)
        | inr e ↦ rw e (p.0, p.1, ih)
      ]

  update_rows-Paired :
      (event : Uuid) (f : OutboxRow → OutboxRow)
      → ((o : OutboxRow) → ((f o).event_id ≡ o.event_id) × ((f o).tenant_id ≡ o.tenant_id))
      → (rows : List (EventRow J)) (os : List OutboxRow) → Paired rows os
      → Paired rows (update_rows event f os)
  unfolding update_rows
  update_rows-Paired event f keeps [] [] p = tt
  update_rows-Paired event f keeps [] (o ∷ os) p = absurd p
  update_rows-Paired event f keeps (r ∷ rows) [] p = absurd p
  update_rows-Paired event f keeps (r ∷ rows) (o ∷ os) p =
      let ih = update_rows-Paired event f keeps rows os p.2 in
      elim (Bool-cases (o.event_id == event)) [
        | inl e ↦ rw e ((keeps o).0 ∙ p.0, (keeps o).1 ∙ p.1, ih)
        | inr e ↦ rw e (p.0, p.1, ih)
      ]

module _ {F J : Type 0} ⦃hasher : Hasher J⦄ where
  -- Claiming a batch and marking an event processed or failed keep the database well formed, with
  -- one entry for every event.
  pub queue-IsWellFormed :
      (db : Db F J)
      → IsWellFormed db
      → ((size : ℕ) (locked : OutboxRow → Bool) (now : ℕ)
          → IsWellFormed (claim_batch size locked now db).1)
        × ((now : ℕ) (event : Uuid) (status : Text)
            → IsWellFormed (mark_processed now event status db))
        × ((event : Uuid) (attempts : ℕ) (message : Text)
            → IsWellFormed (mark_failed event attempts message db))
  unfolding claim_batch mark_processed mark_failed
  queue-IsWellFormed db w = (
    λ size locked now. record {
      unique = w.unique;
      verified = w.verified;
      linked = w.linked;
      paired = claim_rows-Paired _ now db.events db.outbox w.paired;
    },
    λ now event status. record {
      unique = w.unique;
      verified = w.verified;
      linked = w.linked;
      paired =
          update_rows-Paired event (processed_row now status) (λ o. (refl, refl)) db.events
            db.outbox w.paired;
    },
    λ event attempts message. record {
      unique = w.unique;
      verified = w.verified;
      linked = w.linked;
      paired =
          update_rows-Paired event (failed_row attempts message) (λ o. (refl, refl)) db.events
            db.outbox w.paired;
    },
  )

-- An entry that was claimed at a time and failed is due again exactly if that was not its fifth
-- attempt and more than 15 seconds, doubled for each attempt, have passed since the claim.
pub retry_backoff :
    (t now : ℕ) (message : Text) (r : OutboxRow)
    → let c = claim_row t r in
      (due now (failed_row c.attempts message c) ≡ true)
      ↔ ((c.attempts < 5) × (t + 2 ^ c.attempts * 15000000 < now))
unfolding due
retry_backoff t now message r = elim (Bool-cases (leb 5 (r.attempts + 1))) [
  | inl e ↦ rw e (λ h. cc, λ g. absurd (omega (arith, leb-true _ _ e, g.0)))
  | inr e ↦ rw e (λ h. (leb-false _ _ e, ground arith), λ g. ground arith)
]
